-- ===== src/Cache.antt =====
-- cache/hashmap.c: the data of the cache of users, its tests and its clock.
pub mod ListLib
pub mod Store
pub mod Spec
pub mod Found
pub mod Expired
pub mod Refines
pub mod Keys
pub mod Reach
pub mod Rental
pub mod Others
pub mod Removal
pub mod Unique
pub mod Period
use emulation_lib.Prelude.{ℕ, zero, suc, ◌<◌, Bool, true, false, ◌&&◌, List, [], ◌∷◌, take, ◌==◌}
use emulation_lib.Prelude.Integers.{ℤ, negsuc, minus, times, div_trunc, ◌+ℤ◌}

abbrev pub max_id_len : ℕ
max_id_len = 32

abbrev pub init_status : ℕ
init_status = 1

abbrev pub fin_status : ℕ
fin_status = 2

-- The result -1 of a failed operation.
abbrev pub failed : ℤ
failed = negsuc 0

pub record Timeval : Type 0 where
  pub tv_sec : ℕ
  pub tv_usec : ℕ

-- _user_status: the two identifiers are the strings that the arrays hold, up to the first zero.
pub record UserStatus : Type 0 where
  pub user_id : List ℕ
  pub bike_id : List ℕ
  pub timestamp : Timeval
  pub status : ℕ
  pub update_status : ℕ

-- strncmp of two strings is zero.
unfoldable pub strncmp_eq : ℕ → List ℕ → List ℕ → Bool
strncmp_eq zero a b = true
strncmp_eq (suc n) [] [] = true
strncmp_eq (suc n) [] (y ∷ b) = false
strncmp_eq (suc n) (x ∷ a) [] = false
strncmp_eq (suc n) (x ∷ a) (y ∷ b) = (x == y) && strncmp_eq n a b

unfoldable pub key_msne_equals : UserStatus → UserStatus → Bool
key_msne_equals src dest = strncmp_eq max_id_len src.user_id dest.user_id

unfoldable pub bike_msne_equals : UserStatus → UserStatus → Bool
bike_msne_equals src dest = strncmp_eq max_id_len src.bike_id dest.bike_id

-- A record of calloc, with zeros.
abbrev pub zeroed : UserStatus
zeroed = record {
  user_id = [];
  bike_id = [];
  timestamp = record { tv_sec = 0; tv_usec = 0 };
  status = 0;
  update_status = 0;
}

-- A new record for the list: calloc, the two copies by strncpy and the status.
unfoldable pub new_status : List ℕ → List ℕ → ℕ → UserStatus
new_status user_id bike_id status = record zeroed {
  user_id = take max_id_len user_id;
  bike_id = take max_id_len bike_id;
  status = status;
}

-- hash_cal_tvdiff: milliseconds, as a signed number without a bound.
unfoldable pub hash_cal_tvdiff : Timeval → Timeval → ℤ
hash_cal_tvdiff newer older =
    times (minus newer.tv_sec older.tv_sec) 1000
    +ℤ div_trunc (minus newer.tv_usec older.tv_usec) 1000
