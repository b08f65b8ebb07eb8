-- ===== src/Cache/Period.antt =====
-- The time to expiry is never less than two minutes.
use emulation_lib.Prelude.{ℕ, ◌^◌, ◌≤◌, ◌<◌, Bool, Option, none, some, List, ◌≡◌, refl, arith}
use emulation_lib.Cache.{UserStatus}
use emulation_lib.Cache.ListLib.{ListLib}
use emulation_lib.Cache.Store.{Calls, Cache}
use emulation_lib.Cache.Spec.{
  Op, add, remove_user, remove_bike, check_and_add, update_user, update_process, force_update,
  remove_expired, setup_expired, has_element, Users, check_spec, change_spec, finished_spec,
  remove_spec, setup_spec, locked_spec, users,
}
use emulation_lib.Cache.Reach.{IsKept-locked, Reach, Reach-IsKept}

abbrev pub IsPeriod : Users → Type 0
IsPeriod c = (120000 ≤ c.expired_count) × (c.expired_count < 2 ^ 31)

abbrev pub AnyOp : Calls → Op → Type 0
AnyOp calls op = Unit {0}

check_spec-expired_count :
    (calls : Calls) (user_id bike_id : List ℕ) (status update_status : ℕ) (c : Users)
    (found : Option UserStatus)
    → (check_spec calls user_id bike_id status update_status c found).1.expired_count
      ≡ c.expired_count
unfolding check_spec
check_spec-expired_count calls user_id bike_id status update_status c none = ground arith
check_spec-expired_count calls user_id bike_id status update_status c (some u) = ground arith

change_spec-expired_count :
    (user_id : List ℕ) (f : UserStatus → UserStatus) (c : Users) (found : Option UserStatus)
    → (change_spec user_id f c found).1.expired_count ≡ c.expired_count
unfolding change_spec
change_spec-expired_count user_id f c none = refl
change_spec-expired_count user_id f c (some u) = refl

finished_spec-expired_count :
    (user_id : List ℕ) (f : UserStatus → UserStatus) (c : Users) (found : Option UserStatus)
    → (finished_spec user_id f c found).1.expired_count ≡ c.expired_count
unfolding finished_spec
finished_spec-expired_count user_id f c none = refl
finished_spec-expired_count user_id f c (some u) = ground arith

remove_spec-expired_count :
    (p : UserStatus → Bool) (c : Users) (found : Option UserStatus)
    → (remove_spec p c found).1.expired_count ≡ c.expired_count
unfolding remove_spec
remove_spec-expired_count p c none = refl
remove_spec-expired_count p c (some u) = refl

setup_spec-IsPeriod :
    (calls : Calls) (product : ℕ) (c : Users) → IsPeriod c → IsPeriod (setup_spec calls product c).1
unfolding setup_spec
setup_spec-IsPeriod calls product c d = ground arith

locked_spec-IsPeriod :
    (calls : Calls) (op : Op) (c : Users)
    → AnyOp calls op
    → IsPeriod c
    → IsPeriod (locked_spec calls op c).1
unfolding locked_spec
locked_spec-IsPeriod calls (add user_id bike_id status) c a d = ground arith
locked_spec-IsPeriod calls (remove_user user_id) c a d = rw (remove_spec-expired_count _ c _) d
locked_spec-IsPeriod calls (remove_bike bike_id) c a d = rw (remove_spec-expired_count _ c _) d
locked_spec-IsPeriod calls (check_and_add user_id bike_id status update_status) c a d =
    rw (check_spec-expired_count calls user_id bike_id status update_status c _) d
locked_spec-IsPeriod calls (update_user user_id status) c a d =
    rw (change_spec-expired_count user_id _ c _) d
locked_spec-IsPeriod calls (update_process user_id status) c a d =
    rw (finished_spec-expired_count user_id _ c _) d
locked_spec-IsPeriod calls (force_update user_id bike_id status) c a d =
    rw (finished_spec-expired_count user_id _ c _) d
locked_spec-IsPeriod calls remove_expired c a d = d
locked_spec-IsPeriod calls (has_element user_id) c a d = d
locked_spec-IsPeriod calls (setup_expired seconds) c a d = setup_spec-IsPeriod calls _ c d

-- In every cache that runs of the operations lead to from hash_init, the time to expiry is at least two
-- minutes and fits an int.
pub Reach-IsPeriod :
    (lib : ListLib UserStatus) (c : Cache lib.ListT) → Reach lib AnyOp c → IsPeriod (users lib c)
Reach-IsPeriod lib c r =
    Reach-IsKept lib AnyOp IsPeriod (IsKept-locked AnyOp IsPeriod locked_spec-IsPeriod)
      (omega arith, omega arith) c r
