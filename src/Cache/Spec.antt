-- ===== src/Cache/Spec.antt =====
-- What the cache promises: the list of the records in order, and one step for each operation.
use emulation_lib.Prelude.{
  ℕ, suc, ◌*◌, ◌%◌, ◌^◌, Bool, ◌&&◌, Option, none, some, List, [], ◌∷◌, ◌++◌, take, if◌then◌else◌,
  ◌==◌, ltb,
}
use emulation_lib.Prelude.Integers.{ℤ, pos, leqℤ, ◌+ℤ◌, minus, times, div_trunc}
use emulation_lib.Cache.{
  UserStatus, Timeval, max_id_len, fin_status, failed, key_msne_equals, bike_msne_equals,
}
use emulation_lib.Cache.ListLib.{ListLib}
use emulation_lib.Cache.Store.{
  Calls, Cache, user_key, bike_key, hash_add_user_status, hash_remove_user_status,
  hash_remove_bike_status, hash_check_and_add_user_stauts, hash_update_user_status,
  hash_update_process_stauts, hash_force_update_user_stauts, hash_remove_expired_status,
  hash_setup_expired_time, hash_has_element,
}

-- The operations on the list and the time to expiry, with their arguments.
pub data Op : Type 0 where
  add : List ℕ → List ℕ → ℕ → Op
  remove_user : List ℕ → Op
  remove_bike : List ℕ → Op
  check_and_add : List ℕ → List ℕ → ℕ → ℕ → Op
  update_user : List ℕ → ℕ → Op
  update_process : List ℕ → ℕ → Op
  force_update : List ℕ → List ℕ → ℕ → Op
  remove_expired : Op
  setup_expired : ℕ → Op
  has_element : List ℕ → Op

abbrev pub first {ℓ} : {A : Type ℓ} → (A → Bool) → List A → Option A
first p [] = none
first p (x ∷ xs) = if p x then some x else first p xs

-- The first element that passes the test is changed, or taken out.
abbrev pub modify_first {ℓ} : {A : Type ℓ} → (A → Bool) → (A → A) → List A → List A
modify_first p f [] = []
modify_first p f (x ∷ xs) = if p x then f x ∷ xs else x ∷ modify_first p f xs

abbrev pub remove_first {ℓ} : {A : Type ℓ} → (A → Bool) → List A → List A
remove_first p [] = []
remove_first p (x ∷ xs) = if p x then xs else x ∷ remove_first p xs

-- A record as it is put in: the identifiers cut to 32 bytes, no time, and nothing of an update.
abbrev pub fresh_record : List ℕ → List ℕ → ℕ → UserStatus
fresh_record user_id bike_id status = record {
  user_id = take 32 user_id;
  bike_id = take 32 bike_id;
  timestamp = record { tv_sec = 0; tv_usec = 0 };
  status = status;
  update_status = 0;
}

-- A time to expiry that is taken: more than two minutes in milliseconds, and an int.
abbrev pub period_ok : ℕ → Bool
period_ok product = ltb 120000 product && ltb product (2 ^ 31)

-- How old a time is, in milliseconds.
abbrev pub age : Timeval → Timeval → ℤ
age now since =
    times (minus now.tv_sec since.tv_sec) 1000 +ℤ div_trunc (minus now.tv_usec since.tv_usec) 1000

-- A record that is finished, and since at least the time to expiry.
abbrev pub gone : ℕ → Timeval → UserStatus → Bool
gone expired_count now u = (u.status == 2) && leqℤ (pos expired_count) (age now u.timestamp)

-- The records that the removal of those that are gone leaves, where the clock is read for each finished one.
unfoldable pub survivors : ℕ → (ℕ → Timeval) → ℕ → List UserStatus → List UserStatus
survivors expired_count clock k [] = []
survivors expired_count clock k (u ∷ us) =
    let rest = survivors expired_count clock (if u.status == 2 then suc k else k) us in
    if gone expired_count (clock k) u then rest else u ∷ rest

abbrev pub Users : Type 0
Users = Cache (List UserStatus)

abbrev pub of_user : List ℕ → UserStatus → Bool
of_user user_id = key_msne_equals (user_key user_id)

abbrev pub of_bike : List ℕ → UserStatus → Bool
of_bike bike_id = bike_msne_equals (bike_key bike_id)

-- A change of the first record of a user.
abbrev pub change : List ℕ → (UserStatus → UserStatus) → Users → Users
change user_id f c = record c { cache_list = modify_first (of_user user_id) f c.cache_list }

-- A record at the end, where there is a node for it.
abbrev pub insert : Calls → UserStatus → Users → Users
insert calls u c = if calls.has_node then record c { cache_list = c.cache_list ++ (u ∷ []) } else c

abbrev pub renew : List ℕ → List ℕ → ℕ → UserStatus → UserStatus
renew user_id bike_id status u = record u {
  user_id = take max_id_len user_id;
  bike_id = take max_id_len bike_id;
  status = status;
}

-- The step of check_and_add by what the cache holds of the user.
unfoldable pub check_spec : Calls → List ℕ → List ℕ → ℕ → ℕ → Users → Option UserStatus → ℤ × Users
check_spec calls user_id bike_id status update_status c none =
    if calls.allocates
    then (pos 0, insert calls (fresh_record user_id bike_id status) c)
    else (failed, c)
check_spec calls user_id bike_id status update_status c (some u) =
    if (u.status == fin_status) && (u.update_status == 0)
    then (if leqℤ (age (calls.clock 0) u.timestamp) (pos c.expired_count)
        then (pos 2, change user_id (λ v. record v { update_status = update_status }) c)
        else (pos 0, change user_id (renew user_id bike_id status) c))
    else (failed, c)

-- A change of a record that is there.
unfoldable pub change_spec :
    List ℕ → (UserStatus → UserStatus) → Users → Option UserStatus → ℤ × Users
change_spec user_id f c none = (failed, c)
change_spec user_id f c (some u) = (pos 0, change user_id f c)

-- A change that only a finished rental allows.
unfoldable pub finished_spec :
    List ℕ → (UserStatus → UserStatus) → Users → Option UserStatus → ℤ × Users
finished_spec user_id f c none = (failed, c)
finished_spec user_id f c (some u) =
    if u.status == fin_status then (pos 0, change user_id f c) else (failed, c)

unfoldable pub remove_spec : (UserStatus → Bool) → Users → Option UserStatus → ℤ × Users
remove_spec p c none = (failed, c)
remove_spec p c (some u) = (pos 0, record c { cache_list = remove_first p c.cache_list })

unfoldable pub setup_spec : Calls → ℕ → Users → ℤ × Users
setup_spec calls product c =
    let c' = if period_ok product then record c { expired_count = product } else c in
    if calls.unlocks then (pos 0, c') else (failed, c')

-- One operation, when the mutex is locked.
unfoldable pub locked_spec : Calls → Op → Users → ℤ × Users
locked_spec calls (add user_id bike_id status) c =
    if calls.allocates
    then (pos 0, insert calls (fresh_record user_id bike_id status) c)
    else (failed, c)
locked_spec calls (remove_user user_id) c =
    remove_spec (of_user user_id) c (first (of_user user_id) c.cache_list)
locked_spec calls (remove_bike bike_id) c =
    remove_spec (of_bike bike_id) c (first (of_bike bike_id) c.cache_list)
locked_spec calls (check_and_add user_id bike_id status update_status) c =
    check_spec calls user_id bike_id status update_status c (first (of_user user_id) c.cache_list)
locked_spec calls (update_user user_id status) c =
    change_spec user_id (λ u. record u { status = status; timestamp = calls.clock 0 }) c
      (first (of_user user_id) c.cache_list)
locked_spec calls (update_process user_id status) c =
    finished_spec user_id (λ u. record u { update_status = status }) c
      (first (of_user user_id) c.cache_list)
locked_spec calls (force_update user_id bike_id status) c =
    finished_spec user_id (λ u. record (renew user_id bike_id status u) { update_status = 0 }) c
      (first (of_user user_id) c.cache_list)
locked_spec calls remove_expired c =
    (pos 0, record c { cache_list = survivors c.expired_count calls.clock 0 c.cache_list })
locked_spec calls (has_element user_id) c =
    (elim (first (of_user user_id) c.cache_list) [ none ↦ failed | some u ↦ pos 0 ], c)
locked_spec calls (setup_expired seconds) c = setup_spec calls (seconds * 1000 % 2 ^ 32) c

-- One operation: where the mutex cannot be locked, nothing changes.
unfoldable pub spec : Calls → Op → Users → ℤ × Users
spec calls op c = if calls.locks then locked_spec calls op c else (failed, c)

module _ (lib : ListLib UserStatus) where
  -- One operation of the code; none would be a loop that does not end.
  unfoldable pub perform : Calls → Op → Cache lib.ListT → Option (ℤ × Cache lib.ListT)
  perform calls (add user_id bike_id status) c =
      some (hash_add_user_status lib calls user_id bike_id status c)
  perform calls (remove_user user_id) c = some (hash_remove_user_status lib calls user_id c)
  perform calls (remove_bike bike_id) c = some (hash_remove_bike_status lib calls bike_id c)
  perform calls (check_and_add user_id bike_id status update_status) c =
      some (hash_check_and_add_user_stauts lib calls user_id bike_id status update_status c)
  perform calls (update_user user_id status) c =
      some (hash_update_user_status lib calls user_id status c)
  perform calls (update_process user_id status) c =
      some (hash_update_process_stauts lib calls user_id status c)
  perform calls (force_update user_id bike_id status) c =
      some (hash_force_update_user_stauts lib calls user_id bike_id status c)
  perform calls remove_expired c = hash_remove_expired_status lib calls c
  perform calls (has_element user_id) c = some (hash_has_element lib calls user_id c, c)
  perform calls (setup_expired seconds) c = some (hash_setup_expired_time lib calls seconds c)

  -- What the spec sees of a cache.
  abbrev pub users : Cache lib.ListT → Users
  users c = record { cache_list = lib.vals c.cache_list; expired_count = c.expired_count }

  abbrev pub users_of : ℤ × Cache lib.ListT → ℤ × Users
  users_of r = (r.0, users r.1)
