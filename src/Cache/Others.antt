-- ===== src/Cache/Others.antt =====
-- An operation on one user leaves the others alone, and hash_has_element finds just the users with a record.
use mathlib.Core.Option.{some_inj}
use emulation_lib.Prelude.{
  ℕ, Bool, true, false, ◌&&◌, Option, none, some, List, [], ◌∷◌, ◌++◌, ◌≡◌, ◌≢◌, ◌↔◌, refl, sym, ap,
  ◌∙◌, inl, inr, take, if◌then◌else◌, ◌==◌, Bool-cases,
}
use emulation_lib.Prelude.Integers.{ℤ, pos, leqℤ}
use emulation_lib.Cache.{UserStatus, max_id_len, fin_status, failed, key_msne_equals}
use emulation_lib.Cache.ListLib.{ListLib}
use emulation_lib.Cache.Store.{Calls, Cache, user_key, hash_has_element}
use emulation_lib.Cache.Spec.{
  fresh_record, age, Op, add, remove_user, remove_bike, check_and_add, update_user, update_process,
  force_update, remove_expired, setup_expired, has_element, first, modify_first, remove_first,
  Users, of_user, check_spec, change_spec, finished_spec, remove_spec, locked_spec, spec, perform,
  users, renew, insert, change,
}
use emulation_lib.Cache.Keys.{of_user_iff}
use emulation_lib.Cache.Found.{find-cases}
use emulation_lib.Cache.Rental.{perform-users, of_user-renew, of_user-fresh_record}

module _ (p q : UserStatus → Bool) (apart : (v : UserStatus) → p v ≡ true → q v ≡ false) where
  first-modify_other :
      (f : UserStatus → UserStatus) (us : List UserStatus)
      → ((v : UserStatus) → p v ≡ true → p (f v) ≡ true)
      → first q (modify_first p f us) ≡ first q us
  first-modify_other f [] keeps = refl
  first-modify_other f (v ∷ us) keeps = elim (Bool-cases (p v)) [
    | inl hit ↦ rw (hit, apart v hit, apart (f v) (keeps v hit)) refl
    | inr miss ↦ elim (Bool-cases (q v)) [
      | inl here ↦ rw (miss, here) refl
      | inr later ↦ rw (miss, later) (first-modify_other f us keeps)
    ]
  ]

  first-remove_other : (us : List UserStatus) → first q (remove_first p us) ≡ first q us
  first-remove_other [] = refl
  first-remove_other (v ∷ us) = elim (Bool-cases (p v)) [
    | inl hit ↦ rw (hit, apart v hit) refl
    | inr miss ↦ elim (Bool-cases (q v)) [
      | inl here ↦ rw (miss, here) refl
      | inr later ↦ rw (miss, later) (first-remove_other us)
    ]
  ]

first-insert_other :
    (q : UserStatus → Bool) (u : UserStatus) (us : List UserStatus)
    → q u ≡ false
    → first q (us ++ (u ∷ [])) ≡ first q us
first-insert_other q u [] h = rw h refl
first-insert_other q u (v ∷ us) h = elim (Bool-cases (q v)) [
  | inl here ↦ rw here refl
  | inr later ↦ rw later (first-insert_other q u us h)
]

-- The operation is about this user.
abbrev pub user_of : Op → Option (List ℕ)
user_of (add user_id bike_id status) = some user_id
user_of (remove_user user_id) = some user_id
user_of (remove_bike bike_id) = none
user_of (check_and_add user_id bike_id status update_status) = some user_id
user_of (update_user user_id status) = some user_id
user_of (update_process user_id status) = some user_id
user_of (force_update user_id bike_id status) = some user_id
user_of remove_expired = none
user_of (setup_expired seconds) = none
user_of (has_element user_id) = some user_id

of_user_same :
    (user_id : List ℕ) (u v : UserStatus)
    → u.user_id ≡ v.user_id
    → of_user user_id u ≡ true
    → of_user user_id v ≡ true
unfolding key_msne_equals
of_user_same user_id u v e h = rw⁻¹ e h

-- What the cache holds of a user.
abbrev pub record_of : List ℕ → Users → Option UserStatus
record_of user_id c = first (of_user user_id) c.cache_list

module _ (user_id other : List ℕ) (differ : take max_id_len user_id ≢ take max_id_len other) where
  apart : (v : UserStatus) → of_user user_id v ≡ true → of_user other v ≡ false
  apart v h = elim (Bool-cases (of_user other v)) [
    | inl both ↦ absurd (differ ((of_user_iff user_id v).0 h ∙ sym ((of_user_iff other v).0 both)))
    | inr other_only ↦ other_only
  ]

  change_other :
      (f : UserStatus → UserStatus) (c : Users)
      → ((v : UserStatus) → of_user user_id v ≡ true → of_user user_id (f v) ≡ true)
      → record_of other (change user_id f c) ≡ record_of other c
  change_other f c keeps =
      first-modify_other (of_user user_id) (of_user other) apart f c.cache_list keeps

  insert_other :
      (calls : Calls) (bike_id : List ℕ) (status : ℕ) (c : Users)
      → record_of other (insert calls (fresh_record user_id bike_id status) c) ≡ record_of other c
  insert_other calls bike_id status c = elim (Bool-cases calls.has_node) [
    | inl some_node ↦ rw some_node (
        first-insert_other (of_user other) _ c.cache_list
          (apart _ (of_user-fresh_record user_id bike_id status)))
    | inr no_node ↦ rw no_node refl
  ]

  finished_spec_other :
      (f : UserStatus → UserStatus) (c : Users) (found : Option UserStatus)
      → ((v : UserStatus) → of_user user_id v ≡ true → of_user user_id (f v) ≡ true)
      → record_of other (finished_spec user_id f c found).1 ≡ record_of other c
  unfolding finished_spec
  finished_spec_other f c none keeps = refl
  finished_spec_other f c (some u) keeps = elim (Bool-cases (u.status == fin_status)) [
    | inl fin ↦ rw fin (change_other f c keeps)
    | inr running ↦ rw running refl
  ]

  change_spec_other :
      (f : UserStatus → UserStatus) (c : Users) (found : Option UserStatus)
      → ((v : UserStatus) → of_user user_id v ≡ true → of_user user_id (f v) ≡ true)
      → record_of other (change_spec user_id f c found).1 ≡ record_of other c
  unfolding change_spec
  change_spec_other f c none keeps = refl
  change_spec_other f c (some u) keeps = change_other f c keeps

  remove_spec_other :
      (c : Users) (found : Option UserStatus)
      → record_of other (remove_spec (of_user user_id) c found).1 ≡ record_of other c
  unfolding remove_spec
  remove_spec_other c none = refl
  remove_spec_other c (some u) =
      first-remove_other (of_user user_id) (of_user other) apart c.cache_list

  check_spec_other :
      (calls : Calls) (bike_id : List ℕ) (status update_status : ℕ) (c : Users)
      (found : Option UserStatus)
      → record_of other (check_spec calls user_id bike_id status update_status c found).1
        ≡ record_of other c
  unfolding check_spec
  check_spec_other calls bike_id status update_status c none = elim (Bool-cases calls.allocates) [
    | inl room ↦ rw room (insert_other calls bike_id status c)
    | inr full ↦ rw full refl
  ]
  check_spec_other calls bike_id status update_status c (some u) =
      elim (Bool-cases ((u.status == fin_status) && (u.update_status == 0))) [
        | inl fin ↦
            rw fin
              (elim (Bool-cases (leqℤ (age (calls.clock 0) u.timestamp) (pos c.expired_count))) [
                | inl kept ↦ rw kept (
                    change_other (λ v. record v { update_status = update_status }) c
                      (λ v h. of_user_same user_id v _ refl h))
                | inr old ↦ rw old (
                    change_other (renew user_id bike_id status) c
                      (λ v h. of_user-renew user_id bike_id status v))
              ])
        | inr busy ↦ rw busy refl
      ]

  locked_spec_other :
      (calls : Calls) (op : Op) (c : Users)
      → user_of op ≡ some user_id
      → record_of other (locked_spec calls op c).1 ≡ record_of other c
  unfolding locked_spec
  locked_spec_other calls (add user bike_id status) c e = elim (Bool-cases calls.allocates) [
    | inl room ↦ rw (room, some_inj.0 e) (insert_other calls bike_id status c)
    | inr full ↦ rw full refl
  ]
  locked_spec_other calls (remove_user user) c e = rw (some_inj.0 e) (remove_spec_other c _)
  locked_spec_other calls (remove_bike bike_id) c e = cc
  locked_spec_other calls (check_and_add user bike_id status update_status) c e =
      rw (some_inj.0 e) (check_spec_other calls bike_id status update_status c _)
  locked_spec_other calls (update_user user status) c e =
      rw (some_inj.0 e) (change_spec_other _ c _ (λ v h. of_user_same user_id v _ refl h))
  locked_spec_other calls (update_process user status) c e =
      rw (some_inj.0 e) (finished_spec_other _ c _ (λ v h. of_user_same user_id v _ refl h))
  locked_spec_other calls (force_update user bike_id status) c e = rw (some_inj.0 e) (
      finished_spec_other _ c _
        (λ v h. of_user_same user_id _ _ refl (of_user-renew user_id bike_id status v)))
  locked_spec_other calls remove_expired c e = cc
  locked_spec_other calls (has_element user) c e = refl
  locked_spec_other calls (setup_expired seconds) c e = cc

-- An operation on one user leaves what the cache holds of a user whose identifier has other first 32 bytes.
pub perform-others :
    (lib : ListLib UserStatus) (calls : Calls) (op : Op) (user_id other : List ℕ)
    (c c' : Cache lib.ListT) (rc : ℤ)
    → user_of op ≡ some user_id
    → take max_id_len user_id ≢ take max_id_len other
    → perform lib calls op c ≡ some (rc, c')
    → record_of other (users lib c') ≡ record_of other (users lib c)
unfolding spec
perform-others lib calls op user_id other c c' rc about differ e =
    sym (ap (λ r. record_of other r.1) (perform-users lib calls op c rc c' e))
    ∙ either calls.locks (locked_spec calls op (users lib c))
        (locked_spec_other user_id other differ calls op (users lib c) about)
  where
    either :
        (b : Bool) (r : ℤ × Users)
        → record_of other r.1 ≡ record_of other (users lib c)
        → record_of other (if b then r else (failed, users lib c)).1 ≡ record_of other (users lib c)
    either true r k = k
    either false r k = refl

-- hash_has_element gives 0 just for the users of whom the cache holds a record, when the mutex can be locked.
pub hash_has_element-record_of :
    (lib : ListLib UserStatus) (calls : Calls) (user_id : List ℕ) (c : Cache lib.ListT)
    → calls.locks ≡ true
    → (hash_has_element lib calls user_id c ≡ failed) ↔ (record_of user_id (users lib c) ≡ none)
unfolding hash_has_element
hash_has_element-record_of lib calls user_id c locked =
    elim (find-cases lib key_msne_equals (user_key user_id) c.cache_list) [
      | inl (e, e') ↦ rw (locked, e, e') ((λ z. refl), (λ z. refl))
      | inr (n, e, f) ↦ rw (locked, e, f.here) ((λ z. absurd (cc)), (λ z. absurd (cc)))
    ]
