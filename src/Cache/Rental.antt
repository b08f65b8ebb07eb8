-- ===== src/Cache/Rental.antt =====
-- A user has one rental at a time, and an operation on one user leaves the others alone.
use mathlib.Core.Option.{map as map_option, some_inj}
use emulation_lib.Prelude.{
  ℕ, Bool, true, false, ◌&&◌, Option, none, some, List, [], ◌∷◌, ◌++◌, ◌≡◌, ◌≢◌, refl, sym, ap,
  subst, ◌∙◌, inl, inr, arith, if◌then◌else◌, ◌==◌, Bool-cases,
}
use emulation_lib.Prelude.Integers.{ℤ, pos, leqℤ}
use emulation_lib.Cache.{UserStatus, max_id_len, init_status, fin_status, failed}
use emulation_lib.Cache.ListLib.{ListLib}
use emulation_lib.Cache.Store.{Calls, Cache}
use emulation_lib.Cache.Spec.{
  fresh_record, age, Op, check_and_add, first, modify_first, Users, of_user, check_spec,
  locked_spec, spec, perform, users, users_of, renew,
}
use emulation_lib.Cache.Keys.{take-take, of_user_iff}
use emulation_lib.Cache.Refines.{perform-spec}

-- What a run of the code says of the specification.
pub perform-users :
    (lib : ListLib UserStatus) (calls : Calls) (op : Op) (c : Cache lib.ListT) (rc : ℤ)
    (c' : Cache lib.ListT)
    → perform lib calls op c ≡ some (rc, c')
    → spec calls op (users lib c) ≡ (rc, users lib c')
perform-users lib calls op c rc c' e =
    some_inj.0 (sym (perform-spec lib calls op c) ∙ ap (map_option (users_of lib)) e)

module _ (p : UserStatus → Bool) where
  past_miss :
      (v : UserStatus) (us : List UserStatus) (o : Option UserStatus)
      → p v ≡ false
      → first p (v ∷ us) ≡ o
      → first p us ≡ o
  past_miss v us o miss h = sym (ap (λ b. if b then some v else first p us) miss) ∙ h

  at_hit :
      (u v : UserStatus) (us : List UserStatus) → p v ≡ true → first p (v ∷ us) ≡ some u → v ≡ u
  at_hit u v us hit h = some_inj.0 (sym (ap (λ b. if b then some v else first p us) hit) ∙ h)

  first-hit : (u : UserStatus) (us : List UserStatus) → first p us ≡ some u → p u ≡ true
  first-hit u [] h = cc
  first-hit u (v ∷ us) h = elim (Bool-cases (p v)) [
    | inl hit ↦ subst (λ x. p x ≡ true) (at_hit u v us hit h) hit
    | inr miss ↦ first-hit u us (past_miss v us _ miss h)
  ]

  pub first-modify_first :
      (f : UserStatus → UserStatus) (u : UserStatus) (us : List UserStatus)
      → ((v : UserStatus) → p v ≡ true → p (f v) ≡ true)
      → first p us ≡ some u
      → first p (modify_first p f us) ≡ some (f u)
  first-modify_first f u [] keeps h = cc
  first-modify_first f u (v ∷ us) keeps h = elim (Bool-cases (p v)) [
    | inl hit ↦ rw (hit, keeps v hit) (ap (λ x. some (f x)) (at_hit u v us hit h))
    | inr miss ↦ rw (miss, miss) (first-modify_first f u us keeps (past_miss v us _ miss h))
  ]

  first-snoc :
      (u : UserStatus) (us : List UserStatus)
      → first p us ≡ none
      → p u ≡ true
      → first p (us ++ (u ∷ [])) ≡ some u
  first-snoc u [] h k = rw k refl
  first-snoc u (v ∷ us) h k = elim (Bool-cases (p v)) [
    | inl hit ↦ absurd (ground (arith, sym (ap (λ b. if b then some v else first p us) hit) ∙ h))
    | inr miss ↦ rw miss (first-snoc u us (past_miss v us _ miss h) k)
  ]

pub of_user-renew :
    (user_id bike_id : List ℕ) (status : ℕ) (u : UserStatus)
    → of_user user_id (renew user_id bike_id status u) ≡ true
of_user-renew user_id bike_id status u =
    (of_user_iff user_id _).1 (sym (take-take max_id_len user_id))

pub of_user-fresh_record :
    (user_id bike_id : List ℕ) (status : ℕ)
    → of_user user_id (fresh_record user_id bike_id status) ≡ true
of_user-fresh_record user_id bike_id status =
    (of_user_iff user_id _).1 (sym (take-take max_id_len user_id))

-- The user's record is a rental that runs.
abbrev pub Rents : List ℕ → Users → Type 0
Rents user_id c =
    (u : UserStatus) × (first (of_user user_id) c.cache_list ≡ some u) × (u.status ≡ init_status)

check_spec-Rents :
    (calls : Calls) (user_id bike_id : List ℕ) (update_status : ℕ) (c : Users)
    (found : Option UserStatus)
    → calls.has_node ≡ true
    → first (of_user user_id) c.cache_list ≡ found
    → (check_spec calls user_id bike_id init_status update_status c found).0 ≡ pos 0
    → Rents user_id (check_spec calls user_id bike_id init_status update_status c found).1
unfolding check_spec
check_spec-Rents calls user_id bike_id update_status c none some_node e =
    let fresh = fresh_record user_id bike_id init_status in
    elim (Bool-cases calls.allocates) [
      | inl room ↦
          rw (room, some_node)
            (λ z. (
              fresh,
              first-snoc (of_user user_id) fresh c.cache_list e
                  (of_user-fresh_record user_id bike_id init_status),
              refl,
            ))
      | inr full ↦ rw full (λ z. absurd (cc))
    ]
check_spec-Rents calls user_id bike_id update_status c (some u) some_node e =
    elim (Bool-cases ((u.status == fin_status) && (u.update_status == 0))) [
      | inl fin ↦
          rw fin (elim (Bool-cases (leqℤ (age (calls.clock 0) u.timestamp) (pos c.expired_count))) [
            | inl kept ↦ rw kept (λ z. absurd (two z))
            | inr old ↦ rw old (λ z. (
              renew user_id bike_id init_status u,
              first-modify_first (of_user user_id) (renew user_id bike_id init_status) u
                  c.cache_list (λ v h. of_user-renew user_id bike_id init_status v) e,
              refl,
            ))
          ])
      | inr busy ↦ rw busy (λ z. absurd (cc))
    ]
  where
    two : pos 2 ≢ pos 0
    two z = ground arith

added-Rents :
    (calls : Calls) (user_id bike_id : List ℕ) (update_status : ℕ) (c : Users)
    → calls.has_node ≡ true
    → (spec calls (check_and_add user_id bike_id init_status update_status) c).0 ≡ pos 0
    → Rents user_id (spec calls (check_and_add user_id bike_id init_status update_status) c).1
unfolding spec locked_spec
added-Rents calls user_id bike_id update_status c some_node = elim (Bool-cases calls.locks) [
  | inl locked ↦
      simp locked (check_spec-Rents calls user_id bike_id update_status c _ some_node refl)
  | inr stuck ↦ rw stuck (λ z. absurd (cc))
]

check_spec-refused :
    (calls : Calls) (user_id bike_id : List ℕ) (status update_status : ℕ) (c : Users)
    → Rents user_id c
    → spec calls (check_and_add user_id bike_id status update_status) c ≡ (failed, c)
unfolding spec locked_spec check_spec
check_spec-refused calls user_id bike_id status update_status c (u, e, running) =
    elim (Bool-cases calls.locks) [
      | inl locked ↦ rw (locked, e, check_spec, running) refl
      | inr stuck ↦ rw stuck refl
    ]

-- When check_and_add, with a node from list_node_new where it needs one, has put in a rental for a user with
-- the status of one that runs, a second call for the
-- same user, whatever its other arguments, fails and changes nothing.
pub check_and_add-twice :
    (lib : ListLib UserStatus) (calls calls' : Calls) (user_id bike_id bike_id' : List ℕ)
    (update_status status' update_status' : ℕ) (c c' c'' : Cache lib.ListT) (rc : ℤ)
    → calls.has_node ≡ true
    → perform lib calls (check_and_add user_id bike_id init_status update_status) c
      ≡ some (pos 0, c')
    → perform lib calls' (check_and_add user_id bike_id' status' update_status') c' ≡ some (rc, c'')
    → (rc ≡ failed) × (users lib c'' ≡ users lib c')
check_and_add-twice lib calls calls' user_id bike_id bike_id' update_status status' update_status' c
      c' c'' rc some_node e e' =
    let added = perform-users lib calls _ c _ c' e in
    let rents =
      subst (λ r. Rents user_id r.1) added
        (added-Rents calls user_id bike_id update_status (users lib c) some_node
          (ap (λ r. r.0) added)) in
    let same =
      sym (perform-users lib calls' _ c' rc c'' e')
      ∙ check_spec-refused calls' user_id bike_id' status' update_status' (users lib c') rents in
    (ap (λ r. r.0) same, ap (λ r. r.1) same)
