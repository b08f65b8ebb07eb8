-- ===== src/Cache/Unique.antt =====
-- The operations, but for the plain addition, never put a user twice into the cache.
use emulation_lib.Prelude.{
  ℕ, Bool, true, false, ◌&&◌, Option, none, some, List, [], ◌∷◌, ◌++◌, ◌≡◌, refl, ap, ◌∙◌, inl, inr,
  map, take, ◌==◌, Bool-cases,
}
use emulation_lib.Prelude.Integers.{pos, leqℤ}
use emulation_lib.Cache.{UserStatus, max_id_len, fin_status}
use emulation_lib.Cache.ListLib.{ListLib}
use emulation_lib.Cache.Store.{Calls, Cache}
use emulation_lib.Cache.Spec.{
  fresh_record, period_ok, age, Op, add, remove_user, remove_bike, check_and_add, update_user,
  update_process, force_update, remove_expired, setup_expired, has_element, first, Users, of_user,
  check_spec, change_spec, finished_spec, remove_spec, setup_spec, locked_spec, users, renew,
  insert, change,
}
use emulation_lib.Cache.Keys.{
  key, Distinct, take-take, first-none-All, modify_first-keys, Distinct-remove_first,
  Distinct-survivors, Distinct-append,
}
use emulation_lib.Cache.Reach.{IsKept-locked, Reach, Reach-IsKept}

map-snoc :
    (us : List UserStatus) (u : UserStatus) → map key (us ++ (u ∷ [])) ≡ map key us ++ (key u ∷ [])
map-snoc [] u = refl
map-snoc (v ∷ us) u = ap (◌∷◌ (key v)) (map-snoc us u)

-- No identifier of a user twice.
abbrev pub IsUnique : Users → Type 0
IsUnique c = Distinct (map key c.cache_list)

-- A change that leaves the identifier of the user's record.
abbrev KeepsKey : List ℕ → (UserStatus → UserStatus) → Type 0
KeepsKey user_id f = (u : UserStatus) → take max_id_len user_id ≡ key u → key (f u) ≡ key u

change-IsUnique :
    (user_id : List ℕ) (f : UserStatus → UserStatus) (c : Users)
    → KeepsKey user_id f
    → IsUnique c
    → IsUnique (change user_id f c)
change-IsUnique user_id f c keeps d = rw (modify_first-keys user_id f c.cache_list keeps) d

renew-KeepsKey :
    (user_id bike_id : List ℕ) (status : ℕ) → KeepsKey user_id (renew user_id bike_id status)
renew-KeepsKey user_id bike_id status u e = take-take max_id_len user_id ∙ e

change_spec-IsUnique :
    (user_id : List ℕ) (f : UserStatus → UserStatus) (c : Users) (found : Option UserStatus)
    → KeepsKey user_id f
    → IsUnique c
    → IsUnique (change_spec user_id f c found).1
unfolding change_spec
change_spec-IsUnique user_id f c none keeps d = d
change_spec-IsUnique user_id f c (some u) keeps d = change-IsUnique user_id f c keeps d

finished_spec-IsUnique :
    (user_id : List ℕ) (f : UserStatus → UserStatus) (c : Users) (found : Option UserStatus)
    → KeepsKey user_id f
    → IsUnique c
    → IsUnique (finished_spec user_id f c found).1
unfolding finished_spec
finished_spec-IsUnique user_id f c none keeps d = d
finished_spec-IsUnique user_id f c (some u) keeps d = elim (Bool-cases (u.status == fin_status)) [
  | inl fin ↦ rw fin (change-IsUnique user_id f c keeps d)
  | inr running ↦ rw running d
]

remove_spec-IsUnique :
    (p : UserStatus → Bool) (c : Users) (found : Option UserStatus)
    → IsUnique c
    → IsUnique (remove_spec p c found).1
unfolding remove_spec
remove_spec-IsUnique p c none d = d
remove_spec-IsUnique p c (some u) d = Distinct-remove_first p c.cache_list d

insert-IsUnique :
    (calls : Calls) (user_id bike_id : List ℕ) (status : ℕ) (c : Users)
    → first (of_user user_id) c.cache_list ≡ none
    → IsUnique c
    → IsUnique (insert calls (fresh_record user_id bike_id status) c)
insert-IsUnique calls user_id bike_id status c e d = elim (Bool-cases calls.has_node) [
  | inl some_node ↦
      rw
        (
          some_node,
          map-snoc c.cache_list (fresh_record user_id bike_id status),
          take-take max_id_len user_id,
        )
        (Distinct-append (take max_id_len user_id) (map key c.cache_list) d
          (first-none-All user_id c.cache_list e))
  | inr no_node ↦ rw no_node d
]

check_spec-IsUnique :
    (calls : Calls) (user_id bike_id : List ℕ) (status update_status : ℕ) (c : Users)
    (found : Option UserStatus)
    → first (of_user user_id) c.cache_list ≡ found
    → IsUnique c
    → IsUnique (check_spec calls user_id bike_id status update_status c found).1
unfolding check_spec
check_spec-IsUnique calls user_id bike_id status update_status c none e d =
    elim (Bool-cases calls.allocates) [
      | inl room ↦ rw room (insert-IsUnique calls user_id bike_id status c e d)
      | inr full ↦ rw full d
    ]
check_spec-IsUnique calls user_id bike_id status update_status c (some u) e d =
    elim (Bool-cases ((u.status == fin_status) && (u.update_status == 0))) [
      | inl fin ↦
          rw fin (elim (Bool-cases (leqℤ (age (calls.clock 0) u.timestamp) (pos c.expired_count))) [
            | inl kept ↦ rw kept (
                change-IsUnique user_id (λ v. record v { update_status = update_status }) c
                  (λ v e'. refl) d)
            | inr old ↦ rw old (
                change-IsUnique user_id (renew user_id bike_id status) c
                  (renew-KeepsKey user_id bike_id status) d)
          ])
      | inr busy ↦ rw busy d
    ]

-- hash_add_user_status puts a record in without a search for the user.
abbrev pub is_add : Op → Bool
is_add (add user_id bike_id status) = true
is_add _ = false

abbrev pub NotAdd : Calls → Op → Type 0
NotAdd calls op = is_add op ≡ false

setup_spec-IsUnique :
    (calls : Calls) (product : ℕ) (c : Users) → IsUnique c → IsUnique (setup_spec calls product c).1
unfolding setup_spec
setup_spec-IsUnique calls product c d = elim (Bool-cases (period_ok product)) [
  | inl fine ↦
      rw fine (elim (Bool-cases calls.unlocks) [ inl opened ↦ rw opened d | inr shut ↦ rw shut d ])
  | inr short ↦
      rw short (elim (Bool-cases calls.unlocks) [ inl opened ↦ rw opened d | inr shut ↦ rw shut d ])
]

locked_spec-IsUnique :
    (calls : Calls) (op : Op) (c : Users)
    → NotAdd calls op
    → IsUnique c
    → IsUnique (locked_spec calls op c).1
unfolding locked_spec
locked_spec-IsUnique calls (add user_id bike_id status) c a d = cc
locked_spec-IsUnique calls (remove_user user_id) c a d = remove_spec-IsUnique _ c _ d
locked_spec-IsUnique calls (remove_bike bike_id) c a d = remove_spec-IsUnique _ c _ d
locked_spec-IsUnique calls (check_and_add user_id bike_id status update_status) c a d =
    check_spec-IsUnique calls user_id bike_id status update_status c _ refl d
locked_spec-IsUnique calls (update_user user_id status) c a d =
    change_spec-IsUnique user_id _ c _ (λ u e. refl) d
locked_spec-IsUnique calls (update_process user_id status) c a d =
    finished_spec-IsUnique user_id _ c _ (λ u e. refl) d
locked_spec-IsUnique calls (force_update user_id bike_id status) c a d =
    finished_spec-IsUnique user_id _ c _ (renew-KeepsKey user_id bike_id status) d
locked_spec-IsUnique calls remove_expired c a d =
    Distinct-survivors c.expired_count calls.clock 0 c.cache_list d
locked_spec-IsUnique calls (has_element user_id) c a d = d
locked_spec-IsUnique calls (setup_expired seconds) c a d = setup_spec-IsUnique calls _ c d

-- In every cache that runs of the operations other than hash_add_user_status lead to from hash_init, no two
-- records have the same first 32 bytes of their user identifiers.
pub Reach-IsUnique :
    (lib : ListLib UserStatus) (c : Cache lib.ListT) → Reach lib NotAdd c → IsUnique (users lib c)
Reach-IsUnique lib c r =
    Reach-IsKept lib NotAdd IsUnique (IsKept-locked NotAdd IsUnique locked_spec-IsUnique) tt c r
