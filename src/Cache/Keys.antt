-- ===== src/Cache/Keys.antt =====
-- The comparison of identifiers, and what the changes of a list do to the identifiers in it.
use emulation_lib.Prelude.{
  ℕ, zero, suc, Bool, true, none, some, List, [], ◌∷◌, ◌++◌, ◌≡◌, ◌≢◌, ◌↔◌, refl, sym, ap, ◌∙◌, inl,
  inr, arith, map, take, if◌then◌else◌, Bool-cases,
}
use emulation_lib.Cache.{UserStatus, Timeval, max_id_len, strncmp_eq, key_msne_equals}
use emulation_lib.Cache.ListLib.{All}
use emulation_lib.Cache.Spec.{gone, first, modify_first, remove_first, of_user, survivors}
use emulation_lib.Cache.Store.{readings}

-- What the comparison sees of a user's identifier.
abbrev pub key : UserStatus → List ℕ
key u = take max_id_len u.user_id

-- No element twice.
abbrev pub Distinct : List (List ℕ) → Type 0
Distinct [] = Unit {0}
Distinct (k ∷ ks) = All (λ k'. k ≢ k') ks × Distinct ks

pub take-take {ℓ} : {A : Type ℓ} (n : ℕ) (xs : List A) → take n (take n xs) ≡ take n xs
take-take zero xs = refl
take-take (suc n) [] = refl
take-take (suc n) (x ∷ xs) = ap (◌∷◌ x) (take-take n xs)

strncmp-take : (n : ℕ) (a b : List ℕ) → strncmp_eq n a b ≡ true → take n a ≡ take n b
unfolding strncmp_eq
strncmp-take zero a b h = refl
strncmp-take (suc n) [] [] h = refl
strncmp-take (suc n) [] (y ∷ b) h = cc
strncmp-take (suc n) (x ∷ a) [] h = cc
strncmp-take (suc n) (x ∷ a) (y ∷ b) h = ground (arith, strncmp-take n a b)

strncmp-same : (n : ℕ) (a b : List ℕ) → take n a ≡ take n b → strncmp_eq n a b ≡ true
unfolding strncmp_eq
strncmp-same zero a b h = refl
strncmp-same (suc n) [] [] h = refl
strncmp-same (suc n) [] (y ∷ b) h = cc
strncmp-same (suc n) (x ∷ a) [] h = cc
strncmp-same (suc n) (x ∷ a) (y ∷ b) h = ground (arith, strncmp-same n a b)

-- A record is the user's when its identifier has the same first 32 bytes.
pub of_user_iff :
    (user_id : List ℕ) (u : UserStatus)
    → (of_user user_id u ≡ true) ↔ (take max_id_len user_id ≡ key u)
unfolding key_msne_equals
of_user_iff user_id u =
    let again = take-take max_id_len user_id in
    (
      (λ h. sym again ∙ strncmp-take max_id_len (take max_id_len user_id) u.user_id h),
      (λ h. strncmp-same max_id_len (take max_id_len user_id) u.user_id (again ∙ h)),
    )

pub first-none-All :
    (user_id : List ℕ) (us : List UserStatus)
    → first (of_user user_id) us ≡ none
    → All (λ k. take max_id_len user_id ≢ k) (map key us)
first-none-All user_id [] h = tt
first-none-All user_id (u ∷ us) h = elim (Bool-cases (of_user user_id u)) [
  | inl hit ↦ absurd (ground (arith, h))
  | inr miss ↦
      let rest = first (of_user user_id) us in
      (
        (λ e. ground (arith, miss, (of_user_iff user_id u).1 e)),
        first-none-All user_id us (sym (ap (λ b. if b then some u else rest) miss) ∙ h),
      )
]

pub modify_first-keys :
    (user_id : List ℕ) (f : UserStatus → UserStatus) (us : List UserStatus)
    → ((u : UserStatus) → take max_id_len user_id ≡ key u → key (f u) ≡ key u)
    → map key (modify_first (of_user user_id) f us) ≡ map key us
modify_first-keys user_id f [] h = refl
modify_first-keys user_id f (u ∷ us) h = elim (Bool-cases (of_user user_id u)) [
  | inl hit ↦ rw hit (ap (λ k. k ∷ map key us) (h u ((of_user_iff user_id u).0 hit)))
  | inr miss ↦ rw miss (ap (◌∷◌ (key u)) (modify_first-keys user_id f us h))
]

pub All-remove_first {κ} :
    (P : List ℕ → Type κ) (p : UserStatus → Bool) (us : List UserStatus)
    → All P (map key us)
    → All P (map key (remove_first p us))
All-remove_first P p [] h = h
All-remove_first P p (u ∷ us) h = elim (Bool-cases (p u)) [
  | inl hit ↦ rw hit (h.1)
  | inr miss ↦ rw miss (h.0, All-remove_first P p us h.1)
]

pub Distinct-remove_first :
    (p : UserStatus → Bool) (us : List UserStatus)
    → Distinct (map key us)
    → Distinct (map key (remove_first p us))
Distinct-remove_first p [] h = h
Distinct-remove_first p (u ∷ us) h = elim (Bool-cases (p u)) [
  | inl hit ↦ rw hit (h.1)
  | inr miss ↦ rw miss (All-remove_first _ p us h.0, Distinct-remove_first p us h.1)
]

module _ (expired_count : ℕ) (clock : ℕ → Timeval) where
  pub All-survivors {κ} :
      (P : List ℕ → Type κ) (k : ℕ) (us : List UserStatus)
      → All P (map key us)
      → All P (map key (survivors expired_count clock k us))
  unfolding survivors
  All-survivors P k [] h = h
  All-survivors P k (u ∷ us) h =
      let rest = All-survivors P (readings k u) us h.1 in
      elim (Bool-cases (gone expired_count (clock k) u)) [
        | inl old ↦ rw old rest
        | inr young ↦ rw young (h.0, rest)
      ]

  pub Distinct-survivors :
      (k : ℕ) (us : List UserStatus)
      → Distinct (map key us)
      → Distinct (map key (survivors expired_count clock k us))
  unfolding survivors
  Distinct-survivors k [] h = h
  Distinct-survivors k (u ∷ us) h =
      let rest = Distinct-survivors (readings k u) us h.1 in
      elim (Bool-cases (gone expired_count (clock k) u)) [
        | inl old ↦ rw old rest
        | inr young ↦ rw young (All-survivors _ (readings k u) us h.0, rest)
      ]

pub Distinct-append :
    (k : List ℕ) (ks : List (List ℕ))
    → Distinct ks
    → All (λ k'. k ≢ k') ks
    → Distinct (ks ++ (k ∷ []))
Distinct-append k [] h new = (tt, tt)
Distinct-append k (k' ∷ ks) h new =
    (All-append ks h.0 (λ e. new.0 (sym e)), Distinct-append k ks h.1 new.1)
  where
    All-append :
        (xs : List (List ℕ)) → All (λ x. k' ≢ x) xs → k' ≢ k → All (λ x. k' ≢ x) (xs ++ (k ∷ []))
    All-append [] a last = (last, tt)
    All-append (x ∷ xs) a last = (a.0, All-append xs a.1 last)
