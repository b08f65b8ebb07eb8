-- ===== src/Cache/Found.antt =====
-- What a search of the list finds, and what the calls on its node do to the records.
use emulation_lib.Prelude.{
  Bool, true, false, none, some, List, [], ◌∷◌, ◌++◌, ◌≡◌, refl, sym, ◌⊎◌, ap, inl, inr,
  Option-cases,
}
use emulation_lib.Cache.{UserStatus}
use emulation_lib.Cache.ListLib.{ListLib, All}
use emulation_lib.Cache.Spec.{first, modify_first, remove_first}

module _ {ℓ} {A : Type ℓ} (p : A → Bool) where
  first-none : (xs : List A) → All (λ a. p a ≡ false) xs → first p xs ≡ none
  first-none [] h = refl
  first-none (x ∷ xs) h = rw (h.0) (first-none xs h.1)

  module _ (a : A) (hit : p a ≡ true) (behind : List A) where
    first-at :
        (before : List A)
        → All (λ b. p b ≡ false) before
        → first p (before ++ (a ∷ behind)) ≡ some a
    first-at [] h = rw hit refl
    first-at (x ∷ before) h = rw (h.0) (first-at before h.1)

    modify_first-at :
        (f : A → A) (before : List A)
        → All (λ b. p b ≡ false) before
        → modify_first p f (before ++ (a ∷ behind)) ≡ before ++ (f a ∷ behind)
    modify_first-at f [] h = rw hit refl
    modify_first-at f (x ∷ before) h = rw (h.0) (ap (◌∷◌ x) (modify_first-at f before h.1))

    remove_first-at :
        (before : List A)
        → All (λ b. p b ≡ false) before
        → remove_first p (before ++ (a ∷ behind)) ≡ before ++ behind
    remove_first-at [] h = rw hit refl
    remove_first-at (x ∷ before) h = rw (h.0) (ap (◌∷◌ x) (remove_first-at before h.1))

module _ (lib : ListLib UserStatus) where
  -- What a search tells of the node that it finds.
  pub record Found (match : UserStatus → UserStatus → Bool) (key : UserStatus) (l : lib.ListT)
      (n : lib.Node) : Type 0 where
    pub here : first (match key) (lib.vals l) ≡ some (lib.val l n)
    pub removed : lib.vals (lib.list_remove l n) ≡ remove_first (match key) (lib.vals l)
    pub changed :
        (f : UserStatus → UserStatus)
        → lib.vals (lib.set_val l n (f (lib.val l n))) ≡ modify_first (match key) f (lib.vals l)

  find-Found :
      (match : UserStatus → UserStatus → Bool) (key : UserStatus) (l : lib.ListT) (n : lib.Node)
      → lib.list_find match l key ≡ some n
      → Found match key l n
  find-Found match key l n e =
      let (before, a, behind, at, hit, others) = lib.find_some match l key n e in
      let whole = lib.vals-at l n before a behind at in
      let value = lib.val-at l n before a behind at in
      record {
        here = rw (whole, value) (first-at (match key) a hit behind before others);
        removed =
            rw (lib.vals-remove l n before a behind at, whole)
              (sym (remove_first-at (match key) a hit behind before others));
        changed = λ f.
            rw (lib.vals-set l n before a (f (lib.val l n)) behind at, whole, value)
              (sym (modify_first-at (match key) a hit behind f before others));
      }

  pub find-cases :
      (match : UserStatus → UserStatus → Bool) (key : UserStatus) (l : lib.ListT)
      → ((lib.list_find match l key ≡ none) × (first (match key) (lib.vals l) ≡ none))
        ⊎ ((n : lib.Node) × (lib.list_find match l key ≡ some n) × Found match key l n)
  find-cases match key l = elim (Option-cases (lib.list_find match l key)) [
    | inl e ↦ inl (e, first-none (match key) (lib.vals l) (lib.find_none match l key e))
    | inr (n, e) ↦ inr (n, e, find-Found match key l n e)
  ]
