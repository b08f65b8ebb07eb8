-- ===== src/Cache/ListLib.antt =====
-- The list library that cache/hashmap.c calls (a project of its own): the calls and what they do to the
-- values of the list, in order. `list_rpush` is that of a value whose node list_node_new has given; that it may
-- give none is an argument of the operations in Store.
use emulation_lib.Prelude.{
  Bool, true, false, Option, none, some, List, [], ◌∷◌, ◌++◌, ◌≡◌, length, ℕ,
}

-- Every element has the property.
abbrev pub All {ℓ κ} : {A : Type ℓ} → (A → Type κ) → List A → Type κ
All P [] = Unit
All P (x ∷ xs) = P x × All P xs

-- A list's nodes hold pointers to values: `val` reads through one and `set_val` writes through one.
pub record ListLib (A : Type 0) : Type 1 where
  pub ListT : Type 0
  pub Node : Type 0
  pub Iterator : Type 0
  pub list_new : ListT
  pub len : ListT → ℕ
  pub list_rpush : ListT → A → ListT
  pub list_find : (A → A → Bool) → ListT → A → Option Node
  pub list_remove : ListT → Node → ListT
  pub val : ListT → Node → A
  pub set_val : ListT → Node → A → ListT
  pub list_iterator_new : ListT → Iterator
  pub list_iterator_next : ListT → Iterator → Option Node
  pub iterator_after : ListT → Iterator → Iterator
  -- What the calls mean: the values in order, a node between two parts, an iterator between two parts.
  pub vals : ListT → List A
  pub At : ListT → Node → List A → A → List A → Type 0
  pub Between : ListT → Iterator → List A → List A → Type 0
  pub vals-new : vals list_new ≡ []
  pub len-vals : (l : ListT) → len l ≡ length (vals l)
  pub vals-rpush : (l : ListT) (a : A) → vals (list_rpush l a) ≡ vals l ++ (a ∷ [])
  pub find_none :
      (match : A → A → Bool) (l : ListT) (key : A)
      → list_find match l key ≡ none
      → All (λ a. match key a ≡ false) (vals l)
  pub find_some :
      (match : A → A → Bool) (l : ListT) (key : A) (n : Node)
      → list_find match l key ≡ some n
      → (before : List A) × (a : A) × (behind : List A) × At l n before a behind
        × (match key a ≡ true)
        × All (λ b. match key b ≡ false) before
  pub vals-at :
      (l : ListT) (n : Node) (before : List A) (a : A) (behind : List A)
      → At l n before a behind
      → vals l ≡ before ++ (a ∷ behind)
  pub val-at :
      (l : ListT) (n : Node) (before : List A) (a : A) (behind : List A)
      → At l n before a behind
      → val l n ≡ a
  pub vals-remove :
      (l : ListT) (n : Node) (before : List A) (a : A) (behind : List A)
      → At l n before a behind
      → vals (list_remove l n) ≡ before ++ behind
  pub vals-set :
      (l : ListT) (n : Node) (before : List A) (a b : A) (behind : List A)
      → At l n before a behind
      → vals (set_val l n b) ≡ before ++ (b ∷ behind)
  pub iterator_start : (l : ListT) → Between l (list_iterator_new l) [] (vals l)
  pub vals-between :
      (l : ListT) (it : Iterator) (before behind : List A)
      → Between l it before behind
      → vals l ≡ before ++ behind
  pub next_end :
      (l : ListT) (it : Iterator) (before : List A)
      → Between l it before []
      → list_iterator_next l it ≡ none
  -- The iterator has gone on before the node that it gives can be removed.
  pub next_node :
      (l : ListT) (it : Iterator) (before : List A) (a : A) (behind : List A)
      → Between l it before (a ∷ behind)
      → (n : Node) × (list_iterator_next l it ≡ some n)
        × At l n before a behind
        × Between l (iterator_after l it) (before ++ (a ∷ [])) behind
        × Between (list_remove l n) (iterator_after l it) before behind
