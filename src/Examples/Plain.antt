-- ===== src/Examples/Plain.antt =====
-- A list library whose lists are their values and whose nodes are positions.
use emulation_lib.Prelude.{
  ℕ, zero, suc, ◌+◌, ◌-◌, Bool, true, false, Option, none, some, List, [], ◌∷◌, ◌++◌, ◌≡◌, refl,
  sym, ap, ◌∙◌, inl, inr, arith, length, get_or, set, length-append, set-append, if◌then◌else◌,
  ◌==◌, Bool-cases,
}
use mathlib.Core.List.{append_assoc}
use mathlib.Core.Option.{some_inj}
use emulation_lib.Cache.{UserStatus, zeroed}
use emulation_lib.Cache.ListLib.{ListLib, All}

abbrev position : (UserStatus → UserStatus → Bool) → ℕ → List UserStatus → UserStatus → Option ℕ
position match i [] key = none
position match i (x ∷ xs) key = if match key x then some i else position match (suc i) xs key

abbrev remove_at : List UserStatus → ℕ → List UserStatus
remove_at [] n = []
remove_at (x ∷ xs) zero = xs
remove_at (x ∷ xs) (suc n) = x ∷ remove_at xs n

abbrev At : List UserStatus → ℕ → List UserStatus → UserStatus → List UserStatus → Type 0
At l n before a behind = (l ≡ before ++ (a ∷ behind)) × (n ≡ length before)

abbrev Between : List UserStatus → ℕ → List UserStatus → List UserStatus → Type 0
Between l left before behind = (l ≡ before ++ behind) × (left ≡ length behind)

pub remove_at-append :
    (before : List UserStatus) (a : UserStatus) (behind : List UserStatus)
    → remove_at (before ++ (a ∷ behind)) (length before) ≡ before ++ behind
remove_at-append [] a behind = refl
remove_at-append (x ∷ before) a behind = ap (◌∷◌ x) (remove_at-append before a behind)

pub get_or-middle :
    (before : List UserStatus) (a : UserStatus) (behind : List UserStatus)
    → get_or (before ++ (a ∷ behind)) (length before) zeroed ≡ a
get_or-middle [] a behind = refl
get_or-middle (x ∷ before) a behind = get_or-middle before a behind

pub position-none :
    (match : UserStatus → UserStatus → Bool) (i : ℕ) (l : List UserStatus) (key : UserStatus)
    → position match i l key ≡ none
    → All (λ a. match key a ≡ false) l
position-none match i [] key h = tt
position-none match i (x ∷ l) key h = elim (Bool-cases (match key x)) [
  | inl hit ↦ absurd (ground (arith, h))
  | inr miss ↦ (
    miss,
    position-none match (suc i) l key
        (sym (ap (λ b. if b then some i else position match (suc i) l key) miss) ∙ h),
  )
]

pub position-some :
    (match : UserStatus → UserStatus → Bool) (i : ℕ) (l : List UserStatus) (key : UserStatus)
    (n : ℕ)
    → position match i l key ≡ some n
    → (before : List UserStatus) × (a : UserStatus) × (behind : List UserStatus) × ((l
          ≡ before ++ (a ∷ behind))
        × (n ≡ i + length before))
      × (match key a ≡ true)
      × All (λ b. match key b ≡ false) before
position-some match i [] key n h = cc
position-some match i (x ∷ l) key n h = elim (Bool-cases (match key x)) [
  | inl hit ↦
      let same =
        some_inj.0 (sym (ap (λ b. if b then some i else position match (suc i) l key) hit) ∙ h) in
      ([], x, l, (refl, omega arith), hit, tt)
  | inr miss ↦
      let (before, a, behind, at, hit, others) =
        position-some match (suc i) l key n
          (sym (ap (λ b. if b then some i else position match (suc i) l key) miss) ∙ h) in
      (x ∷ before, a, behind, (ap (◌∷◌ x) at.0, omega (arith, at.1)), hit, (miss, others))
]

pub next_position :
    (l : List UserStatus) (left : ℕ) (before : List UserStatus) (a : UserStatus)
    (behind : List UserStatus)
    → Between l left before (a ∷ behind)
    → (if left == 0 then none else some (length l - left)) ≡ some (length before)
next_position l left before a behind b =
    let whole : length l ≡ length before + suc (length behind) =
      ap length (b.0) ∙ length-append before (a ∷ behind) in
    ground (arith, whole, b.1)

abbrev pub plain : ListLib UserStatus
plain = record {
  ListT = List UserStatus;
  Node = ℕ;
  Iterator = ℕ;
  list_new = [];
  len = length;
  list_rpush = λ l a. l ++ (a ∷ []);
  list_find = λ match l key. position match 0 l key;
  list_remove = remove_at;
  val = λ l n. get_or l n zeroed;
  set_val = set;
  list_iterator_new = length;
  list_iterator_next = λ l left. if left == 0 then none else some (length l - left);
  iterator_after = λ l left. left - 1;
  vals = λ l. l;
  At = At;
  Between = Between;
  vals-new = refl;
  len-vals = λ l. refl;
  vals-rpush = λ l a. refl;
  find_none = λ match l key e. position-none match 0 l key e;
  find_some = λ match l key n e.
      let (before, a, behind, at, hit, others) = position-some match 0 l key n e in
      (before, a, behind, (at.0, omega (arith, at.1)), hit, others);
  vals-at = λ l n before a behind at. at.0;
  val-at = λ l n before a behind at. rw (at.0, at.1) (get_or-middle before a behind);
  vals-remove = λ l n before a behind at. rw (at.0, at.1) (remove_at-append before a behind);
  vals-set = λ l n before a b behind at. rw (at.0, at.1) (set-append before a b behind);
  iterator_start = λ l. (refl, refl);
  vals-between = λ l it before behind b. b.0;
  next_end = λ l it before b. rw (b.1) refl;
  next_node = λ l it before a behind b. (
    length before,
    next_position l it before a behind b,
    (b.0, refl),
    (b.0 ∙ sym (append_assoc before (a ∷ []) behind), omega (arith, b.1)),
    (rw (b.0) (remove_at-append before a behind), omega (arith, b.1)),
  );
}
