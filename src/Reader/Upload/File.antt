-- ===== src/Reader/Upload/File.antt =====
-- The conversion of a firmware file into lines that end with zeros.
use emulation_lib.Prelude.{
  ℕ, ◌+◌, ◌≤◌, Bool, true, false, ◌||◌, some, List, [], ◌∷◌, ◌++◌, ◌≡◌, ◌↔◌, refl, ap, subst, inl,
  inr, arith, length, ◌==◌, Bool-cases,
}
use mathlib.Core.Option.{some_inj}
use emulation_lib.Reader.Upload.{convert, download_get_file_data, cut_line}

-- A line of text: no zero and no carriage return.
abbrev pub IsPlain : List ℕ → Type 0
IsPlain [] = Unit {0}
IsPlain (c ∷ cs) = ((c == 0) ≡ false) × ((c == 0x0D) ≡ false) × IsPlain cs

abbrev pub AllPlain : List (List ℕ) → Type 0
AllPlain [] = Unit {0}
AllPlain (l ∷ ls) = IsPlain l × AllPlain ls

-- A file with these lines, and the bytes that they become.
abbrev pub text_of : List (List ℕ) → List ℕ
text_of [] = []
text_of (l ∷ ls) = l ++ (0x0D ∷ 0x0A ∷ text_of ls)

abbrev pub buffer_of : List (List ℕ) → List ℕ
buffer_of [] = 0 ∷ []
buffer_of (l ∷ ls) = l ++ (0 ∷ buffer_of ls)

convert-line :
    (l rest : List ℕ)
    → IsPlain l
    → convert false (l ++ (0x0D ∷ 0x0A ∷ rest))
      ≡ (l ++ (0 ∷ (convert false rest).0), (convert false rest).1 + 1)
unfolding convert
convert-line [] rest h = refl
convert-line (c ∷ cs) rest (z, r, h) = rw (r, convert-line cs rest h) refl

pub convert-text_of :
    (ls : List (List ℕ)) → AllPlain ls → convert false (text_of ls) ≡ (buffer_of ls, length ls)
unfolding convert
convert-text_of [] h = refl
convert-text_of (l ∷ ls) (p, h) =
    rw (convert-line l (text_of ls) p, convert-text_of ls h)
      (ap (λ (n : ℕ). (buffer_of (l ∷ ls), n)) (omega arith))

pub cut_line-line : (l rest : List ℕ) → IsPlain l → cut_line (l ++ (0 ∷ rest)) ≡ (l, rest)
unfolding cut_line
cut_line-line [] rest h = refl
cut_line-line (c ∷ cs) rest (z, r, h) = rw (z, cut_line-line cs rest h) refl

abbrev pub has_return : List ℕ → Bool
has_return [] = false
has_return (c ∷ cs) = (c == 0x0D) || has_return cs

convert-le : (b : Bool) (cs : List ℕ) → length (convert b cs).0 ≤ length cs + 1
unfolding convert
convert-le b [] = omega arith
convert-le true (c ∷ cs) = ground (arith, convert-le false cs)
convert-le false (c ∷ cs) = ground (arith, convert-le true cs, convert-le false cs)

convert-returned : (cs : List ℕ) → has_return cs ≡ true → length (convert false cs).0 ≤ length cs
unfolding convert
convert-returned [] h = absurd cc
convert-returned (c ∷ cs) h = elim (Bool-cases (c == 0x0D)) [
  | inl e ↦ rw e (omega (arith, convert-le true cs))
  | inr e ↦
      let more : has_return cs ≡ true = ground (arith, h, e) in
      rw e (omega (arith, convert-returned cs more))
]

convert-unbroken :
    (cs : List ℕ) → has_return cs ≡ false → length (convert false cs).0 ≡ length cs + 1
unfolding convert
convert-unbroken [] h = refl
convert-unbroken (c ∷ cs) h =
    let none_here : (c == 0x0D) ≡ false = ground (arith, h) in
    let none_left : has_return cs ≡ false = ground (arith, h) in
    rw none_here (omega (arith, convert-unbroken cs none_left))

-- The bytes that DownloadGetFileData writes fit in a buffer with the size of the file exactly when the file has a
-- carriage return.
pub download_get_file_data-fits_iff :
    (contents buffer : List ℕ) (lines : ℕ)
    → download_get_file_data true contents ≡ some (buffer, lines)
    → (length buffer ≤ length contents) ↔ (has_return contents ≡ true)
unfolding download_get_file_data
download_get_file_data-fits_iff contents buffer lines e =
    let same : (convert false contents).0 ≡ buffer = ap (λ (r : List ℕ × ℕ). r.0) (some_inj.0 e) in
    elim (Bool-cases (has_return contents)) [
      | inl yes_returned ↦ (
        λ h. yes_returned,
        λ h.
            subst (λ (xs : List ℕ). length xs ≤ length contents) same (convert-returned contents h),
      )
      | inr no_returned ↦ (
        λ h. absurd (
            omega (
              arith,
              h,
              ap (λ (xs : List ℕ). length xs) same,
              convert-unbroken contents no_returned,
            )),
        λ h. absurd cc,
      )
    ]
