-- ===== src/Reader/Execute/Came.antt =====
-- Where the bytes of a reply come from: the receptions that one turn of _RETRY_REPLY puts into its buffer.
use emulation_lib.Prelude.{
  ℕ, ◌+◌, ◌*◌, ◌≤◌, List, [], ◌∷◌, ◌++◌, ◌≡◌, refl, inl, inr, arith, length, get_or, ◌==◌, ltb,
  Bool-cases, ==_iff, if◌then◌else◌,
}
use emulation_lib.Reader.{
  ReaderCode, no_error, reply_timeout, character_timeout, stx, dle, error_exchange, Reception,
  max_data_array_size,
}
use emulation_lib.Reader.Reply.{
  Verdict, whole, more_code, get_more, check_reply_length, data_code, get_data, length_code,
  get_length, get_escape, first_code, get_reply,
}

abbrev pub IsOk : Reception → Type 0
IsOk r = error_exchange r.result ≡ no_error

-- The start byte, the two bytes of the length, and the bytes behind them.
abbrev pub text_from : Reception → Reception → List ℕ
text_from sizes text = 0xF2 ∷ get_or sizes.bytes 0 0 ∷ get_or sizes.bytes 1 0 ∷ text.bytes

-- A buffer and a length by the receptions from its start byte on: as many bytes as the length says, or others and
-- those of one more reception, and then the length is that of the last reception alone.
pub data Came : List Reception → List ℕ → ℕ → Type 0 where
  at_once :
      (start sizes text : Reception) (rs : List Reception)
      → IsOk start
      → IsOk sizes
      → IsOk text
      → get_or start.bytes 0 0 ≡ 0xF2
      → length text.bytes ≡ get_or sizes.bytes 0 0 * 256 + get_or sizes.bytes 1 0 + 2
      → length (text_from sizes text) ≤ 1024
      → Came (start ∷ sizes ∷ text ∷ rs) (text_from sizes text) (length (text_from sizes text))
  in_two :
      (start sizes text more : Reception) (rs : List Reception)
      → IsOk start
      → IsOk sizes
      → IsOk text
      → IsOk more
      → get_or start.bytes 0 0 ≡ 0xF2
      → length (text_from sizes text) + length more.bytes ≤ 1024
      → Came
          (start ∷ sizes ∷ text ∷ more ∷ rs)
          (text_from sizes text ++ more.bytes)
          (length more.bytes)

pub Came-le : (rs : List Reception) (buffer : List ℕ) (n : ℕ) → Came rs buffer n → n ≤ 1024
Came-le _ _ _ (at_once start sizes text rs a b c d e h) = h
Came-le _ _ _ (in_two start sizes text more rs a b c d e h) = omega (arith, h)

abbrev pub Brings : List Reception → Verdict → Type 0
Brings rs (whole buffer n) = Came rs buffer n
Brings rs _ = Unit {0}

module _ (start : Reception) (ok_start : IsOk start) (begins : get_or start.bytes 0 0 ≡ 0xF2) where
  module _ (sizes text : Reception) (ok_sizes : IsOk sizes) (ok_text : IsOk text) where
    more_code-Brings :
        (more : Reception) (rs : List Reception) (e : ReaderCode)
        → error_exchange more.result ≡ e
        → Brings
            (start ∷ sizes ∷ text ∷ more ∷ rs)
            (more_code e (text_from sizes text) more.bytes rs).0
    unfolding more_code
    more_code-Brings more rs no_error came =
        elim (Bool-cases
          (ltb max_data_array_size (length (text_from sizes text) + length more.bytes))) [
            | inl large ↦ rw large tt
            | inr fits ↦ rw fits (
                in_two start sizes text more rs ok_start ok_sizes ok_text came begins
                  (ground arith))
          ]
    more_code-Brings more rs reply_timeout came = tt
    more_code-Brings more rs character_timeout came = tt
    more_code-Brings more rs e came = tt

    get_more-Brings :
        (rs : List Reception)
        → Brings (start ∷ sizes ∷ text ∷ rs) (get_more (text_from sizes text) rs).0
    unfolding get_more
    get_more-Brings [] = tt
    get_more-Brings (more ∷ rs) = more_code-Brings more rs _ refl

    check_reply_length-Brings :
        (rs : List Reception)
        → Brings
            (start ∷ sizes ∷ text ∷ rs)
            (check_reply_length
              (text_from sizes text)
              (get_or sizes.bytes 0 0 * 256 + get_or sizes.bytes 1 0)
              rs).0
    unfolding check_reply_length
    check_reply_length-Brings rs =
        let buffer = text_from sizes text in
        let n = get_or sizes.bytes 0 0 * 256 + get_or sizes.bytes 1 0 in
        elim (Bool-cases (ltb max_data_array_size (length buffer))) [
          | inl large ↦ rw large tt
          | inr fits ↦
              elim (Bool-cases
                (length buffer == (if ltb (length buffer) 5 then 0 else n) + 1 + 2 + 2)) [
                  | inl met ↦
                      rw (fits, met)
                        (at_once start sizes text rs ok_start ok_sizes ok_text begins (ground arith)
                          (ground arith))
                  | inr short ↦ rw (fits, short) (get_more-Brings rs)
                ]
        ]

  data_code-Brings :
      (sizes text : Reception) (rs : List Reception) (e : ReaderCode)
      → IsOk sizes
      → error_exchange text.result ≡ e
      → Brings
          (start ∷ sizes ∷ text ∷ rs)
          (data_code e (get_or sizes.bytes 0 0) (get_or sizes.bytes 1 0) text.bytes rs).0
  unfolding data_code
  data_code-Brings sizes text rs no_error ok_sizes came =
      check_reply_length-Brings sizes text ok_sizes came rs
  data_code-Brings sizes text rs reply_timeout ok_sizes came = tt
  data_code-Brings sizes text rs character_timeout ok_sizes came = tt
  data_code-Brings sizes text rs e ok_sizes came = tt

  get_data-Brings :
      (sizes : Reception) (rs : List Reception)
      → IsOk sizes
      → Brings
          (start ∷ sizes ∷ rs)
          (get_data (get_or sizes.bytes 0 0) (get_or sizes.bytes 1 0) rs).0
  unfolding get_data
  get_data-Brings sizes [] ok_sizes = tt
  get_data-Brings sizes (text ∷ rs) ok_sizes = data_code-Brings sizes text rs _ ok_sizes refl

  length_code-Brings :
      (sizes : Reception) (rs : List Reception) (e : ReaderCode)
      → error_exchange sizes.result ≡ e
      → Brings (start ∷ sizes ∷ rs) (length_code e sizes.bytes rs).0
  unfolding length_code
  length_code-Brings sizes rs no_error came = get_data-Brings sizes rs came
  length_code-Brings sizes rs e came = tt

  get_length-Brings : (rs : List Reception) → Brings (start ∷ rs) (get_length rs).0
  unfolding get_length
  get_length-Brings [] = tt
  get_length-Brings (sizes ∷ rs) = length_code-Brings sizes rs _ refl

get_escape-Brings :
    (start : Reception) (rs : List Reception) → Brings (start ∷ rs) (get_escape rs).0
unfolding get_escape
get_escape-Brings start [] = tt
get_escape-Brings start (r ∷ rs) = tt

first_code-Brings :
    (start : Reception) (rs : List Reception) (e : ReaderCode)
    → error_exchange start.result ≡ e
    → Brings (start ∷ rs) (first_code e (get_or start.bytes 0 0) rs).0
unfolding first_code
first_code-Brings start rs no_error came = elim (Bool-cases (get_or start.bytes 0 0 == dle)) [
  | inl escape ↦ rw escape (get_escape-Brings start rs)
  | inr other ↦ elim (Bool-cases (get_or start.bytes 0 0 == stx)) [
    | inl begins ↦
        rw (other, begins)
          (get_length-Brings start came ((==_iff (get_or start.bytes 0 0) stx).0 begins) rs)
    | inr noise ↦ rw (other, noise) tt
  ]
]
first_code-Brings start rs e came = tt

pub get_reply-Brings : (rs : List Reception) → Brings rs (get_reply rs).0
unfolding get_reply
get_reply-Brings [] = tt
get_reply-Brings (r ∷ rs) = first_code-Brings r rs _ refl
