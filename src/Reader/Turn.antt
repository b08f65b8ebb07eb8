-- ===== src/Reader/Turn.antt =====
-- What one turn of _RETRY_REPLY takes and what it can come to.
use emulation_lib.Prelude.{
  ℕ, ◌+◌, ◌≤◌, List, [], ◌∷◌, ◌≢◌, arith, length, if◌then◌else◌, ◌==◌, ltb, if-both,
}
use emulation_lib.Reader.{
  ReaderCode, no_error, eot, dle, stx, error_exchange, Reception, max_data_array_size,
  reply_timeout, character_timeout,
}
use emulation_lib.Reader.Reply.{
  Verdict, failed_with, whole, get_reply, escape_code, more_code, get_more, check_reply_length,
  data_code, get_data, length_code, get_length, get_escape, first_code, Turn,
}

-- A failure is not a success.
abbrev pub NotOk : Verdict → Type 0
NotOk (failed_with e) = e ≢ no_error
NotOk _ = Unit {0}

-- What is left of a list after some of its elements.
pub data IsLeft (rest : List Reception) : List Reception → Type 0 where
  same : IsLeft rest rest
  past : {rs : List Reception} → (r : Reception) → IsLeft rest rs → IsLeft rest (r ∷ rs)

pub IsLeft-length : (rest rs : List Reception) → IsLeft rest rs → length rest ≤ length rs
IsLeft-length rest rs same = omega arith
IsLeft-length rest (r ∷ rs) (past r' h) = omega (arith, IsLeft-length rest rs h)

pub IsLeft-trans : (a b c : List Reception) → IsLeft a b → IsLeft b c → IsLeft a c
IsLeft-trans a b c h same = h
IsLeft-trans a b (r ∷ c) h (past r' k) = past r' (IsLeft-trans a b c h k)

-- Receptions are only taken, from the front, and the verdict is right.
abbrev pub IsTurn : List Reception → Turn → Type 0
IsTurn left t = IsLeft t.1 left × NotOk t.0

more_code-IsTurn :
    (e : ReaderCode) (buffer bytes : List ℕ) (left : List Reception)
    → IsTurn left (more_code e buffer bytes left)
unfolding more_code
more_code-IsTurn no_error buffer bytes left =
    if-both (IsTurn left) (ltb max_data_array_size (length buffer + length bytes)) _ _ (same, tt)
      (same, tt)
more_code-IsTurn reply_timeout buffer bytes left = (same, tt)
more_code-IsTurn character_timeout buffer bytes left = (same, tt)
more_code-IsTurn e buffer bytes left = (same, (λ z. cc))

get_more-IsTurn : (buffer : List ℕ) (left : List Reception) → IsTurn left (get_more buffer left)
unfolding get_more
get_more-IsTurn buffer [] = (same, tt)
get_more-IsTurn buffer (r ∷ rs) =
    let turn = more_code-IsTurn (error_exchange r.result) buffer r.bytes rs in
    (past r turn.0, turn.1)

check_reply_length-IsTurn :
    (buffer : List ℕ) (n : ℕ) (left : List Reception)
    → IsTurn left (check_reply_length buffer n left)
unfolding check_reply_length
check_reply_length-IsTurn buffer n left =
    if-both (IsTurn left) (ltb max_data_array_size (length buffer)) _ _ (same, tt)
      (if-both (IsTurn left) (length buffer == (if ltb (length buffer) 5 then 0 else n) + 1 + 2 + 2)
        (whole buffer (length buffer), left) _ (same, tt) (get_more-IsTurn buffer left))

data_code-IsTurn :
    (e : ReaderCode) (hi lo : ℕ) (bytes : List ℕ) (left : List Reception)
    → IsTurn left (data_code e hi lo bytes left)
unfolding data_code
data_code-IsTurn no_error hi lo bytes left = check_reply_length-IsTurn _ _ left
data_code-IsTurn reply_timeout hi lo bytes left = (same, tt)
data_code-IsTurn character_timeout hi lo bytes left = (same, tt)
data_code-IsTurn e hi lo bytes left = (same, (λ z. cc))

get_data-IsTurn : (hi lo : ℕ) (left : List Reception) → IsTurn left (get_data hi lo left)
unfolding get_data
get_data-IsTurn hi lo [] = (same, tt)
get_data-IsTurn hi lo (r ∷ rs) =
    let turn = data_code-IsTurn (error_exchange r.result) hi lo r.bytes rs in
    (past r turn.0, turn.1)

length_code-IsTurn :
    (e : ReaderCode) (bytes : List ℕ) (left : List Reception)
    → IsTurn left (length_code e bytes left)
unfolding length_code
length_code-IsTurn no_error bytes left = get_data-IsTurn _ _ left
length_code-IsTurn e bytes left = (same, (λ z. cc))

get_length-IsTurn : (left : List Reception) → IsTurn left (get_length left)
unfolding get_length
get_length-IsTurn [] = (same, tt)
get_length-IsTurn (r ∷ rs) =
    let turn = length_code-IsTurn (error_exchange r.result) r.bytes rs in (past r turn.0, turn.1)

escape_code-ne : (e : ReaderCode) (b : ℕ) → escape_code e b ≢ no_error
unfolding escape_code
escape_code-ne no_error b = if-both (λ e. e ≢ no_error) (b == eot) _ _ (λ z. cc) (λ z. cc)
escape_code-ne e b = λ z. cc

get_escape-IsTurn : (left : List Reception) → IsTurn left (get_escape left)
unfolding get_escape
get_escape-IsTurn [] = (same, tt)
get_escape-IsTurn (r ∷ rs) = (past r same, escape_code-ne _ _)

first_code-IsTurn :
    (e : ReaderCode) (b : ℕ) (left : List Reception) → IsTurn left (first_code e b left)
unfolding first_code
first_code-IsTurn no_error b left =
    if-both (IsTurn left) (b == dle) _ _ (get_escape-IsTurn left)
      (if-both (IsTurn left) (b == stx) _ _ (get_length-IsTurn left) (same, tt))
first_code-IsTurn e b left = (same, (λ z. cc))

-- A turn takes a reception at least.
pub get_reply-IsTurn : (r : Reception) (rs : List Reception) → IsTurn rs (get_reply (r ∷ rs))
unfolding get_reply
get_reply-IsTurn r rs = first_code-IsTurn (error_exchange r.result) _ rs
