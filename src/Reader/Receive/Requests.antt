-- ===== src/Reader/Receive/Requests.antt =====
-- The sizes that RS232C_8_ExecuteCommand asks RS232C_ReceiveData for in one turn of _RETRY_REPLY
-- (ccr.origin/Prtcl_RS232C_8.c), each with its time limit.
use emulation_lib.Prelude.{
  ℕ, ◌+◌, ◌*◌, ◌≤◌, true, List, [], ◌∷◌, ◌≡◌, refl, arith, length, get_or, drop, if◌then◌else◌,
  ◌==◌, ltb,
}
use emulation_lib.Reader.{
  ReaderCode, no_error, stx, dle, error_exchange, Reception, max_data_array_size,
}
use emulation_lib.Reader.Execute.{with_crc}
use emulation_lib.Reader.Execute.RoundTrip.{good_receptions, reply_text, reply_size, hi, lo}
use emulation_lib.Reader.Receive.{requests_for}

abbrev pub default_char_timeout : ℕ
default_char_timeout = 300

-- What is asked for after a reception without an error.
unfoldable pub after_ok : ReaderCode → List (ℕ × ℕ) → List (ℕ × ℕ)
after_ok no_error rest = rest
after_ok e rest = []

-- The second reception, where the length is not met.
unfoldable pub more_requests : ℕ → Reception → List (ℕ × ℕ)
more_requests read_length text =
    if length text.bytes + 3
      == (if ltb (length text.bytes + 3) 5 then 0 else read_length) + 1 + 2 + 2
    then []
    else (default_char_timeout, max_data_array_size) ∷ []

unfoldable pub text_requests : ℕ → List Reception → List (ℕ × ℕ)
unfolding after_ok more_requests
text_requests read_length [] = []
text_requests read_length (r ∷ rs) =
    after_ok (error_exchange r.result) (more_requests read_length r)

unfoldable pub length_requests : ℕ → List Reception → List (ℕ × ℕ)
unfolding after_ok text_requests
length_requests timeout [] = []
length_requests timeout (r ∷ rs) =
    let read_length = get_or r.bytes 0 0 * 256 + get_or r.bytes 1 0 in
    after_ok (error_exchange r.result) ((timeout, read_length + 2) ∷ text_requests read_length rs)

unfoldable pub first_requests : ℕ → List Reception → List (ℕ × ℕ)
unfolding after_ok length_requests
first_requests timeout [] = []
first_requests timeout (r ∷ rs) =
    let b = get_or r.bytes 0 0 in
    after_ok (error_exchange r.result) (
      if b == dle
      then (timeout, 1) ∷ []
      else if b == stx
      then (timeout, 2) ∷ length_requests timeout rs
      else [])

-- The sizes by what the receptions give.
unfoldable pub turn_requests : ℕ → List Reception → List (ℕ × ℕ)
unfolding first_requests
turn_requests timeout receptions = (timeout, 1) ∷ first_requests timeout receptions

-- For a reply that comes as it should, a turn asks for its first byte, its length, and its text with the sum.
pub turn_requests-good :
    (timeout command_code parameter_code st1 st0 : ℕ) (data_bytes : List ℕ)
    → length data_bytes ≤ 1014
    → turn_requests timeout
        (drop 1 (good_receptions command_code parameter_code st1 st0 data_bytes))
      ≡ drop 1 (requests_for timeout (length data_bytes + 5))
unfolding turn_requests first_requests length_requests text_requests more_requests after_ok
    error_exchange with_crc
turn_requests-good timeout command_code parameter_code st1 st0 data_bytes fits =
    let size = reply_size command_code parameter_code st1 st0 data_bytes fits in
    let high = hi command_code parameter_code st1 st0 data_bytes in
    let low = lo command_code parameter_code st1 st0 data_bytes in
    let read_length : high * 256 + low ≡ length data_bytes + 5 = omega arith in
    let text = drop 3 (with_crc (reply_text command_code parameter_code st1 st0 data_bytes)) in
    let met : (length text + 3
          == (if ltb (length text + 3) 5 then 0 else length data_bytes + 5) + 1 + 2 + 2)
        ≡ true =
      ground (arith, size) in
    rw (read_length, met) refl
