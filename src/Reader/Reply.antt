-- ===== src/Reader/Reply.antt =====
-- RS232C_8_ExecuteCommand of ccr.origin/Prtcl_RS232C_8.c, from _RETRY_REPLY to the ACK for the reader.
use emulation_lib.Prelude.{
  ℕ, zero, suc, ◌+◌, ◌-◌, ◌*◌, ◌/◌, ◌%◌, Bool, ◌&&◌, List, [], ◌∷◌, ◌++◌, get_or, take, length,
  if◌then◌else◌, ◌==◌, ltb,
}
use emulation_lib.Reader.{
  ReaderCode, no_error, reply_timeout, character_timeout, command_canceled, failed_to_receive_reply,
  error_exchange, Reception, crc_ccitt, stx, dle, eot, max_data_array_size, default_receive_retry,
  default_nak_retry,
}

-- What one turn of _RETRY_REPLY comes to: the bytes run out, an error, a byte that is skipped, a reply that
-- stops before its end, bytes outside of ReplyTempBuffer, or a buffer and ReplyLength.
pub data Verdict : Type 0 where
  waits : Verdict
  failed_with : ReaderCode → Verdict
  skipped : Verdict
  cut_short : Verdict
  outside : Verdict
  whole : List ℕ → ℕ → Verdict

-- The verdict and the receptions that are left.
abbrev pub Turn : Type 0
Turn = Verdict × List Reception

unfoldable pub more_code : ReaderCode → List ℕ → List ℕ → List Reception → Turn
more_code no_error buffer bytes left =
    if ltb max_data_array_size (length buffer + length bytes)
    then (outside, left)
    else (whole (buffer ++ bytes) (length bytes), left)
more_code reply_timeout buffer bytes left = (cut_short, left)
more_code character_timeout buffer bytes left = (cut_short, left)
more_code e buffer bytes left = (failed_with e, left)

-- The second reception of data, when the length was not met.
unfoldable pub get_more : List ℕ → List Reception → Turn
get_more buffer [] = (waits, [])
get_more buffer (r ∷ rs) = more_code (error_exchange r.result) buffer r.bytes rs

unfoldable pub check_reply_length : List ℕ → ℕ → List Reception → Turn
check_reply_length buffer read_length left =
    if ltb max_data_array_size (length buffer)
    then (outside, left)
    else if length buffer == (if ltb (length buffer) 5 then 0 else read_length) + 1 + 2 + 2
    then (whole buffer (length buffer), left)
    else get_more buffer left

unfoldable pub data_code : ReaderCode → ℕ → ℕ → List ℕ → List Reception → Turn
data_code no_error hi lo bytes left =
    check_reply_length (stx ∷ hi ∷ lo ∷ bytes) (hi * 256 + lo) left
data_code reply_timeout hi lo bytes left = (cut_short, left)
data_code character_timeout hi lo bytes left = (cut_short, left)
data_code e hi lo bytes left = (failed_with e, left)

unfoldable pub get_data : ℕ → ℕ → List Reception → Turn
get_data hi lo [] = (waits, [])
get_data hi lo (r ∷ rs) = data_code (error_exchange r.result) hi lo r.bytes rs

unfoldable pub length_code : ReaderCode → List ℕ → List Reception → Turn
length_code no_error bytes left = get_data (get_or bytes 0 0) (get_or bytes 1 0) left
length_code e bytes left = (failed_with e, left)

unfoldable pub get_length : List Reception → Turn
get_length [] = (waits, [])
get_length (r ∷ rs) = length_code (error_exchange r.result) r.bytes rs

unfoldable pub escape_code : ReaderCode → ℕ → ReaderCode
escape_code no_error b = if b == eot then command_canceled else failed_to_receive_reply
escape_code e b = e

-- The byte behind a DLE.
unfoldable pub get_escape : List Reception → Turn
get_escape [] = (waits, [])
get_escape (r ∷ rs) = (failed_with (escape_code (error_exchange r.result) (get_or r.bytes 0 0)), rs)

unfoldable pub first_code : ReaderCode → ℕ → List Reception → Turn
first_code no_error b left =
    if b == dle then get_escape left else if b == stx then get_length left else (skipped, left)
first_code e b left = (failed_with e, left)

unfoldable pub get_reply : List Reception → Turn
get_reply [] = (waits, [])
get_reply (r ∷ rs) = first_code (error_exchange r.result) (get_or r.bytes 0 0) rs

-- The two last of the `n` bytes are the sum of those before.
unfoldable pub crc_matches : List ℕ → ℕ → Bool
crc_matches buffer n =
    let crc = crc_ccitt (take (n - 2) buffer) in
    (crc / 256 % 256 == get_or buffer (n - 2) 0) && (crc % 256 == get_or buffer (n - 1) 0)

pub data ReplyEnd : Type 0 where
  reply_waits : ReplyEnd
  reply_failed : ReaderCode → ReplyEnd
  reply_outside : ReplyEnd
  accepted : List ℕ → ℕ → ReplyEnd
  unfinished : ReplyEnd

-- How many NAKs are sent, and the end.
pub record ReplyRun : Type 0 where
  pub naks : ℕ
  pub end : ReplyEnd

abbrev pub ends : ReplyEnd → ReplyRun
ends e = record { naks = 0; end = e }

abbrev pub nak_then : ReplyRun → ReplyRun
nak_then rest = record rest { naks = suc rest.naks }

-- The test of the sum; a sum over less than two bytes would be read outside of the buffer.
unfoldable pub check_crc : ℕ → List ℕ → ℕ → ReplyRun → ReplyRun
check_crc crc_retry buffer n rest =
    if ltb n 2
    then ends reply_outside
    else if crc_matches buffer n
    then ends (accepted buffer n)
    else if ltb default_nak_retry crc_retry
    then ends (reply_failed failed_to_receive_reply)
    else nak_then rest

unfoldable pub reply_step : ℕ → Verdict → ReplyRun → ReplyRun
reply_step crc_retry waits rest = ends reply_waits
reply_step crc_retry (failed_with e) rest = ends (reply_failed e)
reply_step crc_retry skipped rest = rest
reply_step crc_retry cut_short rest = nak_then rest
reply_step crc_retry outside rest = ends reply_outside
reply_step crc_retry (whole buffer n) rest = check_crc crc_retry buffer n rest

abbrev pub retry_after : Verdict → ℕ → ℕ
retry_after cut_short retry = retry + 1
retry_after _ retry = retry

abbrev pub crc_retry_after : Verdict → ℕ → ℕ
crc_retry_after (whole buffer n) crc_retry = crc_retry + 1
crc_retry_after _ crc_retry = crc_retry

-- _RETRY_REPLY with the two counters. Each turn takes a reception at least, so fuel for one more than there
-- are receptions is enough.
unfoldable pub reply_loop : ℕ → ℕ → ℕ → List Reception → ReplyRun
reply_loop zero retry crc_retry receptions = ends unfinished
reply_loop (suc fuel) retry crc_retry receptions =
    let turn = get_reply receptions in
    let rest =
      reply_loop fuel (retry_after turn.0 retry) (crc_retry_after turn.0 crc_retry) turn.1 in
    if ltb default_receive_retry retry
    then ends (reply_failed character_timeout)
    else reply_step crc_retry turn.0 rest

unfoldable pub receive_reply : List Reception → ReplyRun
receive_reply receptions = reply_loop (length receptions + 1) 1 1 receptions
