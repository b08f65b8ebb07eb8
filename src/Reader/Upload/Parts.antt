-- ===== src/Reader/Upload/Parts.antt =====
-- The parts of DownloadExe: how they end, the comparison of revisions, and what is made of replies.
use emulation_lib.Prelude.{
  ℕ, Bool, true, false, ◌&&◌, Option, none, some, List, [], ◌∷◌, length, get_or, take, drop,
  if◌then◌else◌, ◌==◌,
}
use emulation_lib.Reader.{ReaderCode, no_error}
use emulation_lib.Reader.Execute.{
  negative_reply, Reply, Command, Port, Outcome, returned, out_of_buffer,
}
use emulation_lib.Reader.Connect.{ConnectCalls}
use emulation_lib.Reader.Upload.{
  UpdateError, update_execution_failed, update_unexpected, cut_line, Upload, UploadEnd, lines_sent,
  line_outside, upload_hangs, command_outside, upload_failed,
}
use emulation_lib.Reader.Upload.Area.{AreaEnd, area_changed, area_hangs, area_outside, area_failed}

-- What the caller and the environment give: the file, the initialisation of the reader, whether revisions are
-- compared, and what the calls of the run give; those of the changes of the area by their number.
pub record UpdateCalls : Type 0 where
  pub file_name : List ℕ
  pub opens_for_info : Bool
  pub opens_for_data : Bool
  pub contents : List ℕ
  pub allocates : Bool
  pub init_command : Command
  pub check_revision : Bool
  pub first_connect : ConnectCalls
  pub ports : ℕ → Port
  pub area_disconnects : ℕ → ConnectCalls
  pub area_tries : ℕ → ℕ → ConnectCalls
  pub last_disconnect : ConnectCalls

-- How a part of the function ends: it goes on, returns an error, does not return, writes outside of a buffer,
-- or runs out of fuel.
pub data PartEnd : Type 0 where
  part_done part_hangs part_outside part_out_of_fuel : PartEnd
  part_failed : UpdateError → PartEnd

-- The state of the upload, with the number of changes of the area.
pub record Update : Type 0 where
  pub upload : Upload
  pub areas : ℕ

abbrev pub Part : Type 0
Part = PartEnd × Update

-- The next part, where the one before goes on.
unfoldable pub and_then : Part → (Update → Part) → Part
and_then (part_done, u) rest = rest u
and_then (end, u) rest = (end, u)

-- strstr with the suffix of the revision, and the copy of what follows it.
unfoldable pub find_revision : List ℕ → Option (List ℕ)
find_revision [] = none
find_revision (c ∷ cs) =
    let rest = find_revision cs in
    if (c == 0x52) && ((get_or cs 0 0 == 0x65) && (get_or cs 1 0 == 0x76))
    then some (take 9 (drop 2 cs))
    else if c == 0
    then none
    else rest

-- strcmp, over what is in front of the first zeros.
unfoldable pub same_bytes : List ℕ → List ℕ → Bool
same_bytes [] [] = true
same_bytes (a ∷ xs) (b ∷ ys) = (a == b) && same_bytes xs ys
same_bytes _ _ = false

unfoldable pub same_revision : List ℕ → List ℕ → Bool
same_revision a b = same_bytes (cut_line a).0 (cut_line b).0

-- The 9 bytes of Revision have no zero and are the first of the reader's: strcmp reads on behind them.
unfoldable pub reads_on : List ℕ → List ℕ → Bool
unfolding same_bytes cut_line
reads_on a b = (length b == 9) && same_bytes (take 9 (cut_line a).0) b

-- The reply of a reader in its supervisor area: negative, with the code 02.
unfoldable pub is_supervisor : Reply → Bool
is_supervisor reply = elim reply.reply_type [
  | negative_reply ↦ (reply.code_1 == 0x30) && (reply.code_0 == 0x32)
  | _ ↦ false
]

-- After the command that initialises the supervisor: only that reply is right.
unfoldable pub judge_supervisor : ReaderCode → Reply → Option UpdateError
judge_supervisor no_error reply = if is_supervisor reply then none else some update_unexpected
judge_supervisor code reply = some update_execution_failed

-- After the commands that initialise the reader, any reply is taken.
unfoldable pub judge_init : ReaderCode → Reply → Option UpdateError
judge_init no_error reply = none
judge_init code reply = some update_execution_failed

unfoldable pub end_with : Option UpdateError → PartEnd
end_with none = part_done
end_with (some e) = part_failed e

unfoldable pub part_end : (ReaderCode → Reply → Option UpdateError) → Outcome → PartEnd
part_end judge (returned code reply) = end_with (judge code reply)
part_end judge out_of_buffer = part_outside
part_end judge outcome = part_hangs

unfoldable pub area_part_end : AreaEnd → PartEnd
area_part_end area_changed = part_done
area_part_end area_outside = part_outside
area_part_end area_hangs = part_hangs
area_part_end (area_failed e) = part_failed e

unfoldable pub lines_part_end : UploadEnd → PartEnd
lines_part_end lines_sent = part_done
lines_part_end line_outside = part_outside
lines_part_end command_outside = part_outside
lines_part_end upload_hangs = part_hangs
lines_part_end (upload_failed e) = part_failed e

abbrev pub revision_command : Command
revision_command = record { command_code = 0x41; parameter_code = 0x31; data_body = [] }

-- Initialize for the supervisor, with SVInitData.
abbrev pub supervisor_command : Command
supervisor_command = record {
  command_code = 0x30;
  parameter_code = 0x30;
  data_body = 0x30 ∷ 0x30 ∷ 0x30 ∷ 0x30 ∷ 0x30 ∷ [];
}

-- J0 and J2.
abbrev pub j_command : ℕ → Command
j_command parameter = record { command_code = 0x4A; parameter_code = parameter; data_body = [] }
