-- ===== src/Reader/Upload.antt =====
-- The upload of firmware to the card reader, in ccr.origin/Prtcl_RS232C_8_FuncDef.c: DownloadGetFileInfo,
-- DownloadGetFileData, and the loop of DownloadExe that sends the lines of the file.
pub mod File
pub mod Lines
pub mod Area
pub mod Parts
pub mod Exe
pub mod Closed
pub mod Turns
use emulation_lib.Prelude.{
  ℕ, zero, suc, ◌+◌, ◌-◌, Bool, true, false, ◌&&◌, ◌||◌, not, Option, none, some, List, [], ◌∷◌,
  ◌++◌, length, get_or, drop, if◌then◌else◌, ◌==◌, ltb, leb,
}
use emulation_lib.Reader.{ReaderCode, no_error, max_data_array_size}
use emulation_lib.Reader.Execute.{
  ReplyType, unavailable, positive_reply, negative_reply, Reply, Command, Device, Port, Outcome,
  returned, out_of_buffer, execute_command,
}
use emulation_lib.Reader.Transmit.{Exchange}

pub data FileType : Type 0 where
  dwl_type bin_type dat_type : FileType

-- The errors of the update, without the prefix _RS232C_8_UPDATE_FIRMWARE.
pub data UpdateError : Type 0 where
  unknown_file_type cannot_open_file cannot_read_file unexpected_file_contents : UpdateError
  update_execution_failed update_negative_reply update_unexpected : UpdateError
  connect_device_failed disconnect_device_failed device_in_use : UpdateError
  no_memory_region identical_revision : UpdateError

-- strrchr with a dot: the name from its last dot on.
unfoldable pub extension : List ℕ → Option (List ℕ)
extension [] = none
extension (c ∷ cs) = elim (extension cs) [
  | some e ↦ some e
  | none ↦ if c == 0x2E then some (c ∷ cs) else none
]

-- strcasecmp.
unfoldable pub lower_case : ℕ → ℕ
lower_case c = if leb 0x41 c && leb c 0x5A then c + 0x20 else c

unfoldable pub same_letters : List ℕ → List ℕ → Bool
same_letters [] [] = true
same_letters (a ∷ xs) (b ∷ ys) = (lower_case a == lower_case b) && same_letters xs ys
same_letters _ _ = false

unfoldable pub file_type : List ℕ → Option FileType
file_type e =
    if same_letters e (0x2E ∷ 0x64 ∷ 0x77 ∷ 0x6C ∷ [])
    then some dwl_type
    else if same_letters e (0x2E ∷ 0x62 ∷ 0x69 ∷ 0x6E ∷ [])
    then some bin_type
    else if same_letters e (0x2E ∷ 0x64 ∷ 0x61 ∷ 0x74 ∷ [])
    then some dat_type
    else none

pub data FileInfo : Type 0 where
  info_failed : UpdateError → FileInfo
  file_info : FileType → ℕ → FileInfo

unfoldable pub sized_info : Bool → FileType → List ℕ → FileInfo
sized_info false t contents = info_failed cannot_open_file
sized_info true t [] = info_failed cannot_read_file
sized_info true t contents = file_info t (length contents)

unfoldable pub typed_info : Bool → List ℕ → Option FileType → FileInfo
typed_info opens contents none = info_failed unknown_file_type
typed_info opens contents (some t) = sized_info opens t contents

-- By the name, whether the file opens, and what fgetc gives.
unfoldable pub download_get_file_info : List ℕ → Bool → List ℕ → FileInfo
download_get_file_info name opens contents = elim (extension name) [
  | none ↦ info_failed unknown_file_type
  | some e ↦ typed_info opens contents (file_type e)
]

-- The loop of DownloadGetFileData: the bytes that are written, and the number of lines. The Boolean says that
-- the last character was a carriage return.
unfoldable pub convert : Bool → List ℕ → List ℕ × ℕ
convert returned_before [] = (0 ∷ [], 0)
convert true (c ∷ cs) =
    let rest = convert false cs in if c == 0x0A then (0 ∷ rest.0, rest.1 + 1) else rest
convert false (c ∷ cs) =
    let line_ends = convert true cs in
    let rest = convert false cs in if c == 0x0D then line_ends else (c ∷ rest.0, rest.1)

unfoldable pub download_get_file_data : Bool → List ℕ → Option (List ℕ × ℕ)
download_get_file_data false contents = none
download_get_file_data true contents = some (convert false contents)

-- What is at pIndex up to the next zero, and what is behind it.
unfoldable pub cut_line : List ℕ → List ℕ × List ℕ
cut_line [] = ([], [])
cut_line (c ∷ cs) = let rest = cut_line cs in if c == 0 then ([], cs) else (c ∷ rest.0, rest.1)

unfoldable pub line_command : FileType → List ℕ → Option Command
line_command dat_type line =
    some (record { command_code = 0x4A; parameter_code = 0x31; data_body = line })
line_command t line =
    if ltb (length line) 3
    then none
    else if not (get_or line 0 0 == 0x43)
    then none
    else some (record {
      command_code = get_or line 1 0;
      parameter_code = get_or line 2 0;
      data_body = drop 3 line;
    })

unfoldable pub judge_update : ReaderCode → Reply → Option UpdateError
judge_update no_error reply = elim reply.reply_type [
  | negative_reply ↦ some update_negative_reply
  | unavailable ↦ some update_unexpected
  | positive_reply ↦ none
]
judge_update code reply = some update_execution_failed

-- The information on the port, the reply, and how many commands were executed.
pub record Upload : Type 0 where
  pub device : Device
  pub executions : ℕ
  pub reply : Reply

-- `line_outside`: a line is longer than LineBuffer. `upload_hangs`: RS232C_8_ExecuteCommand does not return.
-- `command_outside`: it writes or reads bytes outside of a buffer of its own.
pub data UploadEnd : Type 0 where
  lines_sent line_outside upload_hangs command_outside : UploadEnd
  upload_failed : UpdateError → UploadEnd

pub record UploadRun : Type 0 where
  pub end : UploadEnd
  pub upload : Upload
  pub exchanges : List Exchange

-- After a command: nothing, if the reader accepts it, or the end.
unfoldable pub update_end : Option UpdateError → Option UploadEnd
update_end none = none
update_end (some e) = some (upload_failed e)

unfoldable pub end_of : Outcome → Option UploadEnd
end_of (returned code reply) = update_end (judge_update code reply)
end_of out_of_buffer = some command_outside
end_of outcome = some upload_hangs

unfoldable pub reply_of : Outcome → Reply → Reply
reply_of (returned code reply) old = reply
reply_of outcome old = old

unfoldable pub with_exchange : Exchange → UploadRun → UploadRun
with_exchange e run = record run { exchanges = e ∷ run.exchanges }

unfoldable pub upload_ends : UploadEnd → Upload → UploadRun
upload_ends end u = record { end = end; upload = u; exchanges = [] }

-- The next line, or the end, is the second argument.
unfoldable pub after_line : Upload → (Upload → UploadRun) → Option UploadEnd → UploadRun
after_line u rest none = rest u
after_line u rest (some end) = upload_ends end u

module _ (ports : ℕ → Port) (port : ℕ) where
  unfoldable pub execute_line : Upload → Command → (Upload → UploadRun) → UploadRun
  execute_line u command rest =
      let run = execute_command (ports u.executions) port u.device command u.reply in
      let u' : Upload = record {
        device = run.device;
        executions = u.executions + 1;
        reply = reply_of run.outcome u.reply;
      } in
      with_exchange (record { command = command; outcome = run.outcome })
        (after_line u' rest (end_of run.outcome))

  -- A line that is a command, or one that is not.
  unfoldable pub send_line : Upload → (Upload → UploadRun) → Option Command → UploadRun
  send_line u rest none = upload_ends (upload_failed unexpected_file_contents) u
  send_line u rest (some command) = execute_line u command rest

  -- The turns of the loop after the first.
  unfoldable pub lines_loop : FileType → ℕ → List ℕ → Upload → UploadRun
  lines_loop t zero buffer u = upload_ends lines_sent u
  lines_loop t (suc n) buffer u =
      let line = cut_line buffer in
      if ltb (length line.0) (max_data_array_size + 1)
      then send_line u (lines_loop t n line.1) (line_command t line.0)
      else upload_ends line_outside u

  -- The first line is skipped.
  unfoldable pub send_lines : FileType → ℕ → List ℕ → Upload → UploadRun
  send_lines t zero buffer u = upload_ends lines_sent u
  send_lines t (suc n) buffer u = lines_loop t n (cut_line buffer).1 u
