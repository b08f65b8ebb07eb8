-- ===== src/Reader/Upload/Turns.antt =====
-- The loop of DownloadExe over the modes of the reader needs one turn where revisions are not compared.
use emulation_lib.Prelude.{ℕ, suc, false, Option, none, some, List, ◌≡◌, ◌≢◌, if-both, if-else, ltb}
use emulation_lib.Reader.{ReaderCode, no_error}
use emulation_lib.Reader.Execute.{
  ReplyType, unavailable, positive_reply, negative_reply, Reply, Command, Device, Outcome, returned,
  out_of_buffer,
}
use emulation_lib.Reader.Upload.{
  FileType, dat_type, UpdateError, FileInfo, info_failed, file_info, UploadEnd, lines_sent,
  line_outside, upload_hangs, command_outside, upload_failed,
}
use emulation_lib.Reader.Upload.Area.{AreaEnd, area_changed, area_hangs, area_outside, area_failed}
use emulation_lib.Reader.Upload.Exe.{
  execute_in, change_area, check_user, leave_user, by_reply, detect_mode, mode_loop, execute_dat,
  lines_part, download, with_revision, with_data, with_info, exit, connected_update, download_exe,
  update_firmware,
}
use emulation_lib.Reader.Upload.Parts.{
  UpdateCalls, PartEnd, part_done, part_failed, part_outside, part_out_of_fuel, Update, Part,
  and_then, is_supervisor, judge_init, end_with, part_end, area_part_end, lines_part_end,
}

abbrev IsWithin : Part → Type 0
IsWithin p = p.0 ≢ part_out_of_fuel

and_then-IsWithin :
    (p : Part) (rest : Update → Part)
    → IsWithin p
    → ((u : Update) → IsWithin (rest u))
    → IsWithin (and_then p rest)
unfolding and_then
and_then-IsWithin (part_done, u) rest h k = k u
and_then-IsWithin (end, u) rest h k = h

end_with-within : (o : Option UpdateError) → end_with o ≢ part_out_of_fuel
unfolding end_with
end_with-within none = λ z. cc
end_with-within (some e) = λ z. cc

part_end-within :
    (judge : ReaderCode → Reply → Option UpdateError) (o : Outcome)
    → part_end judge o ≢ part_out_of_fuel
unfolding part_end
part_end-within judge (returned code reply) = end_with-within (judge code reply)
part_end-within judge out_of_buffer = λ z. cc
part_end-within judge o = λ z. cc

area_part_end-within : (e : AreaEnd) → area_part_end e ≢ part_out_of_fuel
unfolding area_part_end
area_part_end-within area_changed = λ z. cc
area_part_end-within area_outside = λ z. cc
area_part_end-within area_hangs = λ z. cc
area_part_end-within (area_failed e) = λ z. cc

lines_part_end-within : (e : UploadEnd) → lines_part_end e ≢ part_out_of_fuel
unfolding lines_part_end
lines_part_end-within lines_sent = λ z. cc
lines_part_end-within line_outside = λ z. cc
lines_part_end-within command_outside = λ z. cc
lines_part_end-within upload_hangs = λ z. cc
lines_part_end-within (upload_failed e) = λ z. cc

module _ (io : UpdateCalls) (port baudrate : ℕ) (apart : io.check_revision ≡ false) where
  execute_in-IsWithin :
      (judge : ReaderCode → Reply → Option UpdateError) (command : Command) (u : Update)
      → IsWithin (execute_in io port baudrate judge command u)
  unfolding execute_in
  execute_in-IsWithin judge command u = part_end-within judge _

  change_area-IsWithin : (u : Update) → IsWithin (change_area io port baudrate u)
  unfolding change_area
  change_area-IsWithin u = area_part_end-within _

  leave_user-IsWithin :
      (revision : List ℕ) (u : Update) → IsWithin (leave_user io port baudrate revision u)
  unfolding leave_user check_user
  leave_user-IsWithin revision u =
      and_then-IsWithin _ _
        (and_then-IsWithin _ _ (if-else IsWithin io.check_revision _ (part_done, u) apart (λ z. cc))
          change_area-IsWithin)
        (execute_in-IsWithin _ _)

  by_reply-IsWithin :
      (kind : ReplyType) (u : Update) (rest : Part)
      → IsWithin rest
      → IsWithin (by_reply io port baudrate kind u rest)
  unfolding by_reply
  by_reply-IsWithin unavailable u rest h = λ z. cc
  by_reply-IsWithin positive_reply u rest h = h
  by_reply-IsWithin negative_reply u rest h = h

  detect_mode-IsWithin :
      (again : Update → Part) (revision : List ℕ) (u : Update)
      → IsWithin (detect_mode io port baudrate again revision u)
  unfolding detect_mode
  detect_mode-IsWithin again revision u =
      if-both IsWithin (is_supervisor u.upload.reply) _ _
        (if-else IsWithin io.check_revision _ (part_done, u) apart (λ z. cc))
        (by_reply-IsWithin u.upload.reply.reply_type u _ (leave_user-IsWithin revision u))

  mode_loop-IsWithin :
      (fuel : ℕ) (revision : List ℕ) (u : Update)
      → IsWithin (mode_loop io port baudrate (suc fuel) revision u)
  unfolding mode_loop
  mode_loop-IsWithin fuel revision u =
      and_then-IsWithin _ _ (execute_in-IsWithin judge_init io.init_command u)
        (detect_mode-IsWithin _ revision)

  execute_dat-IsWithin :
      (t : FileType) (command : Command) (u : Update)
      → IsWithin (execute_dat io port baudrate t command u)
  unfolding execute_dat
  execute_dat-IsWithin dat_type command u = execute_in-IsWithin _ command u
  execute_dat-IsWithin t command u = λ z. cc

  lines_part-IsWithin :
      (t : FileType) (lines : ℕ) (buffer : List ℕ) (u : Update)
      → IsWithin (lines_part io port baudrate t lines buffer u)
  unfolding lines_part
  lines_part-IsWithin t lines buffer u = lines_part_end-within _

  download-IsWithin :
      (t : FileType) (lines : ℕ) (buffer : List ℕ) (u : Update)
      → IsWithin (download io port baudrate t lines buffer u)
  unfolding download
  download-IsWithin t lines buffer u =
      and_then-IsWithin _ _
        (and_then-IsWithin _ _
          (and_then-IsWithin _ _
            (and_then-IsWithin _ _ (execute_dat-IsWithin t _ u)
              (lines_part-IsWithin t lines buffer))
            (execute_dat-IsWithin t _))
          change_area-IsWithin)
        (execute_in-IsWithin _ _)

  with_revision-IsWithin :
      (fuel : ℕ) (t : FileType) (lines : ℕ) (buffer : List ℕ) (u : Update) (o : Option (List ℕ))
      → IsWithin (with_revision io port baudrate (suc fuel) t lines buffer u o)
  unfolding with_revision
  with_revision-IsWithin fuel t lines buffer u none = λ z. cc
  with_revision-IsWithin fuel t lines buffer u (some revision) =
      and_then-IsWithin _ _ (mode_loop-IsWithin fuel revision u) (download-IsWithin t lines buffer)

  with_data-IsWithin :
      (fuel : ℕ) (t : FileType) (size : ℕ) (u : Update) (o : Option (List ℕ × ℕ))
      → IsWithin (with_data io port baudrate (suc fuel) t size u o)
  unfolding with_data
  with_data-IsWithin fuel t size u none = λ z. cc
  with_data-IsWithin fuel t size u (some (buffer, lines)) =
      if-both IsWithin (ltb size _) (part_outside, u) _ (λ z. cc)
        (with_revision-IsWithin fuel t lines buffer u _)

  with_info-IsWithin :
      (fuel : ℕ) (u : Update) (i : FileInfo) → IsWithin (with_info io port baudrate (suc fuel) u i)
  unfolding with_info
  with_info-IsWithin fuel u (info_failed e) = λ z. cc
  with_info-IsWithin fuel u (file_info t size) =
      if-both IsWithin io.allocates _ _ (with_data-IsWithin fuel t size u _) (λ z. cc)

  exit-within : (p : Part) → IsWithin p → (exit io port baudrate p).0 ≢ part_out_of_fuel
  unfolding exit
  exit-within (part_done, u) h = h
  exit-within (part_failed e, u) h = h
  exit-within (end, u) h = h

  connected_update-within :
      (fuel : ℕ) (reply : Reply) (code : ReaderCode) (d : Device)
      → (connected_update io port baudrate (suc fuel) reply code d).0 ≢ part_out_of_fuel
  unfolding connected_update
  connected_update-within fuel reply no_error d = exit-within _ (with_info-IsWithin fuel _ _)
  connected_update-within fuel reply code d = λ z. cc

  -- Where revisions are not compared, RS232C_8_UpdateFirmware looks once at the mode of the reader: one turn of
  -- that loop is enough, whatever the reader answers.
  pub update_firmware-one_turn :
      (fuel : ℕ) (d : Device) (reply : Reply)
      → (update_firmware io port baudrate (suc fuel) d reply).0 ≢ part_out_of_fuel
  unfolding update_firmware download_exe
  update_firmware-one_turn fuel d reply =
      if-both (λ (r : PartEnd × Device). r.0 ≢ part_out_of_fuel) d.connect_flag _ _ (λ z. cc)
        (connected_update-within fuel reply _ _)
