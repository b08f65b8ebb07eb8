-- ===== src/Reader/Upload/Exe.antt =====
-- DownloadExe of ccr.origin/Prtcl_RS232C_8_FuncDef.c and RS232C_8_UpdateFirmware of ccr.origin/Prtcl_RS232C_8.c:
-- the sequence around the reading of the file, the lines and the changes of the area. The progress display
-- is left out.
use emulation_lib.Prelude.{ℕ, zero, suc, ◌+◌, Option, none, some, List, length, if◌then◌else◌, ltb}
use emulation_lib.Reader.{ReaderCode, no_error, device_already_connected}
use emulation_lib.Reader.Execute.{
  ReplyType, unavailable, positive_reply, negative_reply, Reply, Command, Device, execute_command,
}
use emulation_lib.Reader.Connect.{connect_device, disconnect_device}
use emulation_lib.Reader.Upload.{
  FileType, dat_type, UpdateError, update_unexpected, cannot_open_file, unexpected_file_contents,
  connect_device_failed, device_in_use, no_memory_region, identical_revision, FileInfo, info_failed,
  file_info, download_get_file_info, download_get_file_data, judge_update, reply_of, send_lines,
}
use emulation_lib.Reader.Transmit.{reply_data}
use emulation_lib.Reader.Upload.Area.{area_change}
use emulation_lib.Reader.Upload.Parts.{
  Part, PartEnd, Update, UpdateCalls, and_then, area_part_end, find_revision, is_supervisor,
  j_command, judge_init, judge_supervisor, lines_part_end, part_done, part_end, part_failed,
  part_out_of_fuel, part_outside, reads_on, revision_command, same_revision, supervisor_command,
}

module _ (io : UpdateCalls) (port baudrate : ℕ) where
  unfoldable pub execute_in : (ReaderCode → Reply → Option UpdateError) → Command → Update → Part
  execute_in judge command u =
      let n = u.upload.executions in
      let run = execute_command (io.ports n) port u.upload.device command u.upload.reply in
      (
        part_end judge run.outcome,
        record u {
          upload = record {
            device = run.device;
            executions = n + 1;
            reply = reply_of run.outcome u.upload.reply;
          };
        },
      )

  unfoldable pub change_area : Update → Part
  change_area u =
      let n = u.upload.executions in
      let run =
        area_change (io.area_tries u.areas) port baudrate (io.ports n) (io.area_disconnects u.areas)
          u.upload.device u.upload.reply in
      (
        area_part_end run.end,
        record {
          upload = record { device = run.device; executions = n + 1; reply = u.upload.reply };
          areas = u.areas + 1;
        },
      )

  -- The revision of the reader, which is copied into 16 bytes and ended by a zero, against that of the file.
  unfoldable pub compare_revision : List ℕ → Update → Part
  compare_revision revision u =
      if ltb 15 u.upload.reply.size
      then (part_outside, u)
      else if reads_on (reply_data u.upload.reply) revision
      then (part_outside, u)
      else if same_revision (reply_data u.upload.reply) revision
      then (part_failed identical_revision, u)
      else (part_done, u)

  unfoldable pub check_user : List ℕ → Update → Part
  check_user revision u =
      if io.check_revision
      then and_then (execute_in judge_update revision_command u) (compare_revision revision)
      else (part_done, u)

  -- The reader is in its user area.
  unfoldable pub leave_user : List ℕ → Update → Part
  leave_user revision u =
      and_then (and_then (check_user revision u) change_area)
        (execute_in judge_supervisor supervisor_command)

  unfoldable pub by_reply : ReplyType → Update → Part → Part
  by_reply unavailable u rest = (part_failed update_unexpected, u)
  by_reply positive_reply u rest = rest
  by_reply negative_reply u rest = rest

  -- After the initialisation; the first argument is the rest of the loop.
  unfoldable pub detect_mode : (Update → Part) → List ℕ → Update → Part
  detect_mode again revision u =
      if is_supervisor u.upload.reply
      then (if io.check_revision then and_then (change_area u) again else (part_done, u))
      else by_reply u.upload.reply.reply_type u (leave_user revision u)

  -- for( ;; ), with its turns bounded by fuel.
  unfoldable pub mode_loop : ℕ → List ℕ → Update → Part
  mode_loop zero revision u = (part_out_of_fuel, u)
  mode_loop (suc fuel) revision u =
      and_then (execute_in judge_init io.init_command u)
        (detect_mode (mode_loop fuel revision) revision)

  unfoldable pub execute_dat : FileType → Command → Update → Part
  execute_dat dat_type command u = execute_in judge_update command u
  execute_dat t command u = (part_done, u)

  unfoldable pub lines_part : FileType → ℕ → List ℕ → Update → Part
  lines_part t lines buffer u =
      let run = send_lines io.ports port t lines buffer u.upload in
      (lines_part_end run.end, record u { upload = run.upload })

  -- Download Start, up to the last initialisation.
  unfoldable pub download : FileType → ℕ → List ℕ → Update → Part
  download t lines buffer u =
      and_then
        (and_then
          (and_then (and_then (execute_dat t (j_command 0x30) u) (lines_part t lines buffer))
            (execute_dat t (j_command 0x32)))
          change_area)
        (execute_in judge_init io.init_command)

  unfoldable pub with_revision : ℕ → FileType → ℕ → List ℕ → Update → Option (List ℕ) → Part
  with_revision fuel t lines buffer u none = (part_failed unexpected_file_contents, u)
  with_revision fuel t lines buffer u (some revision) =
      and_then (mode_loop fuel revision u) (download t lines buffer)

  -- The data are written to a buffer of the size of the file.
  unfoldable pub with_data : ℕ → FileType → ℕ → Update → Option (List ℕ × ℕ) → Part
  with_data fuel t size u none = (part_failed cannot_open_file, u)
  with_data fuel t size u (some (buffer, lines)) =
      if ltb size (length buffer)
      then (part_outside, u)
      else with_revision fuel t lines buffer u (find_revision buffer)

  unfoldable pub with_info : ℕ → Update → FileInfo → Part
  with_info fuel u (info_failed e) = (part_failed e, u)
  with_info fuel u (file_info t size) =
      if io.allocates
      then with_data fuel t size u (download_get_file_data io.opens_for_data io.contents)
      else (part_failed no_memory_region, u)

  -- The label _EXIT: the device is disconnected, whatever that returns. A part that does not return or that
  -- writes outside of a buffer does not come here.
  unfoldable pub exit : Part → PartEnd × Device
  exit (part_done, u) = (part_done, (disconnect_device io.last_disconnect port u.upload.device).1)
  exit (part_failed e, u) =
      (part_failed e, (disconnect_device io.last_disconnect port u.upload.device).1)
  exit (end, u) = (end, u.upload.device)

  unfoldable pub connected_update : ℕ → Reply → ReaderCode → Device → PartEnd × Device
  connected_update fuel reply no_error d = exit (
      with_info fuel
        (record { upload = record { device = d; executions = 0; reply = reply }; areas = 0 })
        (download_get_file_info io.file_name io.opens_for_info io.contents))
  connected_update fuel reply device_already_connected d = (part_failed device_in_use, d)
  connected_update fuel reply code d = (part_failed connect_device_failed, d)

  unfoldable pub download_exe : ℕ → Device → Reply → PartEnd × Device
  download_exe fuel d reply =
      let r = connect_device io.first_connect port baudrate d in
      if d.connect_flag then (part_failed device_in_use, d) else connected_update fuel reply r.0 r.1

  unfoldable pub update_firmware : ℕ → Device → Reply → PartEnd × Device
  update_firmware = download_exe
