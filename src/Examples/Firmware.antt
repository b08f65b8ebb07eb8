-- ===== src/Examples/Firmware.antt =====
-- A firmware file with a title and two commands, one without a line end, and a reader that changes its area.
use emulation_lib.Prelude.{ℕ, ◌≤◌, ◌↔◌, true, false, ◌≢◌, List, [], ◌∷◌, ◌≡◌, refl, arith, some}
use emulation_lib.Reader.Execute.{Port, Device}
use emulation_lib.Reader.Execute.RoundTrip.{ready, good_port, good_receptions}
use emulation_lib.Reader.Connect.{ConnectCalls}
use emulation_lib.Reader.Upload.{Upload, bin_type, convert, download_get_file_data, send_lines}
use emulation_lib.Reader.Upload.File.{
  text_of, buffer_of, has_return, download_get_file_data-fits_iff,
}
use emulation_lib.Reader.Upload.Lines.{Sends, commands_for, send_lines-Sends}
use emulation_lib.Reader.Upload.Exe.{update_firmware}
use emulation_lib.Reader.Upload.Parts.{UpdateCalls, part_out_of_fuel}
use emulation_lib.Reader.Upload.Closed.{IsClosed, update_firmware-IsClosed}
use emulation_lib.Reader.Upload.Turns.{update_firmware-one_turn}
use emulation_lib.Reader.Upload.Area.{IsChanged, area_change, area_change-IsChanged}
use emulation_lib.Examples.Transmission.{every_send, empty_reply}

abbrev title : List ℕ
title = 0x52 ∷ 0x65 ∷ 0x76 ∷ []

abbrev command_lines : List (List ℕ)
command_lines = (0x43 ∷ 0x4A ∷ 0x31 ∷ 0x41 ∷ []) ∷ (0x43 ∷ 0x4A ∷ 0x32 ∷ []) ∷ []

abbrev accepting : ℕ → Port
accepting i = good_port every_send (good_receptions 0x4A 0x31 0x30 0x30 [])

abbrev fresh_upload : Upload
fresh_upload = record { device = ready true; executions = 0; reply = empty_reply }

send_lines_example :
    (download_get_file_data true (text_of (title ∷ command_lines))
      ≡ some (buffer_of (title ∷ command_lines), 3))
    × Sends
        (commands_for bin_type command_lines)
        2
        (send_lines accepting 1 bin_type 3 (buffer_of (title ∷ command_lines)) fresh_upload)
send_lines_example =
    send_lines-Sends accepting 1 bin_type title command_lines fresh_upload
      (
        (refl, refl, (refl, refl, (refl, refl, tt))),
        (
          (refl, refl, (refl, refl, (refl, refl, (refl, refl, tt)))),
          ((refl, refl, (refl, refl, (refl, refl, tt))), tt),
        ),
      )
      (omega arith, (omega arith, tt))

unbroken : download_get_file_data true title ≡ some (0x52 ∷ 0x65 ∷ 0x76 ∷ 0 ∷ [], 0)
unfolding download_get_file_data convert
unbroken = refl

fits_iff_example : (4 ≤ 3) ↔ (has_return title ≡ true)
fits_iff_example = download_get_file_data-fits_iff title (0x52 ∷ 0x65 ∷ 0x76 ∷ 0 ∷ []) 0 unbroken

abbrev working : ConnectCalls
working = record {
  inits_own = true;
  inits_others = true;
  waits_connect = true;
  waits_command = true;
  opens = true;
  posts_command = true;
  posts_connect = true;
}

area_change_example :
    IsChanged 12 (area_change (λ i. working) 1 9600 (accepting 0) working (ready true) empty_reply)
area_change_example =
    area_change-IsChanged (λ i. working) 1 9600 (accepting 0) working (ready true) empty_reply

abbrev new_reader : Device
new_reader = record {
  connect_flag = false;
  cancel_flag = false;
  cancel_receive_flag = false;
  sem_command_execute = false;
  sem_connect = false;
  sem_command_cancel = false;
}

-- An update from the file `.bin` with a revision in its first line.
abbrev update_calls : UpdateCalls
update_calls = record {
  file_name = 0x2E ∷ 0x62 ∷ 0x69 ∷ 0x6E ∷ [];
  opens_for_info = true;
  opens_for_data = true;
  contents = text_of (title ∷ command_lines);
  allocates = true;
  init_command = record { command_code = 0x30; parameter_code = 0x31; data_body = [] };
  check_revision = false;
  first_connect = working;
  ports = accepting;
  area_disconnects = λ i. working;
  area_tries = λ i j. working;
  last_disconnect = working;
}

IsClosed_example : IsClosed (update_firmware update_calls 1 9600 1 new_reader empty_reply)
IsClosed_example = update_firmware-IsClosed update_calls 1 9600 1 new_reader empty_reply refl

one_turn_example :
    (update_firmware update_calls 1 9600 1 new_reader empty_reply).0 ≢ part_out_of_fuel
one_turn_example = update_firmware-one_turn update_calls 1 9600 refl 0 new_reader empty_reply
