-- ===== src/Reader/Upload/Lines.antt =====
-- The commands that the lines of a firmware file become.
use emulation_lib.Prelude.{
  ℕ, suc, ◌+◌, ◌≤◌, true, false, not, ◌==◌, if◌then◌else◌, inl, inr, Bool-cases, Option, none, some,
  List, [], ◌∷◌, ◌++◌, map, ◌≡◌, ◌≢◌, refl, ap, subst, ◌∙◌, arith, length, ltb,
}
use mathlib.Core.Option.{some_inj}
use emulation_lib.Reader.{max_data_array_size}
use emulation_lib.Reader.Execute.{Command, Port, Outcome, returned, out_of_buffer, execute_command}
use emulation_lib.Reader.Transmit.{Exchange}
use emulation_lib.Reader.Upload.{
  FileType, dat_type, bin_type, dwl_type, UpdateError, update_end, download_get_file_data,
  line_command, Upload, UploadEnd, lines_sent, upload_hangs, line_outside, upload_failed, UploadRun,
  judge_update, end_of, with_exchange, upload_ends, after_line, execute_line, send_line, lines_loop,
  send_lines,
}
use emulation_lib.Reader.Upload.File.{AllPlain, text_of, buffer_of, convert-text_of, cut_line-line}

-- The lines fit in the line buffer.
abbrev pub AllShort : List (List ℕ) → Type 0
AllShort [] = Unit {0}
AllShort (l ∷ ls) = (length l ≤ max_data_array_size) × AllShort ls

-- The command of a line: `C`, the two codes and the data; for a .dat file J1 with the line as data.
abbrev pub expected_command : FileType → List ℕ → Option Command
expected_command dat_type line =
    some (record { command_code = 0x4A; parameter_code = 0x31; data_body = line })
expected_command t (c ∷ code ∷ parameter ∷ bytes) =
    if c == 0x43
    then some (record { command_code = code; parameter_code = parameter; data_body = bytes })
    else none
expected_command t line = none

-- The two tests of a line that has the codes.
starts_with_c :
    (c code parameter : ℕ) (bytes : List ℕ)
    → (if ltb (length (c ∷ code ∷ parameter ∷ bytes)) 3
        then none
        else if not (c == 0x43)
        then none
        else some (record { command_code = code; parameter_code = parameter; data_body = bytes }))
      ≡ expected_command bin_type (c ∷ code ∷ parameter ∷ bytes)
starts_with_c c code parameter bytes =
    let long : ltb (length (c ∷ code ∷ parameter ∷ bytes)) 3 ≡ false = ground arith in
    elim (Bool-cases (c == 0x43)) [ inl e ↦ rw (long, e) refl | inr e ↦ rw (long, e) refl ]

line_command-expected :
    (t : FileType) (line : List ℕ) → line_command t line ≡ expected_command t line
unfolding line_command
line_command-expected dat_type line = refl
line_command-expected dwl_type [] = refl
line_command-expected dwl_type (a ∷ []) = refl
line_command-expected dwl_type (a ∷ b ∷ []) = refl
line_command-expected dwl_type (c ∷ code ∷ parameter ∷ bytes) = starts_with_c c code parameter bytes
line_command-expected bin_type [] = refl
line_command-expected bin_type (a ∷ []) = refl
line_command-expected bin_type (a ∷ b ∷ []) = refl
line_command-expected bin_type (c ∷ code ∷ parameter ∷ bytes) = starts_with_c c code parameter bytes

-- The commands of lines, up to the first line that is not one.
abbrev before : Option Command → List Command → List Command
before none cs = []
before (some c) cs = c ∷ cs

abbrev pub commands_for : FileType → List (List ℕ) → List Command
commands_for t [] = []
commands_for t (l ∷ ls) = before (expected_command t l) (commands_for t ls)

abbrev pub sent_in : UploadRun → List Command
sent_in run = map (λ (e : Exchange). e.command) run.exchanges

-- The commands that a run executes are the first of those given, and where it ends well, they are all of them, and
-- as many as the lines. No byte is written behind the line buffer.
abbrev pub Sends : List Command → ℕ → UploadRun → Type 0
Sends commands lines run =
    ((rest : List Command) × (commands ≡ sent_in run ++ rest))
    × (run.end ≡ lines_sent → (sent_in run ≡ commands) × (length (sent_in run) ≡ lines))
    × (run.end ≢ line_outside)

update_end-NotSent :
    (e : Option UpdateError) (end : UploadEnd)
    → update_end e ≡ some end
    → (end ≢ lines_sent) × (end ≢ line_outside)
unfolding update_end
update_end-NotSent none end h = absurd cc
update_end-NotSent (some e) end h =
    (λ s. absurd (differ (some_inj.0 h ∙ s)), λ s. absurd (differ' (some_inj.0 h ∙ s)))
  where
    differ : upload_failed e ≢ lines_sent
    differ z = cc

    differ' : upload_failed e ≢ line_outside
    differ' z = cc

module _ (ports : ℕ → Port) (port : ℕ) (commands : List Command) (lines : ℕ)
    (rest : Upload → UploadRun) (sends : (u : Upload) → Sends commands lines (rest u)) where
  after_line-Sends :
      (u : Upload) (e : Exchange) (o : Option UploadEnd)
      → ((end : UploadEnd) → o ≡ some end → (end ≢ lines_sent) × (end ≢ line_outside))
      → Sends (e.command ∷ commands) (suc lines) (with_exchange e (after_line u rest o))
  unfolding with_exchange after_line upload_ends
  after_line-Sends u e none h =
      let (begun, ends, inside) = sends u in
      (
        (begun.0, ap (λ (cs : List Command). e.command ∷ cs) (begun.1)),
        λ s.
            let whole = ends s in
            (ap (λ (cs : List Command). e.command ∷ cs) (whole.0), ap suc (whole.1)),
        inside,
      )
  after_line-Sends u e (some end) h =
      let ended = h end refl in ((commands, refl), λ s. absurd (ended.0 s), ended.1)

  end_of-NotSent :
      (o : Outcome) (end : UploadEnd)
      → end_of o ≡ some end
      → (end ≢ lines_sent) × (end ≢ line_outside)
  unfolding end_of
  end_of-NotSent (returned code reply) end h = update_end-NotSent (judge_update code reply) end h
  end_of-NotSent out_of_buffer end h =
      subst (λ (x : UploadEnd). (x ≢ lines_sent) × (x ≢ line_outside)) (some_inj.0 h)
        ((λ z. cc), (λ z. cc))
  end_of-NotSent o end h =
      subst (λ (x : UploadEnd). (x ≢ lines_sent) × (x ≢ line_outside)) (some_inj.0 h)
        (hangs_not_sent, hangs_not_outside)
    where
      hangs_not_sent : upload_hangs ≢ lines_sent
      hangs_not_sent z = cc

      hangs_not_outside : upload_hangs ≢ line_outside
      hangs_not_outside z = cc

  send_line-Sends :
      (u : Upload) (o : Option Command)
      → Sends (before o commands) (suc lines) (send_line ports port u rest o)
  unfolding send_line execute_line upload_ends
  send_line-Sends u none = (([], refl), (λ s. absurd cc), (λ s. cc))
  send_line-Sends u (some c) =
      let run = execute_command (ports u.executions) port u.device c u.reply in
      after_line-Sends _ (record { command = c; outcome = run.outcome }) (end_of run.outcome)
        (end_of-NotSent run.outcome)

module _ (ports : ℕ → Port) (port : ℕ) (t : FileType) where
  lines_loop-Sends :
      (ls : List (List ℕ)) (u : Upload)
      → AllPlain ls
      → AllShort ls
      → Sends (commands_for t ls) (length ls) (lines_loop ports port t (length ls) (buffer_of ls) u)
  unfolding lines_loop upload_ends
  lines_loop-Sends [] u p s = (([], refl), (λ e. (refl, refl)), (λ e. cc))
  lines_loop-Sends (l ∷ ls) u (p, ps) (s, ss) =
      let short : ltb (length l) (max_data_array_size + 1) ≡ true = ground (arith, s) in
      rw (cut_line-line l (buffer_of ls) p, short)
        (subst
          (λ (o : Option Command). Sends (before o (commands_for t ls)) (suc (length ls)) (
            send_line ports port u (lines_loop ports port t (length ls) (buffer_of ls))
              (line_command t l)))
          (line_command-expected t l)
          (send_line-Sends ports port (commands_for t ls) (length ls)
            (lines_loop ports port t (length ls) (buffer_of ls))
            (λ u'. lines_loop-Sends ls u' ps ss) u (line_command t l)))

  -- For a file of lines without zeros and carriage returns, each ended by a carriage return and a line feed, where
  -- those after the first have at most 1024 bytes each: what DownloadGetFileData reads are these lines, and the
  -- loop of DownloadExe stays inside of its line buffer and executes the first of the commands of the lines after the first,
  -- in their order, and none behind a line that is no command; where it ends without an error, every one of
  -- these lines was a command and was executed. In a .dat file a line is the data of J1; in the others a line is a
  -- command where it has at least three characters and begins with `C`, the next two are its codes, and the
  -- others its data.
  pub send_lines-Sends :
      (first : List ℕ) (ls : List (List ℕ)) (u : Upload)
      → AllPlain (first ∷ ls)
      → AllShort ls
      → (download_get_file_data true (text_of (first ∷ ls))
          ≡ some (buffer_of (first ∷ ls), length (first ∷ ls)))
        × Sends
            (commands_for t ls)
            (length ls)
            (send_lines ports port t (length (first ∷ ls)) (buffer_of (first ∷ ls)) u)
  unfolding send_lines download_get_file_data
  send_lines-Sends first ls u (p, ps) ss = (
    ap some (convert-text_of (first ∷ ls) (p, ps)),
    rw (cut_line-line first (buffer_of ls) p) (lines_loop-Sends ls u ps ss),
  )
