-- ===== src/Reader/Transmit/Cases.antt =====
-- The ways in which a command of TransmitControl can end, for the proofs about the transmission.
use emulation_lib.Prelude.{
  ℕ, ◌+◌, Option, none, some, List, [], ◌∷◌, take, ◌≡◌, refl, ap, ◌∙◌, inl, inr, ◌⊎◌, bit_or, ◌==◌,
  if◌then◌else◌, Bool-cases,
}
use emulation_lib.Reader.{ReaderCode, no_error}
use emulation_lib.Reader.Execute.{
  ReplyType, positive_reply, negative_reply, unavailable, Reply, Command, Device, Port, Outcome,
  returned, out_of_buffer, execute_command,
}
use emulation_lib.Reader.Transmit.{
  TransmitError, Session, Control, goes_on, fails, never_returns, overruns, ControlRun, release,
  judge_reply, judged, after_execution, execute_part,
}

-- The session after a command, before what it sent is taken off.
abbrev pub answered : Session → Device → ℕ → Reply → ReaderCode → Session
answered s d n reply code = record s {
  device = d;
  executions = n;
  reply = reply;
  additional_error_code = code;
}

abbrev pub went_on : Session → Reply → Session
went_on s reply = record s { last_time_parameter_code = reply.parameter_code }

-- What is taken from Body after a command that the reader executed without an error.
abbrev pub good_data : Reply → Option TransmitError → List ℕ
good_data reply (some e) = []
good_data reply none = take reply.size reply.body

-- The same by the kind of the reply: positive, and without the code of an abort request.
abbrev pub kind_data : ℕ → Reply → ReplyType → List ℕ
kind_data flag reply positive_reply =
    if bit_or 0x0F flag == reply.parameter_code then [] else take reply.size reply.body
kind_data flag reply kind = []

abbrev pub answer_data : ℕ → Outcome → List ℕ
answer_data flag (returned no_error reply) = kind_data flag reply reply.reply_type
answer_data flag o = []

reply_type-kinds :
    (t : ReplyType) → (t ≡ positive_reply) ⊎ ((t ≡ negative_reply) ⊎ (t ≡ unavailable))
reply_type-kinds positive_reply = inl refl
reply_type-kinds negative_reply = inr (inl refl)
reply_type-kinds unavailable = inr (inr refl)

pub answer_data-judge_reply :
    (flag : ℕ) (code : ReaderCode) (reply : Reply)
    → answer_data flag (returned code reply) ≡ good_data reply (judge_reply flag code reply)
unfolding judge_reply
answer_data-judge_reply flag no_error reply = elim (reply_type-kinds reply.reply_type) [
  | inl e ↦
      rw (judge_reply, e)
        (elim (Bool-cases (bit_or 0x0F flag == reply.parameter_code)) [
          | inl aborts ↦ rw aborts refl
          | inr goes ↦ rw goes refl
        ])
  | inr (inl e) ↦ rw (judge_reply, e) refl
  | inr (inr e) ↦ rw (judge_reply, e) refl
]
answer_data-judge_reply flag code reply = refl

pub judge_reply-no_error :
    (flag : ℕ) (code : ReaderCode) (reply : Reply)
    → judge_reply flag code reply ≡ none
    → code ≡ no_error
unfolding judge_reply
judge_reply-no_error flag no_error reply h = refl
judge_reply-no_error flag code reply h = absurd cc

module _ {ℓ} (P : ControlRun → Type ℓ) (ports : ℕ → Port) (port flag : ℕ) (s : Session)
    (command : Command) (update : Session → Session)
    (fail : (d : Device) (n : ℕ) (reply : Reply) (code : ReaderCode) (e : TransmitError)
        (o : Outcome)
      → answer_data flag o ≡ []
      → P (record {
        control = fails e;
        session = release (answered s d n reply code);
        exchanges = record { command = command; outcome = o } ∷ [];
      }))
    (hang : (d : Device) (n : ℕ) (o : Outcome)
      → answer_data flag o ≡ []
      → P (record {
        control = never_returns;
        session = answered s d n s.reply s.additional_error_code;
        exchanges = record { command = command; outcome = o } ∷ [];
      }))
    (overrun : (d : Device) (n : ℕ) (o : Outcome)
      → answer_data flag o ≡ []
      → P (record {
        control = overruns;
        session = answered s d n s.reply s.additional_error_code;
        exchanges = record { command = command; outcome = o } ∷ [];
      }))
    (go : (d : Device) (n : ℕ) (reply : Reply) (code : ReaderCode)
      → (execute_command (ports s.executions) port s.device command s.reply).outcome
        ≡ returned code reply
      → judge_reply flag code reply ≡ none
      → P (record {
        control = goes_on;
        session = went_on (update (answered s d n reply code)) reply;
        exchanges = record { command = command; outcome = returned code reply } ∷ [];
      })) where
  abbrev ran : Control × Session → Outcome → ControlRun
  ran x o = record {
    control = x.0;
    session = x.1;
    exchanges = record { command = command; outcome = o } ∷ [];
  }

  judged-cases :
      (d : Device) (n : ℕ) (reply : Reply) (code : ReaderCode) (e : Option TransmitError)
      → (execute_command (ports s.executions) port s.device command s.reply).outcome
        ≡ returned code reply
      → judge_reply flag code reply ≡ e
      → P (ran (judged (answered s d n reply code) reply update e) (returned code reply))
  unfolding judged
  judged-cases d n reply code (some e) came h =
      fail d n reply code e (returned code reply)
        (answer_data-judge_reply flag code reply ∙ ap (good_data reply) h)
  judged-cases d n reply code none came h = go d n reply code came h

  after-cases :
      (d : Device) (n : ℕ) (o : Outcome)
      → (execute_command (ports s.executions) port s.device command s.reply).outcome ≡ o
      → P (ran (after_execution flag (record s { device = d; executions = n }) update o) o)
  unfolding after_execution
  after-cases d n (returned code reply) came = judged-cases d n reply code _ came refl
  after-cases d n out_of_buffer came = overrun d n out_of_buffer refl
  after-cases d n o came = hang d n o refl

  pub execute_part-cases : P (execute_part ports port flag s command update)
  unfolding execute_part
  execute_part-cases =
      let run = execute_command (ports s.executions) port s.device command s.reply in
      after-cases run.device (s.executions + 1) run.outcome refl
