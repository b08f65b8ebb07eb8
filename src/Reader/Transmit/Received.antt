-- ===== src/Reader/Transmit/Received.antt =====
-- What a transmission leaves: the bytes that are received, and the storage for the data that are sent.
use emulation_lib.Prelude.{
  ℕ, ◌≤◌, Bool, true, false, List, [], ◌∷◌, ◌++◌, ◌≡◌, refl, sym, ap, ◌∙◌, inl, inr, ◌⊎◌, length,
}
use mathlib.Core.List.{append_assoc, append-nil}
use emulation_lib.Reader.Transmit.{
  Session, Exchange, TransmitEnd, transmitted, filled, transmit_failed, reads_outside, Transmission,
}
use emulation_lib.Reader.Transmit.Loop.{ended}
use emulation_lib.Reader.Transmit.Cases.{answer_data}

-- What Body has after the commands that were executed without an error, as many bytes each as the reply's
-- size, one after the other.
abbrev pub answers_of : ℕ → List Exchange → List ℕ
answers_of flag [] = []
answers_of flag (e ∷ es) = answer_data flag e.outcome ++ answers_of flag es

module _ (limit : ℕ) where
  -- The storage is free, but not after `filled`.
  abbrev pub IsReleased : TransmitEnd → Bool → Type 0
  IsReleased transmitted b = b ≡ false
  IsReleased (transmit_failed e) b = b ≡ false
  IsReleased filled b = b ≡ true
  IsReleased _ b = Unit {0}

  -- The bytes are `before` and the first of the data of the answers: all of them, or as many as the caller takes.
  abbrev pub Takes : List ℕ → List ℕ → Transmission → Type 0
  Takes before answers t =
      (got : List ℕ) × (rest : List ℕ) × (t.received ≡ before ++ got)
      × (answers ≡ got ++ rest)
      × (t.size_of_data_received ≡ length t.received)
      × (t.size_of_data_received ≤ limit)
      × ((rest ≡ []) ⊎ ((t.end ≡ filled) × (t.size_of_data_received ≡ limit)))

  abbrev pub IsReceived : List ℕ → List ℕ → Transmission → Type 0
  IsReceived before answers t =
      IsReleased t.end t.session.storage × ((t.end ≡ reads_outside) ⊎ Takes before answers t)

  pub ended-IsReceived :
      (end : TransmitEnd) (s : Session) (received : List ℕ) (current : ℕ)
      → current ≡ length received
      → current ≤ limit
      → IsReleased end s.storage
      → IsReceived received [] (ended end s received current)
  unfolding ended
  ended-IsReceived end s received current same bounded free =
      (free, inr ([], [], sym (append-nil received), refl, same, bounded, inl refl))

  -- What is taken after some bytes is taken after fewer.
  pub Takes-more :
      (received bytes answers : List ℕ) (t : Transmission)
      → IsReceived (received ++ bytes) answers t
      → IsReceived received (bytes ++ answers) t
  Takes-more received bytes answers t (free, inl outside) = (free, inl outside)
  Takes-more received bytes answers t (free, inr (got, rest, e, a, n, m, f)) = (
    free,
    inr (
      bytes ++ got,
      rest,
      e ∙ append_assoc received bytes got,
      ap (λ (xs : List ℕ). bytes ++ xs) a ∙ sym (append_assoc bytes got rest),
      n,
      m,
      f,
    ),
  )
