-- ===== src/Reader/Transmit/Joined.antt =====
-- The data of the commands of a transmission are those of the caller.
use emulation_lib.Prelude.{ℕ, Bool, true, List, [], ◌∷◌, ◌++◌, ◌≡◌, refl, sym, ap, ◌∙◌}
use mathlib.Core.List.{append_assoc, append-nil}
use emulation_lib.Reader.Execute.{Command, Port}
use emulation_lib.Reader.Transmit.{Session, transmitted}
use emulation_lib.Reader.Transmit.Loop.{transmit_all}
use emulation_lib.Reader.Transmit.Plan.{
  Plan, stops, done, ask, part, last, WholePlan, not_begun, single, first_part, commands_of,
}
use emulation_lib.Reader.Transmit.Commands.{transmit_all-FollowsPlan}

-- The data of commands, one after the other.
abbrev pub joined : List Command → List ℕ
joined [] = []
joined (c ∷ cs) = c.data_body ++ joined cs

-- All data of a command, and the others behind them.
piece-joined :
    (piece others left : List ℕ) → [] ≡ others ++ left → piece ≡ (piece ++ others) ++ left
piece-joined piece others left e =
    sym (append-nil piece)
    ∙ ap (λ (xs : List ℕ). piece ++ xs) e
    ∙ sym (append_assoc piece others left)

module _ (flag : ℕ) where
  Plan-joined :
      (unsent : List ℕ) (b : Bool) (cs : List Command)
      → Plan flag unsent b cs
      → (rest : List ℕ) × (unsent ≡ joined cs ++ rest) × (b ≡ true → rest ≡ [])
  Plan-joined _ _ _ (stops {x} {xs}) = (x ∷ xs, refl, λ z. absurd cc)
  Plan-joined _ _ _ done = ([], refl, λ z. refl)
  Plan-joined _ b _ (ask {cs} p) = Plan-joined [] b cs p
  Plan-joined _ b _ (part piece rest {cs} w h m p) =
      let (left, e, k) = Plan-joined rest b cs p in
      (left, w ∙ ap (λ (xs : List ℕ). piece ++ xs) e ∙ sym (append_assoc piece (joined cs) left), k)
  Plan-joined _ b _ (last {piece} {cs} m h p) =
      let (left, e, k) = Plan-joined [] b cs p in (left, piece-joined piece (joined cs) left e, k)

  WholePlan-joined :
      (message : List ℕ) (b : Bool) (cs : List Command)
      → WholePlan flag message b cs
      → (rest : List ℕ) × (message ≡ joined cs ++ rest) × (b ≡ true → rest ≡ [])
  WholePlan-joined message _ _ not_begun = (message, refl, λ z. absurd cc)
  WholePlan-joined _ b _ (single {piece} {cs} h p) =
      let (left, e, k) = Plan-joined [] b cs p in (left, piece-joined piece (joined cs) left e, k)
  WholePlan-joined whole b _ (first_part piece rest w h m p) =
      Plan-joined whole b _ (part piece rest w h m p)

  -- The data of the commands, one after the other, are the first of the caller's data, and all of them where
  -- the transmission ends as `transmitted`.
  pub transmit_all-joined :
      (ports : ℕ → Port) (port limit fuel : ℕ) (allocates : Bool) (s : Session) (message : List ℕ)
      → (rest : List ℕ) × (message
          ≡ joined (commands_of flag (transmit_all ports port flag limit fuel allocates s message))
            ++ rest)
        × ((transmit_all ports port flag limit fuel allocates s message).end ≡ transmitted
            → rest ≡ [])
  transmit_all-joined ports port limit fuel allocates s message =
      let (b, plan, ends) =
        transmit_all-FollowsPlan flag ports port limit fuel allocates s message in
      let (rest, e, k) = WholePlan-joined message b _ plan in (rest, e, λ z. k (ends z))
