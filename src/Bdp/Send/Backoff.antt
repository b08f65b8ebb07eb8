-- ===== src/Bdp/Send/Backoff.antt =====
-- How long a backoff waits, and when it gives up.
use emulation_lib.Prelude.{
  ℕ, zero, suc, ◌+◌, ◌-◌, ◌*◌, ◌≤◌, ◌<◌, Bool, true, false, List, [], ◌∷◌, ◌++◌, ◌≡◌, ◌≢◌, ◌↔◌,
  arith, refl, sym, ltb, ◌==◌, inl, inr, Bool-cases,
}
use emulation_lib.Err.{pass, fail}
use emulation_lib.Bdp.Types.{Bus, BusStats}
use emulation_lib.Bdp.Send.{
  Line, backoff_delay, line_busy, count_backoff, backoff_loop, gap_sleep, svs_bdp_backoff,
}

-- The time slept, in microseconds.
abbrev pub total : List ℕ → ℕ
total [] = 0
total (t ∷ ts) = t + total ts

total-append : (xs ys : List ℕ) → total (xs ++ ys) ≡ total xs + total ys
total-append [] ys = omega arith
total-append (x ∷ xs) ys = omega (arith, total-append xs ys)

backoff_delay-le : (rand_max random j : ℕ) → backoff_delay rand_max random j ≤ 50000
unfolding backoff_delay
backoff_delay-le rand_max random j = ground arith

loop_total :
    (n rand_max : ℕ) (line : Line) (j : ℕ) (stats : BusStats)
    → j ≤ 16
    → total (backoff_loop n rand_max line j stats).sleeps ≤ (16 - j) * 50000
unfolding backoff_loop
loop_total zero rand_max line j stats h = omega arith
loop_total (suc n) rand_max line j stats h = ground (
  arith,
  backoff_delay-le rand_max (line.random j) j,
  loop_total n rand_max line (j + 1)
      (count_backoff (backoff_delay rand_max (line.random j) j) stats),
)

gap-le :
    (now : ℕ) (bus : Bus)
    → bus.timestamp_tx_activity_us ≤ now
    → bus.timestamp_rx_activity_us ≤ now
    → total (gap_sleep now bus) ≤ 2000
unfolding gap_sleep
gap-le now bus h k = ground arith

-- Where the clock has not run back behind the time stamps of the bus, a backoff sleeps 802 ms at most, in
-- all its delays together.
pub svs_bdp_backoff-bounded :
    (rand_max : ℕ) (loopback : Bool) (line : Line) (bus : Bus)
    → bus.timestamp_tx_activity_us ≤ line.gap_clock
    → bus.timestamp_rx_activity_us ≤ line.gap_clock
    → total (svs_bdp_backoff rand_max loopback line bus).sleeps ≤ 802000
unfolding svs_bdp_backoff
svs_bdp_backoff-bounded rand_max true line bus h k = omega arith
svs_bdp_backoff-bounded rand_max false line bus h k = omega (
  arith,
  total-append (gap_sleep line.gap_clock bus)
      (backoff_loop 17 rand_max line 0 bus.bus_stats).sleeps,
  gap-le line.gap_clock bus h k,
  loop_total 17 rand_max line 0 bus.bus_stats (omega arith),
)

-- Every test from `j` to the last finds the line busy.
abbrev pub BusyFrom : ℕ → Line → Type 0
BusyFrom j line = (i : ℕ) → j ≤ i → i < 17 → line_busy line i ≡ true

fail-ne-pass : fail ≢ pass
fail-ne-pass e = cc

gives_up :
    (n rand_max : ℕ) (line : Line) (j : ℕ) (stats : BusStats)
    → j + n ≡ 17
    → (backoff_loop n rand_max line j stats).rc ≡ fail
    → BusyFrom j line
unfolding backoff_loop
gives_up zero rand_max line j stats h e i p q = absurd (omega arith)
gives_up (suc n) rand_max line j stats h e i p q = elim (Bool-cases (line_busy line j)) [
  | inr free ↦ absurd (fail-ne-pass (sym (rw free at e)))
  | inl busy ↦ elim (Bool-cases (ltb 16 (j + 1))) [
    | inl last ↦ ground arith
    | inr more ↦ elim (Bool-cases (i == j)) [
      | inl here ↦ ground arith
      | inr later ↦
          gives_up n rand_max line (j + 1)
            (count_backoff (backoff_delay rand_max (line.random j) j) stats) (omega arith)
            (rw (busy, more) at e) i (ground arith) q
    ]
  ]
]

busy_fails :
    (n rand_max : ℕ) (line : Line) (j : ℕ) (stats : BusStats)
    → j + n ≡ 17
    → 0 < n
    → BusyFrom j line
    → (backoff_loop n rand_max line j stats).rc ≡ fail
unfolding backoff_loop
busy_fails zero rand_max line j stats h p b = absurd (omega arith)
busy_fails (suc n) rand_max line j stats h p b =
    rw (b j (omega arith) (omega arith)) (elim (Bool-cases (ltb 16 (j + 1))) [
      | inl last ↦ rw last refl
      | inr more ↦ rw more (
          busy_fails n rand_max line (j + 1)
            (count_backoff (backoff_delay rand_max (line.random j) j) stats) (omega arith)
            (ground arith) (λ i r s. b i (omega arith) s))
    ])

-- Outside loopback, a backoff gives up exactly where all of its seventeen tests find the line busy.
pub svs_bdp_backoff_fails_iff :
    (rand_max : ℕ) (line : Line) (bus : Bus)
    → ((svs_bdp_backoff rand_max false line bus).rc ≡ fail) ↔ BusyFrom 0 line
unfolding svs_bdp_backoff
svs_bdp_backoff_fails_iff rand_max line bus = (
  gives_up 17 rand_max line 0 bus.bus_stats refl,
  busy_fails 17 rand_max line 0 bus.bus_stats refl (omega arith),
)
