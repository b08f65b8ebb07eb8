-- ===== src/Dio/Changes.antt =====
-- What the monitor of the inputs reports.
use emulation_lib.Prelude.{
  ℕ, ◌+◌, ◌*◌, ◌%◌, ◌/◌, ◌<◌, Bool, true, false, not, List, [], ◌∷◌, map, ◌≡◌, refl, sym, ap, ap₂,
  ◌∙◌, inl, inr, arith, if◌then◌else◌, ◌==◌, Bool-cases,
}
use emulation_lib.Prelude.Digits.{digit}
use emulation_lib.Dio.{
  Dio, gpio_in_bank_0, gpio_in_bank_2, dio_door_get, dio_spare_get, dio_pushbutton_get,
}
use emulation_lib.Dio.Registers.{sense_low-digit}
use emulation_lib.Dio.Monitor.{input_changed, gpio_changed, monitor_loop, dio_monitor}

abbrev num : Bool → ℕ
num true = 1
num false = 0

-- A state: the door, the spare switch, the button.
abbrev state_of : Bool → Bool → Bool → ℕ
state_of a b c = num a + 2 * num b + 4 * num c

abbrev differs : Bool → Bool → ℕ → ℕ
differs true true n = n
differs false false n = n
differs _ _ n = 1

door_changed :
    (l a b c : Bool) (n : ℕ)
    → input_changed (num l) 0 (state_of a b c, n) ≡ (state_of (not l) b c, differs a (not l) n)
unfolding input_changed
door_changed l a b c n = ground arith

spare_changed :
    (l a b c : Bool) (n : ℕ)
    → input_changed (num l) 1 (state_of a b c, n) ≡ (state_of a (not l) c, differs b (not l) n)
unfolding input_changed
spare_changed l a b c n = ground arith

button_changed :
    (l a b c : Bool) (n : ℕ)
    → input_changed (num l) 2 (state_of a b c, n) ≡ (state_of a b (not l), differs c (not l) n)
unfolding input_changed
button_changed l a b c n = ground arith

any_differs :
    (a b c x y z : Bool)
    → differs c z (differs b y (differs a x 0))
      ≡ (if state_of x y z == state_of a b c then 0 else 1)
any_differs a b c x y z = ground arith

-- The inputs as the get functions read them, in the bits of the state.
abbrev pub levels : Dio → ℕ
levels d = dio_door_get d + 2 * dio_spare_get d + 4 * dio_pushbutton_get d

digit-num : (n : ℕ) → n < 2 → (l : Bool) × (n ≡ num l)
digit-num n h = elim (Bool-cases (n == 0)) [
  | inl e ↦ (false, ground arith)
  | inr e ↦ (true, ground arith)
]

state-bits : (s : ℕ) → s < 8 → (a : Bool) × (b : Bool) × (c : Bool) × (s ≡ state_of a b c)
state-bits s h =
    let (a, e) = digit-num (s % 2) (omega arith) in
    let (b, f) = digit-num (s / 2 % 2) (omega arith) in
    let (c, g) = digit-num (s / 4) (omega arith) in (a, b, c, omega (arith, e, f, g))

module _ (d : Dio) (x y z : Bool) (i : digit 8 (d.words gpio_in_bank_0) ≡ num x)
    (j : digit 9 (d.words gpio_in_bank_0) ≡ num y)
    (k : digit 9 (d.words gpio_in_bank_2) ≡ num z) where
  levels-bits : d.fpga ≡ true → levels d ≡ state_of (not x) (not y) (not z)
  unfolding dio_door_get dio_spare_get dio_pushbutton_get
  levels-bits m = ground (
    arith,
    i,
    j,
    k,
    sense_low-digit d m gpio_in_bank_0 8,
    sense_low-digit d m gpio_in_bank_0 9,
    sense_low-digit d m gpio_in_bank_2 9,
  )

  gpio_changed-bits :
      (a b c : Bool)
      → gpio_changed d (state_of a b c) ≡ (
        state_of (not x) (not y) (not z),
        differs c (not z) (differs b (not y) (differs a (not x) 0)),
      )
  unfolding gpio_changed
  gpio_changed-bits a b c =
      rw
        (
          i,
          j,
          k,
          door_changed x a b c 0,
          spare_changed y (not x) b c (differs a (not x) 0),
          button_changed z (not x) (not y) c (differs b (not y) (differs a (not x) 0)),
        )
        refl

-- With mapped registers and one of the eight states, gpio_changed sets the state to what the get functions
-- read, and reports a change where that is another state.
pub gpio_changed-levels :
    (d : Dio) (state : ℕ)
    → d.fpga ≡ true
    → state < 8
    → gpio_changed d state ≡ (levels d, if levels d == state then 0 else 1)
gpio_changed-levels d state m h =
    let (a, b, c, e) = state-bits state h in
    let (x, i) = digit-num (digit 8 (d.words gpio_in_bank_0)) (omega arith) in
    let (y, j) = digit-num (digit 9 (d.words gpio_in_bank_0)) (omega arith) in
    let (z, k) = digit-num (digit 9 (d.words gpio_in_bank_2)) (omega arith) in
    let l = levels-bits d x y z i j k m in
    ap (λ (n : ℕ). gpio_changed d n) e
    ∙ gpio_changed-bits d x y z i j k a b c
    ∙ ap₂ (λ (n t : ℕ). (n, t)) (sym l)
        (any_differs a b c (not x) (not y) (not z)
          ∙ ap₂ (λ (n t : ℕ). if n == t then 0 else 1) (sym l) (sym e))

-- The values of a sequence at which it changes, from a first one on.
abbrev pub changes : ℕ → List ℕ → List ℕ
changes last [] = []
changes last (x ∷ xs) = let rest = changes x xs in if x == last then rest else x ∷ rest

abbrev pub AllMapped : List Dio → Type 0
AllMapped [] = Unit {0}
AllMapped (d ∷ ds) = (d.fpga ≡ true) × AllMapped ds

levels-lt : (d : Dio) → d.fpga ≡ true → levels d < 8
unfolding dio_door_get dio_spare_get dio_pushbutton_get
levels-lt d m = omega (
  arith,
  sense_low-digit d m gpio_in_bank_0 8,
  sense_low-digit d m gpio_in_bank_0 9,
  sense_low-digit d m gpio_in_bank_2 9,
)

monitor_loop-changes :
    (ds : List Dio) (state : ℕ)
    → AllMapped ds
    → state < 8
    → monitor_loop true ds state ≡ changes state (map levels ds)
unfolding monitor_loop
monitor_loop-changes [] state h b = refl
monitor_loop-changes (d ∷ ds) state (m, h) b =
    rw (gpio_changed-levels d state m b, monitor_loop-changes ds (levels d) h (levels-lt d m))
      (ground arith)

monitor_loop_silent : (ds : List Dio) (state : ℕ) → monitor_loop false ds state ≡ []
unfolding monitor_loop
monitor_loop_silent [] state = refl
monitor_loop_silent (d ∷ ds) state = ground (arith, monitor_loop_silent ds (gpio_changed d state).0)

-- With mapped registers, the callback gets, in order, what the get functions read of the inputs each time that it
-- is not what they read the time before, or at first not zero; without a callback nothing is reported.
pub dio_monitor-changes :
    (registered : Bool) (readings : List Dio)
    → AllMapped readings
    → dio_monitor registered readings ≡ (if registered then changes 0 (map levels readings) else [])
unfolding dio_monitor
dio_monitor-changes true readings h = monitor_loop-changes readings 0 h (omega arith)
dio_monitor-changes false readings h = monitor_loop_silent readings 0
