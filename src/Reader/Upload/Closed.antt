-- ===== src/Reader/Upload/Closed.antt =====
-- The update of the firmware leaves a device that is not connected.
use emulation_lib.Prelude.{
  ℕ, false, ◌&&◌, ◌||◌, not, ◌≡◌, ◌≢◌, refl, arith, if-both, if-else, if-cases, ◌∙◌,
}
use emulation_lib.Reader.{ReaderCode, no_error}
use emulation_lib.Reader.Execute.{Reply, Device}
use emulation_lib.Reader.Connect.{
  ConnectCalls, bad_port, good_baudrate, connect_device, connect_wait, connect_taken, connect_post,
  rs232c_init, disconnect_device, disconnect_wait, disconnect_post,
}
use emulation_lib.Reader.Upload.Exe.{exit, connected_update, download_exe, update_firmware}
use emulation_lib.Reader.Upload.Parts.{UpdateCalls, PartEnd, part_done, part_failed, Part}

abbrev IsOff : ReaderCode × Device → Type 0
IsOff r = r.1.connect_flag ≡ false

-- A disconnect of a legal port leaves no connection, whatever the calls give.
disconnect_device-IsOff :
    (calls : ConnectCalls) (port : ℕ) (d : Device)
    → bad_port port ≡ false
    → IsOff (disconnect_device calls port d)
unfolding disconnect_device disconnect_wait disconnect_post
disconnect_device-IsOff calls port d legal = if-else IsOff (bad_port port) _ _ legal (
    if-cases IsOff (not d.connect_flag) _ _ (λ e. ground (arith, e))
      (λ e. if-both IsOff (not calls.waits_connect) _ _ refl (
        if-both IsOff (not calls.waits_command) _ _ refl (
          if-both IsOff (not calls.posts_command) _ _ refl
            (if-both IsOff (not calls.posts_connect) _ _ refl refl)))))

-- A connect with an error leaves no new connection, and one without an error is of a legal port.
abbrev IsSettled : ℕ → ReaderCode × Device → Type 0
IsSettled port r =
    (r.0 ≡ no_error → bad_port port ≡ false) × (r.0 ≢ no_error → r.1.connect_flag ≡ false)

connect_taken-IsSettled :
    (calls : ConnectCalls) (port : ℕ) (d : Device)
    → bad_port port ≡ false
    → d.connect_flag ≡ false
    → IsSettled port (connect_taken calls d)
unfolding connect_taken connect_post
connect_taken-IsSettled calls port d legal off =
    if-both (IsSettled port) d.connect_flag _ _ ((λ e. legal), (λ e. off))
      (if-both (IsSettled port) (not calls.opens) _ _ ((λ e. legal), (λ e. off))
        (if-both (IsSettled port) (not calls.posts_command) _ _ ((λ e. legal), (λ e. refl))
          (if-both (IsSettled port) (not calls.posts_connect) _ _ ((λ e. legal), (λ e. refl))
            ((λ e. legal), (λ e. absurd (e refl))))))

connect_wait-IsSettled :
    (calls : ConnectCalls) (port : ℕ) (d : Device)
    → bad_port port ≡ false
    → d.connect_flag ≡ false
    → IsSettled port (connect_wait calls d)
unfolding connect_wait
connect_wait-IsSettled calls port d legal off =
    if-both (IsSettled port) (not calls.waits_connect) _ _ ((λ e. legal), (λ e. off))
      (if-both (IsSettled port) (not calls.waits_command) _ _ ((λ e. legal), (λ e. off))
        (connect_taken-IsSettled calls port _ legal off))

rs232c_init-flag :
    (calls : ConnectCalls) (d : Device) → (rs232c_init calls d).connect_flag ≡ d.connect_flag
unfolding rs232c_init
rs232c_init-flag calls d =
    if-both (λ (x : Device). x.connect_flag ≡ d.connect_flag) calls.inits_own _ _ refl refl

connect_device-IsSettled :
    (calls : ConnectCalls) (port baudrate : ℕ) (d : Device)
    → d.connect_flag ≡ false
    → IsSettled port (connect_device calls port baudrate d)
unfolding connect_device
connect_device-IsSettled calls port baudrate d off =
    if-cases (IsSettled port) (bad_port port || not (good_baudrate baudrate)) _ _
      (λ e. ((λ z. absurd cc), (λ z. off)))
      (λ e.
        let legal : bad_port port ≡ false = ground (arith, e) in
        let still = rs232c_init-flag calls d ∙ off in
        if-both (IsSettled port) (not (calls.inits_own && calls.inits_others)) _ _
          ((λ z. legal), (λ z. still))
          (connect_wait-IsSettled calls port (rs232c_init calls d) legal still))

-- The function returns.
abbrev pub IsBack : PartEnd → Type 0
IsBack part_done = Unit {0}
IsBack (part_failed e) = Unit {0}
IsBack end = ⊥

abbrev pub IsClosed : PartEnd × Device → Type 0
IsClosed r = IsBack r.0 → r.1.connect_flag ≡ false

module _ (io : UpdateCalls) (port baudrate : ℕ) where
  exit-IsClosed : (p : Part) → bad_port port ≡ false → IsClosed (exit io port baudrate p)
  unfolding exit
  exit-IsClosed (part_done, u) legal back = disconnect_device-IsOff io.last_disconnect port _ legal
  exit-IsClosed (part_failed e, u) legal back =
      disconnect_device-IsOff io.last_disconnect port _ legal
  exit-IsClosed (end, u) legal back = absurd back

  connected_update-IsClosed :
      (fuel : ℕ) (reply : Reply) (code : ReaderCode) (d : Device)
      → IsSettled port (code, d)
      → IsClosed (connected_update io port baudrate fuel reply code d)
  unfolding connected_update
  connected_update-IsClosed fuel reply no_error d s = exit-IsClosed _ (s.0 refl)
  connected_update-IsClosed fuel reply code d s = λ back. s.1 (λ z. cc)

  -- When RS232C_8_UpdateFirmware is called for a port without a connection and returns, with an error or without,
  -- the port has no connection afterwards, whatever the file, the reader and the calls give.
  pub update_firmware-IsClosed :
      (fuel : ℕ) (d : Device) (reply : Reply)
      → d.connect_flag ≡ false
      → IsClosed (update_firmware io port baudrate fuel d reply)
  unfolding update_firmware download_exe
  update_firmware-IsClosed fuel d reply off = if-else IsClosed d.connect_flag _ _ off (
      connected_update-IsClosed fuel reply _ _
        (connect_device-IsSettled io.first_connect port baudrate d off))
