-- ===== src/Reader/Upload/Area.antt =====
-- AreaChange of ccr.origin/Prtcl_RS232C_8_FuncDef.c: the reader switches to its other area, and the port is
-- connected anew.
use emulation_lib.Prelude.{
  ℕ, zero, suc, ◌+◌, ◌≤◌, true, ◌&&◌, ◌||◌, not, Option, none, some, [], ◌≡◌, refl, arith, if-both,
}
use emulation_lib.Reader.{ReaderCode, no_error, device_not_connected}
use emulation_lib.Reader.Execute.{
  unavailable, Reply, Command, Device, Port, Outcome, returned, out_of_buffer, execute_command,
}
use emulation_lib.Reader.Connect.{
  ConnectCalls, bad_port, good_baudrate, connect_device, connect_wait, connect_taken, connect_post,
  disconnect_device,
}
use emulation_lib.Reader.Upload.{
  UpdateError, update_execution_failed, update_unexpected, connect_device_failed,
  disconnect_device_failed,
}

-- `area_hangs`: RS232C_8_ExecuteCommand does not return. `area_outside`: it reads or writes outside of a buffer.
pub data AreaEnd : Type 0 where
  area_changed area_hangs area_outside : AreaEnd
  area_failed : UpdateError → AreaEnd

-- What it returns, the information on the port, and how often a connect was tried.
pub record AreaRun : Type 0 where
  pub end : AreaEnd
  pub device : Device
  pub connects : ℕ

abbrev pub switch_command : Command
switch_command = record { command_code = 0x4B; parameter_code = 0x30; data_body = [] }

-- A negative reply is accepted here: there is no user area.
unfoldable pub judge_switch : ReaderCode → Reply → Option UpdateError
judge_switch no_error reply = elim reply.reply_type [
  | unavailable ↦ some update_unexpected
  | _ ↦ none
]
judge_switch code reply = some update_execution_failed

-- A device that is not connected is regarded as disconnected.
unfoldable pub judge_disconnect : ReaderCode → Option UpdateError
judge_disconnect no_error = none
judge_disconnect device_not_connected = none
judge_disconnect code = some disconnect_device_failed

-- After a connect: the end, or the other tries.
unfoldable pub after_connect : ReaderCode → Device → ℕ → AreaRun → AreaRun
after_connect no_error d tried rest = record { end = area_changed; device = d; connects = tried }
after_connect code d tried rest = rest

module _ (tries : ℕ → ConnectCalls) (port baudrate : ℕ) where
  -- The loop over connects, with the number that are left after this one. Count is the second argument.
  unfoldable pub reconnect : ℕ → ℕ → Device → AreaRun
  reconnect zero count d =
      let r = connect_device (tries count) port baudrate d in
      after_connect r.0 r.1 (count + 1)
        (record { end = area_failed connect_device_failed; device = r.1; connects = count + 1 })
  reconnect (suc left) count d =
      let r = connect_device (tries count) port baudrate d in
      after_connect r.0 r.1 (count + 1) (reconnect left (count + 1) r.1)

  -- The loop gives up where Count is more than 10.
  unfoldable pub after_disconnect : Device → Option UpdateError → AreaRun
  after_disconnect d none = reconnect 11 0 d
  after_disconnect d (some e) = record { end = area_failed e; device = d; connects = 0 }

  unfoldable pub after_switch : ConnectCalls → Device → Option UpdateError → AreaRun
  after_switch calls d none =
      let r = disconnect_device calls port d in after_disconnect r.1 (judge_disconnect r.0)
  after_switch calls d (some e) = record { end = area_failed e; device = d; connects = 0 }

  unfoldable pub switched : ConnectCalls → Device → Outcome → AreaRun
  switched calls d (returned code reply) = after_switch calls d (judge_switch code reply)
  switched calls d out_of_buffer = record { end = area_outside; device = d; connects = 0 }
  switched calls d outcome = record { end = area_hangs; device = d; connects = 0 }

  unfoldable pub area_change : Port → ConnectCalls → Device → Reply → AreaRun
  area_change io calls d reply =
      let run = execute_command io port d switch_command reply in
      switched calls run.device run.outcome

-- A connect without an error leaves a connected device.
abbrev pub Connects : ReaderCode × Device → Type 0
Connects r = r.0 ≡ no_error → r.1.connect_flag ≡ true

connect_taken-Connects : (calls : ConnectCalls) (d : Device) → Connects (connect_taken calls d)
unfolding connect_taken connect_post
connect_taken-Connects calls d =
    if-both Connects d.connect_flag _ _ (λ e. absurd cc)
      (if-both Connects (not calls.opens) _ _ (λ e. absurd cc)
        (if-both Connects (not calls.posts_command) _ _ (λ e. absurd cc)
          (if-both Connects (not calls.posts_connect) _ _ (λ e. absurd cc) (λ e. refl))))

connect_device-Connects :
    (calls : ConnectCalls) (port baudrate : ℕ) (d : Device)
    → Connects (connect_device calls port baudrate d)
unfolding connect_device connect_wait
connect_device-Connects calls port baudrate d =
    if-both Connects (bad_port port || not (good_baudrate baudrate)) _ _ (λ e. absurd cc)
      (if-both Connects (not (calls.inits_own && calls.inits_others)) _ _ (λ e. absurd cc)
        (if-both Connects (not calls.waits_connect) _ _ (λ e. absurd cc)
          (if-both Connects (not calls.waits_command) _ _ (λ e. absurd cc)
            (connect_taken-Connects calls _))))

-- A change of the area without an error leaves a connected device, after at most so many connects.
abbrev pub IsChanged : ℕ → AreaRun → Type 0
IsChanged most run =
    (run.end ≡ area_changed → run.device.connect_flag ≡ true) × (run.connects ≤ most)

after_connect-IsChanged :
    (most : ℕ) (code : ReaderCode) (d : Device) (tried : ℕ) (rest : AreaRun)
    → (code ≡ no_error → d.connect_flag ≡ true)
    → tried ≤ most
    → IsChanged most rest
    → IsChanged most (after_connect code d tried rest)
unfolding after_connect
after_connect-IsChanged most no_error d tried rest c t h = (λ e. c refl, t)
after_connect-IsChanged most code d tried rest c t h = h

module _ (tries : ℕ → ConnectCalls) (port baudrate : ℕ) where
  reconnect-IsChanged :
      (left count most : ℕ) (d : Device)
      → count + left + 1 ≤ most
      → IsChanged most (reconnect tries port baudrate left count d)
  unfolding reconnect
  reconnect-IsChanged zero count most d h =
      let r = connect_device (tries count) port baudrate d in
      after_connect-IsChanged most r.0 r.1 (count + 1) _
        (connect_device-Connects (tries count) port baudrate d) (omega arith)
        ((λ e. absurd cc), omega arith)
  reconnect-IsChanged (suc left) count most d h =
      let r = connect_device (tries count) port baudrate d in
      after_connect-IsChanged most r.0 r.1 (count + 1) _
        (connect_device-Connects (tries count) port baudrate d) (omega arith)
        (reconnect-IsChanged left (count + 1) most r.1 (omega arith))

  after_disconnect-IsChanged :
      (d : Device) (o : Option UpdateError)
      → IsChanged 12 (after_disconnect tries port baudrate d o)
  unfolding after_disconnect
  after_disconnect-IsChanged d none = reconnect-IsChanged 11 0 12 d (omega arith)
  after_disconnect-IsChanged d (some e) = ((λ z. absurd cc), omega arith)

  after_switch-IsChanged :
      (calls : ConnectCalls) (d : Device) (o : Option UpdateError)
      → IsChanged 12 (after_switch tries port baudrate calls d o)
  unfolding after_switch
  after_switch-IsChanged calls d none = after_disconnect-IsChanged _ _
  after_switch-IsChanged calls d (some e) = ((λ z. absurd cc), omega arith)

  switched-IsChanged :
      (calls : ConnectCalls) (d : Device) (o : Outcome)
      → IsChanged 12 (switched tries port baudrate calls d o)
  unfolding switched
  switched-IsChanged calls d (returned code reply) = after_switch-IsChanged calls d _
  switched-IsChanged calls d out_of_buffer = ((λ z. absurd cc), omega arith)
  switched-IsChanged calls d o = ((λ z. absurd cc), omega arith)

  -- When AreaChange returns without an error, the device is connected; it tries twelve connects at most,
  -- whatever they give.
  pub area_change-IsChanged :
      (io : Port) (calls : ConnectCalls) (d : Device) (reply : Reply)
      → IsChanged 12 (area_change tries port baudrate io calls d reply)
  unfolding area_change
  area_change-IsChanged io calls d reply = switched-IsChanged calls _ _
