-- ===== src/Reader/Connect.antt =====
-- RS232C_8_ConnectDevice, RS232C_8_DisconnectDevice and RS232C_8_CancelCommand of
-- ccr.origin/Prtcl_RS232C_8.c. A failed wait leaves a semaphore as it is, and so does a failed post whose
-- result is tested; the other posts go through. RS232C_End, which destroys the semaphores after a
-- disconnect, is left out: the next connect makes them anew.
pub mod Free
pub mod Calls
use emulation_lib.Prelude.{
  ℕ, Bool, true, false, ◌&&◌, ◌||◌, not, Option, none, some, if◌then◌else◌, ◌==◌, ltb,
}
use emulation_lib.Reader.{
  PortError, ReaderCode, no_error, device_not_connected, critical_section, parameter_error,
  cannot_open_port, device_already_connected, error_exchange, max_port_no,
}
use emulation_lib.Reader.Execute.{Device}

-- What the calls give to a connect: whether sem_init goes through for the semaphores of this port and for
-- the others, the two waits, the opening of the port, the two posts.
pub record ConnectCalls : Type 0 where
  pub inits_own : Bool
  pub inits_others : Bool
  pub waits_connect : Bool
  pub waits_command : Bool
  pub opens : Bool
  pub posts_command : Bool
  pub posts_connect : Bool

abbrev pub bad_port : ℕ → Bool
bad_port port = ltb port 1 || ltb max_port_no port

abbrev pub good_baudrate : ℕ → Bool
good_baudrate b = (b == 115200) || ((b == 38400) || ((b == 19200) || (b == 9600)))

-- The posts at the end of a connect.
unfoldable pub connect_post : ConnectCalls → Device → ReaderCode × Device
connect_post calls d =
    if not calls.posts_command
    then (critical_section, record d { connect_flag = false; sem_connect = false })
    else if not calls.posts_connect
    then (critical_section, record d { connect_flag = false; sem_command_execute = false })
    else (no_error, record d { sem_command_execute = false; sem_connect = false })

-- Both semaphores are taken.
unfoldable pub connect_taken : ConnectCalls → Device → ReaderCode × Device
connect_taken calls d =
    let free = record d { sem_command_execute = false; sem_connect = false } in
    if d.connect_flag
    then (device_already_connected, free)
    else if not calls.opens
    then (cannot_open_port, free)
    else connect_post calls
        (record d { connect_flag = true; cancel_flag = false; cancel_receive_flag = true })

unfoldable pub connect_wait : ConnectCalls → Device → ReaderCode × Device
connect_wait calls d =
    if not calls.waits_connect
    then (critical_section, d)
    else if not calls.waits_command
    then (critical_section, record d { sem_connect = false })
    else connect_taken calls (record d { sem_connect = true; sem_command_execute = true })

-- RS232C_Init of Prtcl_RS232C_8_FuncDef.c, for one port: the semaphores are free again.
unfoldable pub rs232c_init : ConnectCalls → Device → Device
rs232c_init calls d =
    if calls.inits_own
    then record d { sem_command_execute = false; sem_connect = false; sem_command_cancel = false }
    else d

unfoldable pub connect_device : ConnectCalls → ℕ → ℕ → Device → ReaderCode × Device
connect_device calls port baudrate d =
    if bad_port port || not (good_baudrate baudrate)
    then (parameter_error, d)
    else if not (calls.inits_own && calls.inits_others)
    then (critical_section, rs232c_init calls d)
    else connect_wait calls (rs232c_init calls d)

-- The part of a disconnect that has both semaphores.
unfoldable pub disconnect_post : ConnectCalls → Device → ReaderCode × Device
disconnect_post calls d =
    if not calls.posts_command
    then (critical_section, record d { sem_connect = false })
    else if not calls.posts_connect
    then (critical_section, record d { sem_command_execute = false })
    else (no_error, record d { sem_command_execute = false; sem_connect = false })

unfoldable pub disconnect_wait : ConnectCalls → Device → ReaderCode × Device
disconnect_wait calls d =
    if not calls.waits_connect
    then (critical_section, record d { connect_flag = false })
    else if not calls.waits_command
    then (critical_section, record d { sem_connect = false; connect_flag = false })
    else disconnect_post calls
        (record d { sem_connect = true; sem_command_execute = true; connect_flag = false })

unfoldable pub disconnect_device : ConnectCalls → ℕ → Device → ReaderCode × Device
disconnect_device calls port d =
    if bad_port port
    then (parameter_error, d)
    else if not d.connect_flag
    then (device_not_connected, d)
    else disconnect_wait calls d

-- What the calls give to a cancel: the wait, the mutex of `command_step` and its value, the two bytes sent
-- and received, and the post.
pub record CancelCalls : Type 0 where
  pub waits : Bool
  pub locks : Bool
  pub unlocks : Bool
  pub command_step : ℕ
  pub sends : PortError
  pub receives : PortError
  pub posts : Bool

-- The result of a cancel; none is a variable that nothing was written to.
abbrev pub CancelResult : Type 0
CancelResult = Option ReaderCode × Device

unfoldable pub cancel_end : CancelCalls → Option ReaderCode → Device → CancelResult
cancel_end calls code d =
    let done = record d { cancel_flag = false } in
    if calls.posts
    then (code, record done { sem_command_cancel = false })
    else (some critical_section, done)

unfoldable pub cancel_sent : CancelCalls → ReaderCode → Device → CancelResult
cancel_sent calls no_error d =
    if d.cancel_receive_flag
    then cancel_end calls (some (error_exchange calls.receives)) d
    else cancel_end calls (some no_error) d
cancel_sent calls e d = cancel_end calls (some e) d

-- A failed call on the mutex leaves the function with the semaphore.
unfoldable pub cancel_taken : CancelCalls → Device → CancelResult
cancel_taken calls d =
    if not (calls.locks && calls.unlocks)
    then (some critical_section, d)
    else if ltb 1 calls.command_step
    then cancel_end calls none d
    else cancel_sent calls (error_exchange calls.sends) (record d { cancel_flag = true })

unfoldable pub cancel_command : CancelCalls → ℕ → Device → CancelResult
cancel_command calls port d =
    if bad_port port
    then (some parameter_error, d)
    else if not d.connect_flag
    then (some device_not_connected, d)
    else if not calls.waits
    then (some critical_section, d)
    else cancel_taken calls (record d { sem_command_cancel = true })
