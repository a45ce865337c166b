-- ===== src/Serial/Link.antt =====
-- `SerialProtocol` of pc/src/pywinhello/serial/protocol.py: one exchange for each command.
-- The lock is held for a whole exchange, so an exchange is one step of the state.
pub mod Exchange
pub mod Digits
pub mod Session
pub mod Quiet
use pywinhello.Prelude.{
  Option, [], false, if◌then◌else◌, ltb, none, some, suc, true, zero, ℕ, ◌%◌, ◌+◌, ◌/◌, ◌∷◌,
}
use pywinhello.Prelude.Exec.{Exec, attempt, lift, pure, raise, ◌>>=◌, ◌>>◌}
use pywinhello.Prelude.Result.{
  Result, connection_error, err, ok, runtime_error, timeout_error, value_error,
}
use pywinhello.Prelude.Text.{Text, codes, strip, text_eq}
use pywinhello.Prelude.Value.{Value}
use pywinhello.Serial.Port.{Pyserial}
use pywinhello.Serial.Protocol.{
  Bytes, Command, PingInfo, Response, command_timeout, encode_command, flash, parse_ping,
  parse_response,
}

-- The loop that writes a number in decimal, on fuel.
show_digits : ℕ → ℕ → Text → Text
show_digits zero n acc = acc
show_digits (suc f) n acc = elim (ltb n 10) [
  | true ↦ (b'0' + n) ∷ acc
  | false ↦ show_digits f (n / 10) ((b'0' + n % 10) ∷ acc)
]

-- str(n)
unfoldable pub show : ℕ → Text
unfolding show_digits
show n = show_digits (suc n) n []

module _ (W : Pyserial) where
  pub record SerialProtocol : Type 0 where
    pub port_name : Text
    pub default_timeout : ℕ
    pub serial : W.Port

  -- SerialProtocol(port=…, baud_rate=…)
  unfoldable pub open_protocol : Text → ℕ → Exec W.State SerialProtocol
  open_protocol name baud = do
    serial ← W.open_port name baud
    pure (record { port_name = name; default_timeout = 2000; serial = serial })

  -- What is read after a command: an empty line is a timeout.
  unfoldable pub answer : Bytes → Exec W.State Response
  answer [] = raise timeout_error
  answer (b ∷ bs) = pure (parse_response (strip (W.decode (b ∷ bs))))

  -- The exchange under the lock.
  unfoldable pub exchange : SerialProtocol → Command → Bytes → Exec W.State Response
  exchange p c frame = do
    W.set_timeout p.serial (command_timeout c)
    W.reset_input_buffer p.serial
    W.write p.serial frame
    W.flush p.serial
    line ← W.readline p.serial
    answer line

  unfoldable pub send : SerialProtocol → Command → Option Text → Exec W.State Response
  send p c payload s =
      if W.is_open p.serial s
      then (do frame ← lift (encode_command c payload); exchange p c frame) s
      else (err connection_error, s)

  unfoldable pub send_checked : SerialProtocol → Command → Option Text → Exec W.State Response
  send_checked p c payload = do r ← send p c payload; if r.ok? then pure r else raise runtime_error

  unfoldable pub ping : SerialProtocol → Exec W.State PingInfo
  ping p = do r ← send p Command.ping none; lift (parse_ping r)

  -- Response.json
  unfoldable pub response_json : Response → Result Value
  response_json r = if text_eq r.payload [] then err value_error else W.loads r.payload

  unfoldable pub get_config : SerialProtocol → Exec W.State Value
  get_config p = do r ← send_checked p Command.get_config none; lift (response_json r)

  unfoldable pub set_config : SerialProtocol → Value → Exec W.State (Unit {0})
  set_config p config = do send_checked p Command.set_config (some (W.dumps config)); pure tt

  unfoldable pub setup_pin : SerialProtocol → Text → Exec W.State (Unit {0})
  setup_pin p pin = do send_checked p Command.setup_pin (some pin); pure tt

  unfoldable pub clear : SerialProtocol → Exec W.State (Unit {0})
  clear p = do send_checked p Command.clear none; pure tt

  unfoldable pub unlock : SerialProtocol → Exec W.State (Unit {0})
  unlock p = do send_checked p Command.unlock none; pure tt

  unfoldable pub hello : SerialProtocol → Exec W.State (Unit {0})
  hello p = do send_checked p Command.hello none; pure tt

  unfoldable pub get_log : SerialProtocol → Exec W.State Value
  get_log p = do r ← send_checked p Command.get_log none; lift (response_json r)

  unfoldable pub status : SerialProtocol → Exec W.State Value
  status p = do r ← send_checked p Command.status none; lift (response_json r)

  unfoldable pub flash_begin : SerialProtocol → ℕ → Exec W.State Response
  flash_begin p size = do
    r ← send p Command.flash (some (show size))
    if text_eq (strip r.raw) (codes "READY") then pure r else raise runtime_error

  unfoldable pub write_raw : SerialProtocol → Bytes → Exec W.State (Unit {0})
  write_raw p b = do W.write p.serial b; W.flush p.serial

  -- The timeout is always given by the one caller.
  unfoldable pub read_line : SerialProtocol → ℕ → Exec W.State Text
  read_line p timeout = do
    W.set_timeout p.serial timeout
    line ← W.readline p.serial
    elim line [ [] ↦ raise timeout_error | b ∷ bs ↦ pure (strip (W.decode (b ∷ bs))) ]

  unfoldable pub close : SerialProtocol → Exec W.State (Unit {0})
  close p s = if W.is_open p.serial s then W.close p.serial s else (ok tt, s)
