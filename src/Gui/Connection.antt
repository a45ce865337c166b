-- ===== src/Gui/Connection.antt =====
-- `_PicoConnection` of pc/src/pywinhello/gui/app.py. Its lock is held for a whole method, so each
-- method is one step.
pub mod Commands
pub mod Configs
use pywinhello.Serial.Link
use pywinhello.Prelude.{Bool, List, Option, [], false, if◌then◌else◌, none, some, true, ◌==◌, ◌∷◌}
use pywinhello.Prelude.Exec.{Exec, attempt, lift, pure, ◌>>=◌, ◌>>◌}
use pywinhello.Prelude.Result.{Result, attribute_error, connection_error, err, ok}
use pywinhello.Prelude.Text.{Text, text_eq}
use pywinhello.Prelude.Value.{Value, end, obj}
use pywinhello.Serial.Device.{DeviceInfo, PicoDevice, connect, disconnect, is_connected, new_device}
use pywinhello.Serial.Link.{SerialProtocol, send}
use pywinhello.Serial.Port.{Pyserial}
use pywinhello.Serial.Protocol.{Command, Response, command_name, commands}

-- Command(name), by value; `none` is a ValueError.
unfoldable pub command_of : Text → List Command → Option Command
command_of name [] = none
command_of name (c ∷ cs) = if text_eq (command_name c) name then some c else command_of name cs

-- command.split(":", 1): the name up to the first colon, and the payload behind it.
unfoldable pub cut_colon : Text → Text × Option Text
cut_colon [] = ([], none)
cut_colon (c ∷ s) =
    let rest = cut_colon s in if c == b':' then ([], some s) else (c ∷ rest.0, rest.1)

module _ (W : Pyserial) where
  -- self._device
  abbrev pub PicoConnection : Type 0
  PicoConnection = Option (PicoDevice W)

  abbrev pub Gui : Type 0
  Gui = PicoConnection × W.State

  -- self._device is not None and self._device.is_connected
  unfoldable pub is_live : PicoConnection → Bool
  is_live none = false
  is_live (some d) = is_connected W d

  -- self._device.protocol, which raises ConnectionError without a connection.
  unfoldable pub protocol_of : PicoConnection → Result (SerialProtocol W)
  protocol_of none = err attribute_error
  protocol_of (some d) =
      if is_connected W d
      then (elim d.protocol [ none ↦ err connection_error | some p ↦ ok p ])
      else err connection_error

  unfoldable pub port : PicoConnection → Option Text
  port none = none
  port (some d) =
      if is_connected W d then (elim d.info [ none ↦ none | some i ↦ some i.port ]) else none

  -- An exception of `disconnect` is ignored.
  unfoldable pub close_locked : Gui → Gui
  close_locked (none, s) = (none, s)
  close_locked (some d, s) = (none, (disconnect W d s).1)

  -- A method that only talks to the device: what it changes is the world.
  unfoldable pub talk : {A : Type 0} → (SerialProtocol W → Exec W.State A) → Exec Gui A
  talk f (c, s) = let r = (do p ← lift (protocol_of c); f p) s in (r.0, (c, r.1))

  -- The second `try` of `detect`: a device is kept only where `connect` returned.
  keep_device : PicoConnection → Result DeviceInfo × PicoDevice W × W.State → Bool × Gui
  keep_device c (ok i, d, s) = (true, (some d, s))
  keep_device c (err e, d, s) = (false, close_locked (c, s))

  find_device : Gui → Bool × Gui
  unfolding keep_device
  find_device (c, s) = keep_device c (connect W (new_device W none) s)

  unfoldable pub detect : Gui → Bool × Gui
  unfolding find_device
  detect g =
      if is_live g.0
      then (elim (talk (Link.ping W) g).0 [
        | ok i ↦ (true, (talk (Link.ping W) g).1)
        | err e ↦ find_device (close_locked (talk (Link.ping W) g).1)
      ])
      else find_device g

  -- {} without a connection and on any exception.
  unfoldable pub or_empty : Exec Gui Value → Gui → Value × Gui
  or_empty m g =
      if is_live g.0
      then (elim (m g).0 [ ok v ↦ (v, (m g).1) | err e ↦ (obj end, (m g).1) ])
      else (obj end, g)

  unfoldable pub get_config : Gui → Value × Gui
  unfolding or_empty
  get_config = or_empty (talk (Link.get_config W))

  unfoldable pub get_status : Gui → Value × Gui
  unfolding or_empty
  get_status = or_empty (talk (Link.status W))

  unfoldable pub set_config : Value → Exec Gui (Unit {0})
  set_config config g =
      if is_live g.0 then talk (λ p. Link.set_config W p config) g else (err connection_error, g)

  -- resp.raw, or None on any exception
  unfoldable pub raw_answer : Result Response × Gui → Option Text × Gui
  raw_answer (ok r, g) = (some r.raw, g)
  raw_answer (err e, g) = (none, g)

  unfoldable pub send_known : Option Command → Option Text → Gui → Option Text × Gui
  unfolding raw_answer
  send_known none payload g = (none, g)
  send_known (some c) payload g = raw_answer (talk (λ p. Link.send W p c payload) g)

  unfoldable pub send_command : Text → Gui → Option Text × Gui
  unfolding send_known
  send_command command g =
      if is_live g.0
      then send_known (command_of (cut_colon command).0 commands) (cut_colon command).1 g
      else (none, g)

  unfoldable pub close : Gui → Gui
  close g = close_locked g
