-- ===== src/Serial/Device.antt =====
-- `PicoDevice` of pc/src/pywinhello/serial/device.py. Each method is one step under the lock; the
-- time of the connection is left out of `DeviceInfo`.
pub mod Connection
use pywinhello.Serial.Link
use pywinhello.Prelude.{
  Bool, Option, [], false, if◌then◌else◌, none, some, suc, true, zero, ℕ, ◌==◌, ◌∷◌,
}
use pywinhello.Prelude.Exec.{Exec, attempt, pure, ◌>>=◌}
use pywinhello.Prelude.Result.{
  Error, Result, attribute_error, connection_error, err, ok, other_error,
}
use pywinhello.Prelude.Text.{Text}
use pywinhello.Serial.Link.{SerialProtocol, close, open_protocol}
use pywinhello.Serial.Port.{Pyserial}
use pywinhello.Serial.Ports.{find_pico_port}
use pywinhello.Serial.Protocol.{PingInfo}

pub data ConnectionState : Type 0 where
  disconnected connecting connected error : ConnectionState

pub record DeviceInfo : Type 0 where
  pub port : Text
  pub ping_info : PingInfo

-- except ConnectionError
unfoldable pub is_connection_error : Error → Bool
is_connection_error connection_error = true
is_connection_error _ = false

module _ (W : Pyserial) where
  pub record PicoDevice : Type 0 where
    pub port : Option Text
    pub baud_rate : ℕ
    pub reconnect_attempts : ℕ
    pub reconnect_delay : ℕ
    pub protocol : Option (SerialProtocol W)
    pub info : Option DeviceInfo
    pub state : ConnectionState

  -- PicoDevice(port=port)
  unfoldable pub new_device : Option Text → PicoDevice
  new_device port = record {
    port = port;
    baud_rate = 115200;
    reconnect_attempts = 3;
    reconnect_delay = 1000;
    protocol = none;
    info = none;
    state = disconnected;
  }

  -- A method of the device: it changes the device and the world.
  abbrev pub Method : Type 0 → Type 0
  Method A = PicoDevice → W.State → Result A × PicoDevice × W.State

  unfoldable pub is_connected : PicoDevice → Bool
  is_connected d = elim d.state [ connected ↦ true | _ ↦ false ]

  -- self._port or self.detect_port()
  unfoldable pub chosen_port : PicoDevice → Exec W.State (Option Text)
  chosen_port d = elim d.port [
    | none ↦ (do ports ← W.comports; pure (find_pico_port ports))
    | some [] ↦ (do ports ← W.comports; pure (find_pico_port ports))
    | some (c ∷ s) ↦ pure (some (c ∷ s))
  ]

  unfoldable pub handshake : PicoDevice → Text → Exec W.State (SerialProtocol W × PingInfo)
  handshake d name = do
    proto ← open_protocol W name d.baud_rate
    info ← Link.ping W proto
    pure (proto, info)

  -- What `connect` makes of the handshake: any exception becomes a ConnectionError.
  finish :
      PicoDevice
      → Text
      → Result (SerialProtocol W × PingInfo)
      → W.State
      → Result DeviceInfo × PicoDevice × W.State
  finish d name (ok (proto, info)) s =
      let i : DeviceInfo = record { port = name; ping_info = info } in
      (ok i, record d { protocol = some proto; info = some i; state = connected }, s)
  finish d name (err e) s = (err connection_error, record d { state = error }, s)

  on_port : PicoDevice → Result (Option Text) → W.State → Result DeviceInfo × PicoDevice × W.State
  unfolding finish
  on_port d (err e) s = (err e, d, s)
  on_port d (ok none) s = (err connection_error, record d { state = error }, s)
  on_port d (ok (some name)) s = finish d name (handshake d name s).0 (handshake d name s).1

  unfoldable pub connect : Method DeviceInfo
  unfolding on_port
  connect d s =
      let d' : PicoDevice = record d { state = connecting } in
      on_port d' (chosen_port d' s).0 (chosen_port d' s).1

  -- An exception of `close` is ignored.
  unfoldable pub close_quietly : Option (SerialProtocol W) → W.State → W.State
  close_quietly none s = s
  close_quietly (some p) s = (close W p s).1

  unfoldable pub disconnect : PicoDevice → W.State → PicoDevice × W.State
  disconnect d s =
      (record d { protocol = none; info = none; state = disconnected }, close_quietly d.protocol s)

  after_error :
      (W.State → Result DeviceInfo × PicoDevice × W.State)
      → Bool
      → Error
      → PicoDevice
      → W.State
      → Result DeviceInfo × PicoDevice × W.State
  after_error again true e d s = again s
  after_error again false e d s = (err e, d, s)

  -- How a round of `reconnect` ends: only a ConnectionError is tried again.
  after_attempt :
      (W.State → Result DeviceInfo × PicoDevice × W.State)
      → Result DeviceInfo
      → PicoDevice
      → W.State
      → Result DeviceInfo × PicoDevice × W.State
  unfolding after_error is_connection_error
  after_attempt again (ok i) d s = (ok i, d, s)
  after_attempt again (err e) d s = after_error again (is_connection_error e) e d s

  -- The loop of `reconnect` over the attempts left, with no delay after the last one.
  unfoldable pub retry : ℕ → Method DeviceInfo
  unfolding after_attempt
  retry zero d s = (err connection_error, d, s)
  retry (suc left) d s =
      after_attempt
        (λ t. retry left (connect d s).1 (if left == 0 then t else W.sleep d.reconnect_delay t))
        (connect d s).0 (connect d s).1 (connect d s).2

  unfoldable pub reconnect : Method DeviceInfo
  reconnect d s = retry d.reconnect_attempts (disconnect d s).0 (disconnect d s).1

  -- The PING of a connected device; without a protocol it raises AttributeError.
  probe : Option (SerialProtocol W) → Exec W.State PingInfo
  probe none s = (err attribute_error, s)
  probe (some p) s = Link.ping W p s

  some_result : Result DeviceInfo → Result (Option DeviceInfo)
  some_result (ok i) = ok (some i)
  some_result (err e) = err e

  or_reconnect :
      PicoDevice → Result PingInfo → W.State → Result (Option DeviceInfo) × PicoDevice × W.State
  or_reconnect d (ok i) s = (ok d.info, d, s)
  or_reconnect d (err e) s = (some_result (reconnect d s).0, (reconnect d s).1, (reconnect d s).2)

  -- The PING, where the device is connected; without an answer there is a reconnection.
  alive : PicoDevice → Exec W.State PingInfo
  unfolding probe
  alive d s = if is_connected d then probe d.protocol s else (err other_error, s)

  unfoldable pub ensure_connected : Method (Option DeviceInfo)
  unfolding alive or_reconnect some_result
  ensure_connected d s = or_reconnect d (alive d s).0 (alive d s).1
