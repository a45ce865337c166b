-- ===== src/Serial/Device/Connection/Held.antt =====
-- The ports that a device holds open: pc/src/pywinhello/serial/device.py.
use pywinhello.Serial.Link
use pywinhello.Prelude.{ap, arith, refl, some, ℕ, ◌+◌, ◌∙◌, ◌∷◌, ◌≡◌}
use pywinhello.Prelude.Exec.{continue, pure}
use pywinhello.Prelude.Result.{Error, Result, connection_error, err, ok}
use pywinhello.Prelude.Text.{Text}
use pywinhello.Serial.Device.{
  PicoDevice, chosen_port, connect, connecting, finish, handshake, on_port,
}
use pywinhello.Serial.Link.{SerialProtocol, open_protocol}
use pywinhello.Serial.Link.Quiet.{IsQuiet, Respects-ping}
use pywinhello.Serial.Port.{Pyserial}
use pywinhello.Serial.Protocol.{Bytes, PingInfo}

-- A count of the ports that are open: opening one that returns raises it by one, and no other call but a
-- close changes it.
pub record IsHolding (W : Pyserial) (held : W.State → ℕ) : Type 0 where
  pub opened :
      (n : Text) (b : ℕ) (s : W.State) (p : W.Port)
      → (W.open_port n b s).0 ≡ ok p
      → held (W.open_port n b s).1 ≡ held s + 1
  pub not_opened :
      (n : Text) (b : ℕ) (s : W.State) (e : Error)
      → (W.open_port n b s).0 ≡ err e
      → held (W.open_port n b s).1 ≡ held s
  pub comports_keeps : (s : W.State) → held (W.comports s).1 ≡ held s
  pub set_timeout_keeps : (p : W.Port) (t : ℕ) (s : W.State) → held (W.set_timeout p t s).1 ≡ held s
  pub reset_keeps : (p : W.Port) (s : W.State) → held (W.reset_input_buffer p s).1 ≡ held s
  pub write_keeps : (p : W.Port) (b : Bytes) (s : W.State) → held (W.write p b s).1 ≡ held s
  pub flush_keeps : (p : W.Port) (s : W.State) → held (W.flush p s).1 ≡ held s
  pub readline_keeps : (p : W.Port) (s : W.State) → held (W.readline p s).1 ≡ held s

module _ (W : Pyserial) (held : W.State → ℕ) (H : IsHolding W held) where
  quiet : IsQuiet W (λ s t. held t ≡ held s)
  quiet = record {
    same = λ s. refl;
    chain = λ r s t h k. k ∙ h;
    set_timeout = H.set_timeout_keeps;
    reset = H.reset_keeps;
    write = H.write_keeps;
    flush = H.flush_keeps;
    readline = H.readline_keeps;
  }

  ping-held : (p : SerialProtocol W) (s : W.State) → held (Link.ping W p s).1 ≡ held s
  ping-held p s = (Respects-ping W (λ s t. held t ≡ held s) quiet p).at s

  -- A handshake ends in the state after its PING.
  pure_after :
      (proto : SerialProtocol W) (r : Result PingInfo) (t : W.State)
      → (continue {B = SerialProtocol W × PingInfo} r (λ info. pure (proto, info)) t).1 ≡ t
  pure_after proto (ok info) t = refl
  pure_after proto (err e) t = refl

  handshake-held :
      (d : PicoDevice W) (name : Text) (s : W.State) (p : W.Port)
      → (W.open_port name d.baud_rate s).0 ≡ ok p
      → held (handshake W d name s).1 ≡ held s + 1
  unfolding handshake open_protocol
  handshake-held d name s p h =
      let proto : SerialProtocol W = record {
        port_name = name;
        default_timeout = 2000;
        serial = p;
      } in
      let opened = (W.open_port name d.baud_rate s).1 in
      rw h (
        ap held (pure_after proto (Link.ping W proto opened).0 (Link.ping W proto opened).1)
        ∙ ping-held proto opened
        ∙ H.opened name d.baud_rate s p h)

  finish-port :
      (d : PicoDevice W) (name : Text) (r : Result (SerialProtocol W × PingInfo)) (s : W.State)
      → ((finish W d name r s).2 ≡ s) × ((finish W d name r s).1.port ≡ d.port)
  unfolding finish
  finish-port d name (ok (proto, info)) s = (refl, refl)
  finish-port d name (err e) s = (refl, refl)

  finish-err :
      (d : PicoDevice W) (name : Text) (r : Result (SerialProtocol W × PingInfo)) (s : W.State)
      (e : Error)
      → (finish W d name r s).0 ≡ err e
      → (e ≡ connection_error) × ((finish W d name r s).1.protocol ≡ d.protocol)
  unfolding finish
  finish-err d name (ok (proto, info)) s e h = cc
  finish-err d name (err c) s e h = (ground arith, refl)

  -- The device as `connect` marks it first.
  abbrev marked : PicoDevice W → PicoDevice W
  marked d = record d { state = connecting }

  -- `connect` to a configured port is the handshake and what is made of it.
  connect-finish :
      (d : PicoDevice W) (c : ℕ) (n : Text) (s : W.State)
      → d.port ≡ some (c ∷ n)
      → connect W d s
        ≡ finish W
            (marked d)
            (c ∷ n)
            (handshake W (marked d) (c ∷ n) s).0
            (handshake W (marked d) (c ∷ n) s).1
  unfolding connect on_port chosen_port
  connect-finish d c n s h = rw (h, chosen_port) refl

  connect-after :
      (d : PicoDevice W) (c : ℕ) (n : Text) (s : W.State)
      → d.port ≡ some (c ∷ n)
      → ((connect W d s).2 ≡ (handshake W (marked d) (c ∷ n) s).1)
        × ((connect W d s).1.port ≡ d.port)
  connect-after d c n s h = rw (connect-finish d c n s h) (
      finish-port (marked d) (c ∷ n) (handshake W (marked d) (c ∷ n) s).0
        (handshake W (marked d) (c ∷ n) s).1)

  connect-err :
      (d : PicoDevice W) (c : ℕ) (n : Text) (s : W.State) (e : Error)
      → d.port ≡ some (c ∷ n)
      → (connect W d s).0 ≡ err e
      → (e ≡ connection_error) × ((connect W d s).1.protocol ≡ d.protocol)
  connect-err d c n s e h k =
      let same = connect-finish d c n s h in
      rw same (
        finish-err (marked d) (c ∷ n) (handshake W (marked d) (c ∷ n) s).0
          (handshake W (marked d) (c ∷ n) s).1 e (rw same at k))

  -- Where opening the configured port returns, a `connect` that raises leaves that port open: it holds one
  -- port more than before, and the device has the protocol that it had, so nothing closes the new
  -- one.
  pub connect-held :
      (d : PicoDevice W) (c : ℕ) (n : Text) (s : W.State) (p : W.Port) (e : Error)
      → d.port ≡ some (c ∷ n)
      → (W.open_port (c ∷ n) d.baud_rate s).0 ≡ ok p
      → (connect W d s).0 ≡ err e
      → (held (connect W d s).2 ≡ held s + 1) × ((connect W d s).1.protocol ≡ d.protocol)
  connect-held d c n s p e h k f = (
    ap held (connect-after d c n s h).0 ∙ handshake-held (marked d) (c ∷ n) s p k,
    (connect-err d c n s e h f).1,
  )
