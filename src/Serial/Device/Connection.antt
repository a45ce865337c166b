-- ===== src/Serial/Device/Connection.antt =====
-- The connection state machine of pc/src/pywinhello/serial/device.py.
pub mod Attempts
pub mod Held
use pywinhello.Serial.Link
use pywinhello.Prelude.{
  Bool, Bool-cases, Option, ap, arith, false, if◌then◌else◌, inl, inr, none, refl, some, subst, suc,
  true, zero, ℕ, ◌==◌, ◌∙◌, ◌≡◌, ◌≢◌, ◌⊎◌,
}
use pywinhello.Prelude.Dict.{is_some}
use pywinhello.Prelude.Result.{Error, Result, err, ok}
use pywinhello.Prelude.Text.{Text}
use pywinhello.Serial.Device.{
  DeviceInfo, PicoDevice, after_attempt, after_error, alive, connect, connected, connecting,
  disconnect, ensure_connected, finish, handshake, is_connected, is_connection_error, on_port,
  or_reconnect, reconnect, retry, some_result,
}
use pywinhello.Serial.Link.{SerialProtocol}
use pywinhello.Serial.Port.{Pyserial}
use pywinhello.Serial.Protocol.{PingInfo}

module _ (W : Pyserial) where
  -- What a device looks like when an attempt has ended.
  abbrev pub Outcome : Result DeviceInfo → PicoDevice W → Type 0
  Outcome (ok i) d = (d.state ≡ connected) × (d.info ≡ some i) × (is_some d.protocol ≡ true)
  Outcome (err e) d = d.state ≢ connected

  -- A device that says it is connected has a protocol and the metadata of its handshake.
  abbrev pub IsCoherent : PicoDevice W → Type 0
  IsCoherent d = (d.state ≢ connected) ⊎ ((is_some d.protocol ≡ true) × (is_some d.info ≡ true))

  IsCoherent-connected :
      (d : PicoDevice W)
      → IsCoherent d
      → d.state ≡ connected
      → (is_some d.protocol ≡ true) × (is_some d.info ≡ true)
  IsCoherent-connected d (inl n) h = absurd (n h)
  IsCoherent-connected d (inr c) h = c

  finish-Outcome :
      (d : PicoDevice W) (name : Text) (r : Result (SerialProtocol W × PingInfo)) (s : W.State)
      → Outcome (finish W d name r s).0 (finish W d name r s).1
  unfolding finish
  finish-Outcome d name (ok (proto, info)) s = (refl, refl, refl)
  finish-Outcome d name (err e) s = λ h. cc

  on_port-Outcome :
      (d : PicoDevice W) (r : Result (Option Text)) (s : W.State)
      → d.state ≡ connecting
      → Outcome (on_port W d r s).0 (on_port W d r s).1
  unfolding on_port
  on_port-Outcome d (err e) s h = λ k. cc
  on_port-Outcome d (ok none) s h = λ k. cc
  on_port-Outcome d (ok (some name)) s h =
      finish-Outcome d name (handshake W d name s).0 (handshake W d name s).1

  -- `connect` that returns leaves the device connected, with the metadata that it returns and a
  -- protocol; `connect` that raises never leaves it connected.
  pub connect-Outcome :
      (d : PicoDevice W) (s : W.State) → Outcome (connect W d s).0 (connect W d s).1
  unfolding connect
  connect-Outcome d s = on_port-Outcome _ _ _ refl

  Outcome-IsCoherent : (r : Result DeviceInfo) (d : PicoDevice W) → Outcome r d → IsCoherent d
  Outcome-IsCoherent (ok i) d (c, e, p) = inr (p, ap is_some e)
  Outcome-IsCoherent (err e) d n = inl n

  -- Nothing is left of an earlier connection.
  abbrev pub IsCleared : PicoDevice W → Type 0
  IsCleared d = (d.protocol ≡ none) × (d.info ≡ none)

  finish-IsCleared :
      (d : PicoDevice W) (name : Text) (r : Result (SerialProtocol W × PingInfo)) (s : W.State)
      (e : Error)
      → IsCleared d
      → (finish W d name r s).0 ≡ err e
      → IsCleared (finish W d name r s).1
  unfolding finish
  finish-IsCleared d name (ok (proto, info)) s e h k = cc
  finish-IsCleared d name (err c) s e h k = h

  on_port-IsCleared :
      (d : PicoDevice W) (r : Result (Option Text)) (s : W.State) (e : Error)
      → IsCleared d
      → (on_port W d r s).0 ≡ err e
      → IsCleared (on_port W d r s).1
  unfolding on_port
  on_port-IsCleared d (err c) s e h k = h
  on_port-IsCleared d (ok none) s e h k = h
  on_port-IsCleared d (ok (some name)) s e h k =
      finish-IsCleared d name (handshake W d name s).0 (handshake W d name s).1 e h k

  connect-IsCleared :
      (d : PicoDevice W) (s : W.State) (e : Error)
      → IsCleared d
      → (connect W d s).0 ≡ err e
      → IsCleared (connect W d s).1
  unfolding connect
  connect-IsCleared d s e h k = on_port-IsCleared _ _ _ e h k

  -- The outcome of `reconnect`: a failure leaves nothing of the earlier connection.
  abbrev pub Fresh : Result DeviceInfo → PicoDevice W → Type 0
  Fresh (ok i) d = Outcome (ok i) d
  Fresh (err e) d = (d.state ≢ connected) × IsCleared d

  after_attempt-Fresh :
      (again : W.State → Result DeviceInfo × PicoDevice W × W.State) (r : Result DeviceInfo)
      (d : PicoDevice W) (s : W.State)
      → Outcome r d
      → ((e : Error) → r ≡ err e → IsCleared d)
      → ((e : Error) → r ≡ err e → (t : W.State) → Fresh (again t).0 (again t).1)
      → Fresh (after_attempt W again r d s).0 (after_attempt W again r d s).1
  unfolding after_attempt after_error
  after_attempt-Fresh again (ok i) d s o c k = o
  after_attempt-Fresh again (err e) d s o c k = by_class (is_connection_error e)
    where
      by_class : (t : Bool) → Fresh (after_error W again t e d s).0 (after_error W again t e d s).1
      by_class true = k e refl s
      by_class false = (o, c e refl)

  retry-Fresh :
      (left : ℕ) (d : PicoDevice W) (s : W.State)
      → d.state ≢ connected
      → IsCleared d
      → Fresh (retry W left d s).0 (retry W left d s).1
  unfolding retry
  retry-Fresh zero d s n h = (n, h)
  retry-Fresh (suc left) d s n h =
      let o : Outcome (connect W d s).0 (connect W d s).1 = connect-Outcome d s in
      after_attempt-Fresh
        (λ t. retry W left (connect W d s).1 (if left == 0 then t else W.sleep d.reconnect_delay t))
        (connect W d s).0 (connect W d s).1 (connect W d s).2 o (λ e k. connect-IsCleared d s e h k)
        (λ e k t.
          retry-Fresh left (connect W d s).1 (if left == 0 then t else W.sleep d.reconnect_delay t)
            (subst (λ r. Outcome r (connect W d s).1) k o) (connect-IsCleared d s e h k))

  -- `reconnect` returns only with a connected device; where it raises, the device is not
  -- connected and keeps neither protocol nor metadata, whatever it held before.
  pub reconnect-Fresh :
      (d : PicoDevice W) (s : W.State) → Fresh (reconnect W d s).0 (reconnect W d s).1
  unfolding reconnect disconnect
  reconnect-Fresh d s = retry-Fresh d.reconnect_attempts _ _ (λ h. cc) (refl, refl)

  Fresh-Outcome : (r : Result DeviceInfo) (d : PicoDevice W) → Fresh r d → Outcome r d
  Fresh-Outcome (ok i) d h = h
  Fresh-Outcome (err e) d h = h.0

  -- The outcome of `ensure_connected`: what it returns is the metadata of a connected device.
  abbrev pub Ensured : Result (Option DeviceInfo) → PicoDevice W → Type 0
  Ensured (ok i) d =
      (d.state ≡ connected) × (d.info ≡ i) × (is_some d.protocol ≡ true) × (is_some i ≡ true)
  Ensured (err e) d = d.state ≢ connected

  some_result-Ensured :
      (r : Result DeviceInfo) (d : PicoDevice W) → Outcome r d → Ensured (some_result W r) d
  unfolding some_result
  some_result-Ensured (ok i) d (c, e, p) = (c, e, p, refl)
  some_result-Ensured (err e) d h = h

  or_reconnect-Ensured :
      (d : PicoDevice W) (r : Result PingInfo) (s : W.State)
      → ((i : PingInfo)
          → r ≡ ok i
          → (d.state ≡ connected) × (is_some d.protocol ≡ true) × (is_some d.info ≡ true))
      → Ensured (or_reconnect W d r s).0 (or_reconnect W d r s).1
  unfolding or_reconnect
  or_reconnect-Ensured d (ok i) s h = let (c, p, q) = h i refl in (c, refl, p, q)
  or_reconnect-Ensured d (err e) s h =
      some_result-Ensured _ _ (Fresh-Outcome _ _ (reconnect-Fresh d s))

  alive-connected :
      (d : PicoDevice W) (s : W.State) (i : PingInfo) → (alive W d s).0 ≡ ok i → d.state ≡ connected
  unfolding alive is_connected
  alive-connected d s i h = ground arith

  -- From a coherent device `ensure_connected` returns the metadata of a connected device, or it
  -- raises and the device is not connected.
  pub ensure_connected-Ensured :
      (d : PicoDevice W) (s : W.State)
      → IsCoherent d
      → Ensured (ensure_connected W d s).0 (ensure_connected W d s).1
  unfolding ensure_connected
  ensure_connected-Ensured d s c = or_reconnect-Ensured d (alive W d s).0 (alive W d s).1 (λ i e.
      let h = alive-connected d s i e in let (p, q) = IsCoherent-connected d c h in (h, p, q))

  Ensured-IsCoherent :
      (r : Result (Option DeviceInfo)) (d : PicoDevice W) → Ensured r d → IsCoherent d
  Ensured-IsCoherent (ok i) d (c, e, p, q) = inr (p, ap is_some e ∙ q)
  Ensured-IsCoherent (err e) d n = inl n

  -- From a coherent device, one that is connected only with a protocol and metadata, every method leads
  -- to a coherent device, on success and on failure.
  pub methods-IsCoherent :
      (d : PicoDevice W) (s : W.State)
      → IsCoherent d
      → IsCoherent (connect W d s).1
        × IsCoherent (disconnect W d s).0
        × IsCoherent (reconnect W d s).1
        × IsCoherent (ensure_connected W d s).1
  methods-IsCoherent d s c = (
    Outcome-IsCoherent _ _ (connect-Outcome d s),
    unfold disconnect in inl (λ h. cc),
    Outcome-IsCoherent _ _ (Fresh-Outcome _ _ (reconnect-Fresh d s)),
    Ensured-IsCoherent _ _ (ensure_connected-Ensured d s c),
  )
