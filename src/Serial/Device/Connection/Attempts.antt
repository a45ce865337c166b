-- ===== src/Serial/Device/Connection/Attempts.antt =====
-- How often a reconnection opens the port.
use pywinhello.Serial.Link
use pywinhello.Prelude.{
  Bool, Option, [], arith, false, if◌then◌else◌, none, refl, some, suc, true, zero, ℕ, ◌+◌, ◌==◌,
  ◌∷◌, ◌≡◌, ◌≤◌,
}
use pywinhello.Prelude.Exec.{Exec, continue, lift, pure, ◌>>=◌}
use pywinhello.Prelude.Result.{Result, connection_error, err, ok}
use pywinhello.Prelude.Text.{Text}
use pywinhello.Serial.Device.{
  DeviceInfo, PicoDevice, after_attempt, after_error, chosen_port, close_quietly, connect,
  connecting, disconnect, disconnected, finish, handshake, is_connection_error, on_port, reconnect,
  retry,
}
use pywinhello.Serial.Link.{SerialProtocol, answer, close, exchange, open_protocol, send}
use pywinhello.Serial.Port.{Pyserial}
use pywinhello.Serial.Ports.{find_pico_port}
use pywinhello.Serial.Protocol.{
  Bytes, Command, PingInfo, command_timeout, encode_command, parse_ping,
}

-- A count of opened ports, which only the opening of a port raises, by one at most.
pub record IsCounting (W : Pyserial) (opens : W.State → ℕ) : Type 0 where
  pub open_port_counts :
      (n : Text) (b : ℕ) (s : W.State) → opens (W.open_port n b s).1 ≤ opens s + 1
  pub comports_keeps : (s : W.State) → opens (W.comports s).1 ≤ opens s
  pub set_timeout_keeps :
      (p : W.Port) (t : ℕ) (s : W.State) → opens (W.set_timeout p t s).1 ≤ opens s
  pub reset_keeps : (p : W.Port) (s : W.State) → opens (W.reset_input_buffer p s).1 ≤ opens s
  pub write_keeps : (p : W.Port) (b : Bytes) (s : W.State) → opens (W.write p b s).1 ≤ opens s
  pub flush_keeps : (p : W.Port) (s : W.State) → opens (W.flush p s).1 ≤ opens s
  pub readline_keeps : (p : W.Port) (s : W.State) → opens (W.readline p s).1 ≤ opens s
  pub close_keeps : (p : W.Port) (s : W.State) → opens (W.close p s).1 ≤ opens s
  pub sleep_keeps : (t : ℕ) (s : W.State) → opens (W.sleep t s) ≤ opens s

module _ (W : Pyserial) (opens : W.State → ℕ) (C : IsCounting W opens) where
  -- `m` opens at most `k` ports, whether it returns or raises.
  record Opens {A : Type 0} (m : Exec W.State A) (k : ℕ) : Type 0 where
    at : (s : W.State) → opens (m s).1 ≤ opens s + k

  Opens-continue :
      {A B : Type 0} (r : Result A) (f : A → Exec W.State B) (k : ℕ) (t : W.State)
      → ((a : A) → Opens (f a) k)
      → opens (continue r f t).1 ≤ opens t + k
  Opens-continue (ok a) f k t h = (h a).at t
  Opens-continue (err e) f k t h = omega arith

  Opens-bind :
      {A B : Type 0} (m : Exec W.State A) (f : A → Exec W.State B) (j k : ℕ)
      → Opens m j
      → ((a : A) → Opens (f a) k)
      → Opens (m >>= f) (j + k)
  Opens-bind m f j k hm hf = record {
    at = λ s. omega (arith, hm.at s, Opens-continue (m s).0 f k (m s).1 hf);
  }

  quiet :
      {A B : Type 0} (m : Exec W.State A) (f : A → Exec W.State B)
      → ((s : W.State) → opens (m s).1 ≤ opens s)
      → ((a : A) → Opens (f a) 0)
      → Opens (m >>= f) 0
  quiet m f hm hf = Opens-bind m f 0 0 (record { at = λ s. omega (arith, hm s) }) hf

  Opens-pure : {A : Type 0} (a : A) → Opens (pure a) 0
  Opens-pure a = record { at = λ s. omega arith }

  Opens-lift : {A : Type 0} (r : Result A) → Opens (lift r) 0
  Opens-lift r = record { at = λ s. omega arith }

  answer-Opens : (line : Bytes) → Opens (answer W line) 0
  unfolding answer
  answer-Opens [] = record { at = λ s. omega arith }
  answer-Opens (b ∷ bs) = Opens-pure _

  exchange-Opens :
      (p : SerialProtocol W) (c : Command) (frame : Bytes) → Opens (exchange W p c frame) 0
  unfolding exchange
  exchange-Opens p c frame =
      quiet (W.set_timeout p.serial (command_timeout c)) _
        (C.set_timeout_keeps p.serial (command_timeout c))
        λ _. quiet (W.reset_input_buffer p.serial) _ (C.reset_keeps p.serial) λ _.
          quiet (W.write p.serial frame) _ (C.write_keeps p.serial frame) λ _.
            quiet (W.flush p.serial) _ (C.flush_keeps p.serial)
              λ _. quiet (W.readline p.serial) _ (C.readline_keeps p.serial) answer-Opens

  send-Opens :
      (p : SerialProtocol W) (c : Command) (payload : Option Text) → Opens (send W p c payload) 0
  unfolding send
  send-Opens p c payload = record { at = λ s. branch (W.is_open p.serial s) s }
    where
      body : Opens (lift (encode_command c payload) >>= exchange W p c) 0
      body = Opens-bind (lift (encode_command c payload)) _ 0 0 (Opens-lift _) (exchange-Opens p c)

      branch :
          (t : Bool) (s : W.State)
          → opens
              (if t
                then (lift (encode_command c payload) >>= exchange W p c) s
                else (err connection_error, s)).1
            ≤ opens s + 0
      branch true s = body.at s
      branch false s = omega arith

  ping-Opens : (p : SerialProtocol W) → Opens (Link.ping W p) 0
  unfolding Link.ping
  ping-Opens p =
      Opens-bind (send W p Command.ping none) _ 0 0 (send-Opens p Command.ping none)
        λ r. Opens-lift (parse_ping r)

  open_protocol-Opens : (name : Text) (baud : ℕ) → Opens (open_protocol W name baud) 1
  unfolding open_protocol
  open_protocol-Opens name baud =
      Opens-bind (W.open_port name baud) _ 1 0 (record { at = C.open_port_counts name baud })
        λ port. Opens-pure _

  handshake-Opens : (d : PicoDevice W) (name : Text) → Opens (handshake W d name) 1
  unfolding handshake
  handshake-Opens d name =
      Opens-bind (open_protocol W name d.baud_rate) _ 1 0 (open_protocol-Opens name d.baud_rate)
        λ proto. Opens-bind (Link.ping W proto) _ 0 0 (ping-Opens proto) λ info. Opens-pure _

  enumeration-Opens : Opens (W.comports >>= λ ports. pure (find_pico_port ports)) 0
  enumeration-Opens = quiet W.comports _ C.comports_keeps λ ports. Opens-pure _

  by_port : Option Text → Exec W.State (Option Text)
  by_port none = W.comports >>= λ ports. pure (find_pico_port ports)
  by_port (some []) = W.comports >>= λ ports. pure (find_pico_port ports)
  by_port (some (c ∷ s)) = pure (some (c ∷ s))

  by_port-Opens : (port : Option Text) → Opens (by_port port) 0
  unfolding by_port
  by_port-Opens none = enumeration-Opens
  by_port-Opens (some []) = enumeration-Opens
  by_port-Opens (some (c ∷ s)) = Opens-pure _

  chosen_port-le : (d : PicoDevice W) (s : W.State) → opens (chosen_port W d s).1 ≤ opens s + 0
  unfolding chosen_port by_port
  chosen_port-le d s = (by_port-Opens d.port).at s

  finish-eq :
      (d : PicoDevice W) (name : Text) (r : Result (SerialProtocol W × PingInfo)) (s : W.State)
      → (finish W d name r s).2 ≡ s
  unfolding finish
  finish-eq d name (ok (proto, info)) s = refl
  finish-eq d name (err e) s = refl

  on_port-le :
      (d : PicoDevice W) (r : Result (Option Text)) (s : W.State)
      → opens (on_port W d r s).2 ≤ opens s + 1
  unfolding on_port
  on_port-le d (err e) s = omega arith
  on_port-le d (ok none) s = omega arith
  on_port-le d (ok (some name)) s =
      rw (finish-eq d name (handshake W d name s).0 (handshake W d name s).1)
        ((handshake-Opens d name).at s)

  connect-le : (d : PicoDevice W) (s : W.State) → opens (connect W d s).2 ≤ opens s + 1
  unfolding connect
  connect-le d s =
      let d' : PicoDevice W = record d { state = connecting } in
      omega
        (arith, on_port-le d' (chosen_port W d' s).0 (chosen_port W d' s).1, chosen_port-le d' s)

  after_attempt-le :
      (again : W.State → Result DeviceInfo × PicoDevice W × W.State) (r : Result DeviceInfo)
      (d : PicoDevice W) (s : W.State) (k : ℕ)
      → opens (again s).2 ≤ opens s + k
      → opens (after_attempt W again r d s).2 ≤ opens s + k
  unfolding after_attempt after_error
  after_attempt-le again (ok i) d s k h = omega arith
  after_attempt-le again (err e) d s k h = by_class (is_connection_error e)
    where
      by_class : (t : Bool) → opens (after_error W again t e d s).2 ≤ opens s + k
      by_class true = h
      by_class false = omega arith

  pause-le :
      (t : Bool) (delay : ℕ) (s : W.State) → opens (if t then s else W.sleep delay s) ≤ opens s
  pause-le true delay s = omega arith
  pause-le false delay s = C.sleep_keeps delay s

  retry-le :
      (left : ℕ) (d : PicoDevice W) (s : W.State) → opens (retry W left d s).2 ≤ opens s + left
  unfolding retry
  retry-le zero d s = omega arith
  retry-le (suc left) d s =
      let e = (connect W d s).1 in
      let t = (connect W d s).2 in
      let u = if left == 0 then t else W.sleep d.reconnect_delay t in
      omega (
        arith,
        after_attempt-le
            (λ v. retry W left e (if left == 0 then v else W.sleep d.reconnect_delay v))
            (connect W d s).0 e t left
            (omega (arith, retry-le left e u, pause-le (left == 0) d.reconnect_delay t)),
        connect-le d s,
      )

  close_quietly-le :
      (p : Option (SerialProtocol W)) (s : W.State) → opens (close_quietly W p s) ≤ opens s
  unfolding close_quietly close
  close_quietly-le none s = omega arith
  close_quietly-le (some p) s = ground (arith, C.close_keeps p.serial s)

  -- A reconnection opens the port at most as often as `reconnect_attempts` says, whatever fails.
  pub reconnect_le :
      (d : PicoDevice W) (s : W.State) → opens (reconnect W d s).2 ≤ opens s + d.reconnect_attempts
  unfolding reconnect disconnect
  reconnect_le d s = omega (
    arith,
    retry-le d.reconnect_attempts (record d { protocol = none; info = none; state = disconnected })
        (close_quietly W d.protocol s),
    close_quietly-le d.protocol s,
  )
