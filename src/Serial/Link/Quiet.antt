-- ===== src/Serial/Link/Quiet.antt =====
-- What a relation between states that all calls of an exchange respect says of a whole exchange:
-- pc/src/pywinhello/serial/protocol.py.
use pywinhello.Serial.Link
use pywinhello.Prelude.{Bool, Option, [], false, if◌then◌else◌, none, true, ℕ, ◌∷◌}
use pywinhello.Prelude.Exec.{Exec, continue, lift, ◌>>=◌}
use pywinhello.Prelude.Result.{Error, Result, connection_error, err, ok}
use pywinhello.Prelude.Text.{Text}
use pywinhello.Serial.Link.{SerialProtocol, answer, exchange, ping, send}
use pywinhello.Serial.Port.{Pyserial}
use pywinhello.Serial.Protocol.{Bytes, Command, command_timeout, encode_command, parse_ping}

-- A reflexive and transitive relation that holds across each call of an open port but its `close`.
pub record IsQuiet (W : Pyserial) (Rel : W.State → W.State → Type 0) : Type 0 where
  pub same : (s : W.State) → Rel s s
  pub chain : (r s t : W.State) → Rel r s → Rel s t → Rel r t
  pub set_timeout : (p : W.Port) (t : ℕ) (s : W.State) → Rel s (W.set_timeout p t s).1
  pub reset : (p : W.Port) (s : W.State) → Rel s (W.reset_input_buffer p s).1
  pub write : (p : W.Port) (b : Bytes) (s : W.State) → Rel s (W.write p b s).1
  pub flush : (p : W.Port) (s : W.State) → Rel s (W.flush p s).1
  pub readline : (p : W.Port) (s : W.State) → Rel s (W.readline p s).1

module _ (W : Pyserial) (Rel : W.State → W.State → Type 0) (Q : IsQuiet W Rel) where
  -- `m` stays within the relation, whether it returns or raises.
  pub record Respects {A : Type 0} (m : Exec W.State A) : Type 0 where
    pub at : (s : W.State) → Rel s (m s).1

  Respects-continue :
      {A B : Type 0} (r : Result A) (f : A → Exec W.State B) (t : W.State)
      → ((a : A) → Respects (f a))
      → Rel t (continue r f t).1
  Respects-continue (ok a) f t h = (h a).at t
  Respects-continue (err e) f t h = Q.same t

  pub Respects-bind :
      {A B : Type 0} (m : Exec W.State A) (f : A → Exec W.State B)
      → ((s : W.State) → Rel s (m s).1)
      → ((a : A) → Respects (f a))
      → Respects (m >>= f)
  Respects-bind m f hm hf = record {
    at = λ s. Q.chain s (m s).1 _ (hm s) (Respects-continue (m s).0 f (m s).1 hf);
  }

  pub Respects-lift : {A : Type 0} (r : Result A) → Respects (lift r)
  Respects-lift r = record { at = λ s. Q.same s }

  Respects-answer : (line : Bytes) → Respects (answer W line)
  unfolding answer
  Respects-answer [] = record { at = λ s. Q.same s }
  Respects-answer (b ∷ bs) = record { at = λ s. Q.same s }

  Respects-exchange :
      (p : SerialProtocol W) (c : Command) (frame : Bytes) → Respects (exchange W p c frame)
  unfolding exchange
  Respects-exchange p c frame =
      Respects-bind (W.set_timeout p.serial (command_timeout c)) _
        (Q.set_timeout p.serial (command_timeout c))
        λ _. Respects-bind (W.reset_input_buffer p.serial) _ (Q.reset p.serial) λ _.
          Respects-bind (W.write p.serial frame) _ (Q.write p.serial frame) λ _.
            Respects-bind (W.flush p.serial) _ (Q.flush p.serial)
              λ _. Respects-bind (W.readline p.serial) _ (Q.readline p.serial) Respects-answer

  Respects-if :
      {A : Type 0} (t : W.State → Bool) (m : Exec W.State A) (e : Error)
      → Respects m
      → Respects (λ s. if t s then m s else (err e, s))
  Respects-if {A} t m e h = record { at = λ s. branch (t s) s }
    where
      branch : (b : Bool) (s : W.State) → Rel s (if b then m s else (err e, s)).1
      branch true s = h.at s
      branch false s = Q.same s

  pub Respects-send :
      (p : SerialProtocol W) (c : Command) (payload : Option Text) → Respects (send W p c payload)
  unfolding send
  Respects-send p c payload =
      Respects-if (W.is_open p.serial) _ connection_error
        (Respects-bind (lift (encode_command c payload)) _ (λ s. Q.same s) (Respects-exchange p c))

  pub Respects-ping : (p : SerialProtocol W) → Respects (Link.ping W p)
  unfolding Link.ping
  Respects-ping p =
      Respects-bind (send W p Command.ping none) _ (Respects-send p Command.ping none).at
        λ r. Respects-lift (parse_ping r)
