-- ===== src/Serial/Link/Exchange.antt =====
-- What one exchange with the Pico writes, on a port whose written bytes are logged.
use pywinhello.Prelude.{
  Bool, Option, [], ap, append-nil, append_assoc, false, if◌then◌else◌, refl, subst, sym, true,
  ◌++◌, ◌∙◌, ◌∷◌, ◌≡◌,
}
use pywinhello.Prelude.Exec.{Exec, continue, lift, pure, raise, ◌>>=◌}
use pywinhello.Prelude.Result.{Error, Result, connection_error, err, ok, timeout_error}
use pywinhello.Prelude.Text.{Text}
use pywinhello.Serial.Link.{SerialProtocol, answer, exchange, send, write_raw}
use pywinhello.Serial.Port.{IsRecording, Pyserial}
use pywinhello.Serial.Protocol.{Bytes, Command, Response, command_timeout, encode_command}

module _ (W : Pyserial) (sent : W.State → Bytes) where
  -- Where `m` returns, it has written exactly `b`.
  pub record Sends {A : Type 0} (m : Exec W.State A) (b : Bytes) : Type 0 where
    pub at : (s : W.State) (a : A) → (m s).0 ≡ ok a → sent (m s).1 ≡ sent s ++ b

  Sends-continue :
      {A B : Type 0} (r : Result A) (f : A → Exec W.State B) (t s : W.State) (x y : Bytes)
      → ((a : A) → r ≡ ok a → sent t ≡ sent s ++ x)
      → ((a : A) → Sends (f a) y)
      → (b : B) → (continue r f t).0 ≡ ok b
      → sent (continue r f t).1 ≡ sent s ++ (x ++ y)
  Sends-continue (ok a) f t s x y hx hy b e =
      (hy a).at t b e ∙ ap (λ l. l ++ y) (hx a refl) ∙ append_assoc (sent s) x y
  Sends-continue (err c) f t s x y hx hy b e = cc

  pub Sends-bind :
      {A B : Type 0} (m : Exec W.State A) (f : A → Exec W.State B) (x y : Bytes)
      → Sends m x
      → ((a : A) → Sends (f a) y)
      → Sends (m >>= f) (x ++ y)
  Sends-bind m f x y hx hy = record {
    at = λ s b e. Sends-continue (m s).0 f (m s).1 s x y (λ a h. hx.at s a h) hy b e;
  }

  pub Sends-pure : {A : Type 0} (a : A) → Sends (pure a) []
  Sends-pure a = record { at = λ s b e. sym (append-nil (sent s)) }

  pub Sends-raise : {A : Type 0} (e : Error) (b : Bytes) → Sends (raise {A = A} e) b
  Sends-raise e b = record { at = λ s a h. cc }

  pub Sends-if :
      {A : Type 0} (t : Bool) (m n : Exec W.State A) (b : Bytes)
      → Sends m b
      → Sends n b
      → Sends (if t then m else n) b
  Sends-if true m n b hm hn = hm
  Sends-if false m n b hm hn = hn

  pub Sends-elim :
      {A : Type 0} (t : Bool) (m n : Exec W.State A) (b : Bytes)
      → (t ≡ true → Sends m b)
      → (t ≡ false → Sends n b)
      → Sends (elim t [ true ↦ m | false ↦ n ]) b
  Sends-elim true m n b hm hn = hm refl
  Sends-elim false m n b hm hn = hn refl

  pub Sends-lift : {A : Type 0} (r : Result A) → Sends (lift r) []
  Sends-lift r = record { at = λ s b e. sym (append-nil (sent s)) }

  pub Sends-quiet :
      {A : Type 0} (m : Exec W.State A) → ((s : W.State) → sent (m s).1 ≡ sent s) → Sends m []
  Sends-quiet m h = record { at = λ s a e. h s ∙ sym (append-nil (sent s)) }

  pub quiet_bind :
      {A B : Type 0} (m : Exec W.State A) (f : A → Exec W.State B) (b : Bytes)
      → ((s : W.State) → sent (m s).1 ≡ sent s)
      → ((a : A) → Sends (f a) b)
      → Sends (m >>= f) b
  quiet_bind m f b h k = Sends-bind m f [] b (Sends-quiet m h) k

  module _ (R : IsRecording W sent) where
    pub Sends-write : (p : W.Port) (b : Bytes) → Sends (W.write p b) b
    Sends-write p b = record { at = λ s a e. R.write_appends p b s e }

    pub Sends-write_raw : (p : SerialProtocol W) (b : Bytes) → Sends (write_raw W p b) b
    unfolding write_raw
    Sends-write_raw p b = subst (Sends (write_raw W p b)) (append-nil b) (
        Sends-bind (W.write p.serial b) (λ _. W.flush p.serial) b [] (Sends-write p.serial b)
          λ _. Sends-quiet (W.flush p.serial) (R.flush_keeps p.serial))

    Sends-answer : (line : Bytes) → Sends (answer W line) []
    unfolding answer
    Sends-answer [] = Sends-raise timeout_error []
    Sends-answer (b ∷ bs) = Sends-pure _

    Sends-exchange :
        (p : SerialProtocol W) (c : Command) (frame : Bytes) → Sends (exchange W p c frame) frame
    unfolding exchange
    Sends-exchange p c frame = subst (Sends (exchange W p c frame)) (append-nil frame) (
        quiet_bind (W.set_timeout p.serial (command_timeout c)) _ _
          (R.set_timeout_keeps p.serial (command_timeout c))
          λ _. quiet_bind (W.reset_input_buffer p.serial) _ _ (R.reset_keeps p.serial) λ _.
            Sends-bind (W.write p.serial frame) _ frame [] (Sends-write p.serial frame) λ _.
              quiet_bind (W.flush p.serial) _ _ (R.flush_keeps p.serial)
                λ _. quiet_bind (W.readline p.serial) _ _ (R.readline_keeps p.serial) Sends-answer)

    Sends-guarded :
        {A : Type 0} (t : W.State → Bool) (m : Exec W.State A) (e : Error) (b : Bytes)
        → Sends m b
        → Sends (λ s. if t s then m s else (err e, s)) b
    Sends-guarded {A} t m e b h = record { at = λ s a k. branch (t s) s a k }
      where
        branch :
            (o : Bool) (s : W.State) (a : A)
            → (if o then m s else (err e, s)).0 ≡ ok a
            → sent (if o then m s else (err e, s)).1 ≡ sent s ++ b
        branch true s a k = h.at s a k
        branch false s a k = cc

    Sends-encoded :
        (p : SerialProtocol W) (c : Command) (r : Result Bytes) (frame : Bytes)
        → r ≡ ok frame
        → Sends (lift r >>= exchange W p c) frame
    Sends-encoded p c r frame e = rw e (Sends-exchange p c frame)

    pub send-Sends :
        (p : SerialProtocol W) (c : Command) (payload : Option Text) (frame : Bytes)
        → encode_command c payload ≡ ok frame
        → Sends (send W p c payload) frame
    unfolding send
    send-Sends p c payload frame e =
        Sends-guarded (W.is_open p.serial) _ connection_error frame
          (Sends-encoded p c (encode_command c payload) frame e)

-- A command that is answered has written exactly its encoded line.
pub send-sent :
    (W : Pyserial) (sent : W.State → Bytes) (R : IsRecording W sent) (p : SerialProtocol W)
    (c : Command) (payload : Option Text) (frame : Bytes) (s : W.State) (r : Response)
    → encode_command c payload ≡ ok frame
    → (send W p c payload s).0 ≡ ok r
    → sent (send W p c payload s).1 ≡ sent s ++ frame
send-sent W sent R p c payload frame s r e h = (send-Sends W sent R p c payload frame e).at s r h

-- On a closed port a command raises ConnectionError and touches nothing.
pub send_closed :
    (W : Pyserial) (p : SerialProtocol W) (c : Command) (payload : Option Text) (s : W.State)
    → W.is_open p.serial s ≡ false
    → send W p c payload s ≡ (err connection_error, s)
unfolding send
send_closed W p c payload s h = rw h
