-- ===== src/Gui/Connection/Commands.antt =====
-- What the window's connection sends and holds: `_PicoConnection` of pc/src/pywinhello/gui/app.py.
use pywinhello.Gui.Connection.{
  Gui, PicoConnection, close_locked, command_of, cut_colon, detect, find_device, is_live,
  keep_device, protocol_of, raw_answer, send_command, send_known, talk,
}
use pywinhello.Prelude.{
  Bool, Bool-cases, List, Option, [], ap, append_assoc, arith, false, inl, inr, none, refl, some,
  sym, true, ℕ, ◌++◌, ◌∙◌, ◌∷◌, ◌≡◌,
}
use pywinhello.Prelude.Exec.{Exec}
use pywinhello.Prelude.Result.{Result, Result-cases, err, ok}
use pywinhello.Prelude.Text.{Text, codes, text_eq_iff}
use pywinhello.Serial.Device.{DeviceInfo, PicoDevice, is_connected, new_device}
use pywinhello.Serial.Device.Connection.{Outcome, connect-Outcome}
use pywinhello.Serial.Link.{SerialProtocol, ping, send}
use pywinhello.Serial.Link.Exchange.{send-sent}
use pywinhello.Serial.Port.{IsRecording, Pyserial}
use pywinhello.Serial.Protocol.{
  Bytes, Command, PingInfo, Response, command_line, command_name, commands, encode_command, utf8,
}

-- A name and a payload as one command text.
abbrev rejoin : Text × Option Text → Text
rejoin (name, none) = name
rejoin (name, some payload) = name ++ (codes ":" ++ payload)

push-rejoin : (c : ℕ) (r : Text × Option Text) → rejoin (c ∷ r.0, r.1) ≡ c ∷ rejoin r
push-rejoin c (name, none) = refl
push-rejoin c (name, some payload) = refl

cut_colon-rejoin : (s : Text) → rejoin (cut_colon s) ≡ s
unfolding cut_colon
cut_colon-rejoin [] = refl
cut_colon-rejoin (c ∷ s) = ground (arith, cut_colon-rejoin s, push-rejoin c (cut_colon s))

command_of-name :
    (name : Text) (cs : List Command) (c : Command)
    → command_of name cs ≡ some c
    → command_name c ≡ name
unfolding command_of
command_of-name name [] c h = cc
command_of-name name (d ∷ cs) c h =
    ground (arith, text_eq_iff (command_name d) name, command_of-name name cs c, inj)
  where
    inj : some d ≡ some c → d ≡ c
    inj e = cc

command_line-rejoin :
    (c : Command) (r : Text × Option Text)
    → command_name c ≡ r.0
    → command_line c r.1 ≡ rejoin r ++ codes "\n"
unfolding command_line
command_line-rejoin c (name, none) h = rw h
command_line-rejoin c (name, some payload) h =
    rw (h, append_assoc name (codes ":" ++ payload) (codes "\n"))

module _ (W : Pyserial) where
  pub talk-ok :
      {A : Type 0} (f : SerialProtocol W → Exec W.State A) (c : PicoConnection W) (s : W.State)
      (a : A)
      → (talk W f (c, s)).0 ≡ ok a
      → (p : SerialProtocol W) × (protocol_of W c ≡ ok p)
        × ((f p s).0 ≡ ok a)
        × ((talk W f (c, s)).1 ≡ (c, (f p s).1))
  unfolding talk
  talk-ok f c s a h = elim (Result-cases (protocol_of W c)) [
    | inl (p, e) ↦ (p, e, rw e at h, rw e)
    | inr (x, e) ↦ let k = rw e at h in cc
  ]

  send-encoded :
      (p : SerialProtocol W) (c : Command) (payload : Option Text) (s : W.State) (r : Response)
      → (send W p c payload s).0 ≡ ok r
      → (frame : Bytes) × (encode_command c payload ≡ ok frame)
  unfolding send
  send-encoded p c payload s r h = elim (Result-cases (encode_command c payload)) [
    | inl (b, e) ↦ (b, e)
    | inr (x, e) ↦ let k = rw e at h in ground arith
  ]

  raw_answer-some :
      (r : Result Response × Gui W) (raw : Text)
      → (raw_answer W r).0 ≡ some raw
      → (a : Response) × (r.0 ≡ ok a) × ((raw_answer W r).1 ≡ r.1)
  unfolding raw_answer
  raw_answer-some (ok a, g) raw h = (a, refl, refl)
  raw_answer-some (err e, g) raw h = cc

  module _ (sent : W.State → Bytes) (R : IsRecording W sent) where
    -- Exactly the line of this command text was written.
    abbrev pub Wrote : Text → Gui W → Gui W → Type 0
    Wrote command g h =
        (frame : Bytes) × (utf8 (command ++ codes "\n") ≡ ok frame) × (sent h.1 ≡ sent g.1 ++ frame)

    send_known-Wrote :
        (o : Option Command) (command : Text) (g : Gui W) (raw : Text)
        → command_of (cut_colon command).0 commands ≡ o
        → (send_known W o (cut_colon command).1 g).0 ≡ some raw
        → Wrote command g (send_known W o (cut_colon command).1 g).1
    unfolding send_known encode_command
    send_known-Wrote none command g raw e h = cc
    send_known-Wrote (some c) command (d, s) raw e h =
        let (a, ra, rg) = raw_answer-some _ raw h in
        let (p, hp, ha, hg) = talk-ok (λ p. send W p c (cut_colon command).1) d s a ra in
        let (frame, hf) = send-encoded p c (cut_colon command).1 s a ha in
        (
          frame,
          ap utf8 (sym line) ∙ hf,
          ap (λ g. sent g.1) (rg ∙ hg)
              ∙ send-sent W sent R p c (cut_colon command).1 frame s a hf ha,
        )
      where
        line : command_line c (cut_colon command).1 ≡ command ++ codes "\n"
        line =
            command_line-rejoin c (cut_colon command) (command_of-name _ commands c e)
            ∙ ap (λ t. t ++ codes "\n") (cut_colon-rejoin command)

    -- A command text that is answered was written to the port as it stands, with one newline
    -- behind it, colons of the payload included.
    pub send_command-Wrote :
        (command : Text) (g : Gui W) (raw : Text)
        → (send_command W command g).0 ≡ some raw
        → Wrote command g (send_command W command g).1
    unfolding send_command
    send_command-Wrote command g raw h = elim (Bool-cases (is_live W g.0)) [
      | inl e ↦
          let k = rw e at h in
          rw e (send_known-Wrote (command_of (cut_colon command).0 commands) command g raw refl k)
      | inr e ↦ let k = rw e at h in cc
    ]

  -- What `detect` leaves: a connected device where it returns True, none at all otherwise.
  abbrev pub Detected : Bool × Gui W → Type 0
  Detected (true, g) = is_live W g.0 ≡ true
  Detected (false, g) = g.0 ≡ none

  close_locked-none : (g : Gui W) → (close_locked W g).0 ≡ none
  unfolding close_locked
  close_locked-none (none, s) = refl
  close_locked-none (some d, s) = refl

  keep_device-Detected :
      (c : PicoConnection W) (r : Result DeviceInfo) (d : PicoDevice W) (s : W.State)
      → Outcome W r d
      → Detected (keep_device W c (r, d, s))
  unfolding keep_device is_live is_connected
  keep_device-Detected c (ok i) d s (h, i_eq, p_eq) = rw h
  keep_device-Detected c (err e) d s h = close_locked-none (c, s)

  find_device-Detected : (g : Gui W) → Detected (find_device W g)
  unfolding find_device
  find_device-Detected (c, s) =
      keep_device-Detected c _ _ _ (connect-Outcome W (new_device W none) s)

  talk-keeps :
      {A : Type 0} (f : SerialProtocol W → Exec W.State A) (g : Gui W) → (talk W f g).1.0 ≡ g.0
  unfolding talk
  talk-keeps f (c, s) = refl

  -- `detect` returns True exactly with a connected device held, and otherwise holds no device,
  -- whatever it held before.
  pub detect-Detected : (g : Gui W) → Detected (detect W g)
  unfolding detect
  detect-Detected g = elim (Bool-cases (is_live W g.0)) [
    | inr e ↦ rw e (find_device-Detected g)
    | inl e ↦ rw e (after_ping (talk W (ping W) g).0 e)
  ]
    where
      after_ping :
          (r : Result PingInfo)
          → is_live W g.0 ≡ true
          → Detected (elim r [
            | ok i ↦ (true, (talk W (ping W) g).1)
            | err e ↦ find_device W (close_locked W (talk W (ping W) g).1)
          ])
      after_ping (ok i) e = rw (talk-keeps (ping W) g) e
      after_ping (err x) e = find_device-Detected (close_locked W (talk W (ping W) g).1)
