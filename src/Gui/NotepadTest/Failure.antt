-- ===== src/Gui/NotepadTest/Failure.antt =====
-- Why the test of pc/src/pywinhello/gui/tests/notepad_test.py never passes: `Command` has no TYPE.
use pywinhello.Gui.Connection.{port}
use pywinhello.Gui.NotepadTest.{
  Running, after_open, body, clear_clipboard, close_kept, close_protocol, device, get_kept,
  get_protocol, guarded, keep_protocol, opened, run, send_key, typed, with_error,
}
use pywinhello.Gui.NotepadTest.Outcome.{NotepadTestResult, all_passed}
use pywinhello.Gui.Steps.Desktop.{Desktop}
use pywinhello.Gui.Steps.TestStep.Failure.{command_member_lem}
use pywinhello.Gui.Steps.Typing.{test_string}
use pywinhello.Prelude.{Option, ap, arith, false, none, refl, some, ◌∙◌, ◌≡◌}
use pywinhello.Prelude.Exec.{Exec, continue, ◌>>=◌}
use pywinhello.Prelude.Result.{Error, Result, attribute_error, err, ok}
use pywinhello.Prelude.Text.{Text, codes}
use pywinhello.Serial.Link.{SerialProtocol}
use pywinhello.Serial.Port.{Pyserial}

module _ (W : Pyserial) where
  -- The text has not been compared.
  abbrev IsUnmatched : Running W → Type 0
  IsUnmatched w = w.1.result.type_match ≡ false

  -- `m` does not touch the result.
  record Keeps {A : Type 0} (m : Exec (Running W) A) : Type 0 where
    at : (w : Running W) → (m w).1.1.result ≡ w.1.result

  -- `m` raises and does not touch the result.
  record Halts {A : Type 0} (m : Exec (Running W) A) : Type 0 where
    at : (w : Running W) → ((e : Error) × ((m w).0 ≡ err e)) × ((m w).1.1.result ≡ w.1.result)

  continue-Halts :
      {A B : Type 0} (r : Result A) (f : A → Exec (Running W) B) (w : Running W)
      → ((a : A) → Halts (f a))
      → ((e : Error) × ((continue r f w).0 ≡ err e)) × ((continue r f w).1.1.result ≡ w.1.result)
  continue-Halts (ok a) f w h = (h a).at w
  continue-Halts (err e) f w h = ((e, refl), refl)

  Halts-later :
      {A B : Type 0} (m : Exec (Running W) A) (f : A → Exec (Running W) B)
      → Keeps m
      → ((a : A) → Halts (f a))
      → Halts (m >>= f)
  Halts-later m f k h = record {
    at = λ w. let (e, q) = continue-Halts (m w).0 f (m w).1 h in (e, q ∙ k.at w);
  }

  Halts-first :
      {A B : Type 0} (m : Exec (Running W) A) (f : A → Exec (Running W) B)
      → Halts m
      → Halts (m >>= f)
  Halts-first m f h = record { at = λ w. let ((e, q), k) = h.at w in ((e, rw q), rw q k) }

  keep_protocol-Keeps :
      (r : Result (SerialProtocol W)) (w : Running W)
      → (keep_protocol W r w).1.1.result ≡ w.1.result
  unfolding keep_protocol
  keep_protocol-Keeps (ok p) w = refl
  keep_protocol-Keeps (err e) w = refl

  get_kept-Keeps :
      (o : Option (SerialProtocol W)) (w : Running W) → (get_kept W o w).1.1.result ≡ w.1.result
  unfolding get_kept
  get_kept-Keeps (some p) w = refl
  get_kept-Keeps none w = keep_protocol-Keeps _ _

  get_protocol-Keeps : Keeps (get_protocol W)
  unfolding get_protocol
  get_protocol-Keeps = record { at = λ w. get_kept-Keeps w.1.protocol w }

  type_key-Halts : (text : Text) → Halts (send_key W (codes "TYPE") text)
  unfolding send_key
  type_key-Halts text =
      Halts-later (get_protocol W) _ get_protocol-Keeps
        λ p. record { at = λ w. ((attribute_error, rw command_member_lem.0), refl) }

  typed-Halts : (D : Desktop W) → Halts (typed W D)
  unfolding typed
  typed-Halts D = Halts-first (send_key W (codes "TYPE") test_string) _ (type_key-Halts test_string)

  body-Halts : (D : Desktop W) → Halts (body W D)
  unfolding body
  body-Halts D =
      Halts-later (device W (clear_clipboard W D)) (λ _. typed W D) (record { at = λ w. refl })
        λ _. typed-Halts D

  with_error-IsUnmatched :
      (r : Result (Unit {0})) (w : Running W) → IsUnmatched w → IsUnmatched (with_error W r w)
  unfolding with_error
  with_error-IsUnmatched (ok u) w h = h
  with_error-IsUnmatched (err e) w h = h

  close_kept-IsUnmatched :
      (o : Option (SerialProtocol W)) (w : Running W)
      → IsUnmatched w
      → IsUnmatched (close_kept W o w)
  unfolding close_kept
  close_kept-IsUnmatched none w h = h
  close_kept-IsUnmatched (some p) w h = h

  guarded-IsUnmatched :
      (D : Desktop W) (r : Result (SerialProtocol W)) (w : Running W)
      → IsUnmatched w
      → IsUnmatched (guarded W D r w)
  unfolding guarded close_protocol
  guarded-IsUnmatched D (ok p) w h = close_kept-IsUnmatched _ _ (
      with_error-IsUnmatched (body W D w).0 (body W D w).1
        (ap (λ r. r.type_match) (((body-Halts D).at w).1) ∙ h))
  guarded-IsUnmatched D (err e) w h = with_error-IsUnmatched (err e) w h

  opened-IsUnmatched : (D : Desktop W) (w : Running W) → IsUnmatched w → IsUnmatched (opened W D w)
  unfolding opened
  opened-IsUnmatched D w h =
      guarded-IsUnmatched D (get_protocol W w).0 (get_protocol W w).1
        (ap (λ r. r.type_match) (get_protocol-Keeps.at w) ∙ h)

  after_open-IsUnmatched :
      (D : Desktop W) (r : Result (Unit {0})) (w : Running W)
      → IsUnmatched w
      → IsUnmatched (after_open W D r w)
  unfolding after_open
  after_open-IsUnmatched D (ok u) w h = opened-IsUnmatched D _ h
  after_open-IsUnmatched D (err e) w h = with_error-IsUnmatched (err e) w h

  -- However the Pico, Notepad and the clipboard behave, the result of the test is not a pass.
  pub run-fails :
      (D : Desktop W) (port : Option Text) (s : W.State)
      → all_passed (run W D port s).1.result ≡ false
  unfolding run all_passed
  run-fails D port s = unmatched (run W D port s).1.result (after_open-IsUnmatched D _ _ refl)
    where
      unmatched : (r : NotepadTestResult) → r.type_match ≡ false → all_passed r ≡ false
      unmatched r h = ground arith
