-- ===== src/Gui/Steps/TestStep/Failure.antt =====
-- Why the typing test of pc/src/pywinhello/gui/wizard/step_test.py never passes: `Command` has no
-- TYPE, COMBO and DELAY.
use pywinhello.Serial.Link
use pywinhello.Gui.Connection.{command_of, port}
use pywinhello.Gui.Steps.Desktop.{Desktop, set_clipboard_text}
use pywinhello.Gui.Steps.TestStep.{
  TestWorld, connect_step, dev, finish_tests, guarded_body, notepad_step, on_port, run_tests,
  running, send_member, set_status, test_body, tests, type_and_compare, type_test,
}
use pywinhello.Gui.Steps.Typing.{command_member, test_string}
use pywinhello.Prelude.{Bool, Option, [], false, refl, true, ◌≡◌, ◌≢◌}
use pywinhello.Prelude.Exec.{Exec, attempt, continue, pure, ◌>>=◌, ◌>>◌}
use pywinhello.Prelude.Result.{Error, Result, attribute_error, err, ok}
use pywinhello.Prelude.Text.{Text, codes, text_eq}
use pywinhello.Serial.Link.{SerialProtocol}
use pywinhello.Serial.Port.{Pyserial}
use pywinhello.Serial.Protocol.{command_name, press}

pub command_member_lem :
    (command_member (codes "TYPE") ≡ err attribute_error)
    × (command_member (codes "COMBO") ≡ err attribute_error)
    × (command_member (codes "DELAY") ≡ err attribute_error)
    × (command_member (codes "PRESS") ≡ ok press)
unfolding command_member command_of text_eq command_name
command_member_lem = (refl, refl, refl, refl)

module _ {S : Type 0} where
  -- `m` raises from every state.
  record Raises {A : Type 0} (m : Exec S A) : Type 0 where
    at : (s : S) → (e : Error) × ((m s).0 ≡ err e)

  continue-Raises :
      {A B : Type 0} (r : Result A) (f : A → Exec S B) (s : S)
      → ((a : A) → Raises (f a))
      → (e : Error) × ((continue r f s).0 ≡ err e)
  continue-Raises (ok a) f s h = (h a).at s
  continue-Raises (err e) f s h = (e, refl)

  Raises-later :
      {A B : Type 0} (m : Exec S A) (f : A → Exec S B) → ((a : A) → Raises (f a)) → Raises (m >>= f)
  Raises-later m f h = record { at = λ s. continue-Raises (m s).0 f (m s).1 h }

  Raises-first : {A B : Type 0} (m : Exec S A) (f : A → Exec S B) → Raises m → Raises (m >>= f)
  Raises-first m f h = record { at = λ s. let (e, k) = h.at s in (e, rw k) }

  -- With a handler that cannot give `true`, neither can a `try` of what raises.
  attempt-false :
      (m : Exec S Bool) (h : Error → Exec S Bool)
      → Raises m
      → ((e : Error) (s : S) → (h e s).0 ≢ ok true)
      → (s : S) → (attempt m h s).0 ≢ ok true
  attempt-false m h k n s = let (e, q) = k.at s in rw q (n e (m s).1)

module _ (W : Pyserial) (D : Desktop W) where
  send_type-Raises :
      (p : SerialProtocol W) (text : Text) → Raises (send_member W p (codes "TYPE") text)
  unfolding send_member
  send_type-Raises p text = record { at = λ w. (attribute_error, rw command_member_lem.0) }

  type_and_compare-Raises : (p : SerialProtocol W) → Raises (type_and_compare W D p)
  unfolding type_and_compare
  type_and_compare-Raises p =
      Raises-first (send_member W p (codes "TYPE") test_string) _ (send_type-Raises p test_string)

  type_test-Raises : (p : SerialProtocol W) → Raises (type_test W D p)
  unfolding type_test
  type_test-Raises p =
      Raises-later (set_status W (codes "type") running)
        (λ _. dev W (set_clipboard_text W D []) >> type_and_compare W D p)
        λ _.
          Raises-later (dev W (set_clipboard_text W D [])) (λ _. type_and_compare W D p)
            λ _. type_and_compare-Raises p

  test_body-Raises : (p : SerialProtocol W) → Raises (test_body W D p)
  unfolding test_body
  test_body-Raises p = Raises-first (type_test W D p) _ (type_test-Raises p)

  -- What a `try` gives that closes the protocol and answers False is never True.
  handler-false :
      (p : SerialProtocol W) (e : Error) (w : TestWorld W)
      → (attempt (do dev W (Link.close W p); pure false) (λ f. pure false) w).0 ≢ ok true
  handler-false p e w = by_close (Link.close W p w.0).0 (Link.close W p w.0).1
    where
      by_close :
          (r : Result (Unit {0})) (s : W.State)
          → (attempt
              (λ v. continue {S = TestWorld W} r (λ u. pure false) (s, w.1))
              (λ f. pure false)
              w).0
            ≢ ok true
      by_close (ok u) s = λ k. cc
      by_close (err f) s = λ k. cc

  -- `m` never gives True.
  record NeverTrue (m : Exec (TestWorld W) Bool) : Type 0 where
    at : (w : TestWorld W) → (m w).0 ≢ ok true

  continue-NeverTrue :
      {A : Type 0} (r : Result A) (f : A → Exec (TestWorld W) Bool) (w : TestWorld W)
      → ((a : A) → NeverTrue (f a))
      → (continue r f w).0 ≢ ok true
  continue-NeverTrue (ok a) f w h = (h a).at w
  continue-NeverTrue (err e) f w h = λ k. cc

  NeverTrue-later :
      {A : Type 0} (m : Exec (TestWorld W) A) (f : A → Exec (TestWorld W) Bool)
      → ((a : A) → NeverTrue (f a))
      → NeverTrue (m >>= f)
  NeverTrue-later m f h = record { at = λ w. continue-NeverTrue (m w).0 f (m w).1 h }

  guarded_body-NeverTrue : (p : SerialProtocol W) → NeverTrue (guarded_body W D p)
  unfolding guarded_body
  guarded_body-NeverTrue p = record {
    at = attempt-false (test_body W D p) _ (test_body-Raises p) (handler-false p);
  }

  on_port-NeverTrue : (port : Option Text) → NeverTrue (on_port W D port)
  unfolding on_port
  on_port-NeverTrue port =
      NeverTrue-later (connect_step W port) (guarded_body W D) guarded_body-NeverTrue

  tests-NeverTrue : (port : Option Text) → NeverTrue (tests W D port)
  unfolding tests
  tests-NeverTrue port =
      NeverTrue-later (set_status W (codes "open") running)
        (λ _. notepad_step W D >> on_port W D port)
        λ _. NeverTrue-later (notepad_step W D) (λ _. on_port W D port) λ _. on_port-NeverTrue port

  finish_tests-false :
      (r : Result Bool) (w : TestWorld W) → r ≢ ok true → (finish_tests W r w).1.all_passed ≡ false
  unfolding finish_tests
  finish_tests-false (ok true) w h = absurd (h refl)
  finish_tests-false (ok false) w h = refl
  finish_tests-false (err e) w h = refl

  -- However the Pico, Notepad and the clipboard behave, the tests end with `_all_passed` False:
  -- the first member of Command that they name does not exist.
  pub run_tests-fails :
      (port : Option Text) (w : TestWorld W) → (run_tests W D port w).1.all_passed ≡ false
  unfolding run_tests
  run_tests-fails port (s, st) = finish_tests-false _ _ ((tests-NeverTrue port).at _)
