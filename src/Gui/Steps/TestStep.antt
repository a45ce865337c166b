-- ===== src/Gui/Steps/TestStep.antt =====
-- pc/src/pywinhello/gui/wizard/step_test.py: the typing test in Notepad. The clipboard and Notepad
-- are parameters; a wait goes to the clock of the port.
pub mod Failure
use pywinhello.Serial.Link
use pywinhello.Gui.Connection.{Gui, port}
use pywinhello.Gui.Steps.Desktop.{Desktop, get_clipboard_text, set_clipboard_text}
use pywinhello.Gui.Steps.Typing.{
  command_member, lines_in_order, speed_intervals, speed_test_string, test_string,
}
use pywinhello.Prelude.{
  Bool, List, Option, [], false, if◌then◌else◌, ltb, none, some, suc, true, ℕ, ◌&&◌, ◌∷◌,
}
use pywinhello.Prelude.Dict.{Dict, get_or, insert}
use pywinhello.Prelude.Exec.{Exec, attempt, lift, pure, raise, ◌>>◌}
use pywinhello.Prelude.Result.{Result, attribute_error, connection_error, err, ok}
use pywinhello.Prelude.Text.{Text, codes, contains, starts_with, strip, text_eq}
use pywinhello.Serial.Link.{SerialProtocol, open_protocol, send_checked, show}
use pywinhello.Serial.Port.{Pyserial}
use pywinhello.Serial.Protocol.{Command, commands}
use pywinhello.Gui.Steps.Desktop.{Desktop, get_clipboard_text, set_clipboard_text}
use pywinhello.Gui.Steps.Typing.{
  command_member, lines_in_order, speed_intervals, speed_test_string, test_string,
}
use pywinhello.Prelude.{
  Bool, List, Option, [], false, if◌then◌else◌, ltb, none, some, suc, true, ℕ, ◌&&◌, ◌∷◌,
}
use pywinhello.Prelude.Dict.{Dict, get_or, insert}
use pywinhello.Prelude.Exec.{Exec, attempt, lift, pure, raise, ◌>>=◌, ◌>>◌}
use pywinhello.Prelude.Result.{Result, attribute_error, connection_error, err, ok}
use pywinhello.Prelude.Text.{Text, codes, contains, starts_with, strip, text_eq}
use pywinhello.Serial.Link.{SerialProtocol, open_protocol, send_checked, show}
use pywinhello.Serial.Port.{Pyserial}
use pywinhello.Serial.Protocol.{Command, commands}

pub data TestStatus : Type 0 where
  waiting running passed failed : TestStatus

pub record TestStep : Type 0 where
  pub all_passed : Bool
  pub optimal_interval : Option ℕ
  pub statuses : Dict TestStatus

-- The state that `build` sets.
abbrev pub new_test_step : TestStep
new_test_step = record { all_passed = false; optimal_interval = none; statuses = [] }

verdict_status : Bool → TestStatus
verdict_status true = passed
verdict_status false = failed

module _ (W : Pyserial) where
  abbrev pub TestWorld : Type 0
  TestWorld = W.State × TestStep

  abbrev dev : {A : Type 0} → Exec W.State A → Exec TestWorld A
  dev m (s, st) = ((m s).0, ((m s).1, st))

  abbrev modify : (TestStep → TestStep) → Exec TestWorld (Unit {0})
  modify f (s, st) = (ok tt, (s, f st))

  abbrev wait : ℕ → Exec TestWorld (Unit {0})
  wait t (s, st) = (ok tt, (W.sleep t s, st))

  abbrev set_status : Text → TestStatus → Exec TestWorld (Unit {0})
  set_status key v = modify (λ st. record st { statuses = insert key v st.statuses })

  -- proto.send_checked(Command.NAME, payload)
  unfoldable pub send_member : SerialProtocol W → Text → Text → Exec TestWorld (Unit {0})
  send_member p name payload =
      dev (do c ← lift (command_member name); send_checked W p c (some payload); pure tt)

  -- Ctrl+A, Ctrl+C, and the clipboard.
  read_back : Desktop W → SerialProtocol W → Exec TestWorld Text
  read_back D p = do
    send_member p (codes "COMBO") (codes "CTRL+A")
    wait 200
    send_member p (codes "COMBO") (codes "CTRL+C")
    wait 300
    text ← dev (get_clipboard_text W D)
    pure (strip text)

  clear_text : SerialProtocol W → Exec TestWorld (Unit {0})
  clear_text p = do
    send_member p (codes "COMBO") (codes "CTRL+A")
    wait 100
    send_member p (codes "PRESS") (codes "DELETE")
    wait 200

  -- The test text is typed and read back.
  type_and_compare : Desktop W → SerialProtocol W → Exec TestWorld Bool
  unfolding read_back clear_text verdict_status
  type_and_compare D p = do
    send_member p (codes "TYPE") test_string
    wait 500
    actual ← read_back D p
    set_status (codes "type") (verdict_status (text_eq actual test_string))
    clear_text p
    pure (text_eq actual test_string)

  type_test : Desktop W → SerialProtocol W → Exec TestWorld Bool
  unfolding type_and_compare
  type_test D p = do
    set_status (codes "type") running
    dev (set_clipboard_text W D [])
    type_and_compare D p

  -- The loop over the intervals: the first at which the text reads back right.
  unfoldable pub calibrate : Desktop W → SerialProtocol W → List ℕ → Exec TestWorld (Option ℕ)
  unfolding read_back
  calibrate D p [] = pure none
  calibrate D p (interval ∷ intervals) =
      let later = calibrate D p intervals in
      do
        send_member p (codes "DELAY") (show interval)
        wait 200
        dev (set_clipboard_text W D [])
        send_member p (codes "TYPE") speed_test_string
        wait 800
        result ← read_back D p
        elim (text_eq result speed_test_string) [
          | true ↦ pure (some interval)
          | false ↦ (do send_member p (codes "PRESS") (codes "DELETE"); wait 200; later)
        ]

  speed_verdict : SerialProtocol W → Option ℕ → Exec TestWorld Bool
  speed_verdict p none = do set_status (codes "speed") failed; pure false
  speed_verdict p (some optimal) = do
    modify (λ st. record st { optimal_interval = some optimal })
    set_status (codes "speed") passed
    send_member p (codes "DELAY") (show optimal)
    pure true

  speed_test : Desktop W → SerialProtocol W → Exec TestWorld Bool
  unfolding speed_verdict clear_text
  speed_test D p = do
    set_status (codes "speed") running
    optimal ← calibrate D p speed_intervals
    good ← speed_verdict p optimal
    clear_text p
    pure good

  special_test : Desktop W → SerialProtocol W → Exec TestWorld Bool
  unfolding read_back lines_in_order verdict_status
  special_test D p = do
    set_status (codes "special") running
    send_member p (codes "TYPE") (codes "line1")
    send_member p (codes "PRESS") (codes "ENTER")
    send_member p (codes "TYPE") (codes "line2")
    wait 500
    result ← read_back D p
    set_status (codes "special") (verdict_status (lines_in_order result))
    pure (lines_in_order result)

  -- The save dialog is answered where it appears.
  close_notepad : SerialProtocol W → Exec TestWorld (Unit {0})
  unfolding clear_text
  close_notepad p = do
    set_status (codes "close") running
    clear_text p
    send_member p (codes "COMBO") (codes "ALT+F4")
    wait 1000
    attempt
        (do
          send_member p (codes "PRESS") (codes "TAB")
          wait 100
          send_member p (codes "PRESS") (codes "ENTER"))
        (λ e. pure tt)
    wait 500
    set_status (codes "close") passed

  test_body : Desktop W → SerialProtocol W → Exec TestWorld Bool
  unfolding type_test speed_test special_test close_notepad
  test_body D p = do
    typed ← type_test D p
    speed ← speed_test D p
    special ← special_test D p
    close_notepad p
    dev (Link.close W p)
    pure (typed && speed && special)

  -- The `try` around the tests: on any exception the protocol is closed and the test has failed.
  guarded_body : Desktop W → SerialProtocol W → Exec TestWorld Bool
  unfolding test_body
  guarded_body D p =
      attempt (test_body D p) (λ e. attempt (do dev (Link.close W p); pure false) (λ f. pure false))

  get_protocol : Option Text → Exec W.State (SerialProtocol W)
  get_protocol none = raise connection_error
  get_protocol (some port) = open_protocol W port 115200

  finish_tests : Result Bool → TestWorld → TestWorld
  finish_tests (ok passed?) (s, st) = (s, record st { all_passed = passed? })
  finish_tests (err e) (s, st) = (s, record st { all_passed = false })

  -- A failure is shown before the tests end.
  connect_step : Option Text → Exec TestWorld (SerialProtocol W)
  unfolding get_protocol
  connect_step port =
      attempt (dev (get_protocol port)) (λ e. (do set_status (codes "type") failed; raise e))

  notepad_step : Desktop W → Exec TestWorld (Unit {0})
  notepad_step D =
      attempt (do dev D.open_notepad; wait 1500; set_status (codes "open") passed)
        (λ e. (do set_status (codes "open") failed; raise e))

  -- The tests after Notepad has been opened.
  on_port : Desktop W → Option Text → Exec TestWorld Bool
  unfolding connect_step guarded_body
  on_port D port = do p ← connect_step port; guarded_body D p

  tests : Desktop W → Option Text → Exec TestWorld Bool
  unfolding notepad_step on_port
  tests D port = do set_status (codes "open") running; notepad_step D; on_port D port

  -- `_on_start` and `_run_tests`, with the port of the first step.
  unfoldable pub run_tests : Desktop W → Option Text → TestWorld → TestWorld
  unfolding tests finish_tests
  run_tests D port (s, st) =
      let r = tests D port (s, record st { all_passed = false; statuses = [] }) in
      finish_tests r.0 r.1
