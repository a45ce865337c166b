-- ===== src/Gui/NotepadTest.antt =====
-- The typing test outside of the wizard: pc/src/pywinhello/gui/tests/notepad_test.py. A test keeps
-- its protocol and its result; a wait goes to the clock of the port. The calls of `on_step` are left out.
pub mod Outcome
pub mod Failure
use pywinhello.Serial.Link
use pywinhello.Gui.NotepadTest.Outcome.{NotepadTestResult, new_result}
use pywinhello.Gui.Steps.Desktop.{Desktop, get_clipboard_text}
use pywinhello.Gui.Steps.Typing.{
  command_member, lines_in_order, speed_intervals, speed_test_string, test_string,
}
use pywinhello.Prelude.{Bool, List, Option, [], false, none, some, true, ℕ, ◌&&◌, ◌++◌, ◌∷◌}
use pywinhello.Prelude.Dict.{is_some}
use pywinhello.Prelude.Exec.{Exec, attempt, lift, pure, raise, ◌>>=◌, ◌>>◌}
use pywinhello.Prelude.Result.{Error, Result, connection_error, err, ok}
use pywinhello.Prelude.Text.{Text, codes, strip, text_eq}
use pywinhello.Serial.Device.{error}
use pywinhello.Serial.Link.{SerialProtocol, open_protocol, send_checked, show}
use pywinhello.Serial.Port.{Pyserial}
use pywinhello.Serial.Ports.{find_pico_port}

module _ (W : Pyserial) where
  pub record NotepadTest : Type 0 where
    pub port : Option Text
    pub protocol : Option (SerialProtocol W)
    pub result : NotepadTestResult

  abbrev pub Running : Type 0
  Running = W.State × NotepadTest

  abbrev pub device : {A : Type 0} → Exec W.State A → Exec Running A
  device m (s, n) = ((m s).0, ((m s).1, n))

  abbrev pause : ℕ → Exec Running (Unit {0})
  pause t (s, n) = (ok tt, (W.sleep t s, n))

  abbrev update : (NotepadTestResult → NotepadTestResult) → Exec Running (Unit {0})
  update f (s, n) = (ok tt, (s, record n { result = f n.result }))

  -- self._port or find_pico_port()
  port_to_open : Option Text → Exec W.State (Option Text)
  port_to_open (some (c ∷ name)) = pure (some (c ∷ name))
  port_to_open _ = do ports ← W.comports; pure (find_pico_port ports)

  open_found : Option Text → Exec W.State (SerialProtocol W)
  open_found none = raise connection_error
  open_found (some name) = open_protocol W name 115200

  new_protocol : Option Text → Exec W.State (SerialProtocol W)
  unfolding port_to_open open_found
  new_protocol port = do name ← port_to_open port; open_found name

  -- The protocol is opened once and kept.
  keep_protocol : Result (SerialProtocol W) → Exec Running (SerialProtocol W)
  keep_protocol (ok p) (s, n) = (ok p, (s, record n { protocol = some p }))
  keep_protocol (err e) (s, n) = (err e, (s, n))

  get_kept : Option (SerialProtocol W) → Exec Running (SerialProtocol W)
  unfolding new_protocol keep_protocol
  get_kept (some p) w = (ok p, w)
  get_kept none (s, n) = keep_protocol (new_protocol n.port s).0 ((new_protocol n.port s).1, n)

  unfoldable pub get_protocol : Exec Running (SerialProtocol W)
  unfolding get_kept
  get_protocol w = get_kept w.1.protocol w

  close_kept : Option (SerialProtocol W) → Running → Running
  close_kept none w = w
  close_kept (some p) (s, n) = ((Link.close W p s).1, record n { protocol = none })

  -- An exception of the close is ignored.
  unfoldable pub close_protocol : Running → Running
  unfolding close_kept
  close_protocol w = close_kept w.1.protocol w

  -- self._get_protocol().send_checked(Command.NAME, payload): the member is looked up second.
  unfoldable pub send_key : Text → Text → Exec Running (Unit {0})
  send_key name payload = do
    p ← get_protocol
    device (do c ← lift (command_member name); send_checked W p c (some payload); pure tt)

  unfoldable pub clear_clipboard : Desktop W → Exec W.State (Unit {0})
  clear_clipboard D =
      attempt (do D.open_clipboard; D.empty_clipboard; D.close_clipboard) (λ e. pure tt)

  read_notepad : Desktop W → Exec Running Text
  read_notepad D = do
    device (clear_clipboard D)
    send_key (codes "COMBO") (codes "CTRL+A")
    pause 200
    send_key (codes "COMBO") (codes "CTRL+C")
    pause 300
    text ← device (get_clipboard_text W D)
    pure (strip text)

  clear_notepad : Exec Running (Unit {0})
  clear_notepad = do
    send_key (codes "COMBO") (codes "CTRL+A")
    pause 100
    send_key (codes "PRESS") (codes "DELETE")
    pause 200

  -- The rest of the second part, when the text has been typed.
  compare_text : Desktop W → Exec Running (Unit {0})
  unfolding read_notepad clear_notepad
  compare_text D = do
    pause 500
    actual ← read_notepad D
    update (λ r. record r { actual_text = actual; type_match = text_eq actual test_string })
    clear_notepad

  -- The loop over the intervals.
  calibrate : Desktop W → List ℕ → Exec Running (Unit {0})
  unfolding read_notepad clear_notepad
  calibrate D [] = pure tt
  calibrate D (interval ∷ intervals) =
      let later = calibrate D intervals in
      do
        send_key (codes "DELAY") (show interval)
        pause 200
        device (clear_clipboard D)
        send_key (codes "TYPE") speed_test_string
        pause 800
        text ← read_notepad D
        let good = text_eq text speed_test_string
        update (λ r. record r { speed_results = r.speed_results ++ ((interval, good) ∷ []) })
        elim good [
          | true ↦ (do
            update (λ r. record r { optimal_interval = some interval })
            send_key (codes "DELAY") (show interval))
          | false ↦ (do clear_notepad; later)
        ]

  special_keys : Desktop W → Exec Running (Unit {0})
  unfolding read_notepad
  special_keys D = do
    send_key (codes "TYPE") (codes "line1")
    send_key (codes "PRESS") (codes "ENTER")
    send_key (codes "TYPE") (codes "line2")
    pause 500
    text ← read_notepad D
    update (λ r. record r { special_keys_ok = lines_in_order text })

  close_notepad : Exec Running (Unit {0})
  unfolding clear_notepad
  close_notepad = do
    clear_notepad
    send_key (codes "COMBO") (codes "ALT+F4")
    pause 1000
    attempt
        (do
          send_key (codes "PRESS") (codes "TAB")
          pause 100
          send_key (codes "PRESS") (codes "ENTER"))
        (λ e. pure tt)
    pause 500
    update (λ r. record r { notepad_closed = true })

  after_typing : Desktop W → Exec Running (Unit {0})
  unfolding compare_text calibrate special_keys close_notepad
  after_typing D = do
    compare_text D
    calibrate D speed_intervals
    clear_notepad
    special_keys D
    close_notepad

  typed : Desktop W → Exec Running (Unit {0})
  unfolding after_typing
  typed D = do send_key (codes "TYPE") test_string; after_typing D

  body : Desktop W → Exec Running (Unit {0})
  unfolding typed
  body D = do device (clear_clipboard D); typed D

  -- An exception becomes the error of the result.
  with_error : Result (Unit {0}) → Running → Running
  with_error (ok u) w = w
  with_error (err e) (s, n) = (s, record n { result = record n.result { error = some e } })

  guarded : Desktop W → Result (SerialProtocol W) → Running → Running
  unfolding body with_error
  guarded D (ok p) w = close_protocol (with_error (body D w).0 (body D w).1)
  guarded D (err e) w = with_error (err e) w

  -- What follows the window that has opened.
  opened : Desktop W → Running → Running
  unfolding guarded
  opened D w = guarded D (get_protocol w).0 (get_protocol w).1

  after_open : Desktop W → Result (Unit {0}) → Running → Running
  unfolding opened with_error
  after_open D (ok u) (s, n) =
      opened D (W.sleep 1500 s, record n { result = record n.result { notepad_opened = true } })
  after_open D (err e) w = with_error (err e) w

  -- NotepadTest(port).run()
  unfoldable pub run : Desktop W → Option Text → W.State → Running
  unfolding after_open
  run D port s =
      after_open D (D.open_notepad s).0
        ((D.open_notepad s).1, record { port = port; protocol = none; result = new_result })
