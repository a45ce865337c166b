-- ===== src/Gui/Steps/Desktop.antt =====
-- Notepad and the clipboard, as pc/src/pywinhello/gui/wizard/step_test.py uses them.
use pywinhello.Prelude.{Option, []}
use pywinhello.Prelude.Dict.{get_or}
use pywinhello.Prelude.Exec.{Exec, attempt, pure, ◌>>=◌, ◌>>◌}
use pywinhello.Prelude.Result.{err, ok}
use pywinhello.Prelude.Text.{Text}
use pywinhello.Serial.Port.{Pyserial}

module _ (W : Pyserial) where
  -- subprocess.Popen and the calls of user32 and kernel32. `clipboard_data` is `none` without a
  -- handle.
  pub record Desktop : Type 0 where
    pub open_notepad : Exec W.State (Unit {0})
    pub open_clipboard : Exec W.State (Unit {0})
    pub clipboard_data : Exec W.State (Option Text)
    pub close_clipboard : Exec W.State (Unit {0})
    pub empty_clipboard : Exec W.State (Unit {0})
    pub put_clipboard : Text → Exec W.State (Unit {0})

  -- try: m finally: close
  finally : {A : Type 0} → Exec W.State A → Exec W.State (Unit {0}) → Exec W.State A
  finally m close s = elim (close (m s).1).0 [
    | ok u ↦ ((m s).0, (close (m s).1).1)
    | err e ↦ (err e, (close (m s).1).1)
  ]

  unfoldable pub get_clipboard_text : Desktop → Exec W.State Text
  unfolding finally
  get_clipboard_text D =
      attempt
        (do
          D.open_clipboard
          text ← finally D.clipboard_data D.close_clipboard
          pure (get_or text []))
        (λ e. pure [])

  unfoldable pub set_clipboard_text : Desktop → Text → Exec W.State (Unit {0})
  set_clipboard_text D text = attempt (D.put_clipboard text) (λ e. pure tt)
