-- ===== src/Gui/Settings/Panel/Clearing.antt =====
-- The deletion of the Pico's data: pc/src/pywinhello/gui/settings/__init__.py.
use pywinhello.Gui.Connection.{Gui, send_command}
use pywinhello.Gui.Connection.Commands.{Wrote, send_command-Wrote}
use pywinhello.Gui.Settings.Panel.{SettingsPanel, confirm_clear, on_wizard_click}
use pywinhello.Gui.Settings.Saving.{accepted, do_clear, outcome_of}
use pywinhello.Prelude.{Bool, Option, arith, false, if◌then◌else◌, none, refl, some, true, ◌<◌, ◌≡◌}
use pywinhello.Prelude.Text.{Text, codes}
use pywinhello.Serial.Port.{IsRecording, Pyserial}
use pywinhello.Serial.Protocol.{Bytes}

accepted-some : (resp : Option Text) → accepted resp ≡ true → (raw : Text) × (resp ≡ some raw)
unfolding accepted
accepted-some none h = cc
accepted-some (some raw) h = (raw, refl)

-- Where nothing was accepted the wizard is not asked for.
calls_of :
    (b : Bool) (p : SettingsPanel)
    → p.wizard_calls < (if b then on_wizard_click p else p).wizard_calls
    → b ≡ true
calls_of true p h = refl
calls_of false p h = absurd (omega arith)

-- If confirming the dialog asks for the wizard, the CLEAR line has been written, once.
pub confirm_clear-Wrote :
    (W : Pyserial) (sent : W.State → Bytes) (R : IsRecording W sent) (p : SettingsPanel) (g : Gui W)
    → p.wizard_calls < (confirm_clear W p g).0.wizard_calls
    → Wrote W sent R (codes "CLEAR") g (confirm_clear W p g).1
unfolding confirm_clear do_clear
confirm_clear-Wrote W sent R p g h =
    let r = send_command W (codes "CLEAR") g in
    let ok : accepted r.0 ≡ true =
      calls_of (accepted r.0)
        (record p { clear_dialog = false; action_status = some (outcome_of r.0) }) h in
    let (raw, e) = accepted-some r.0 ok in send_command-Wrote W sent R (codes "CLEAR") g raw e
