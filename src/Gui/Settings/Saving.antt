-- ===== src/Gui/Settings/Saving.antt =====
-- How the settings panel sends commands: pc/src/pywinhello/gui/settings/.
use pywinhello.Gui.Connection.{Gui, send_command}
use pywinhello.Gui.Connection.Commands.{Wrote, send_command-Wrote}
use pywinhello.Prelude.{
  Bool, Option, arith, drop, false, if◌then◌else◌, none, refl, some, true, ◌++◌, ◌∷◌, ◌≡◌,
}
use pywinhello.Prelude.Result.{err, ok}
use pywinhello.Prelude.Text.{Text, codes, starts_with}
use pywinhello.Prelude.Value.{Value, end, obj}
use pywinhello.Serial.Port.{IsRecording, Pyserial}
use pywinhello.Serial.Protocol.{Bytes}

-- What is shown after a command: success, or the failure with the Pico's answer, if there is one.
pub data SaveOutcome : Type 0 where
  save_done : SaveOutcome
  save_failed : Option Text → SaveOutcome

-- resp and resp.startswith("OK")
unfoldable pub accepted : Option Text → Bool
accepted none = false
accepted (some resp) = starts_with resp (codes "OK")

-- resp or the text for no response
shown_response : Option Text → Option Text
shown_response (some (c ∷ s)) = some (c ∷ s)
shown_response _ = none

unfoldable pub outcome_of : Option Text → SaveOutcome
unfolding shown_response
outcome_of resp = if accepted resp then save_done else save_failed (shown_response resp)

module _ (W : Pyserial) where
  -- A command, and what is shown after it.
  unfoldable pub send_and_show : Text → Gui W → SaveOutcome × Gui W
  send_and_show command g = (outcome_of (send_command W command g).0, (send_command W command g).1)

  -- SET_CONFIG with `json.dumps(data)`.
  unfoldable pub save : Value → Gui W → SaveOutcome × Gui W
  save data_ = send_and_show (codes "SET_CONFIG:" ++ W.dumps data_)

  -- json.loads(resp[3:]) of an answer "OK:...", or a default; exceptions are caught.
  unfoldable pub payload_of : Option Text → Value → Value
  payload_of none d = d
  payload_of (some resp) d =
      if starts_with resp (codes "OK:")
      then (elim (W.loads (drop 3 resp)) [ ok v ↦ v | err e ↦ d ])
      else d

  -- `_load_config` and what `_build_sections` says of the connection.
  unfoldable pub load_config : Gui W → Value × Gui W
  load_config g = let r = send_command W (codes "GET_CONFIG") g in (payload_of r.0 (obj end), r.1)

  -- `_do_clear`, and whether the wizard is asked for afterwards.
  unfoldable pub do_clear : Gui W → SaveOutcome × Bool × Gui W
  do_clear g = let r = send_command W (codes "CLEAR") g in (outcome_of r.0, accepted r.0, r.1)

outcome_of-save_done :
    (resp : Option Text)
    → outcome_of resp ≡ save_done
    → (raw : Text) × (resp ≡ some raw) × (starts_with raw (codes "OK") ≡ true)
unfolding outcome_of accepted
outcome_of-save_done none h = cc
outcome_of-save_done (some raw) h = (raw, refl, ground arith)

-- A save that is shown as saved has written exactly one SET_CONFIG line with the JSON of the data.
pub save-Wrote :
    (W : Pyserial) (sent : W.State → Bytes) (R : IsRecording W sent) (data_ : Value) (g : Gui W)
    → (save W data_ g).0 ≡ save_done
    → Wrote W sent R (codes "SET_CONFIG:" ++ W.dumps data_) g (save W data_ g).1
unfolding save send_and_show
save-Wrote W sent R data_ g h =
    let (raw, e, k) = outcome_of-save_done _ h in
    send_command-Wrote W sent R (codes "SET_CONFIG:" ++ W.dumps data_) g raw e
