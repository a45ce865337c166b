-- ===== src/Gui/Steps/ScheduleStep.antt =====
-- pc/src/pywinhello/gui/wizard/step_schedule.py: the schedule is sent to the Pico.
use pywinhello.Serial.Link
use pywinhello.Gui.Connection.{port}
use pywinhello.Gui.Constants.{day_keys, default_days}
use pywinhello.Prelude.{
  Bool, List, Option, [], false, if◌then◌else◌, map, none, some, true, ◌++◌, ◌||◌, ◌∷◌,
}
use pywinhello.Prelude.Result.{Result, err, ok, runtime_error}
use pywinhello.Prelude.Text.{Text, codes, text_eq}
use pywinhello.Prelude.Value.{Items, Value, arr, cons, end, field, nil, obj, str}
use pywinhello.Serial.Link.{SerialProtocol, open_protocol}
use pywinhello.Serial.Port.{Pyserial}

pub record ScheduleStep : Type 0 where
  pub hour : Text
  pub minute : Text
  pub days : List (Text × Bool)
  pub saved : Bool

unfoldable pub elem_text : Text → List Text → Bool
elem_text x [] = false
elem_text x (y ∷ ys) = text_eq x y || elem_text x ys

-- The state that `build` sets.
unfoldable pub new_schedule_step : ScheduleStep
unfolding elem_text
new_schedule_step = record {
  hour = codes "07";
  minute = codes "45";
  days = map (λ k. (k, elem_text k default_days)) day_keys;
  saved = false;
}

-- [k for k, v in self._day_vars.items() if v.get()]
unfoldable pub chosen_days : List (Text × Bool) → Items
chosen_days [] = nil
chosen_days ((k, v) ∷ days) = let rest = chosen_days days in if v then cons (str k) rest else rest

-- {"time": f"{hour}:{minute}", "days": days}
unfoldable pub schedule_value : Text → Text → List (Text × Bool) → Value
schedule_value hour minute days = obj (
    field (codes "time") (str (hour ++ (codes ":" ++ minute)))
      (field (codes "days") (arr (chosen_days days)) end))

unfoldable pub get_schedule_data : ScheduleStep → Value
get_schedule_data st = schedule_value st.hour st.minute st.days

-- `_saved` after the `with` block: only a RuntimeError that is caught inside it, and a close
-- that returns, leave it as it was.
saved_after : Result (Unit {0}) → Result (Unit {0}) → ScheduleStep → ScheduleStep
saved_after (err runtime_error) (ok u) st = st
saved_after r c st = record st { saved = true }

module _ (W : Pyserial) where
  put_and_close : ScheduleStep → SerialProtocol W → W.State → ScheduleStep × W.State
  unfolding saved_after
  put_and_close st p s =
      let config = obj (field (codes "schedule") (get_schedule_data st) end) in
      let r = Link.set_config W p config s in
      let c = Link.close W p r.1 in (saved_after r.0 c.0 st, c.1)

  opened : ScheduleStep → Result (SerialProtocol W) → W.State → ScheduleStep × W.State
  unfolding put_and_close
  opened st (ok p) s = put_and_close st p s
  opened st (err e) s = (record st { saved = true }, s)

  unfoldable pub save_schedule : Option Text → ScheduleStep → W.State → ScheduleStep × W.State
  unfolding opened
  save_schedule none st s = (record st { saved = true }, s)
  save_schedule (some port) st s =
      opened st (open_protocol W port 115200 s).0 (open_protocol W port 115200 s).1

  -- `can_proceed`, which is always True.
  unfoldable pub can_proceed : Option Text → ScheduleStep → W.State → Bool × ScheduleStep × W.State
  can_proceed port st s =
      if st.saved
      then (true, st, s)
      else (true, (save_schedule port st s).0, (save_schedule port st s).1)
