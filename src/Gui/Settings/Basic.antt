-- ===== src/Gui/Settings/Basic.antt =====
-- pc/src/pywinhello/gui/settings/basic.py: the PIN and the schedule.
pub mod Schedule
use pywinhello.Gui.Connection.{Gui}
use pywinhello.Gui.Constants.{day_keys, validate_pin}
use pywinhello.Gui.Settings.Saving.{SaveOutcome, save, send_and_show}
use pywinhello.Gui.Steps.ScheduleStep.{schedule_value}
use pywinhello.Prelude.{Bool, List, Option, [], false, none, some, ◌++◌, ◌||◌, ◌∷◌}
use pywinhello.Prelude.Dict.{is_some}
use pywinhello.Prelude.Result.{Result, attribute_error, err, ok, type_error, ◌>>=◌}
use pywinhello.Prelude.Text.{Text, codes, contains, text_eq}
use pywinhello.Prelude.Text.Split.{split}
use pywinhello.Prelude.Value.{
  Fields, Items, Value, arr, cons, end, field, find, find_or, get_field, nil, obj, str,
}
use pywinhello.Serial.Port.{Pyserial}

-- The hour, the minute and the days that the section shows.
pub record ScheduleVars : Type 0 where
  pub hour : Text
  pub minute : Text
  pub days : List (Text × Bool)

-- sched_time.split(":"), which only a text has
time_parts : Value → Result (List Text)
time_parts (str s) = ok (split b':' s)
time_parts _ = err attribute_error

hour_minute : List Text → Text × Text
hour_minute (h ∷ m ∷ rest) = (h, m)
hour_minute _ = (codes "07", codes "45")

in_items : Text → Items → Bool
in_items key nil = false
in_items key (cons (str s) vs) = text_eq s key || in_items key vs
in_items key (cons v vs) = in_items key vs

-- day_key in active_days
is_active : Value → Text → Result Bool
unfolding in_items
is_active (arr vs) key = ok (in_items key vs)
is_active (str s) key = ok (contains key s)
is_active (obj fs) key = ok (is_some (find key fs))
is_active _ key = err type_error

day_vars : Value → List Text → Result (List (Text × Bool))
unfolding is_active
day_vars active [] = ok []
day_vars active (key ∷ rest) = do
  b ← is_active active key
  vars ← day_vars active rest
  ok ((key, b) ∷ vars)

weekdays : Value
weekdays = arr (
    cons (str (codes "mon")) (
      cons (str (codes "tue"))
        (cons (str (codes "wed")) (cons (str (codes "thu")) (cons (str (codes "fri")) nil)))))

vars_from : Value → Value → List Text → Result ScheduleVars
unfolding time_parts hour_minute day_vars
vars_from time active keys = do
  parts ← time_parts time
  days ← day_vars active keys
  ok (record { hour = (hour_minute parts).0; minute = (hour_minute parts).1; days = days })

-- What `_build_schedule_section` reads of the configuration.
unfoldable pub schedule_vars : Fields → Result ScheduleVars
unfolding vars_from weekdays
schedule_vars config = do
  let schedule = find_or (codes "schedule") (obj end) config
  time ← get_field schedule (codes "time") (str (codes "07:45"))
  active ← get_field schedule (codes "days") weekdays
  vars_from time active day_keys

-- get_schedule
unfoldable pub get_schedule : ScheduleVars → Value
get_schedule v = schedule_value v.hour v.minute v.days

unfoldable pub on_save_schedule : (W : Pyserial) → ScheduleVars → Gui W → SaveOutcome × Gui W
on_save_schedule W v = save W (obj (field (codes "schedule") (get_schedule v) end))

-- `_on_ok` of the PIN dialog: an error key, or what the command gave; `save_done` is success.
pub data PinOutcome : Type 0 where
  invalid : Text → PinOutcome
  answered : SaveOutcome → PinOutcome

module _ (W : Pyserial) where
  send_valid : Option Text → Text → Gui W → PinOutcome × Gui W
  send_valid (some key) pin g = (invalid key, g)
  send_valid none pin g =
      let r = send_and_show W (codes "SETUP_PIN:" ++ pin) g in (answered r.0, r.1)

  unfoldable pub on_ok : Text → Text → Gui W → PinOutcome × Gui W
  unfolding send_valid
  on_ok pin confirm g = send_valid (validate_pin pin (some confirm)) pin g
