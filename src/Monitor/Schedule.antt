-- ===== src/Monitor/Schedule.antt =====
-- Scheduled tasks: pc/src/pywinhello/monitor/scheduler_sync.py. The Windows Task Scheduler is the set of the
-- tasks it holds, and whether its commands fail.
pub mod Days
pub mod Rows
pub mod Tasks
pub mod Sync
pub mod Schtasks
mod Tests
use pywinhello.Prelude.{
  Bool, List, Option, [], drop_while, false, get_elem?, if◌then◌else◌, map, none, not, reverse,
  some, suc, true, ℕ, ◌&&◌, ◌==◌, ◌∷◌,
}
use pywinhello.Prelude.Dict.{Dict, get_or, insert, is_some, lookup, remove}
use pywinhello.Prelude.Int.{leb_ℤ, pos, ℤ}
use pywinhello.Prelude.Result.{Error, Result, attribute_error, err, ok, ◌>>=◌}
use pywinhello.Prelude.Text.{Text, codes, starts_with, strip, text_eq, to_lower}
use pywinhello.Prelude.Text.Split.{join, split}
use pywinhello.Prelude.Value.{
  Fields, Value, arr, boolean, find_or, get_field, int, iterate, nil, null, str, truthy,
}

-- _DAY_NAME_MAP
day_names : List (Text × ℤ)
day_names =
    (codes "mon", pos 1)
    ∷ (codes "tue", pos 2)
    ∷ (codes "wed", pos 3)
    ∷ (codes "thu", pos 4)
    ∷ (codes "fri", pos 5)
    ∷ (codes "sat", pos 6)
    ∷ (codes "sun", pos 7)
    ∷ (codes "monday", pos 1)
    ∷ (codes "tuesday", pos 2)
    ∷ (codes "wednesday", pos 3)
    ∷ (codes "thursday", pos 4)
    ∷ (codes "friday", pos 5)
    ∷ (codes "saturday", pos 6)
    ∷ (codes "sunday", pos 7)
    ∷ []

-- _DAY_MAP.get(d)
pub day_code : ℤ → Option Text
day_code (pos (suc n)) =
    get_elem?
      (codes "MON"
        ∷ codes "TUE"
        ∷ codes "WED"
        ∷ codes "THU"
        ∷ codes "FRI"
        ∷ codes "SAT"
        ∷ codes "SUN"
        ∷ [])
      n
day_code _ = none

pub record ScheduleConfig : Type 0 where
  pub time : Value
  pub days : List ℤ
  pub enabled : Value

-- The loop over `raw_days`. `True` is the integer 1 in Python.
schedule_days : List Value → List ℤ
unfolding day_names
schedule_days [] = []
schedule_days (int d ∷ later) = d ∷ schedule_days later
schedule_days (boolean b ∷ later) = (if b then pos 1 else pos 0) ∷ schedule_days later
schedule_days (str s ∷ later) =
    let rest = schedule_days later in
    elim (lookup (to_lower s) day_names) [ none ↦ rest | some d ↦ d ∷ rest ]
schedule_days (_ ∷ later) = schedule_days later

with_days : Value → Value → List ℤ → Option ScheduleConfig
with_days time enabled [] = none
with_days time enabled (d ∷ days) =
    some (record { time = time; days = d ∷ days; enabled = enabled })

scheduled : Value → Value → Value → Result (Option ScheduleConfig)
unfolding schedule_days with_days
scheduled time enabled raw_days =
    if truthy time
    then (iterate raw_days >>= λ days. ok (with_days time enabled (schedule_days days)))
    else ok none

-- ScheduleConfig.from_pico_config
pub schedule_from_config : Fields → Result (Option ScheduleConfig)
unfolding scheduled
schedule_from_config config =
    let schedule = find_or (codes "schedule") null config in
    let read = do
      time ← get_field schedule (codes "time") (str [])
      raw_days ← get_field schedule (codes "days") (arr nil)
      enabled ← get_field schedule (codes "enabled") (boolean true)
      scheduled time enabled raw_days
    in if truthy schedule then read else ok none

-- sorted(days)
insert_day : ℤ → List ℤ → List ℤ
insert_day d [] = d ∷ []
insert_day d (e ∷ days) =
    let rest = insert_day d days in if leb_ℤ d e then d ∷ e ∷ days else e ∷ rest

sort_days : List ℤ → List ℤ
sort_days [] = []
sort_days (d ∷ days) = insert_day d (sort_days days)

add_code : Option Text → List Text → List Text
add_code none later = later
add_code (some c) later = c ∷ later

-- The codes of the days that have one, in order.
day_codes : List ℤ → List Text
unfolding add_code
day_codes [] = []
day_codes (d ∷ days) = add_code (day_code d) (day_codes days)

pub wake_days : List ℤ → List Text
wake_days days = day_codes (sort_days days)

-- The table of _build_task_xml, with its default.
day_full : Text → Text
day_full s =
    get_or
      (lookup (strip s) (
        (codes "MON", codes "Monday")
        ∷ (codes "TUE", codes "Tuesday")
        ∷ (codes "WED", codes "Wednesday")
        ∷ (codes "THU", codes "Thursday")
        ∷ (codes "FRI", codes "Friday")
        ∷ (codes "SAT", codes "Saturday")
        ∷ (codes "SUN", codes "Sunday")
        ∷ []))
      (strip s)

-- A task, by the parts of its XML that are not fixed.
pub record Task : Type 0 where
  pub start : Value
  pub days : List Text
  pub command : Text

pub build_task : Value → Text → Text → Task
build_task time days_str exe = record {
  start = time;
  days = map day_full (split b',' days_str);
  command = exe;
}

-- The scheduler: what it refuses, and the rows in which it lists its tasks.
pub record Scheduler : Type 0 where
  pub refuses_create : Bool
  pub refuses_delete : Text → Bool
  pub rows : Dict Task → Option (List Text)

abbrev pub wake_task_name : Text
wake_task_name = codes "pywinhello-wake"

-- delete_wake_task
pub delete_wake_task : Scheduler → Dict Task → Bool × Dict Task
delete_wake_task w tasks =
    if not (is_some (lookup wake_task_name tasks))
    then (true, tasks)
    else if w.refuses_delete wake_task_name
    then (false, tasks)
    else (true, remove wake_task_name tasks)

pub create_wake_task : Scheduler → Text → ScheduleConfig → Dict Task → Bool × Dict Task
unfolding build_task day_full
create_wake_task w exe schedule tasks =
    let without = (delete_wake_task w tasks).1 in
    let days_str = join (codes ",") (wake_days schedule.days) in
    if not (truthy schedule.enabled)
    then (true, without)
    else if text_eq days_str []
    then (false, tasks)
    else if w.refuses_create
    then (false, without)
    else (true, insert wake_task_name (build_task schedule.time days_str exe) without)

-- The text up to the first `","`, which splits the columns of a row
before_comma : Text → Text
before_comma [] = []
before_comma (c ∷ s) = if starts_with (c ∷ s) (codes "\",\"") then [] else c ∷ before_comma s

-- s.strip('"')
strip_quotes : Text → Text
strip_quotes s = reverse (drop_while (λ c. c == 34) (reverse (drop_while (λ c. c == 34) s)))

pub row_task : Text → Text
unfolding before_comma strip_quotes
row_task row = drop_while (λ c. c == 92) (strip_quotes (before_comma (strip_quotes (strip row))))

-- The loop over the rows: the number of tasks deleted.
pub delete_rows : Scheduler → List Text → Dict Task → ℕ × Dict Task
delete_rows w [] tasks = (0, tasks)
delete_rows w (row ∷ rows) tasks =
    let name = row_task row in
    let rest = delete_rows w rows tasks in
    let after = delete_rows w rows (remove name tasks) in
    if starts_with name (codes "pywinhello-")
      && is_some (lookup name tasks)
      && not (w.refuses_delete name)
    then (suc after.0, after.1)
    else rest

pub delete_all_tasks : Scheduler → Dict Task → ℕ × Dict Task
delete_all_tasks w tasks = elim (w.rows tasks) [
  | none ↦ (0, tasks)
  | some rows ↦ delete_rows w rows tasks
]

pub sync_with : Scheduler → Text → Option ScheduleConfig → Dict Task → Bool × Dict Task
sync_with w exe none tasks = (true, (delete_all_tasks w tasks).1)
sync_with w exe (some schedule) tasks =
    if truthy schedule.enabled
    then create_wake_task w exe schedule tasks
    else (true, (delete_all_tasks w tasks).1)

pub sync_schedule : Scheduler → Text → Fields → Dict Task → Result Bool × Dict Task
unfolding sync_with
sync_schedule w exe config tasks = elim (schedule_from_config config) [
  | ok schedule ↦ (ok (sync_with w exe schedule tasks).0, (sync_with w exe schedule tasks).1)
  | err e ↦ (err e, tasks)
]
