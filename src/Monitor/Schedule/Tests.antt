-- ===== src/Monitor/Schedule/Tests.antt =====
-- Scheduled tasks.
use pywinhello.Monitor.Schedule
use pywinhello.Monitor.Schedule.Schtasks
use pywinhello.Monitor.Schedule.{
  ScheduleConfig, Scheduler, Task, add_code, before_comma, create_wake_task, day_code, day_codes,
  day_names, delete_all_tasks, delete_wake_task, insert_day, row_task, schedule_days,
  schedule_from_config, scheduled, sort_days, strip_quotes, sync_schedule, wake_days,
  wake_task_name, with_days,
}
use pywinhello.Monitor.Schedule.Schtasks.{Windows, create_args, delete_args}
use pywinhello.Monitor.Schedule.Schtasks.Contract.{IsScheduler}
use pywinhello.Monitor.Schedule.Schtasks.Refinement.{sync_schedule-refines}
use pywinhello.Monitor.Schedule.Sync.{sync_schedule_again}
use pywinhello.Monitor.Schedule.Tasks.{delete_all_tasks-removes}
use pywinhello.Prelude.{
  Bool-cases, List, [], ap, arith, false, if◌then◌else◌, inl, inr, none, not, refl, some, sym, true,
  ℕ, ◌&&◌, ◌==◌, ◌∙◌, ◌∷◌, ◌≡◌,
}
use pywinhello.Prelude.Dict.{Dict, get_or, insert, is_some, lookup, lookup-insert, remove}
use pywinhello.Prelude.Exec.{Exec}
use pywinhello.Prelude.Int.{pos}
use pywinhello.Prelude.Result.{ok}
use pywinhello.Prelude.Text.{Text, codes, starts_with, text_eq, text_eq_refl, to_lower}
use pywinhello.Prelude.Value.{
  Fields, arr, boolean, cons, end, field, find, find_or, get_field, iterate, nil, null, obj, str,
  truthy,
}

abbrev weekday : ScheduleConfig
weekday = record {
  time = str (codes "07:45");
  days = pos 5 ∷ pos 1 ∷ pos 9 ∷ [];
  enabled = boolean true;
}

-- A task of another program, and an old wake task.
abbrev some_tasks : Dict Task
some_tasks =
    (codes "backup", record { start = null; days = []; command = codes "b.exe" })
    ∷ (wake_task_name, record { start = null; days = []; command = codes "m.exe" })
    ∷ []

abbrev open_scheduler : Scheduler
open_scheduler = record {
  refuses_create = false;
  refuses_delete = λ name. false;
  rows = λ tasks. some (codes "\"\\pywinhello-wake\",\"N/A\",\"Ready\"" ∷ []);
}

-- A configuration with a schedule on Monday.
abbrev monday_config : Fields
monday_config =
    field (codes "schedule")
      (obj (
        field (codes "time") (str (codes "07:45"))
          (field (codes "days") (arr (cons (str (codes "mon")) nil)) end)))
      end

sync_schedule_again_example :
    sync_schedule open_scheduler
      (codes "n.exe")
      monday_config
      (sync_schedule open_scheduler (codes "n.exe") monday_config some_tasks).1
    ≡ sync_schedule open_scheduler (codes "n.exe") monday_config some_tasks
unfolding schedule_from_config scheduled schedule_days with_days day_names iterate truthy find_or
    find text_eq get_field lookup to_lower
sync_schedule_again_example =
    sync_schedule_again open_scheduler (codes "n.exe") monday_config
      (record { time = str (codes "07:45"); days = pos 1 ∷ []; enabled = boolean true }) some_tasks
      refl refl

-- A scheduler on the computer: its tasks, and the temporary files.
run_command : List Text → Exec (Dict Task × Dict Task) (ℕ × List Text)
run_command (exe ∷ verb ∷ by ∷ name ∷ []) s =
    (ok (if is_some (lookup name s.0) then 0 else 1, []), s)
run_command (exe ∷ verb ∷ by ∷ name ∷ flag ∷ []) s =
    if text_eq verb (codes "/query")
    then (ok (0, codes "\"\\pywinhello-wake\",\"N/A\",\"Ready\"" ∷ []), s)
    else if is_some (lookup name s.0)
    then (ok (0, []), (remove name s.0, s.1))
    else (ok (1, []), s)
run_command (exe ∷ verb ∷ by ∷ name ∷ xml ∷ path ∷ flag ∷ []) s = elim (lookup path s.1) [
  | none ↦ (ok (1, []), s)
  | some task ↦ (ok (0, []), (insert name task s.0, s.1))
]
run_command _ s = (ok (1, []), s)

abbrev computer : Windows
computer = record {
  State = Dict Task × Dict Task;
  run = run_command;
  new_file = λ s. (ok (codes "tmp.xml"), s);
  write = λ path task s. (ok tt, (s.0, insert path task s.1));
  unlink = λ path s. (ok tt, (s.0, remove path s.1));
}

deletes_task :
    (name : Text) (s : Dict Task × Dict Task)
    → (code : ℕ) × (out : List Text) × (t : Dict Task × Dict Task) × (run_command
          (codes "schtasks.exe" ∷ delete_args name)
          s
        ≡ (ok (code, out), t))
      × ((code == 0) ≡ (is_some (lookup name s.0) && not false))
      × (t.0 ≡ (if code == 0 then remove name s.0 else s.0))
unfolding run_command text_eq
deletes_task name s = elim (Bool-cases (is_some (lookup name s.0))) [
  | inl there ↦ (0, [], (remove name s.0, s.1), rw (there) refl, sym (rw (there) refl), refl)
  | inr missing ↦ (1, [], s, rw (missing) refl, sym (rw (missing) refl), refl)
]

creates_task :
    (name path : Text) (task : Task) (s : Dict Task × Dict Task)
    → lookup path s.1 ≡ some task
    → run_command (codes "schtasks.exe" ∷ create_args name path) s
      ≡ (ok (0, []), (insert name task s.0, s.1))
unfolding run_command
creates_task name path task s h = rw (run_command, h) refl

computer-IsScheduler : IsScheduler computer open_scheduler (λ s. s.0) (λ s path. lookup path s.1)
unfolding run_command text_eq
computer-IsScheduler = record {
  queries = λ name s. (if is_some (lookup name s.0) then 0 else 1, [], s, refl, ground arith, refl);
  deletes = deletes_task;
  lists = λ rows s h. (s, ap (λ o. (ok (0, get_or o []), s)) h, refl);
  lists_not = λ s h. absurd (ground (arith, h));
  creates = λ name path task s h.
      (0, [], (insert name task s.0, s.1), creates_task name path task s h, refl, refl);
  opens = λ s. (codes "tmp.xml", s, refl, refl);
  writes = λ path task s. (
    (s.0, insert path task s.1),
    refl,
    lookup-insert path path task s.1 ∙ rw (text_eq_refl path) refl,
    refl,
  );
  unlinks = λ path s. ((s.0, remove path s.1), refl, refl);
}

sync_schedule-refines_example :
    (Schtasks.sync_schedule computer (codes "n.exe") monday_config (some_tasks, [])).1.0
    ≡ (Schedule.sync_schedule open_scheduler (codes "n.exe") monday_config some_tasks).1
sync_schedule-refines_example =
    (sync_schedule-refines computer open_scheduler (λ s. s.0) (λ s path. lookup path s.1)
      computer-IsScheduler (codes "n.exe") monday_config (some_tasks, [])).1

delete_all_tasks-removes_example :
    lookup wake_task_name (delete_all_tasks open_scheduler some_tasks).1 ≡ none
unfolding starts_with
delete_all_tasks-removes_example =
    delete_all_tasks-removes open_scheduler (codes "\"\\pywinhello-wake\",\"N/A\",\"Ready\"" ∷ [])
      some_tasks wake_task_name refl refl (ground arith) refl
      (inl (codes "N/A\",\"Read", 121, ground arith, refl))
