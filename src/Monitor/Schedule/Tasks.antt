-- ===== src/Monitor/Schedule/Tasks.antt =====
-- What pc/src/pywinhello/monitor/scheduler_sync.py does to the tasks of the scheduler.
use pywinhello.Monitor.Schedule.{
  ScheduleConfig, Scheduler, Task, build_task, create_wake_task, delete_all_tasks, delete_rows,
  delete_wake_task, row_task, wake_days, wake_task_name,
}
use pywinhello.Monitor.Schedule.Rows.{IsListed, row_task-listed}
use pywinhello.Prelude.{
  List, [], ap, arith, false, if◌then◌else◌, inl, inr, none, refl, some, subst, true, ℕ, ◌∙◌, ◌∷◌,
  ◌≡◌,
}
use pywinhello.Prelude.Dict.{Dict, lookup, lookup-insert, lookup-remove, remove}
use pywinhello.Prelude.Text.{Text, codes, starts_with, text_eq, text_eq_iff, text_eq_refl}
use pywinhello.Prelude.Text.Split.{Lacks, join}
use pywinhello.Prelude.Value.{truthy}

-- Deleting all tasks of the program leaves every task whose name does not begin with its prefix.
pub delete_rows-keeps :
    (w : Scheduler) (rows : List Text) (tasks : Dict Task) (name : Text)
    → starts_with name (codes "pywinhello-") ≡ false
    → lookup name (delete_rows w rows tasks).1 ≡ lookup name tasks
unfolding delete_rows
delete_rows-keeps w [] tasks name h = refl
delete_rows-keeps w (row ∷ rows) tasks name h = ground (
  arith,
  delete_rows-keeps w rows tasks name h,
  delete_rows-keeps w rows (remove (row_task row) tasks) name h,
  lookup-remove (row_task row) name tasks,
  text_eq_iff (row_task row) name,
)

-- Deleting all tasks of the program leaves the others also where the tasks cannot be listed.
pub delete_all_tasks-keeps :
    (w : Scheduler) (tasks : Dict Task) (name : Text)
    → starts_with name (codes "pywinhello-") ≡ false
    → lookup name (delete_all_tasks w tasks).1 ≡ lookup name tasks
unfolding delete_all_tasks
delete_all_tasks-keeps w tasks name h =
    elim (w.rows tasks)
      as (λ found.
        lookup name
          (elim found as (λ _. ℕ × Dict Task) [
            | none ↦ (0, tasks)
            | some rows ↦ delete_rows w rows tasks
          ]).1
        ≡ lookup name tasks) [ none ↦ refl | some rows ↦ delete_rows-keeps w rows tasks name h ]

-- A wake task that was created for a schedule is found under its name, with the schedule's time, the
-- executable's path and the names of the schedule's days; every other task is as it was.
pub create_wake_task-lookup :
    (w : Scheduler) (exe : Text) (schedule : ScheduleConfig) (tasks : Dict Task) (name : Text)
    → truthy schedule.enabled ≡ true
    → (create_wake_task w exe schedule tasks).0 ≡ true
    → lookup name (create_wake_task w exe schedule tasks).1 ≡ (
        if text_eq wake_task_name name
        then some (build_task schedule.time (join (codes ",") (wake_days schedule.days)) exe)
        else lookup name tasks)
unfolding create_wake_task delete_wake_task
create_wake_task-lookup w exe schedule tasks name h k = ground (
  arith,
  lookup-remove wake_task_name name tasks,
  lookup-insert wake_task_name name
      (build_task schedule.time (join (codes ",") (wake_days schedule.days)) exe)
      (delete_wake_task w tasks).1,
)

delete_rows_missing :
    (w : Scheduler) (rows : List Text) (tasks : Dict Task) (name : Text)
    → lookup name tasks ≡ none
    → lookup name (delete_rows w rows tasks).1 ≡ none
unfolding delete_rows
delete_rows_missing w [] tasks name h = h
delete_rows_missing w (row ∷ rows) tasks name h = ground (
  arith,
  h,
  delete_rows_missing w rows tasks name,
  delete_rows_missing w rows (remove (row_task row) tasks) name,
  lookup-remove (row_task row) name tasks,
)

delete_rows-removes_first :
    (w : Scheduler) (row : Text) (rows : List Text) (tasks : Dict Task)
    → starts_with (row_task row) (codes "pywinhello-") ≡ true
    → w.refuses_delete (row_task row) ≡ false
    → lookup (row_task row) (delete_rows w (row ∷ rows) tasks).1 ≡ none
unfolding delete_rows
delete_rows-removes_first w row rows tasks p q = ground (
  arith,
  p,
  q,
  delete_rows_missing w rows tasks (row_task row),
  delete_rows_missing w rows (remove (row_task row) tasks) (row_task row),
  lookup-remove (row_task row) (row_task row) tasks,
  text_eq_refl (row_task row),
)

delete_rows-removes :
    (w : Scheduler) (rows : List Text) (tasks : Dict Task) (name : Text)
    → starts_with name (codes "pywinhello-") ≡ true
    → Lacks 34 name
    → w.refuses_delete name ≡ false
    → IsListed name rows
    → lookup name (delete_rows w rows tasks).1 ≡ none
unfolding delete_rows
delete_rows-removes w [] tasks name p l q listed = absurd listed
delete_rows-removes w (row ∷ rows) tasks name p l q (inl (rest, d, hd, e)) =
    let same : row_task row ≡ name = ap row_task e ∙ row_task-listed name rest d p l hd in
    subst (λ n. lookup n (delete_rows w (row ∷ rows) tasks).1 ≡ none) same
      (delete_rows-removes_first w row rows tasks
        (ap (λ n. starts_with n (codes "pywinhello-")) same ∙ p) (ap w.refuses_delete same ∙ q))
delete_rows-removes w (row ∷ rows) tasks name p l q (inr listed) = ground (
  arith,
  delete_rows-removes w rows tasks name p l q listed,
  delete_rows-removes w rows (remove (row_task row) tasks) name p l q listed,
)

-- A task whose name begins with the program's prefix and holds no quote, for which the list of the scheduler
-- has a row `"\name","..."`, and which may be deleted, is gone after the deletion of all tasks.
pub delete_all_tasks-removes :
    (w : Scheduler) (rows : List Text) (tasks : Dict Task) (name : Text)
    → w.rows tasks ≡ some rows
    → starts_with name (codes "pywinhello-") ≡ true
    → Lacks 34 name
    → w.refuses_delete name ≡ false
    → IsListed name rows
    → lookup name (delete_all_tasks w tasks).1 ≡ none
unfolding delete_all_tasks
delete_all_tasks-removes w rows tasks name h p l q listed =
    rw (delete_all_tasks, h) (delete_rows-removes w rows tasks name p l q listed)
