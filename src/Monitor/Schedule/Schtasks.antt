-- ===== src/Monitor/Schedule/Schtasks.antt =====
-- The commands of pc/src/pywinhello/monitor/scheduler_sync.py: what it runs of schtasks.exe, and its temporary
-- file. The XML of a task is the task, since its other text is fixed.
pub mod Contract
pub mod Refinement
use pywinhello.Monitor.Schedule.{
  ScheduleConfig, Task, build_task, row_task, schedule_from_config, wake_days, wake_task_name,
}
use pywinhello.Prelude.{
  Bool, List, Option, [], false, if◌then◌else◌, none, not, some, suc, true, ℕ, ◌==◌, ◌∷◌,
}
use pywinhello.Prelude.Exec.{Exec, attempt, continue, lift, pure, ◌>>=◌, ◌>>◌}
use pywinhello.Prelude.Text.{Text, codes, starts_with, text_eq}
use pywinhello.Prelude.Text.Split.{join}
use pywinhello.Prelude.Value.{Fields, truthy}

-- schtasks.exe, with its return code and the lines that it prints, and the temporary files.
pub record Windows : Type 1 where
  pub State : Type 0
  pub run : List Text → Exec State (ℕ × List Text)
  pub new_file : Exec State Text
  pub write : Text → Task → Exec State (Unit {0})
  pub unlink : Text → Exec State (Unit {0})

abbrev pub query_args : Text → List Text
query_args name = codes "/query" ∷ codes "/tn" ∷ name ∷ []

abbrev pub list_args : List Text
list_args = codes "/query" ∷ codes "/fo" ∷ codes "csv" ∷ codes "/nh" ∷ []

abbrev pub delete_args : Text → List Text
delete_args name = codes "/delete" ∷ codes "/tn" ∷ name ∷ codes "/f" ∷ []

abbrev pub create_args : Text → Text → List Text
create_args name path = codes "/create" ∷ codes "/tn" ∷ name ∷ codes "/xml" ∷ path ∷ codes "/f" ∷ []

module _ (X : Windows) where
  -- _run_schtasks with check=False
  unfoldable pub run_schtasks : List Text → Exec X.State (ℕ × List Text)
  run_schtasks args = X.run (codes "schtasks.exe" ∷ args)

  -- _run_schtasks with check=True: the answer `false` is its CalledProcessError.
  unfoldable pub run_checked : List Text → Exec X.State Bool
  unfolding run_schtasks
  run_checked args = do r ← run_schtasks args; pure (r.0 == 0)

  unfoldable pub task_exists : Text → Exec X.State Bool
  unfolding run_schtasks
  task_exists name = do r ← run_schtasks (query_args name); pure (r.0 == 0)

  unfoldable pub delete_wake_task : Exec X.State Bool
  delete_wake_task = do
    exists ← task_exists wake_task_name
    if exists then run_checked (delete_args wake_task_name) else pure true

  -- try: m finally: close
  finally : Exec X.State Bool → Exec X.State (Unit {0}) → Exec X.State Bool
  finally m close s = continue (close (m s).1).0 (λ u t. ((m s).0, t)) (close (m s).1).1

  -- The answer `false` is the CalledProcessError of the command, after the file is unlinked.
  unfoldable pub create_task_from_xml : Text → Task → Exec X.State Bool
  unfolding finally
  create_task_from_xml name task = do
    path ← X.new_file
    X.write path task
    finally (run_checked (create_args name path)) (X.unlink path)

  unfoldable pub create_wake_task : Text → ScheduleConfig → Exec X.State Bool
  create_wake_task exe schedule =
      let days_str = join (codes ",") (wake_days schedule.days) in
      if not (truthy schedule.enabled)
      then (do delete_wake_task; pure true)
      else if text_eq days_str []
      then pure false
      else (do
        delete_wake_task
        attempt (create_task_from_xml wake_task_name (build_task schedule.time days_str exe))
            (λ e. pure false))

  -- The loop over the rows, with the number of tasks that it deletes.
  unfoldable pub delete_rows : List Text → Exec X.State ℕ
  delete_rows [] = pure 0
  delete_rows (row ∷ rows) =
      let name = row_task row in
      if starts_with name (codes "pywinhello-")
      then (do
        deleted ← run_checked (delete_args name)
        n ← delete_rows rows
        pure (if deleted then suc n else n))
      else delete_rows rows

  unfoldable pub delete_all_tasks : Exec X.State ℕ
  unfolding run_schtasks
  delete_all_tasks = do r ← run_schtasks list_args; if r.0 == 0 then delete_rows r.1 else pure 0

  pub sync_with : Text → Option ScheduleConfig → Exec X.State Bool
  sync_with exe none = do delete_all_tasks; pure true
  sync_with exe (some schedule) =
      if truthy schedule.enabled
      then create_wake_task exe schedule
      else (do delete_all_tasks; pure true)

  unfoldable pub sync_schedule : Text → Fields → Exec X.State Bool
  unfolding sync_with
  sync_schedule exe config = do
    schedule ← lift (schedule_from_config config)
    sync_with exe schedule
