-- ===== src/Monitor/Schedule/Schtasks/Refinement.antt =====
-- The commands of pc/src/pywinhello/monitor/scheduler_sync.py against the set of the scheduler's tasks.
use pywinhello.Monitor.Schedule
use pywinhello.Monitor.Schedule.Schtasks
use pywinhello.Monitor.Schedule.{
  ScheduleConfig, Scheduler, Task, build_task, row_task, schedule_from_config, wake_days,
  wake_task_name,
}
use pywinhello.Monitor.Schedule.Schtasks.{
  Windows, create_task_from_xml, create_wake_task, delete_all_tasks, delete_args, delete_rows,
  delete_wake_task, finally, run_checked, run_schtasks, sync_schedule, sync_with, task_exists,
}
use pywinhello.Monitor.Schedule.Schtasks.Contract.{
  Gives, IsScheduler, can_delete, delete-Gives, exists-Gives, Gives-attempt, Gives-if, Gives-is,
  Gives-then,
}
use pywinhello.Prelude.{
  Bool, List, Option, Option-cases, [], ap, arith, false, if◌then◌else◌, inl, inr, none, not, refl,
  some, suc, true, ◌∙◌, ◌∷◌, ◌≡◌,
}
use pywinhello.Prelude.Dict.{Dict, insert, is_some, lookup, remove}
use pywinhello.Prelude.Exec.{attempt, continue, pure, ◌>>=◌, ◌>>◌}
use pywinhello.Prelude.Result.{Result, err, ok}
use pywinhello.Prelude.Text.{Text, codes, starts_with, text_eq}
use pywinhello.Prelude.Text.Split.{join}
use pywinhello.Prelude.Value.{Fields, truthy}

module _ (X : Windows) (w : Scheduler) (tasks : X.State → Dict Task)
    (file : X.State → Text → Option Task) (H : IsScheduler X w tasks file) where
  delete_wake_task-Gives :
      (s : X.State) (d : Dict Task)
      → tasks s ≡ d
      → Gives X w tasks file H
          (Schtasks.delete_wake_task X)
          s
          (Schedule.delete_wake_task w d).0
          (Schedule.delete_wake_task w d).1
  unfolding Schtasks.delete_wake_task Schedule.delete_wake_task
  delete_wake_task-Gives s d p =
      Gives-then X w tasks file H (Schtasks.task_exists X wake_task_name)
        (λ exists.
          if exists then Schtasks.run_checked X (delete_args wake_task_name) else pure true)
        s (is_some (lookup wake_task_name d)) d _ _
        (exists-Gives X w tasks file H wake_task_name s d p)
        (λ t q.
          Gives-if X w tasks file H (is_some (lookup wake_task_name d))
            (Schtasks.run_checked X (delete_args wake_task_name)) (pure true) t
            (λ there.
              Gives-is X w tasks file H (Schtasks.run_checked X (delete_args wake_task_name)) t
                (delete-Gives X w tasks file H wake_task_name t d q) (ground (arith, there))
                (ground (arith, there)))
            (λ missing. (t, ground (arith, missing), ground (arith, missing, q))))

  create_file-Gives :
      (name : Text) (task : Task) (s : X.State) (d : Dict Task)
      → tasks s ≡ d
      → Gives X w tasks file H
          (Schtasks.create_task_from_xml X name task)
          s
          (not w.refuses_create)
          (if not w.refuses_create then insert name task d else d)
  unfolding Schtasks.create_task_from_xml Schtasks.run_checked Schtasks.run_schtasks
      Schtasks.finally
  create_file-Gives name task s d p =
      let (path, t, e, h) = H.opens s in
      let (t', e', written, h') = H.writes path task t in
      let (code, out, u, e'', c, h'') = H.creates name path task t' written in
      let (v, f, k) = H.unlinks path u in
      (
        v,
        rw (e, e', e'', f) (ap (λ b. (ok b, v)) c),
        k
            ∙ h''
            ∙ ap (λ b. if b then insert name task (tasks t') else tasks t') c
            ∙ ap (λ q. if not w.refuses_create then insert name task q else q) (h' ∙ h ∙ p),
      )

  create_wake_task-Gives :
      (exe : Text) (schedule : ScheduleConfig) (s : X.State) (d : Dict Task)
      → tasks s ≡ d
      → Gives X w tasks file H
          (Schtasks.create_wake_task X exe schedule)
          s
          (Schedule.create_wake_task w exe schedule d).0
          (Schedule.create_wake_task w exe schedule d).1
  unfolding Schtasks.create_wake_task Schedule.create_wake_task
  create_wake_task-Gives exe schedule s d p =
      let days_str = join (codes ",") (wake_days schedule.days) in
      let task = build_task schedule.time days_str exe in
      let create =
        attempt (Schtasks.create_task_from_xml X wake_task_name task) (λ e. pure false) in
      let without = (Schedule.delete_wake_task w d).1 in
      Gives-if X w tasks file H (not (truthy schedule.enabled))
        (Schtasks.delete_wake_task X >> pure true)
        (if text_eq days_str [] then pure false else Schtasks.delete_wake_task X >> create) s
        (λ off.
          Gives-is X w tasks file H (Schtasks.delete_wake_task X >> pure true) s
            (Gives-then X w tasks file H (Schtasks.delete_wake_task X) (λ b. pure true) s
              (Schedule.delete_wake_task w d).0 without true without (delete_wake_task-Gives s d p)
              (λ t q. (t, refl, q)))
            (ground (arith, off)) (ground (arith, off)))
        (λ on.
          Gives-if X w tasks file H (text_eq days_str []) (pure false)
            (Schtasks.delete_wake_task X >> create) s
            (λ empty. (s, ground (arith, on, empty), ground (arith, on, empty, p)))
            (λ given.
              Gives-is X w tasks file H (Schtasks.delete_wake_task X >> create) s
                (Gives-then X w tasks file H (Schtasks.delete_wake_task X) (λ b. create) s
                  (Schedule.delete_wake_task w d).0 without (not w.refuses_create)
                  (if not w.refuses_create then insert wake_task_name task without else without)
                  (delete_wake_task-Gives s d p)
                  (λ t q.
                    Gives-attempt X w tasks file H
                      (Schtasks.create_task_from_xml X wake_task_name task) (λ e. pure false) t
                      (create_file-Gives wake_task_name task t without q)))
                (ground (arith, on, given)) (ground (arith, on, given))))

  delete_rows-Gives :
      (rows : List Text) (s : X.State) (d : Dict Task)
      → tasks s ≡ d
      → Gives X w tasks file H
          (Schtasks.delete_rows X rows)
          s
          (Schedule.delete_rows w rows d).0
          (Schedule.delete_rows w rows d).1
  unfolding Schtasks.delete_rows Schedule.delete_rows
  delete_rows-Gives [] s d p = (s, refl, p)
  delete_rows-Gives (row ∷ rows) s d p =
      let name = row_task row in
      let delete = Schtasks.run_checked X (delete_args name) in
      let count = (λ (deleted : Bool).
        Schtasks.delete_rows X rows >>= λ n. pure (if deleted then suc n else n)) in
      let left = (if can_delete X w tasks file H name d then remove name d else d) in
      Gives-if X w tasks file H (starts_with name (codes "pywinhello-")) (delete >>= count)
        (Schtasks.delete_rows X rows) s
        (λ ours.
          Gives-is X w tasks file H (delete >>= count) s
            (Gives-then X w tasks file H delete count s (can_delete X w tasks file H name d) left
              (if can_delete X w tasks file H name d
                then suc (Schedule.delete_rows w rows left).0
                else (Schedule.delete_rows w rows left).0)
              (Schedule.delete_rows w rows left).1 (delete-Gives X w tasks file H name s d p)
              (λ t q.
                Gives-then X w tasks file H (Schtasks.delete_rows X rows)
                  (λ n. pure (if can_delete X w tasks file H name d then suc n else n)) t
                  (Schedule.delete_rows w rows left).0 (Schedule.delete_rows w rows left).1
                  (if can_delete X w tasks file H name d
                    then suc (Schedule.delete_rows w rows left).0
                    else (Schedule.delete_rows w rows left).0)
                  (Schedule.delete_rows w rows left).1 (delete_rows-Gives rows t left q)
                  (λ u r. (u, refl, r))))
            (ground (arith, ours)) (ground (arith, ours)))
        (λ other.
          Gives-is X w tasks file H (Schtasks.delete_rows X rows) s (delete_rows-Gives rows s d p)
            (ground (arith, other)) (ground (arith, other)))

  delete_all_tasks-Gives :
      (s : X.State) (d : Dict Task)
      → tasks s ≡ d
      → Gives X w tasks file H
          (Schtasks.delete_all_tasks X)
          s
          (Schedule.delete_all_tasks w d).0
          (Schedule.delete_all_tasks w d).1
  unfolding Schtasks.delete_all_tasks Schedule.delete_all_tasks Schtasks.run_schtasks
  delete_all_tasks-Gives s d p = elim (Option-cases (w.rows d)) [
    | inl none_listed ↦
        let (code, out, t, e, c, h) = H.lists_not s (ap w.rows p ∙ none_listed) in
        Gives-is X w tasks file H (Schtasks.delete_all_tasks X) s {a = 0} {d = d}
          (t, rw (e, c) refl, h ∙ p) (rw (Schedule.delete_all_tasks, none_listed) refl)
          (rw (Schedule.delete_all_tasks, none_listed) refl)
    | inr (rows, listed) ↦
        let (t, e, h) = H.lists rows s (ap w.rows p ∙ listed) in
        let (u, f, k) = delete_rows-Gives rows t d (h ∙ p) in
        Gives-is X w tasks file H (Schtasks.delete_all_tasks X) s
          {a = (Schedule.delete_rows w rows d).0} {d = (Schedule.delete_rows w rows d).1}
          (u, rw (e) f, k) (rw (Schedule.delete_all_tasks, listed) refl)
          (rw (Schedule.delete_all_tasks, listed) refl)
  ]

  sync_with-Gives :
      (exe : Text) (schedule : Option ScheduleConfig) (s : X.State) (d : Dict Task)
      → tasks s ≡ d
      → Gives X w tasks file H
          (Schtasks.sync_with X exe schedule)
          s
          (Schedule.sync_with w exe schedule d).0
          (Schedule.sync_with w exe schedule d).1
  unfolding Schtasks.sync_with Schedule.sync_with
  sync_with-Gives exe none s d p =
      let (t, e, h) = delete_all_tasks-Gives s d p in (t, rw (e) refl, h)
  sync_with-Gives exe (some schedule) s d p =
      let (t, e, h) = delete_all_tasks-Gives s d p in
      Gives-if X w tasks file H (truthy schedule.enabled) (Schtasks.create_wake_task X exe schedule)
        (Schtasks.delete_all_tasks X >> pure true) s
        (λ on.
          Gives-is X w tasks file H (Schtasks.create_wake_task X exe schedule) s
            (create_wake_task-Gives exe schedule s d p) (ground (arith, on)) (ground (arith, on)))
        (λ off.
          Gives-is X w tasks file H (Schtasks.delete_all_tasks X >> pure true) s {a = true}
            {d = (Schedule.delete_all_tasks w d).1} (t, rw (e) refl, h) (ground (arith, off))
            (ground (arith, off)))

-- With a schtasks.exe that keeps a set of tasks and answers for it, and temporary files that hold what is
-- written to them, sync_schedule returns, or raises, as the synchronisation of that set does, and
-- leaves the set that it leaves.
pub sync_schedule-refines :
    (X : Windows) (w : Scheduler) (tasks : X.State → Dict Task)
    (file : X.State → Text → Option Task) (H : IsScheduler X w tasks file) (exe : Text)
    (config : Fields) (s : X.State)
    → ((Schtasks.sync_schedule X exe config s).0
        ≡ (Schedule.sync_schedule w exe config (tasks s)).0)
      × (tasks (Schtasks.sync_schedule X exe config s).1
          ≡ (Schedule.sync_schedule w exe config (tasks s)).1)
unfolding Schtasks.sync_schedule Schedule.sync_schedule
sync_schedule-refines X w tasks file H exe config s =
    elim (schedule_from_config config)
      as (λ r.
        ((continue r (Schtasks.sync_with X exe) s).0
          ≡ (elim r as (λ _. Result Bool × Dict Task) [
            | ok schedule ↦ (
              ok (Schedule.sync_with w exe schedule (tasks s)).0,
              (Schedule.sync_with w exe schedule (tasks s)).1,
            )
            | err e ↦ (err e, tasks s)
          ]).0)
        × (tasks (continue r (Schtasks.sync_with X exe) s).1
            ≡ (elim r as (λ _. Result Bool × Dict Task) [
              | ok schedule ↦ (
                ok (Schedule.sync_with w exe schedule (tasks s)).0,
                (Schedule.sync_with w exe schedule (tasks s)).1,
              )
              | err e ↦ (err e, tasks s)
            ]).1)) [
              | ok schedule ↦
                  let (t, e, h) = sync_with-Gives X w tasks file H exe schedule s (tasks s) refl in
                  (ap (λ q. q.0) e, ap (λ q. tasks q.1) e ∙ h)
              | err e ↦ (refl, refl)
            ]
