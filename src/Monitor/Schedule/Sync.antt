-- ===== src/Monitor/Schedule/Sync.antt =====
-- A second synchronisation with the same configuration: pc/src/pywinhello/monitor/scheduler_sync.py.
use pywinhello.Monitor.Schedule.{
  ScheduleConfig, Scheduler, Task, build_task, create_wake_task, delete_wake_task,
  schedule_from_config, sync_schedule, sync_with, wake_days, wake_task_name,
}
use pywinhello.Prelude.{
  Bool-cases, Option-cases, [], ap, arith, false, inl, inr, refl, some, sym, true, ◌∙◌, ◌∷◌, ◌≡◌,
}
use pywinhello.Prelude.Dict.{Dict, insert, lookup, remove, remove-remove, remove_missing}
use pywinhello.Prelude.Result.{ok}
use pywinhello.Prelude.Text.{Text, codes, text_eq_refl}
use pywinhello.Prelude.Text.Split.{join}
use pywinhello.Prelude.Value.{Fields, truthy}

module _ {ℓ} {V : Type ℓ} (k : Text) (v : V) where
  insert-insert : (d : Dict V) → insert k v (insert k v d) ≡ insert k v d
  unfolding insert
  insert-insert [] = ground (arith, text_eq_refl k)
  insert-insert ((j, w) ∷ d) = ground (arith, insert-insert d)

  remove-insert : (d : Dict V) → remove k (insert k v (remove k d)) ≡ remove k d
  unfolding insert remove
  remove-insert [] = ground (arith, text_eq_refl k)
  remove-insert ((j, w) ∷ d) = ground (arith, remove-insert d)

delete-refused :
    (w : Scheduler) (tasks : Dict Task)
    → w.refuses_delete wake_task_name ≡ true
    → (delete_wake_task w tasks).1 ≡ tasks
unfolding delete_wake_task
delete-refused w tasks h = ground arith

delete-remove :
    (w : Scheduler) (tasks : Dict Task)
    → w.refuses_delete wake_task_name ≡ false
    → (delete_wake_task w tasks).1 ≡ remove wake_task_name tasks
unfolding delete_wake_task
delete-remove w tasks h = elim (Option-cases (lookup wake_task_name tasks)) [
  | inl gone ↦ rw gone (sym (remove_missing wake_task_name tasks gone))
  | inr (task, there) ↦ rw (there, h)
]

-- Deleting the wake task again changes nothing, and neither does it before the task is created again.
delete-delete :
    (w : Scheduler) (tasks : Dict Task)
    → (delete_wake_task w (delete_wake_task w tasks).1).1 ≡ (delete_wake_task w tasks).1
delete-delete w tasks = elim (Bool-cases (w.refuses_delete wake_task_name)) [
  | inl refused ↦ delete-refused w (delete_wake_task w tasks).1 refused
  | inr fine ↦
      delete-remove w (delete_wake_task w tasks).1 fine
      ∙ ap (remove wake_task_name) (delete-remove w tasks fine)
      ∙ remove-remove wake_task_name tasks
      ∙ sym (delete-remove w tasks fine)
]

insert-delete :
    (w : Scheduler) (task : Task) (tasks : Dict Task)
    → insert wake_task_name task
        (delete_wake_task w (insert wake_task_name task (delete_wake_task w tasks).1)).1
      ≡ insert wake_task_name task (delete_wake_task w tasks).1
insert-delete w task tasks = elim (Bool-cases (w.refuses_delete wake_task_name)) [
  | inl refused ↦
      ap (insert wake_task_name task)
        (delete-refused w (insert wake_task_name task (delete_wake_task w tasks).1) refused)
      ∙ insert-insert wake_task_name task (delete_wake_task w tasks).1
  | inr fine ↦ ap (insert wake_task_name task) (
      delete-remove w (insert wake_task_name task (delete_wake_task w tasks).1) fine
      ∙ ap (λ d. remove wake_task_name (insert wake_task_name task d)) (delete-remove w tasks fine)
      ∙ remove-insert wake_task_name task tasks
      ∙ sym (delete-remove w tasks fine))
]

-- Creating the wake task of a schedule again gives the same answer and the same tasks.
pub create_wake_task_again :
    (w : Scheduler) (exe : Text) (schedule : ScheduleConfig) (tasks : Dict Task)
    → create_wake_task w exe schedule (create_wake_task w exe schedule tasks).1
      ≡ create_wake_task w exe schedule tasks
unfolding create_wake_task
create_wake_task_again w exe schedule tasks = ground (
  arith,
  delete-delete w tasks,
  insert-delete w (build_task schedule.time (join (codes ",") (wake_days schedule.days)) exe) tasks,
)

sync-created :
    (w : Scheduler) (exe : Text) (config : Fields) (schedule : ScheduleConfig) (tasks : Dict Task)
    → schedule_from_config config ≡ ok (some schedule)
    → truthy schedule.enabled ≡ true
    → sync_schedule w exe config tasks
      ≡ (ok (create_wake_task w exe schedule tasks).0, (create_wake_task w exe schedule tasks).1)
unfolding sync_schedule sync_with
sync-created w exe config schedule tasks h k = rw (h, sync_schedule) (rw k refl)

-- Synchronising again with a configuration whose schedule is enabled gives the same result and changes no
-- task, also where the scheduler refuses to create or to delete.
pub sync_schedule_again :
    (w : Scheduler) (exe : Text) (config : Fields) (schedule : ScheduleConfig) (tasks : Dict Task)
    → schedule_from_config config ≡ ok (some schedule)
    → truthy schedule.enabled ≡ true
    → sync_schedule w exe config (sync_schedule w exe config tasks).1
      ≡ sync_schedule w exe config tasks
sync_schedule_again w exe config schedule tasks h k =
    let created = λ (d : Dict Task). sync-created w exe config schedule d h k in
    ap (λ r. sync_schedule w exe config r.1) (created tasks)
    ∙ created (create_wake_task w exe schedule tasks).1
    ∙ ap (λ r. (ok r.0, r.1)) (create_wake_task_again w exe schedule tasks)
    ∙ sym (created tasks)
