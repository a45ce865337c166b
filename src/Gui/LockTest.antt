-- ===== src/Gui/LockTest.antt =====
-- The test of a lock and an unlock: pc/src/pywinhello/gui/tests/lock_test.py. The calls of Windows are
-- parameters; times are in milliseconds.
use pywinhello.Polling.{Polled, poll_for}
use pywinhello.Polling.Ended.{Ended, IsTimed, held, over, poll_for-Ended}
use pywinhello.Prelude.{
  Bool, List, Option, [], false, if◌then◌else◌, inl, inr, none, not, refl, some, true, ℕ, ◌&&◌, ◌-◌,
  ◌∷◌, ◌≡◌, ◌⊎◌,
}
use pywinhello.Prelude.Dict.{is_some}
use pywinhello.Prelude.Exec.{Exec, attempt, pure, ◌>>=◌, ◌>>◌}
use pywinhello.Prelude.Result.{Result, err, ok}

pub data LockTestError : Type 0 where
  lock_failed unlock_timed_out : LockTestError

pub record LockUnlockResult : Type 0 where
  pub locked : Bool
  pub unlocked : Bool
  pub elapsed : ℕ
  pub error : Option LockTestError

unfoldable pub passed : LockUnlockResult → Bool
passed r = r.locked && r.unlocked && not (is_some r.error)

-- The texts of on_status.
pub data LockStatus : Type 0 where
  locking_status waiting_status unlocked_status timeout_status : LockStatus

pub record Session : Type 1 where
  pub State : Type 0
  pub lock_workstation : Exec State Bool
  pub open_input_desktop : Exec State Bool
  pub close_desktop : Exec State (Unit {0})
  pub time : State → ℕ
  pub sleep : ℕ → State → State

module _ (X : Session) where
  -- An exception is as a lock that failed.
  lock_desktop : Exec X.State Bool
  lock_desktop = attempt X.lock_workstation (λ e. pure false)

  -- A desktop that cannot be opened counts as locked, and so does an exception.
  unfoldable pub is_desktop_locked : Exec X.State Bool
  is_desktop_locked =
      attempt
        (do
          opened ← X.open_input_desktop
          if opened then (do X.close_desktop; pure false) else pure true)
        (λ e. pure true)

  -- not _is_desktop_locked()
  is_unlocked : X.State → Bool × X.State
  is_unlocked s = elim (is_desktop_locked s).0 [
    | ok b ↦ (not b, (is_desktop_locked s).1)
    | err e ↦ (false, (is_desktop_locked s).1)
  ]

  unfoldable pub unlock_loop : Polled X.State
  unfolding is_unlocked
  unlock_loop = record { now = X.time; pause = X.sleep 500; test = is_unlocked }

  -- What is reported, and what the test calls on_status with.
  abbrev pub Reported : Type 0
  Reported = Option (LockUnlockResult × List LockStatus) × X.State

  after_wait : ℕ → Option Bool × X.State → Reported
  after_wait start (none, s) = (none, s)
  after_wait start (some true, s) = (
    some (
      record { locked = true; unlocked = true; elapsed = X.time s - start; error = none },
      locking_status ∷ waiting_status ∷ unlocked_status ∷ [],
    ),
    s,
  )
  after_wait start (some false, s) = (
    some (
      record {
        locked = true;
        unlocked = false;
        elapsed = X.time s - start;
        error = some unlock_timed_out;
      },
      locking_status ∷ waiting_status ∷ timeout_status ∷ [],
    ),
    s,
  )

  wait_unlock : ℕ → X.State → Reported
  unfolding after_wait
  wait_unlock limit s = after_wait (X.time s) (poll_for unlock_loop limit s)

  after_lock : ℕ → Result Bool → X.State → Reported
  unfolding wait_unlock unlock_loop
  after_lock limit (ok true) s = wait_unlock limit (X.sleep 1000 s)
  after_lock limit _ s = (
    some (
      record { locked = false; unlocked = false; elapsed = 0; error = some lock_failed },
      locking_status ∷ [],
    ),
    s,
  )

  -- LockUnlockTest(timeout).run(on_status)
  unfoldable pub run : ℕ → X.State → Reported
  unfolding lock_desktop after_lock
  run limit s = after_lock limit (lock_desktop s).0 (lock_desktop s).1

  -- A report says what its last status says: unlocked if the test passed, and else that the lock
  -- failed or that the time was over.
  abbrev pub IsReported : Reported → Type 0
  IsReported (none, s) = ⊥
  IsReported (some (r, statuses), s) =
      ((passed r ≡ true) × (statuses ≡ locking_status ∷ waiting_status ∷ unlocked_status ∷ []))
      ⊎ ((passed r ≡ false) × (statuses ≡ locking_status ∷ waiting_status ∷ timeout_status ∷ []))
      ⊎ ((passed r ≡ false) × (statuses ≡ locking_status ∷ []))

  after_wait-IsReported :
      (limit start : ℕ) (r : Option Bool × X.State)
      → Ended unlock_loop limit start r
      → IsReported (after_wait start r)
  unfolding after_wait passed
  after_wait-IsReported limit start r (held s h l) = inl (refl, refl)
  after_wait-IsReported limit start r (over s l) = inr (inl (refl, refl))

  wait_unlock-IsReported :
      (limit : ℕ) (s : X.State) → IsTimed unlock_loop → IsReported (wait_unlock limit s)
  unfolding wait_unlock unlock_loop
  wait_unlock-IsReported limit s T =
      after_wait-IsReported limit (X.time s) _ (poll_for-Ended unlock_loop limit s T)

  after_lock-IsReported :
      (limit : ℕ) (r : Result Bool) (s : X.State)
      → IsTimed unlock_loop
      → IsReported (after_lock limit r s)
  unfolding after_lock passed
  after_lock-IsReported limit (ok true) s T = wait_unlock-IsReported limit (X.sleep 1000 s) T
  after_lock-IsReported limit (ok false) s T = inr (inr (refl, refl))
  after_lock-IsReported limit (err e) s T = inr (inr (refl, refl))

  -- On a clock that goes on the test ends with a report, and passes exactly if its last status is
  -- that the desktop was unlocked.
  pub run-IsReported : (limit : ℕ) (s : X.State) → IsTimed unlock_loop → IsReported (run limit s)
  unfolding run
  run-IsReported limit s T = after_lock-IsReported limit _ _ T
