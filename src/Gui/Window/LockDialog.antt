-- ===== src/Gui/Window/LockDialog.antt =====
-- `_on_run_test` of pc/src/pywinhello/gui/app.py: the dialog of the lock test. What its thread hands to `after`
-- for the label is logged in order.
use pywinhello.Gui.I18n.{shown}
use pywinhello.Gui.LockTest.{
  IsReported, LockStatus, LockUnlockResult, Reported, Session, locking_status, passed, run,
  run-IsReported, timeout_status, unlock_loop, unlocked_status, waiting_status,
}
use pywinhello.Polling.Ended.{IsTimed}
use pywinhello.Prelude.{
  Bool, List, [], false, if◌then◌else◌, inl, inr, map, none, refl, some, true, ◌++◌, ◌∷◌, ◌≡◌, ◌⊎◌,
}

pub data LabelText : Type 0 where
  locking_text waiting_text success_text failed_text : LabelText

pub data LabelColor : Type 0 where
  same_color green red : LabelColor

pub record LockDialog : Type 0 where
  pub start_enabled : Bool
  pub is_open : Bool
  pub label : List (LabelText × LabelColor)

pub new_dialog : LockDialog
new_dialog = record { start_enabled = true; is_open = true; label = [] }

-- key_map
pub key_of : LockStatus → LabelText
key_of locking_status = locking_text
key_of waiting_status = waiting_text
key_of unlocked_status = success_text
key_of timeout_status = failed_text

verdict : LockUnlockResult → LabelText × LabelColor
verdict r = if passed r then (success_text, green) else (failed_text, red)

-- The cancel button
pub cancel : LockDialog → LockDialog
cancel d = record d { is_open = false }

module _ (X : Session) where
  labels : Reported X → List (LabelText × LabelColor)
  unfolding key_of verdict
  labels (none, s) = []
  labels (some (r, statuses), s) =
      map (λ status. (key_of status, same_color)) statuses ++ (verdict r ∷ [])

  -- _start with its thread; the test waits for 30 seconds.
  pub start : LockDialog → X.State → LockDialog × X.State
  unfolding labels
  start d s =
      let r = run X 30000 s in
      (record d { start_enabled = false; label = d.label ++ labels r }, r.1)

  -- What the label shows of a test, from the lock to the verdict.
  abbrev IsVerdict : List (LabelText × LabelColor) → Type 0
  IsVerdict shown =
      (shown
        ≡ (locking_text, same_color)
          ∷ (waiting_text, same_color)
          ∷ (success_text, same_color)
          ∷ (success_text, green)
          ∷ [])
      ⊎ (shown
          ≡ (locking_text, same_color)
            ∷ (waiting_text, same_color)
            ∷ (failed_text, same_color)
            ∷ (failed_text, red)
            ∷ [])
      ⊎ (shown ≡ (locking_text, same_color) ∷ (failed_text, red) ∷ [])

  labels-IsVerdict : (r : Reported X) → IsReported X r → IsVerdict (labels r)
  unfolding labels key_of verdict
  labels-IsVerdict (none, s) h = absurd h
  labels-IsVerdict (some (r, statuses), s) (inl (p, e)) = inl (rw (p, e) refl)
  labels-IsVerdict (some (r, statuses), s) (inr (inl (p, e))) = inr (inl (rw (p, e) refl))
  labels-IsVerdict (some (r, statuses), s) (inr (inr (p, e))) = inr (inr (rw (p, e) refl))

  -- On a clock that goes on, a test that is started in a new dialog ends with a verdict in the label, whose text
  -- agrees with the last status before it where the desktop was locked, and cannot be started again.
  pub start-IsVerdict :
      (s : X.State)
      → IsTimed (unlock_loop X)
      → ((start new_dialog s).0.start_enabled ≡ false) × IsVerdict (start new_dialog s).0.label
  unfolding start new_dialog
  start-IsVerdict s T = (refl, labels-IsVerdict (run X 30000 s) (run-IsReported X 30000 s T))
