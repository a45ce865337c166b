-- ===== src/Dialog/Waiting.antt =====
-- How the waits for the dialog end, and what its owner is called: pc/src/pywinhello/dialog.py.
use pywinhello.Dialog.{
  Win32, appears, base_name, disappears, find_dialog_hwnd, get_owner_exe, is_gone, is_visible,
  name_of_handle, name_of_owner, name_of_pid, owner_exe, wait_for_dialog, wait_for_dismiss,
}
use pywinhello.Polling.Ended.{Ended, IsTimed, poll_for-Ended}
use pywinhello.Prelude.{
  Bool, Option, [], arith, false, if◌then◌else◌, none, refl, some, true, ℕ, ◌+◌, ◌<◌, ◌∷◌, ◌≡◌, ◌≤◌,
}
use pywinhello.Prelude.Text.{Text, has_char}

-- time.monotonic does not go back, and time.sleep takes the time that it is given.
pub record IsClock (X : Win32) : Type 0 where
  pub sleep_takes : (t : ℕ) (s : X.State) → X.monotonic s + t ≤ X.monotonic (X.sleep t s)
  pub find_keeps : (s : X.State) → X.monotonic s ≤ X.monotonic (X.find_window s).1

module _ (X : Win32) (interval : ℕ) where
  appears-IsTimed : IsClock X → 0 < interval → IsTimed (appears X interval)
  unfolding is_visible find_dialog_hwnd
  appears-IsTimed C p = record {
    pause_takes = λ s. omega (arith, p, C.sleep_takes interval s);
    test_keeps = C.find_keeps;
  }

  disappears-IsTimed : IsClock X → 0 < interval → IsTimed (disappears X interval)
  unfolding is_gone is_visible find_dialog_hwnd
  disappears-IsTimed C p = record {
    pause_takes = λ s. omega (arith, p, C.sleep_takes interval s);
    test_keeps = C.find_keeps;
  }

  -- With a positive interval both waits end, on a clock that goes on: with True right after a look
  -- within the time at which the dialog was there, or was gone; with False once the time is over.
  pub waits-Ended :
      (timeout : ℕ) (s : X.State)
      → IsClock X
      → 0 < interval
      → Ended (appears X interval) timeout (X.monotonic s) (wait_for_dialog X timeout interval s)
        × Ended
            (disappears X interval)
            timeout
            (X.monotonic s)
            (wait_for_dismiss X timeout interval s)
  unfolding wait_for_dialog wait_for_dismiss
  waits-Ended timeout s C p = (
    poll_for-Ended (appears X interval) timeout s (appears-IsTimed C p),
    poll_for-Ended (disappears X interval) timeout s (disappears-IsTimed C p),
  )

base_name_lem : (path : Text) → has_char b'\\' (base_name path) ≡ false
unfolding base_name has_char
base_name_lem [] = refl
base_name_lem (c ∷ s) = ground (arith, base_name_lem s)

-- A name that is there has no backslash.
abbrev pub IsBase : Option Text → Type 0
IsBase none = Unit
IsBase (some name) = has_char b'\\' name ≡ false

module _ (X : Win32) where
  if-IsBase :
      (b : Bool) (t : X.State) (r : Option Text × X.State)
      → IsBase r.0
      → IsBase (if b then (none, t) else r).0
  if-IsBase true t r h = tt
  if-IsBase false t r h = h

  name-IsBase :
      (o : Option Text) → IsBase (elim o [ none ↦ none | some path ↦ some (base_name path) ])
  name-IsBase none = tt
  name-IsBase (some path) = base_name_lem path

  name_of_handle-IsBase : (h : ℕ) (s : X.State) → IsBase (name_of_handle X h s).0
  unfolding name_of_handle
  name_of_handle-IsBase h s = name-IsBase (X.image_name h s).0

  name_of_pid-IsBase : (pid : ℕ) (s : X.State) → IsBase (name_of_pid X pid s).0
  unfolding name_of_pid
  name_of_pid-IsBase pid s = if-IsBase _ _ _ (name_of_handle-IsBase _ _)

  name_of_owner-IsBase : (owner : ℕ) (s : X.State) → IsBase (name_of_owner X owner s).0
  unfolding name_of_owner
  name_of_owner-IsBase owner s = if-IsBase _ _ _ (name_of_pid-IsBase _ _)

  owner_exe-IsBase : (hwnd : ℕ) (s : X.State) → IsBase (owner_exe X hwnd s).0
  unfolding owner_exe
  owner_exe-IsBase hwnd s = if-IsBase _ _ _ (name_of_owner-IsBase _ _)

  -- The owner of the dialog is named by its file alone: the name holds no backslash.
  pub get_owner_exe-IsBase : (hwnd : Option ℕ) (s : X.State) → IsBase (get_owner_exe X hwnd s).0
  unfolding get_owner_exe
  get_owner_exe-IsBase hwnd s = if-IsBase _ _ _ (owner_exe-IsBase _ _)
