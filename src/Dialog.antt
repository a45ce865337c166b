-- ===== src/Dialog.antt =====
-- The Windows Security dialog: pc/src/pywinhello/dialog.py. The calls of user32 and kernel32 are
-- parameters; a window or a handle is 0 where there is none.
pub mod Waiting
use pywinhello.Polling.{Polled, poll_for}
use pywinhello.Prelude.{Bool, Option, [], false, if◌then◌else◌, none, not, some, true, ℕ, ◌==◌, ◌∷◌}
use pywinhello.Prelude.Text.{Text, has_char}

pub record Win32 : Type 1 where
  pub State : Type 0
  pub find_window : State → ℕ × State
  pub get_foreground : State → ℕ × State
  pub thread_of : ℕ → State → ℕ × State
  pub current_thread : State → ℕ × State
  pub attach_input : ℕ → ℕ → Bool → State → Bool × State
  pub bring_to_top : ℕ → State → State
  pub show_window : ℕ → State → State
  pub set_foreground : ℕ → State → Bool × State
  pub owner_of : ℕ → State → ℕ × State
  pub pid_of : ℕ → State → ℕ × State
  pub open_process : ℕ → State → ℕ × State
  pub image_name : ℕ → State → Option Text × State
  pub close_handle : ℕ → State → State
  pub monotonic : State → ℕ
  pub sleep : ℕ → State → State

-- path.rsplit("\\", 1)[-1] if "\\" in path else path
unfoldable pub base_name : Text → Text
base_name [] = []
base_name (c ∷ s) =
    let rest = base_name s in if has_char b'\\' s then rest else if c == b'\\' then s else c ∷ s

module _ (X : Win32) where
  unfoldable pub find_dialog_hwnd : X.State → ℕ × X.State
  find_dialog_hwnd = X.find_window

  unfoldable pub is_visible : X.State → Bool × X.State
  is_visible s = let r = find_dialog_hwnd s in (not (r.0 == 0), r.1)

  -- AttachThreadInput, where the foreground thread is another one.
  attach : ℕ → ℕ → X.State → Bool × X.State
  attach fg my s = if fg == my then (false, s) else X.attach_input my fg true s

  detach : Bool → ℕ → ℕ → X.State → X.State
  detach attached fg my s = if attached then (X.attach_input my fg false s).1 else s

  -- The window to the front, with the input attached while that is done.
  bring_to_front : ℕ → X.State → Bool × X.State
  unfolding attach detach
  bring_to_front hwnd s =
      let fg_hwnd = X.get_foreground s in
      let fg_tid = X.thread_of fg_hwnd.0 fg_hwnd.1 in
      let my_tid = X.current_thread fg_tid.1 in
      let attached = attach fg_tid.0 my_tid.0 my_tid.1 in
      let result = X.set_foreground hwnd (X.show_window hwnd (X.bring_to_top hwnd attached.1)) in
      (result.0, detach attached.0 fg_tid.0 my_tid.0 result.1)

  unfoldable pub focus : X.State → Bool × X.State
  unfolding bring_to_front
  focus s = let r = find_dialog_hwnd s in if r.0 == 0 then (false, r.1) else bring_to_front r.0 r.1

  -- The name of the process behind an open handle, which is closed.
  name_of_handle : ℕ → X.State → Option Text × X.State
  name_of_handle process s =
      let r = X.image_name process s in
      (elim r.0 [ none ↦ none | some path ↦ some (base_name path) ], X.close_handle process r.1)

  name_of_pid : ℕ → X.State → Option Text × X.State
  unfolding name_of_handle
  name_of_pid pid s =
      let h = X.open_process pid s in if h.0 == 0 then (none, h.1) else name_of_handle h.0 h.1

  name_of_owner : ℕ → X.State → Option Text × X.State
  unfolding name_of_pid
  name_of_owner owner s =
      let p = X.pid_of owner s in if p.0 == 0 then (none, p.1) else name_of_pid p.0 p.1

  owner_exe : ℕ → X.State → Option Text × X.State
  unfolding name_of_owner
  owner_exe hwnd s =
      let o = X.owner_of hwnd s in if o.0 == 0 then (none, o.1) else name_of_owner o.0 o.1

  -- A window that is given, or else the dialog.
  chosen_hwnd : Option ℕ → X.State → ℕ × X.State
  chosen_hwnd none s = find_dialog_hwnd s
  chosen_hwnd (some hwnd) s = (hwnd, s)

  unfoldable pub get_owner_exe : Option ℕ → X.State → Option Text × X.State
  unfolding chosen_hwnd owner_exe
  get_owner_exe hwnd s =
      let r = chosen_hwnd hwnd s in if r.0 == 0 then (none, r.1) else owner_exe r.0 r.1

  unfoldable pub is_foreground : X.State → Bool × X.State
  is_foreground s =
      let r = find_dialog_hwnd s in
      let f = X.get_foreground r.1 in if r.0 == 0 then (false, r.1) else (r.0 == f.0, f.1)

  unfoldable pub is_gone : X.State → Bool × X.State
  is_gone s = let r = is_visible s in (not r.0, r.1)

  -- The loops, with the interval between two looks.
  abbrev pub appears : ℕ → Polled X.State
  appears interval = record { now = X.monotonic; pause = X.sleep interval; test = is_visible }

  abbrev pub disappears : ℕ → Polled X.State
  disappears interval = record { now = X.monotonic; pause = X.sleep interval; test = is_gone }

  unfoldable pub wait_for_dialog : ℕ → ℕ → X.State → Option Bool × X.State
  wait_for_dialog timeout interval = poll_for (appears interval) timeout

  unfoldable pub wait_for_dismiss : ℕ → ℕ → X.State → Option Bool × X.State
  unfolding is_gone
  wait_for_dismiss timeout interval = poll_for (disappears interval) timeout
