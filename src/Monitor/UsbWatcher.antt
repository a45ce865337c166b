-- ===== src/Monitor/UsbWatcher.antt =====
-- `USBWatcher` of pc/src/pywinhello/monitor/usb_watcher.py: the state change that every form of
-- the watch loop runs. A callback that raises is logged and does not change the watcher.
pub mod Alternation
pub mod Loops
use pywinhello.Prelude.{
  Bool, List, Option, [], false, if◌then◌else◌, none, not, some, true, ◌&&◌, ◌++◌, ◌∷◌,
}
use pywinhello.Prelude.Dict.{get_or, is_some}
use pywinhello.Prelude.Text.{Text}

-- The calls of the callbacks.
pub data Notice : Type 0 where
  connect : Text → Notice
  disconnect : Notice

-- A port as a condition: an empty name counts as none.
unfoldable pub present : Option Text → Bool
present none = false
present (some []) = false
present (some (c ∷ s)) = true

-- _check_and_notify: `current` is what `check_now` sees, `last` is `_last_port`.
unfoldable pub check_and_notify : Option Text → Option Text → Option Text × List Notice
unfolding present
check_and_notify current last =
    if present current && not (is_some last)
    then (current, connect (get_or current []) ∷ [])
    else if not (present current) && is_some last
    then (none, disconnect ∷ [])
    else (last, [])

-- The watch loop over what it sees at each check.
unfoldable pub watch : Option Text → List (Option Text) → List Notice
watch last [] = []
watch last (current ∷ later) =
    (check_and_notify current last).1 ++ watch (check_and_notify current last).0 later

-- The port that the watcher holds after these checks.
unfoldable pub last_port : Option Text → List (Option Text) → Option Text
last_port last [] = last
last_port last (current ∷ later) = last_port (check_and_notify current last).0 later
