-- ===== src/Gui/Settings/Apps.antt =====
-- pc/src/pywinhello/gui/settings/apps.py: the lock screen and the apps. `BooleanVar(value=v).get()` is a
-- parameter.
use pywinhello.Gui.Connection.{Gui}
use pywinhello.Gui.Settings.Saving.{SaveOutcome, save}
use pywinhello.Prelude.{Bool, List, [], if◌then◌else◌, true, ◌∷◌}
use pywinhello.Prelude.Result.{Result, attribute_error, err, ok}
use pywinhello.Prelude.Text.{Text, codes}
use pywinhello.Prelude.Value.{Fields, Value, boolean, end, field, find_or, obj, truthy}
use pywinhello.Serial.Port.{Pyserial}

pub record AppVars : Type 0 where
  pub lock_var : Bool
  pub app_vars : List (Text × Bool)

module _ (boolean_var : Value → Bool) where
  app_rows : Fields → List (Text × Bool)
  app_rows end = []
  app_rows (field name v rest) = (name, boolean_var v) ∷ app_rows rest

  -- No rows for an empty value; `.items()` of what is no dict raises.
  apps_of : Value → Result (List (Text × Bool))
  unfolding app_rows
  apps_of (obj fs) = ok (app_rows fs)
  apps_of v = if truthy v then err attribute_error else ok []

  with_lock : Bool → Result (List (Text × Bool)) → Result AppVars
  with_lock lock (ok rows) = ok (record { lock_var = lock; app_vars = rows })
  with_lock lock (err e) = err e

  -- What the section reads of the configuration.
  unfoldable pub app_settings : Fields → Result AppVars
  unfolding apps_of with_lock
  app_settings config =
      with_lock (boolean_var (find_or (codes "lock_screen_enabled") (boolean true) config))
        (apps_of (find_or (codes "apps") (obj end) config))

unfoldable pub flags : List (Text × Bool) → Fields
flags [] = end
flags ((name, b) ∷ rest) = field name (boolean b) (flags rest)

-- The dict that a toggle saves.
unfoldable pub get_app_settings : AppVars → Fields
unfolding flags
get_app_settings v =
    field (codes "lock_screen_enabled") (boolean v.lock_var)
      (field (codes "apps") (obj (flags v.app_vars)) end)

unfoldable pub on_toggle_changed : (W : Pyserial) → AppVars → Gui W → SaveOutcome × Gui W
on_toggle_changed W v = save W (obj (get_app_settings v))
