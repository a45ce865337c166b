-- ===== src/Gui/Settings/Effects.antt =====
-- What the monitor makes of the settings that the window saves: gui/settings/ against
-- monitor/lock_detector.py, in pc/src/pywinhello.
use pywinhello.Gui.Settings.Apps.{flags, get_app_settings}
use pywinhello.Gui.Steps.ScheduleStep.{elem_text}
use pywinhello.Monitor.Lock.{default_lock_config, from_pico_config, lock_config_of}
use pywinhello.Prelude.{Bool, List, [], ap, arith, false, map, none, refl, true, ◌∷◌, ◌≡◌}
use pywinhello.Prelude.Result.{ok}
use pywinhello.Prelude.Text.{Text, codes, text_eq, text_eq_iff, text_eq_refl}
use pywinhello.Prelude.Value.{end, find, find_or, get_field, obj}

find-flags :
    (key : Text) (apps : List (Text × Bool))
    → elem_text key (map (λ a. a.0) apps) ≡ false
    → find key (flags apps) ≡ none
unfolding find flags elem_text
find-flags key [] h = refl
find-flags key ((name, b) ∷ apps) h =
    ground (
      arith,
      text_eq_iff name key,
      text_eq_iff key name,
      text_eq_refl key,
      find-flags key apps,
      back,
    )
  where
    back : name ≡ key → text_eq key name ≡ true
    back e = rw e (text_eq_refl key)

find_or-flags :
    (key : Text) (apps : List (Text × Bool))
    → elem_text key (map (λ a. a.0) apps) ≡ false
    → find_or key (obj end) (flags apps) ≡ obj end
unfolding find_or
find_or-flags key apps h = rw (find_or, find-flags key apps h)

-- The lock screen switch that the apps section saves is not the one that the monitor reads: the
-- monitor takes it as on, unless an app is called lock_screen.
pub get_app_settings-from_pico_config :
    (lock : Bool) (apps : List (Text × Bool))
    → elem_text (codes "lock_screen") (map (λ a. a.0) apps) ≡ false
    → from_pico_config (get_app_settings (record { lock_var = lock; app_vars = apps }))
      ≡ ok default_lock_config
unfolding get_app_settings from_pico_config lock_config_of find_or find get_field text_eq
get_app_settings-from_pico_config lock apps h =
    ap (lock_config_of (get_app_settings (record { lock_var = lock; app_vars = apps })))
      (find_or-flags (codes "lock_screen") apps h)
