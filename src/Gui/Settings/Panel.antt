-- ===== src/Gui/Settings/Panel.antt =====
-- `SettingsPanel` of pc/src/pywinhello/gui/settings/__init__.py: its sections, its status and its buttons.
-- `scroll` is the sections that are packed in the frame, and so shown: one whose constructor raises is
-- a child that nothing packs. What a callback of the window raises is only reported.
pub mod Rebuild
pub mod Clearing
use pywinhello.Gui.Connection.{Gui}
use pywinhello.Gui.I18n.{shown}
use pywinhello.Gui.NotepadTest.{device}
use pywinhello.Gui.Settings.Apps.{app_settings}
use pywinhello.Gui.Settings.Basic.{schedule_vars}
use pywinhello.Gui.Settings.Saving.{SaveOutcome, do_clear}
use pywinhello.Prelude.{
  Bool, List, Option, [], false, if◌then◌else◌, none, some, true, ℕ, ◌++◌, ◌+◌, ◌∷◌,
}
use pywinhello.Prelude.Exec.{Exec, lift, raise, ◌>>=◌, ◌>>◌}
use pywinhello.Prelude.Result.{attribute_error, ok}
use pywinhello.Prelude.Text.{codes}
use pywinhello.Prelude.Value.{Fields, Value, end, field, find_or, obj, str}
use pywinhello.Serial.Port.{Pyserial}

pub data SectionName : Type 0 where
  basic apps advanced log version : SectionName

pub data PanelStatus : Type 0 where
  status_loading : PanelStatus
  status_connected : Value → PanelStatus
  status_disconnected : PanelStatus

-- `wizard_calls` counts the calls of on_run_wizard, where there is one.
pub record SettingsPanel : Type 0 where
  pub config : Value
  pub sections_built : Bool
  pub status : PanelStatus
  pub scroll : List SectionName
  pub actions : ℕ
  pub action_status : Option SaveOutcome
  pub clear_dialog : Bool
  pub has_wizard : Bool
  pub wizard_calls : ℕ

-- __init__, before the configuration is there
unfoldable pub new_panel : Bool → SettingsPanel
new_panel has_wizard = record {
  config = obj end;
  sections_built = false;
  status = status_loading;
  scroll = [];
  actions = 0;
  action_status = none;
  clear_dialog = false;
  has_wizard = has_wizard;
  wizard_calls = 0;
}

abbrev modify : (SettingsPanel → SettingsPanel) → Exec SettingsPanel (Unit {0})
modify change p = (ok tt, change p)

-- The children of a former build go.
clear_built : SettingsPanel → SettingsPanel
clear_built p = if p.sections_built then record p { scroll = []; actions = 0 } else p

-- A section is packed when its constructor has returned.
add : SectionName → SettingsPanel → SettingsPanel
add name p = record p { scroll = p.scroll ++ (name ∷ []) }

pub status_of : Value → PanelStatus
status_of (obj (field k v fs)) =
    status_connected (find_or (codes "device_type") (str (codes "Pico")) (field k v fs))
status_of _ = status_disconnected

-- _build_actions: three buttons and a label
build_actions : SettingsPanel → SettingsPanel
build_actions p = record p { actions = p.actions + 4; action_status = none }

module _ (boolean_var : Value → Bool) where
  -- What follows the status, for a configuration that is a dict.
  build_from : Fields → Exec SettingsPanel (Unit {0})
  unfolding add build_actions
  build_from fs = do
    vars ← lift (schedule_vars fs)
    modify (add basic)
    rows ← lift (app_settings boolean_var fs)
    modify (add apps)
    modify (add advanced)
    modify (add log)
    modify (add version)
    modify build_actions
    modify (λ p. record p { sections_built = true })

  -- _build_sections: `config.get` of what is no dict raises.
  unfoldable pub build_sections : Value → Exec SettingsPanel (Unit {0})
  unfolding clear_built build_from
  build_sections (obj fs) = do
    modify (λ p. clear_built (record p { config = obj fs }))
    modify (λ p. record p { status = status_of (obj fs) })
    build_from fs
  build_sections v = do modify (λ p. clear_built (record p { config = v })); raise attribute_error

  -- The builds that follow the loads of these configurations.
  unfoldable pub loads : List Value → SettingsPanel → SettingsPanel
  loads [] p = p
  loads (config ∷ later) p = loads later (build_sections config p).1

-- update_connection_status
pub update_connection_status : Bool → Value → SettingsPanel → SettingsPanel
update_connection_status true device p = record p { status = status_connected device }
update_connection_status false device p = record p { status = status_disconnected }

-- _on_wizard_click
unfoldable pub on_wizard_click : SettingsPanel → SettingsPanel
on_wizard_click p = if p.has_wizard then record p { wizard_calls = p.wizard_calls + 1 } else p

-- _on_clear, and the two buttons of its dialog
pub on_clear : SettingsPanel → SettingsPanel
on_clear p = record p { clear_dialog = true }

pub cancel_clear : SettingsPanel → SettingsPanel
cancel_clear p = record p { clear_dialog = false }

unfoldable pub confirm_clear : (W : Pyserial) → SettingsPanel → Gui W → SettingsPanel × Gui W
unfolding on_wizard_click
confirm_clear W p g =
    let r = do_clear W g in
    let shown = record p { clear_dialog = false; action_status = some r.0 } in
    (if r.1 then on_wizard_click shown else shown, r.2)
