-- ===== src/Gui/Window.antt =====
-- `App` of pc/src/pywinhello/gui/app.py: which screen is shown. A handler that raises keeps what it
-- changed before; Tk reports the exception and goes on. Widgets are the data that is put in them.
pub mod LockDialog
pub mod Routing
pub mod Pin
pub mod Posts
use pywinhello.Gui.Connection
use pywinhello.Gui.Connection.{Gui, close, detect, get_config, get_status, set_config}
use pywinhello.Gui.I18n.{LocaleFiles, Locales, default_locale, detect_default_locale, set_locale}
use pywinhello.Prelude.{Bool, Option, [], false, if◌then◌else◌, none, some, true}
use pywinhello.Prelude.Result.{Result, err, ok}
use pywinhello.Prelude.Text.{Text, codes, text_eq}
use pywinhello.Prelude.Value.{Value, boolean, end, field, find_or, get_field, obj, str, truthy}
use pywinhello.Serial.Port.{Pyserial}

pub data AppState : Type 0 where
  disconnected wizard settings : AppState

-- wizard.collected_data, as `_show_wizard` fills it.
pub record WizardData : Type 0 where
  pub port : Option Text
  pub device_type : Value
  pub firmware_version : Value

-- The status bar of the settings panel: `none` until its configuration is loaded.
pub data View : Type 0 where
  connection_screen : View
  wizard_view : WizardData → View
  settings_panel : Option Bool → View

-- What `_check` posts to the main thread.
pub data Poll : Type 0 where
  absent : Poll
  present : Value → Poll

module _ (W : Pyserial) (F : LocaleFiles) where
  pub record App : Type 0 where
    pub pico : Gui W
    pub locales : Locales
    pub state : AppState
    pub current_view : Option View

  unfoldable pub show_disconnected : App → App
  show_disconnected a = record a { state = disconnected; current_view = some connection_screen }

  -- The view that `_show_wizard` packs; a status that is no dict raises before.
  wizard_of : Option Text → Value → Option View
  wizard_of port (obj status) = some (
      wizard_view (record {
        port = port;
        device_type = find_or (codes "type") (str (codes "Pico")) status;
        firmware_version = find_or (codes "fw") (str (codes "unknown")) status;
      }))
  wizard_of port _ = none

  unfoldable pub show_wizard : App → App
  unfolding wizard_of
  show_wizard a = record a {
    pico = (get_status W a.pico).1;
    state = wizard;
    current_view = wizard_of (Connection.port W a.pico.0) (get_status W a.pico).0;
  }

  unfoldable pub show_settings : App → App
  show_settings a = record a { state = settings; current_view = some (settings_panel none) }

  unfoldable pub on_wizard_complete : App → App
  on_wizard_complete = show_settings

  by_pin : Result Value → App → App
  by_pin (ok v) a = if truthy v then show_settings a else show_disconnected a
  by_pin (err e) a = a

  -- config.get("pin_set", False)
  abbrev pub pin_set : Value → Result Value
  pin_set config = get_field config (codes "pin_set") (boolean false)

  pub with_pico : App → Gui W → App
  with_pico a g = record a { pico = g }

  unfoldable pub on_wizard_cancel : App → App
  unfolding by_pin with_pico
  on_wizard_cancel a =
      let d = detect W a.pico in
      if d.0
      then by_pin (pin_set (get_config W d.1).0) (with_pico a (get_config W d.1).1)
      else show_disconnected (with_pico a d.1)

  -- A configuration that is no dict raises, and nothing is posted.
  post : Result Value → Option Poll
  post (ok v) = some (present v)
  post (err e) = none

  pub after_detect : Bool × Gui W → Option Poll × Gui W
  unfolding post
  after_detect (true, g) = (post (pin_set (get_config W g).0), (get_config W g).1)
  after_detect (false, g) = (some absent, g)

  unfoldable pub check : Gui W → Option Poll × Gui W
  unfolding after_detect
  check g = after_detect (detect W g)

  -- self._current_view.update_connection_status(True)
  online : Option View → Option View
  online (some (settings_panel status)) = some (settings_panel (some true))
  online v = v

  pub found : AppState → Bool → App → App
  unfolding online
  found disconnected has_pin a = if has_pin then show_settings a else show_wizard a
  found settings true a = record a { current_view = online a.current_view }
  found _ has_pin a = a

  pub lost : AppState → App → App
  lost disconnected a = a
  lost _ a = show_disconnected a

  unfoldable pub on_poll_result : Poll → App → App
  unfolding found lost
  on_poll_result absent a = lost a.state a
  on_poll_result (present has_pin) a = found a.state (truthy has_pin) a

  pub handle_post : Option Poll → App → App
  handle_post none a = a
  handle_post (some p) a = on_poll_result p a

  -- One poll, with its result handled.
  unfoldable pub poll : App → App
  unfolding handle_post with_pico
  poll a = handle_post (check a.pico).0 (with_pico a (check a.pico).1)

  refreshed : AppState → App → App
  refreshed disconnected a = show_disconnected a
  refreshed wizard a = a
  refreshed settings a = show_settings a

  -- "en" if current == "ja" else "ja"
  abbrev pub other_locale : Text → Text
  other_locale current = if text_eq current (codes "ja") then codes "en" else codes "ja"

  -- What follows a `set_locale` that returned: the Pico is told, and the screen is rebuilt.
  after_locale : Text → Result (Unit {0}) → Locales → App → App
  unfolding refreshed with_pico
  after_locale locale (err e) l a = record a { locales = l }
  after_locale locale (ok u) l a = refreshed a.state (
      with_pico (record a { locales = l })
        (set_config W (obj (field (codes "locale") (str locale) end)) a.pico).1)

  unfoldable pub toggle_language : App → App
  unfolding after_locale
  toggle_language a =
      let locale = other_locale a.locales.current_locale in
      let r = set_locale F locale a.locales in after_locale locale r.0 r.1 a

  unfoldable pub on_close : App → App
  unfolding with_pico
  on_close a = with_pico a (close W a.pico)

  -- The start of the window: the connection screen, before the first poll.
  unfoldable pub new_app : Result (Option Text) → W.State → Result App
  new_app system s =
      let r =
        set_locale F (detect_default_locale system)
          (record { cache = []; current_locale = default_locale }) in
      elim r.0 [
        | ok u ↦ ok (
            show_disconnected (record {
              pico = (none, s);
              locales = r.1;
              state = disconnected;
              current_view = none;
            }))
        | err e ↦ err e
      ]
