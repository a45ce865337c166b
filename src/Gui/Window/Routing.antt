-- ===== src/Gui/Window/Routing.antt =====
-- Which screen the window shows: `App` of pc/src/pywinhello/gui/app.py.
use pywinhello.Gui.Connection.{Gui, detect, get_config}
use pywinhello.Gui.Connection.Commands.{Detected, detect-Detected}
use pywinhello.Gui.I18n.{LocaleFiles, Locales}
use pywinhello.Gui.Window.{
  App, AppState, Poll, View, absent, after_detect, after_locale, by_pin, check, connection_screen,
  disconnected, found, handle_post, lost, on_close, on_poll_result, on_wizard_cancel,
  on_wizard_complete, online, pin_set, poll, post, present, refreshed, settings, settings_panel,
  show_disconnected, show_settings, show_wizard, toggle_language, with_pico, wizard, wizard_of,
  wizard_view,
}
use pywinhello.Prelude.{
  Bool, Bool-cases, List, Option, [], ap, false, if◌then◌else◌, inl, inr, none, refl, some, true,
  ◌∙◌, ◌∷◌, ◌≡◌,
}
use pywinhello.Prelude.Result.{Result, err, ok}
use pywinhello.Prelude.Text.{Text}
use pywinhello.Prelude.Value.{Value, arr, boolean, float, int, null, obj, str, truthy}
use pywinhello.Serial.Port.{Pyserial}

-- The screen that the head of the file names for what a poll finds.
abbrev pub documented : Poll → AppState
documented absent = disconnected
documented (present has_pin) = if truthy has_pin then settings else wizard

-- The view is the one of the state; none is shown where `_show_wizard` raised.
abbrev pub Shows : AppState → Option View → Type 0
Shows s none = s ≡ wizard
Shows s (some connection_screen) = s ≡ disconnected
Shows s (some (wizard_view d)) = s ≡ wizard
Shows s (some (settings_panel o)) = s ≡ settings

pub data Event : Type 0 where
  polled wizard_completed wizard_cancelled wizard_asked language_toggled closed : Event

module _ (W : Pyserial) (F : LocaleFiles) where
  abbrev pub IsShown : App W F → Type 0
  IsShown a = Shows a.state a.current_view

  abbrev pub handle : Event → App W F → App W F
  handle polled = poll W F
  handle wizard_completed = on_wizard_complete W F
  handle wizard_cancelled = on_wizard_cancel W F
  handle wizard_asked = show_wizard W F
  handle language_toggled = toggle_language W F
  handle closed = on_close W F

  abbrev pub session : List Event → App W F → App W F
  session [] a = a
  session (e ∷ es) a = session es (handle e a)

  wizard_of-Shows : (p : Option Text) (v : Value) → Shows wizard (wizard_of W F p v)
  unfolding wizard_of
  wizard_of-Shows p null = refl
  wizard_of-Shows p (boolean b) = refl
  wizard_of-Shows p (int n) = refl
  wizard_of-Shows p (float m k) = refl
  wizard_of-Shows p (str s) = refl
  wizard_of-Shows p (arr vs) = refl
  wizard_of-Shows p (obj fs) = refl

  show_wizard-IsShown : (a : App W F) → IsShown (show_wizard W F a)
  unfolding show_wizard
  show_wizard-IsShown a = wizard_of-Shows _ _

  by_pin-IsShown : (r : Result Value) (a : App W F) → IsShown a → IsShown (by_pin W F r a)
  unfolding by_pin show_settings show_disconnected
  by_pin-IsShown (ok v) a h = elim (Bool-cases (truthy v)) [ inl e ↦ rw e | inr e ↦ rw e ]
  by_pin-IsShown (err e) a h = h

  cancel-IsShown : (a : App W F) → IsShown a → IsShown (on_wizard_cancel W F a)
  unfolding on_wizard_cancel with_pico show_disconnected
  cancel-IsShown a h = elim (Bool-cases (detect W a.pico).0) [
    | inl e ↦ rw e (by_pin-IsShown _ _ h)
    | inr e ↦ rw e
  ]

  online-Shows : (s : AppState) (v : Option View) → Shows s v → Shows s (online W F v)
  unfolding online
  online-Shows s none h = h
  online-Shows s (some connection_screen) h = h
  online-Shows s (some (wizard_view d)) h = h
  online-Shows s (some (settings_panel o)) h = h

  found-IsShown : (s : AppState) (b : Bool) (a : App W F) → IsShown a → IsShown (found W F s b a)
  unfolding found show_settings
  found-IsShown disconnected true a h = refl
  found-IsShown disconnected false a h = show_wizard-IsShown a
  found-IsShown wizard b a h = h
  found-IsShown settings true a h = online-Shows a.state a.current_view h
  found-IsShown settings false a h = h

  lost-IsShown : (s : AppState) (a : App W F) → IsShown a → IsShown (lost W F s a)
  unfolding lost show_disconnected
  lost-IsShown disconnected a h = h
  lost-IsShown wizard a h = refl
  lost-IsShown settings a h = refl

  pub handle_post-IsShown :
      (p : Option Poll) (a : App W F) → IsShown a → IsShown (handle_post W F p a)
  unfolding handle_post on_poll_result
  handle_post-IsShown none a h = h
  handle_post-IsShown (some absent) a h = lost-IsShown a.state a h
  handle_post-IsShown (some (present v)) a h = found-IsShown a.state (truthy v) a h

  refreshed-IsShown : (s : AppState) (a : App W F) → IsShown a → IsShown (refreshed W F s a)
  unfolding refreshed show_disconnected show_settings
  refreshed-IsShown disconnected a h = refl
  refreshed-IsShown wizard a h = h
  refreshed-IsShown settings a h = refl

  after_locale-IsShown :
      (locale : Text) (r : Result (Unit {0})) (l : Locales) (a : App W F)
      → IsShown a
      → IsShown (after_locale W F locale r l a)
  unfolding after_locale with_pico
  after_locale-IsShown locale (err e) l a h = h
  after_locale-IsShown locale (ok u) l a h = refreshed-IsShown a.state _ h

  pub handle-IsShown : (e : Event) (a : App W F) → IsShown a → IsShown (handle e a)
  unfolding poll with_pico on_wizard_complete show_settings toggle_language on_close
  handle-IsShown polled a h = handle_post-IsShown _ _ h
  handle-IsShown wizard_completed a h = refl
  handle-IsShown wizard_cancelled a h = cancel-IsShown a h
  handle-IsShown wizard_asked a h = show_wizard-IsShown a
  handle-IsShown language_toggled a h = after_locale-IsShown _ _ _ a h
  handle-IsShown closed a h = h

  -- Through any sequence of polls and clicks the view on the screen is the one of the state; only
  -- in the wizard state there may be none.
  pub session-IsShown : (es : List Event) (a : App W F) → IsShown a → IsShown (session es a)
  session-IsShown [] a h = h
  session-IsShown (e ∷ es) a h = session-IsShown es (handle e a) (handle-IsShown e a h)

  -- What a poll from the connection screen leads to: the documented screen, and no device is
  -- held where none was found.
  abbrev pub Routed : Option Poll → App W F → Type 0
  Routed none b = b.state ≡ disconnected
  Routed (some absent) b = (b.state ≡ disconnected) × (b.pico.0 ≡ none)
  Routed (some (present v)) b = b.state ≡ documented (present v)

  found-documented :
      (s : AppState) (has_pin : Bool) (a : App W F)
      → s ≡ disconnected
      → (found W F s has_pin a).state ≡ (if has_pin then settings else wizard)
  unfolding found show_settings show_wizard
  found-documented disconnected true a h = refl
  found-documented disconnected false a h = refl
  found-documented wizard b a h = cc
  found-documented settings b a h = cc

  lost-disconnected :
      (s : AppState) (a : App W F)
      → a.state ≡ s
      → ((lost W F s a).state ≡ disconnected) × ((lost W F s a).pico ≡ a.pico)
  unfolding lost show_disconnected
  lost-disconnected disconnected a h = (h, refl)
  lost-disconnected wizard a h = (refl, refl)
  lost-disconnected settings a h = (refl, refl)

  handle_post-Routed :
      (p : Option Poll) (a : App W F)
      → a.state ≡ disconnected
      → (p ≡ some absent → a.pico.0 ≡ none)
      → Routed p (handle_post W F p a)
  unfolding handle_post on_poll_result
  handle_post-Routed none a h k = h
  handle_post-Routed (some absent) a h k =
      let (e, p) = lost-disconnected a.state a refl in (e, ap (λ g. g.0) p ∙ k refl)
  handle_post-Routed (some (present v)) a h k = found-documented a.state (truthy v) a h

  post-present : (r : Result Value) → post W F r ≡ some absent → ⊥
  unfolding post
  post-present (ok v) h = cc
  post-present (err e) h = cc

  after_detect-absent :
      (d : Bool × Gui W)
      → Detected W d
      → (after_detect W F d).0 ≡ some absent
      → (after_detect W F d).1.0 ≡ none
  unfolding after_detect
  after_detect-absent (true, g) e h = absurd (post-present (pin_set W F (get_config W g).0) h)
  after_detect-absent (false, g) e h = e

  -- A poll from the connection screen leads to the connection screen again where no Pico was found, and then no
  -- device is held; to the settings where the configuration that was read has a true pin_set; and
  -- otherwise to the wizard.
  poll-Routed : (a : App W F) → a.state ≡ disconnected → Routed (check W F a.pico).0 (poll W F a)
  unfolding poll with_pico check
  poll-Routed a h =
      handle_post-Routed (check W F a.pico).0 _ h (after_detect-absent _ (detect-Detected W a.pico))
