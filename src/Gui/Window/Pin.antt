-- ===== src/Gui/Window/Pin.antt =====
-- The settings are reached through `pin_set` of the Pico's configuration or through the end of the
-- wizard: `App` of pc/src/pywinhello/gui/app.py.
use pywinhello.Gui.Connection.{Gui, detect, get_config}
use pywinhello.Gui.I18n.{LocaleFiles, Locales}
use pywinhello.Gui.Window.{
  App, AppState, Poll, absent, after_detect, after_locale, by_pin, check, disconnected, found,
  handle_post, lost, on_close, on_poll_result, on_wizard_cancel, pin_set, poll, post, present,
  refreshed, settings, show_disconnected, show_settings, show_wizard, toggle_language, with_pico,
  wizard,
}
use pywinhello.Gui.Window.Routing.{
  Event, closed, handle, language_toggled, polled, session, wizard_asked, wizard_cancelled,
  wizard_completed,
}
use pywinhello.Prelude.{
  Bool, Bool-cases, List, Option, [], false, inl, inr, none, refl, some, true, ◌∷◌, ◌≡◌, ◌≢◌,
}
use pywinhello.Prelude.Result.{Result, err, ok}
use pywinhello.Prelude.Text.{Text}
use pywinhello.Prelude.Value.{Value, truthy}
use pywinhello.Serial.Port.{Pyserial}

-- The wizard is never completed.
abbrev pub Unfinished : List Event → Type 0
Unfinished [] = Unit
Unfinished (e ∷ es) = (e ≢ wizard_completed) × Unfinished es

module _ (W : Pyserial) (F : LocaleFiles) where
  -- No configuration that the Pico answers says that a PIN is set.
  abbrev pub NeverSet : Type 0
  NeverSet = (g : Gui W) (v : Value) → pin_set W F (get_config W g).0 ≡ ok v → truthy v ≡ false

  by_pin-state :
      (r : Result Value) (a : App W F)
      → ((v : Value) → r ≡ ok v → truthy v ≡ false)
      → a.state ≢ settings
      → (by_pin W F r a).state ≢ settings
  unfolding by_pin show_settings show_disconnected
  by_pin-state (ok v) a n h = rw (n v refl) (λ e. cc)
  by_pin-state (err e) a n h = h

  pub lost-state :
      (s : AppState) (a : App W F) → a.state ≢ settings → (lost W F s a).state ≢ settings
  unfolding lost show_disconnected
  lost-state disconnected a h = h
  lost-state wizard a h = λ e. cc
  lost-state settings a h = λ e. cc

  pub found-state :
      (s : AppState) (a : App W F) → a.state ≢ settings → (found W F s false a).state ≢ settings
  unfolding found show_wizard
  found-state disconnected a h = λ e. cc
  found-state wizard a h = h
  found-state settings a h = h

  post-false :
      (r : Result Value)
      → ((v : Value) → r ≡ ok v → truthy v ≡ false)
      → (v : Value) → post W F r ≡ some (present v)
      → truthy v ≡ false
  unfolding post
  post-false (ok w) n v e = n v cc
  post-false (err c) n v e = cc

  module _ (N : NeverSet) where
    pub after_detect-false :
        (d : Bool × Gui W) (v : Value)
        → (after_detect W F d).0 ≡ some (present v)
        → truthy v ≡ false
    unfolding after_detect
    after_detect-false (true, g) v e = post-false (pin_set W F (get_config W g).0) (N g) v e
    after_detect-false (false, g) v e = cc

    handle_post-state :
        (p : Option Poll) (a : App W F)
        → ((v : Value) → p ≡ some (present v) → truthy v ≡ false)
        → a.state ≢ settings
        → (handle_post W F p a).state ≢ settings
    unfolding handle_post on_poll_result
    handle_post-state none a n h = h
    handle_post-state (some absent) a n h = lost-state a.state a h
    handle_post-state (some (present v)) a n h = rw (n v refl) (found-state a.state a h)

    refreshed-state :
        (s : AppState) (a : App W F)
        → s ≢ settings
        → a.state ≢ settings
        → (refreshed W F s a).state ≢ settings
    unfolding refreshed show_disconnected
    refreshed-state disconnected a n h = λ e. cc
    refreshed-state wizard a n h = h
    refreshed-state settings a n h = absurd (n refl)

    after_locale-state :
        (locale : Text) (r : Result (Unit {0})) (l : Locales) (a : App W F)
        → a.state ≢ settings
        → (after_locale W F locale r l a).state ≢ settings
    unfolding after_locale with_pico
    after_locale-state locale (err e) l a h = h
    after_locale-state locale (ok u) l a h = refreshed-state a.state _ h h

    cancel-state : (a : App W F) → a.state ≢ settings → (on_wizard_cancel W F a).state ≢ settings
    unfolding on_wizard_cancel with_pico show_disconnected
    cancel-state a h = elim (Bool-cases (detect W a.pico).0) [
      | inl e ↦ rw e (by_pin-state _ _ (N (detect W a.pico).1) h)
      | inr e ↦ rw e (λ k. cc)
    ]

    pub handle-state :
        (e : Event) (a : App W F)
        → e ≢ wizard_completed
        → a.state ≢ settings
        → (handle W F e a).state ≢ settings
    unfolding poll with_pico check toggle_language on_close show_wizard
    handle-state polled a n h = handle_post-state _ _ (after_detect-false (detect W a.pico)) h
    handle-state wizard_completed a n h = absurd (n refl)
    handle-state wizard_cancelled a n h = cancel-state a h
    handle-state wizard_asked a n h = λ e. cc
    handle-state language_toggled a n h = after_locale-state _ _ _ a h
    handle-state closed a n h = h

    session_state :
        (es : List Event) (a : App W F)
        → Unfinished es
        → a.state ≢ settings
        → (session W F es a).state ≢ settings
    session_state [] a u h = h
    session_state (e ∷ es) a (n, u) h = session_state es (handle W F e a) u (handle-state e a n h)

  -- If the Pico never answers a configuration with a true pin_set, then without the end of the
  -- wizard no sequence of polls and clicks ever reaches the settings.
  pub session_without_pin :
      (es : List Event) (a : App W F)
      → NeverSet
      → Unfinished es
      → a.state ≢ settings
      → (session W F es a).state ≢ settings
  session_without_pin es a N u h = session_state N es a u h
