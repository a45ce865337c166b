-- ===== src/Gui/Window/Posts.antt =====
-- The results of polls as they wait for the main thread: `_do_poll` of pc/src/pywinhello/gui/app.py. A poll's
-- thread looks for the Pico in one step and posts what it found; the main thread handles a post in
-- another, and clicks in between.
use pywinhello.Gui.Connection.{detect}
use pywinhello.Gui.I18n.{LocaleFiles}
use pywinhello.Gui.Window.{
  App, Poll, absent, check, handle_post, on_poll_result, poll, present, settings, with_pico,
}
use pywinhello.Gui.Window.Pin.{NeverSet, after_detect-false, found-state, handle-state, lost-state}
use pywinhello.Gui.Window.Routing.{
  Event, IsShown, handle, handle-IsShown, handle_post-IsShown, polled, wizard_completed,
}
use pywinhello.Prelude.{List, Option, [], false, none, refl, some, ◌++◌, ◌∷◌, ◌≡◌, ◌≢◌}
use pywinhello.Prelude.Value.{Value, truthy}
use pywinhello.Serial.Port.{Pyserial}

module _ (W : Pyserial) (F : LocaleFiles) where
  abbrev pub Queued : Type 0
  Queued = App W F × List Poll

  -- What the thread of a poll posts.
  pub posted : Option Poll → List Poll
  posted none = []
  posted (some p) = p ∷ []

  -- `after` keeps the order in which it was called.
  pub data Step (allowed : Event → Type 0) : Queued → Queued → Type 0 where
    checked :
        (a : App W F) (q : List Poll)
        → Step allowed
            (a, q)
            (with_pico W F a (check W F a.pico).1, q ++ posted (check W F a.pico).0)
    handled :
        (a : App W F) (p : Poll) (q : List Poll)
        → Step allowed (a, p ∷ q) (on_poll_result W F p a, q)
    clicked :
        (e : Event) (a : App W F) (q : List Poll)
        → e ≢ polled
        → allowed e
        → Step allowed (a, q) (handle W F e a, q)

  pub data Reach (allowed : Event → Type 0) (s : Queued) : Queued → Type 0 where
    here : Reach allowed s s
    onward : {t u : Queued} → Reach allowed s t → Step allowed t u → Reach allowed s u

  step-IsShown :
      {allowed : Event → Type 0} {t u : Queued}
      → Step allowed t u
      → IsShown W F t.0
      → IsShown W F u.0
  unfolding with_pico on_poll_result handle_post
  step-IsShown (checked a q) h = h
  step-IsShown (handled a p q) h = handle_post-IsShown W F (some p) a h
  step-IsShown (clicked e a q n k) h = handle-IsShown W F e a h

  -- In whatever order threads post, results are handled and buttons are clicked, the view on the screen is the
  -- one of the state; only in the wizard state there may be none.
  pub Reach-IsShown :
      {allowed : Event → Type 0} {s t : Queued}
      → Reach allowed s t
      → IsShown W F s.0
      → IsShown W F t.0
  Reach-IsShown here h = h
  Reach-IsShown (onward r k) h = step-IsShown k (Reach-IsShown r h)

  post-Reach :
      (allowed : Event → Type 0) (s : Queued) (p : Option Poll) (b : App W F)
      → Reach allowed s (b, posted p)
      → Reach allowed s (handle_post W F p b, [])
  unfolding handle_post posted
  post-Reach allowed s none b r = r
  post-Reach allowed s (some p) b r = onward r (handled b p [])

  -- A poll whose result is handled at once is one of these orders.
  pub poll-Reach : (allowed : Event → Type 0) (a : App W F) → Reach allowed (a, []) (poll W F a, [])
  unfolding poll
  poll-Reach allowed a =
      post-Reach allowed (a, []) (check W F a.pico).0 (with_pico W F a (check W F a.pico).1)
        (onward here (checked a []))

  -- No post says that a PIN is set.
  abbrev NoPin : List Poll → Type 0
  NoPin [] = Unit
  NoPin (absent ∷ q) = NoPin q
  NoPin (present v ∷ q) = (truthy v ≡ false) × NoPin q

  NoPin-append : (q r : List Poll) → NoPin q → NoPin r → NoPin (q ++ r)
  NoPin-append [] r h k = k
  NoPin-append (absent ∷ q) r h k = NoPin-append q r h k
  NoPin-append (present v ∷ q) r (n, h) k = (n, NoPin-append q r h k)

  posted-NoPin :
      (p : Option Poll) → ((v : Value) → p ≡ some (present v) → truthy v ≡ false) → NoPin (posted p)
  unfolding posted
  posted-NoPin none h = tt
  posted-NoPin (some absent) h = tt
  posted-NoPin (some (present v)) h = (h v refl, tt)

  module _ (N : NeverSet W F) where
    step-state :
        {t u : Queued}
        → Step (λ e. e ≢ wizard_completed) t u
        → NoPin t.1 × (t.0.state ≢ settings)
        → NoPin u.1 × (u.0.state ≢ settings)
    unfolding with_pico check on_poll_result
    step-state (checked a q) (h, n) = (
      NoPin-append q (posted (check W F a.pico).0) h
          (posted-NoPin (check W F a.pico).0 (after_detect-false W F N (detect W a.pico))),
      n,
    )
    step-state (handled a absent q) (h, n) = (h, lost-state W F a.state a n)
    step-state (handled a (present v) q) ((p, h), n) = (h, rw (p) (found-state W F a.state a n))
    step-state (clicked e a q n k) (h, m) = (h, handle-state W F N e a k m)

    Reach-state :
        {s t : Queued}
        → Reach (λ e. e ≢ wizard_completed) s t
        → NoPin s.1 × (s.0.state ≢ settings)
        → NoPin t.1 × (t.0.state ≢ settings)
    Reach-state here h = h
    Reach-state (onward r k) h = step-state k (Reach-state r h)

  -- If the Pico never answers a configuration with a true pin_set, then without the end of the wizard no order of
  -- posts, handled results and clicks reaches the settings.
  pub Reach-without_pin :
      (a : App W F) (t : Queued)
      → NeverSet W F
      → a.state ≢ settings
      → Reach (λ e. e ≢ wizard_completed) (a, []) t
      → t.0.state ≢ settings
  Reach-without_pin a t N h r = (Reach-state N r (tt, h)).1
