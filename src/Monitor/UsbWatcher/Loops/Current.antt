-- ===== src/Monitor/UsbWatcher/Loops/Current.antt =====
-- What the callbacks of pc/src/pywinhello/monitor/usb_watcher.py have last told.
use pywinhello.Monitor.UsbWatcher.{Notice, check_and_notify, connect, disconnect, present}
use pywinhello.Monitor.UsbWatcher.Alternation.{last_check}
use pywinhello.Monitor.UsbWatcher.Loops.{
  Look, Round, WmiEvent, WmiStart, check_then, device_event, import_error, is_timeout, look_raises,
  no_windows, on_error, pico_vid_hex, poll_rounds, saw, setup_failed, to_upper, watch_thread,
  watching, wmi_error, wmi_round, wmi_rounds,
}
use pywinhello.Prelude.{
  Bool, List, Option, [], ap, arith, false, if◌then◌else◌, inl, inr, none, refl, some, true, ◌++◌,
  ◌∙◌, ◌∷◌, ◌≡◌, ◌⊎◌,
}
use pywinhello.Prelude.Dict.{is_some}
use pywinhello.Prelude.Text.{Text, codes, contains, starts_with, to_lower}

-- Whether a Pico is reported after these notices.
abbrev pub told : Bool → List Notice → Bool
told before [] = before
told before (connect p ∷ later) = told true later
told before (disconnect ∷ later) = told false later

told-append : (b : Bool) (xs ys : List Notice) → told b (xs ++ ys) ≡ told (told b xs) ys
told-append b [] ys = refl
told-append b (connect p ∷ xs) ys = told-append true xs ys
told-append b (disconnect ∷ xs) ys = told-append false xs ys

check-told :
    (p last : Option Text)
    → told (is_some last) (check_and_notify p last).1 ≡ is_some (check_and_notify p last).0
unfolding check_and_notify
check-told none none = refl
check-told none (some q) = refl
check-told (some []) none = refl
check-told (some []) (some q) = refl
check-told (some (c ∷ s)) none = refl
check-told (some (c ∷ s)) (some q) = refl

-- From every state these notices end with this report.
abbrev Tells : (Option Text → List Notice) → Bool → Type 0
Tells rest b = (l : Option Text) → told (is_some l) (rest l) ≡ b

check_then-Tells :
    (p : Option Text) (rest : Option Text → List Notice) (b : Bool)
    → Tells rest b
    → Tells (check_then p rest) b
unfolding check_then
check_then-Tells p rest b h l =
    told-append (is_some l) (check_and_notify p l).1 (rest (check_and_notify p l).0)
    ∙ ap (λ r. told r (rest (check_and_notify p l).0)) (check-told p l)
    ∙ h (check_and_notify p l).0

-- A last check tells what it saw.
check_last-Tells : (p : Option Text) → Tells (check_then p (λ l. [])) (present p)
unfolding check_then
check_last-Tells p l =
    told-append (is_some l) (check_and_notify p l).1 [] ∙ check-told p l ∙ last_check p l

on_error-Tells :
    (text : Text) (again : Look) (rest polling : Option Text → List Notice) (b : Bool)
    → Tells rest b
    → Tells polling b
    → Tells (on_error text again rest polling) b
unfolding on_error
on_error-Tells text (saw p) rest polling b h k l =
    elim (is_timeout text)
      as (λ t. told (is_some l) (if t then check_then p rest l else rest l) ≡ b) [
        | true ↦ check_then-Tells p rest b h l
        | false ↦ h l
      ]
on_error-Tells text (look_raises t) rest polling b h k l =
    elim (is_timeout text) as (λ t. told (is_some l) (if t then polling l else rest l) ≡ b) [
      | true ↦ k l
      | false ↦ h l
    ]

wmi_round-Tells :
    (event : WmiEvent) (p : Option Text) (again : Look) (rest polling : Option Text → List Notice)
    (b : Bool)
    → Tells rest b
    → Tells polling b
    → Tells (wmi_round event (saw p) again rest polling) b
unfolding wmi_round
wmi_round-Tells (wmi_error text) p again rest polling b h k l =
    on_error-Tells text again rest polling b h k l
wmi_round-Tells (device_event id) p again rest polling b h k l =
    elim (contains pico_vid_hex (to_upper id))
      as (λ t. told (is_some l) (if t then check_then p rest l else rest l) ≡ b) [
        | true ↦ check_then-Tells p rest b h l
        | false ↦ h l
      ]

starts-append : (part post : Text) → starts_with (part ++ post) part ≡ true
unfolding starts_with
starts-append [] post = refl
starts-append (c ∷ part) post = ground (arith, starts-append part post)

contains-first : (part s : Text) → starts_with s part ≡ true → contains part s ≡ true
unfolding contains
contains-first part [] h = h
contains-first part (c ∷ s) h = ground (arith, h)

contains-append : (part pre post : Text) → contains part (pre ++ (part ++ post)) ≡ true
unfolding contains
contains-append part [] post = contains-first part (part ++ post) (starts-append part post)
contains-append part (c ∷ pre) post = ground (arith, contains-append part pre post)

-- The text has this part.
abbrev pub HasPart : Text → Text → Type 0
HasPart part s = (pre : Text) × (post : Text) × (s ≡ pre ++ (part ++ post))

HasPart-contains : (part s : Text) → HasPart part s → contains part s ≡ true
HasPart-contains part s (pre, post, e) = ap (contains part) e ∙ contains-append part pre post

-- An event of a device of the Pico's vendor, or the end of a wait by its time.
abbrev pub Wakes : WmiEvent → Type 0
Wakes (device_event id) = HasPart (codes "VID_239A") (to_upper id)
Wakes (wmi_error text) =
    HasPart (codes "timed out") (to_lower text) ⊎ HasPart (codes "x_wmi_timed_out") (to_lower text)

timeout-Wakes : (text : Text) → Wakes (wmi_error text) → is_timeout text ≡ true
unfolding is_timeout
timeout-Wakes text (inl h) = ground (arith, HasPart-contains (codes "timed out") (to_lower text) h)
timeout-Wakes text (inr h) =
    ground (arith, HasPart-contains (codes "x_wmi_timed_out") (to_lower text) h)

woken-Tells :
    (event : WmiEvent) (p : Option Text)
    → Wakes event
    → Tells (wmi_round event (saw p) (saw p) (λ l. []) (λ l. [])) (present p)
unfolding wmi_round on_error pico_vid_hex
woken-Tells (wmi_error text) p h l = rw (timeout-Wakes text h) (check_last-Tells p l)
woken-Tells (device_event id) p h l =
    rw (HasPart-contains (codes "VID_239A") (to_upper id) h) (check_last-Tells p l)

-- The check of each round sees something; the one in its handler may raise.
abbrev pub AllSee : List Round → Type 0
AllSee [] = Unit
AllSee (r ∷ rounds) = ((p : Option Text) × (r.seen ≡ saw p)) × AllSee rounds

-- A round in which each check sees this.
abbrev pub sees : WmiEvent → Option Text → Round
sees event p = record { event = event; seen = saw p; again = saw p }

poll_rounds-Tells :
    (rounds : List Round) (event : WmiEvent) (p : Option Text)
    → AllSee rounds
    → Tells (poll_rounds (rounds ++ (sees event p ∷ []))) (present p)
unfolding poll_rounds
poll_rounds-Tells [] event p h l = check_last-Tells p l
poll_rounds-Tells (r ∷ rounds) event p ((q, e), h) l = rw e (
    check_then-Tells q (poll_rounds (rounds ++ (sees event p ∷ []))) (present p)
      (poll_rounds-Tells rounds event p h) l)

wmi_rounds-Tells :
    (rounds : List Round) (event : WmiEvent) (p : Option Text)
    → AllSee rounds
    → Wakes event
    → Tells (wmi_rounds (rounds ++ (sees event p ∷ []))) (present p)
unfolding wmi_rounds poll_rounds
wmi_rounds-Tells [] event p h w l = woken-Tells event p w l
wmi_rounds-Tells (r ∷ rounds) event p ((q, e), h) w l = rw e (
    wmi_round-Tells r.event q r.again (wmi_rounds (rounds ++ (sees event p ∷ [])))
      (poll_rounds (rounds ++ (sees event p ∷ []))) (present p)
      (wmi_rounds-Tells rounds event p h w) (poll_rounds-Tells rounds event p h) l)

-- In every form of the loop, where the first check and the checks of the rounds before see something: after a
-- last round in which WMI reports a device with the Pico's vendor id, in letters of either case,
-- or the wait has timed out, and whose check sees something, the callbacks have last told whether
-- that check saw a Pico, whatever other events came before.
pub watch_thread-current :
    (start : WmiStart) (first : Option Text) (rounds : List Round) (event : WmiEvent)
    (p last : Option Text)
    → AllSee rounds
    → Wakes event
    → told (is_some last) (watch_thread start (saw first) (rounds ++ (sees event p ∷ [])) last)
      ≡ present p
unfolding watch_thread
watch_thread-current watching first rounds event p last h w =
    check_then-Tells first (wmi_rounds (rounds ++ (sees event p ∷ []))) (present p)
      (wmi_rounds-Tells rounds event p h w) last
watch_thread-current no_windows first rounds event p last h w =
    check_then-Tells first (poll_rounds (rounds ++ (sees event p ∷ []))) (present p)
      (poll_rounds-Tells rounds event p h) last
watch_thread-current import_error first rounds event p last h w =
    check_then-Tells first (poll_rounds (rounds ++ (sees event p ∷ []))) (present p)
      (poll_rounds-Tells rounds event p h) last
watch_thread-current setup_failed first rounds event p last h w =
    check_then-Tells first (poll_rounds (rounds ++ (sees event p ∷ []))) (present p)
      (poll_rounds-Tells rounds event p h) last
