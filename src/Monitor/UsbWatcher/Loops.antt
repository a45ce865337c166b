-- ===== src/Monitor/UsbWatcher/Loops.antt =====
-- The two forms of the watch loop of pc/src/pywinhello/monitor/usb_watcher.py. WMI is a parameter: whether it can be set up,
-- and how each wait for an event ends.
pub mod Current
use pywinhello.Gui.Window.Posts.{checked}
use pywinhello.Models.{pico_vid}
use pywinhello.Monitor.UsbWatcher.{Notice, check_and_notify, watch}
use pywinhello.Monitor.UsbWatcher.Alternation.{Alternates, check-Alternates, watch-Alternates}
use pywinhello.Prelude.{
  Bool, List, Option, [], ap, arith, false, if◌then◌else◌, leb, ltb, map, refl, subst, sym, true, ℕ,
  ◌%◌, ◌&&◌, ◌++◌, ◌+◌, ◌-◌, ◌/◌, ◌||◌, ◌∷◌, ◌≡◌,
}
use pywinhello.Prelude.Dict.{is_some}
use pywinhello.Prelude.Text.{Text, codes, contains, to_lower}

-- How `watcher(timeout_ms=…)` ends: an event of a device, or an error with its text.
pub data WmiEvent : Type 0 where
  device_event : Text → WmiEvent
  wmi_error : Text → WmiEvent

-- A look for the port: what `check_now` answers, or the text of what it raises.
pub data Look : Type 0 where
  saw : Option Text → Look
  look_raises : Text → Look

-- A round of a loop: the event, where WMI is used, what its check would see, and what the check in the
-- handler of the round would see.
pub record Round : Type 0 where
  pub event : WmiEvent
  pub seen : Look
  pub again : Look

-- s.upper(), of ASCII letters
unfoldable pub to_upper : Text → Text
to_upper = map (λ c. if leb b'a' c && leb c b'z' then c - 32 else c)

-- A digit of a number in hexadecimal
hex_digit : ℕ → ℕ
hex_digit d = if ltb d 10 then b'0' + d else b'A' + (d - 10)

-- _PICO_VID_HEX
pub pico_vid_hex : Text
unfolding hex_digit
pico_vid_hex =
    codes "VID_"
    ++ (hex_digit (pico_vid / 4096 % 16)
        ∷ hex_digit (pico_vid / 256 % 16)
        ∷ hex_digit (pico_vid / 16 % 16)
        ∷ hex_digit (pico_vid % 16)
        ∷ [])

pub data WmiStart : Type 0 where
  no_windows import_error setup_failed watching : WmiStart

-- Whether the handler of a round takes the text of an exception for a time-out.
pub is_timeout : Text → Bool
is_timeout text =
    contains (codes "timed out") (to_lower text)
    || contains (codes "x_wmi_timed_out") (to_lower text)

-- _check_and_notify, and then what is left of the loop
pub check_then : Option Text → (Option Text → List Notice) → Option Text → List Notice
check_then current rest last =
    let checked = check_and_notify current last in checked.1 ++ rest checked.0

-- The handler of a round: a check that raises in it ends the loop, and polling goes on.
pub on_error :
    Text
    → Look
    → (Option Text → List Notice)
    → (Option Text → List Notice)
    → Option Text
    → List Notice
unfolding is_timeout check_then
on_error text again rest polling last =
    if is_timeout text
    then elim again [ saw p ↦ check_then p rest last | look_raises t ↦ polling last ]
    else rest last

-- A round of the `while` of _wmi_watch_inner
pub wmi_round :
    WmiEvent
    → Look
    → Look
    → (Option Text → List Notice)
    → (Option Text → List Notice)
    → Option Text
    → List Notice
unfolding on_error check_then
wmi_round (wmi_error text) seen again rest polling last = on_error text again rest polling last
wmi_round (device_event id) seen again rest polling last =
    if contains pico_vid_hex (to_upper id)
    then elim seen [
      | saw p ↦ check_then p rest last
      | look_raises t ↦ on_error t again rest polling last
    ]
    else rest last

-- The loop of _poll_watch_loop, by its checks; one that raises ends the thread.
pub poll_rounds : List Round → Option Text → List Notice
unfolding check_then
poll_rounds [] last = []
poll_rounds (r ∷ later) last = elim r.seen [
  | saw p ↦ check_then p (poll_rounds later) last
  | look_raises t ↦ []
]

-- The `while` of _wmi_watch_inner, over the rounds before the stop event is set.
pub wmi_rounds : List Round → Option Text → List Notice
unfolding wmi_round
wmi_rounds [] last = []
wmi_rounds (r ∷ later) last =
    wmi_round r.event r.seen r.again (wmi_rounds later) (poll_rounds later) last

-- The loop of the thread, with its first check: WMI, or polling where it is not there or cannot be set up. A
-- first check that raises ends the WMI loop, and polling goes on.
pub watch_thread : WmiStart → Look → List Round → Option Text → List Notice
unfolding wmi_rounds poll_rounds check_then
watch_thread watching (saw p) rounds last = check_then p (wmi_rounds rounds) last
watch_thread watching (look_raises t) rounds last = poll_rounds rounds last
watch_thread _ (saw p) rounds last = check_then p (poll_rounds rounds) last
watch_thread _ (look_raises t) rounds last = []

check_then-Alternates :
    (p : Option Text) (rest : Option Text → List Notice) (last : Option Text)
    → ((l : Option Text) → Alternates (is_some l) (rest l))
    → Alternates (is_some last) (check_then p rest last)
unfolding check_then
check_then-Alternates p rest last h =
    check-Alternates p last (rest (check_and_notify p last).0) (h (check_and_notify p last).0)

on_error-Alternates :
    (text : Text) (again : Look) (rest polling : Option Text → List Notice) (last : Option Text)
    → ((l : Option Text) → Alternates (is_some l) (rest l))
    → ((l : Option Text) → Alternates (is_some l) (polling l))
    → Alternates (is_some last) (on_error text again rest polling last)
unfolding on_error
on_error-Alternates text (saw p) rest polling last h k =
    elim (is_timeout text)
      as (λ b. Alternates (is_some last) (if b then check_then p rest last else rest last)) [
        | true ↦ check_then-Alternates p rest last h
        | false ↦ h last
      ]
on_error-Alternates text (look_raises t) rest polling last h k =
    elim (is_timeout text)
      as (λ b. Alternates (is_some last) (if b then polling last else rest last)) [
        | true ↦ k last
        | false ↦ h last
      ]

poll_rounds-Alternates :
    (rounds : List Round) (last : Option Text) → Alternates (is_some last) (poll_rounds rounds last)
unfolding poll_rounds
poll_rounds-Alternates [] last = tt
poll_rounds-Alternates (r ∷ later) last =
    elim r.seen
      as (λ o. Alternates (is_some last) (elim o as (λ _. List Notice) [
        | saw p ↦ check_then p (poll_rounds later) last
        | look_raises t ↦ []
      ])) [
        | saw p ↦ check_then-Alternates p (poll_rounds later) last (poll_rounds-Alternates later)
        | look_raises t ↦ tt
      ]

wmi_round-Alternates :
    (event : WmiEvent) (seen again : Look) (rest polling : Option Text → List Notice)
    (last : Option Text)
    → ((l : Option Text) → Alternates (is_some l) (rest l))
    → ((l : Option Text) → Alternates (is_some l) (polling l))
    → Alternates (is_some last) (wmi_round event seen again rest polling last)
unfolding wmi_round
wmi_round-Alternates (wmi_error text) seen again rest polling last h k =
    on_error-Alternates text again rest polling last h k
wmi_round-Alternates (device_event id) (saw p) again rest polling last h k =
    elim (contains pico_vid_hex (to_upper id))
      as (λ b. Alternates (is_some last) (if b then check_then p rest last else rest last)) [
        | true ↦ check_then-Alternates p rest last h
        | false ↦ h last
      ]
wmi_round-Alternates (device_event id) (look_raises t) again rest polling last h k =
    elim (contains pico_vid_hex (to_upper id))
      as (λ b.
        Alternates (is_some last) (if b then on_error t again rest polling last else rest last)) [
          | true ↦ on_error-Alternates t again rest polling last h k
          | false ↦ h last
        ]

wmi_rounds-Alternates :
    (rounds : List Round) (last : Option Text) → Alternates (is_some last) (wmi_rounds rounds last)
unfolding wmi_rounds
wmi_rounds-Alternates [] last = tt
wmi_rounds-Alternates (r ∷ later) last =
    wmi_round-Alternates r.event r.seen r.again (wmi_rounds later) (poll_rounds later) last
      (wmi_rounds-Alternates later) (poll_rounds-Alternates later)

-- In every form of the loop, whatever WMI reports and the checks see or raise, plug and unplug callbacks
-- alternate, beginning with a plug for a watcher that holds no port and with an unplug for one
-- that holds a port.
pub watch_thread-Alternates :
    (start : WmiStart) (first : Look) (rounds : List Round) (last : Option Text)
    → Alternates (is_some last) (watch_thread start first rounds last)
unfolding watch_thread
watch_thread-Alternates watching (saw p) rounds last =
    check_then-Alternates p (wmi_rounds rounds) last (wmi_rounds-Alternates rounds)
watch_thread-Alternates watching (look_raises t) rounds last = poll_rounds-Alternates rounds last
watch_thread-Alternates no_windows (saw p) rounds last =
    check_then-Alternates p (poll_rounds rounds) last (poll_rounds-Alternates rounds)
watch_thread-Alternates no_windows (look_raises t) rounds last = tt
watch_thread-Alternates import_error (saw p) rounds last =
    check_then-Alternates p (poll_rounds rounds) last (poll_rounds-Alternates rounds)
watch_thread-Alternates import_error (look_raises t) rounds last = tt
watch_thread-Alternates setup_failed (saw p) rounds last =
    check_then-Alternates p (poll_rounds rounds) last (poll_rounds-Alternates rounds)
watch_thread-Alternates setup_failed (look_raises t) rounds last = tt
