-- ===== src/Monitor/Updates/Loop.antt =====
-- The daily loop of `AutoUpdater` in pc/src/pywinhello/monitor/updater.py: its start and stop, and the checks that its
-- thread makes.
use pywinhello.Monitor.Updates.{ReleaseManifest, UpdateCheck}
use pywinhello.Monitor.Updates.Apply.{
  Elem-append, IsOffered, UpdateStep, do_check, do_check-IsOffered, flash, no_flash_of_error,
  no_flash_without,
}
use pywinhello.Monitor.Updates.Renames.{Faults, Files, cleanup_old_update}
use pywinhello.Prelude.{
  Bool, Elem, List, Option, Option-cases, [], ap, arith, false, if◌then◌else◌, inl, inr, none, refl,
  some, sym, true, ◌&&◌, ◌++◌, ◌∷◌, ◌≡◌, ◌⊎◌,
}
use pywinhello.Prelude.Dict.{is_some}
use pywinhello.Prelude.Result.{Result, err, ok}
use pywinhello.Prelude.Text.{Text}
use pywinhello.Prelude.Value.{Value}

-- The updater: its stop event, whether its thread is alive, and the installed program's files.
pub record AutoUpdater : Type 0 where
  pub stop_event : Bool
  pub thread : Option Bool
  pub files : Files

-- is_running
is_running : Option Bool → Bool
is_running none = false
is_running (some alive) = alive

-- start
pub start : Bool → Faults → AutoUpdater → AutoUpdater
unfolding is_running
start frozen faults u = if is_running u.thread then u else record {
  stop_event = false;
  thread = some true;
  files = cleanup_old_update frozen faults u.files;
}

-- stop: the thread is dropped after the join, ended or not.
pub stop : AutoUpdater → AutoUpdater
stop u = record u { stop_event = true; thread = none }

-- One turn of the loop: whether the event is set at its head, and after the wait, and how the check ends if
-- there is one.
pub record Turn : Type 0 where
  pub set_before : Bool
  pub set_after : Bool
  pub result : Result UpdateCheck

-- The `while` of _check_loop, by the checks it makes in these turns.
later_checks : List Turn → List (Result UpdateCheck)
later_checks [] = []
later_checks (t ∷ turns) =
    let later = later_checks turns in
    if t.set_before then [] else if t.set_after then later else t.result ∷ later

-- _check_loop, with how its first check ends
unfoldable pub check_loop : Result UpdateCheck → List Turn → List (Result UpdateCheck)
unfolding later_checks
check_loop initial turns = initial ∷ later_checks turns

-- What the checks of the loop apply, in their order.
unfoldable pub apply_all :
    (Value → Bool) → Bool → Option Text → List (Result UpdateCheck) → List UpdateStep
apply_all downloads has_protocol device_type [] = []
apply_all downloads has_protocol device_type (r ∷ results) =
    do_check downloads has_protocol device_type r
    ++ apply_all downloads has_protocol device_type results

-- A check of the list after which the step was made.
from_check :
    (downloads : Value → Bool) (has_protocol : Bool) (t : Text)
    (results : List (Result UpdateCheck)) (step : UpdateStep)
    → Elem step (apply_all downloads has_protocol (some t) results)
    → (r : Result UpdateCheck) × Elem r results
      × Elem step (do_check downloads has_protocol (some t) r)
unfolding apply_all
from_check downloads has_protocol t [] step e = absurd e
from_check downloads has_protocol t (r ∷ results) step e =
    elim (Elem-append step (do_check downloads has_protocol (some t) r) _ e) [
      | inl now ↦ (r, inl refl, now)
      | inr h ↦
          let (c, there, made) = from_check downloads has_protocol t results step h in
          (c, inr there, made)
    ]

turn-Open :
    (before set : Bool) (q : Result UpdateCheck) (later : List (Result UpdateCheck))
    (r : Result UpdateCheck)
    → Elem r (if before then [] else if set then later else q ∷ later)
    → ((before ≡ false) × (set ≡ false) × (q ≡ r)) ⊎ Elem r later
turn-Open true set q later r e = absurd e
turn-Open false true q later r e = inr e
turn-Open false false q later r (inl same) = inl (refl, refl, sym same)
turn-Open false false q later r (inr e) = inr e

-- Each check of the loop after the first is that of a turn in which the event was set neither at the head
-- nor after the wait.
later-Open :
    (turns : List Turn) (r : Result UpdateCheck)
    → Elem r (later_checks turns)
    → (t : Turn) × Elem t turns × (t.set_before ≡ false) × (t.set_after ≡ false) × (t.result ≡ r)
unfolding later_checks
later-Open [] r e = absurd e
later-Open (u ∷ turns) r e =
    elim (turn-Open u.set_before u.set_after u.result (later_checks turns) r e) [
      | inl (p, q, s) ↦ (u, inl refl, p, q, s)
      | inr h ↦ let (t, there, p, q, s) = later-Open turns r h in (t, inr there, p, q, s)
    ]

later-ends :
    (turns later : List Turn) (t : Turn)
    → t.set_before ≡ true
    → later_checks (turns ++ (t ∷ later)) ≡ later_checks turns
unfolding later_checks
later-ends [] later t h = ground arith
later-ends (u ∷ turns) later t h = ground (arith, later-ends turns later t h)

-- The check ended without an error, and the image that is flashed is what its manifest offers.
abbrev pub IsFlashOf : Bool → Text → UpdateCheck → Value → Option Value → Value → Type 0
IsFlashOf has_protocol t c url hash version =
    (m : ReleaseManifest) × (c.manifest ≡ some m)
    × (is_some c.error ≡ false)
    × ((c.has_firmware_update && has_protocol) ≡ true)
    × IsOffered t m c.assets url hash version

flash-IsFlashOf :
    (downloads : Value → Bool) (has_protocol : Bool) (t : Text) (c : UpdateCheck) (url : Value)
    (hash : Option Value) (version : Value)
    → Elem (flash url hash version) (do_check downloads has_protocol (some t) (ok c))
    → IsFlashOf has_protocol t c url hash version
flash-IsFlashOf downloads has_protocol t c url hash version e = elim (Option-cases c.manifest) [
  | inl h ↦ absurd (no_flash_without downloads has_protocol t c (flash url hash version) h e)
  | inr (m, h) ↦
      let (p, q, s) = do_check-IsOffered downloads has_protocol t c m url hash version h e in
      (m, h, p, q, s)
]

result-IsFlashOf :
    (downloads : Value → Bool) (has_protocol : Bool) (t : Text)
    (results : List (Result UpdateCheck)) (url : Value) (hash : Option Value) (version : Value)
    (r : Result UpdateCheck)
    → Elem r results
    → Elem (flash url hash version) (do_check downloads has_protocol (some t) r)
    → (c : UpdateCheck) × Elem (ok c) results × IsFlashOf has_protocol t c url hash version
result-IsFlashOf downloads has_protocol t results url hash version (ok c) there made =
    (c, there, flash-IsFlashOf downloads has_protocol t c url hash version made)
result-IsFlashOf downloads has_protocol t results url hash version (err x) there made =
    absurd (no_flash_of_error downloads has_protocol t x (flash url hash version) made)

-- Firmware that the loop flashes is that of one of the loop's checks: a check that ended without an error,
-- with a manifest and a firmware update, while the Pico was connected, and the image is what
-- that manifest offers to the device type.
pub check_loop-IsFlashOf :
    (downloads : Value → Bool) (has_protocol : Bool) (t : Text) (initial : Result UpdateCheck)
    (turns : List Turn) (url : Value) (hash : Option Value) (version : Value)
    → Elem
        (flash url hash version)
        (apply_all downloads has_protocol (some t) (check_loop initial turns))
    → (c : UpdateCheck) × Elem (ok c) (check_loop initial turns)
      × IsFlashOf has_protocol t c url hash version
check_loop-IsFlashOf downloads has_protocol t initial turns url hash version e =
    let (r, there, made) =
      from_check downloads has_protocol t (check_loop initial turns) (flash url hash version) e in
    result-IsFlashOf downloads has_protocol t (check_loop initial turns) url hash version r there
      made

-- Once the event is set at the head of a turn, the turns after it make no check.
pub check_loop-ends :
    (initial : Result UpdateCheck) (turns later : List Turn) (t : Turn)
    → t.set_before ≡ true
    → check_loop initial (turns ++ (t ∷ later)) ≡ check_loop initial turns
unfolding check_loop
check_loop-ends initial turns later t h = ap (λ rest. initial ∷ rest) (later-ends turns later t h)

-- An updater that was started is not started again, and renames no file a second time, until it is stopped.
pub start-start :
    (frozen again : Bool) (faults more : Faults) (u : AutoUpdater)
    → start again more (start frozen faults u) ≡ start frozen faults u
unfolding start is_running
start-start frozen again faults more u = ground arith
