-- ===== src/Monitor/UsbWatcher/Alternation.antt =====
-- The callbacks of pc/src/pywinhello/monitor/usb_watcher.py as a sequence.
use pywinhello.Monitor.Hello.Loop.{reported}
use pywinhello.Monitor.UsbWatcher.{
  Notice, check_and_notify, connect, disconnect, last_port, present, watch,
}
use pywinhello.Prelude.{
  Bool, List, Option, [], all_of, arith, false, none, refl, some, true, ◌++◌, ◌∷◌, ◌≡◌,
}
use pywinhello.Prelude.Dict.{is_some}
use pywinhello.Prelude.Text.{Text}

-- The notices that alternate, from a state in which a Pico is or is not reported.
abbrev pub Alternates : Bool → List Notice → Type 0
Alternates reported [] = Unit
Alternates false (connect p ∷ later) = Alternates true later
Alternates false (disconnect ∷ later) = ⊥
Alternates true (connect p ∷ later) = ⊥
Alternates true (disconnect ∷ later) = Alternates false later

pub check-Alternates :
    (current last : Option Text) (later : List Notice)
    → Alternates (is_some (check_and_notify current last).0) later
    → Alternates (is_some last) ((check_and_notify current last).1 ++ later)
unfolding check_and_notify
check-Alternates none none later h = h
check-Alternates none (some p) later h = h
check-Alternates (some []) none later h = h
check-Alternates (some []) (some p) later h = h
check-Alternates (some (c ∷ s)) none later h = h
check-Alternates (some (c ∷ s)) (some p) later h = h

-- Whatever the checks see, plug and unplug callbacks alternate, beginning with a plug for a
-- watcher that holds no port and with an unplug for one that holds a port.
pub watch-Alternates :
    (last : Option Text) (checks : List (Option Text))
    → Alternates (is_some last) (watch last checks)
unfolding watch
watch-Alternates last [] = tt
watch-Alternates last (current ∷ later) =
    check-Alternates current last _ (watch-Alternates (check_and_notify current last).0 later)

pub last_check :
    (current last : Option Text) → is_some (check_and_notify current last).0 ≡ present current
unfolding check_and_notify
last_check none none = refl
last_check none (some p) = refl
last_check (some []) none = refl
last_check (some []) (some p) = refl
last_check (some (c ∷ s)) none = refl
last_check (some (c ∷ s)) (some p) = refl

-- After any checks the watcher holds a port exactly when the last check saw one.
pub last_port-present :
    (last : Option Text) (checks : List (Option Text)) (current : Option Text)
    → is_some (last_port last (checks ++ (current ∷ []))) ≡ present current
unfolding last_port
last_port-present last [] current = last_check current last
last_port-present last (c ∷ checks) current =
    last_port-present (check_and_notify c last).0 checks current

check_unchanged :
    (p : Text) (current : Option Text)
    → present current ≡ true
    → check_and_notify current (some p) ≡ (some p, [])
unfolding check_and_notify
check_unchanged p current h = ground arith

-- While every check sees a port, a watcher that holds one calls nothing and keeps the name it
-- has, also where the port has another name by now.
pub watch_unchanged :
    (p : Text) (checks : List (Option Text))
    → all_of present checks ≡ true
    → (watch (some p) checks ≡ []) × (last_port (some p) checks ≡ some p)
unfolding watch last_port
watch_unchanged p [] h = (refl, refl)
watch_unchanged p (c ∷ checks) h =
    let e = check_unchanged p c (ground arith) in rw e (watch_unchanged p checks (ground arith))
