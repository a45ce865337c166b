-- ===== src/Monitor/Service/Lifecycle.antt =====
-- The start and the stop of `MonitorService` of pc/src/pywinhello/monitor/service.py. The watcher's thread is the checks
-- it makes. A stop has two halves, and the thread may check between them; a stop that has waited for it
-- leaves no check to come.
use pywinhello.Monitor.Schedule.{Scheduler, Task}
use pywinhello.Monitor.Schedule.Tasks.{delete_all_tasks-keeps}
use pywinhello.Monitor.Service.{
  MonitorService, Plug, disarm, on_new_app_discovered, on_notice, on_notices, on_pico_disconnect,
  pushed, with_app, with_default_apps,
}
use pywinhello.Monitor.UsbWatcher.{check_and_notify, present}
use pywinhello.Prelude.{
  Bool, List, Option, [], ap, arith, false, if◌then◌else◌, inl, inr, none, refl, some, subst, sym,
  true, ◌∙◌, ◌∷◌, ◌≡◌, ◌⊎◌,
}
use pywinhello.Prelude.Dict.{Dict, lookup}
use pywinhello.Prelude.Text.{Text, codes, starts_with}
use pywinhello.Prelude.Value.{Fields, Value, end, find_or, obj}

-- The service with its watcher, by the port that the watcher holds, its stop event, and whether a stop is
-- between its halves.
pub record Lifecycle : Type 0 where
  pub service : MonitorService
  pub usb_watcher : Option (Option Text)
  pub stopping : Bool
  pub disarming : Bool

-- __init__; the tasks are those that the scheduler has.
unfoldable pub new_lifecycle : Dict Task → Lifecycle
new_lifecycle tasks = record {
  service = record {
    connected = false;
    config = end;
    armed = false;
    lock_detector = none;
    hello_detector = none;
    updater = none;
    tasks = tasks;
  };
  usb_watcher = none;
  stopping = false;
  disarming = false;
}

-- start_async: a new watcher holds no port.
unfoldable pub start_async : Lifecycle → Lifecycle
start_async l = record l { usb_watcher = some none }

-- stop until the service is disarmed
unfoldable pub begin_stop : Scheduler → Lifecycle → Lifecycle
begin_stop w l = record l { stopping = true; service = disarm w l.service; disarming = true }

-- _stop_usb_watcher, which waits for the thread
unfoldable pub end_stop : Lifecycle → Lifecycle
end_stop l = record l { usb_watcher = none; disarming = false }

-- One check of the watcher, where there is one.
pub watcher_check : Scheduler → Text → Plug → Option Text → Lifecycle → Lifecycle
watcher_check w exe plug current l = elim l.usb_watcher [
  | none ↦ l
  | some last ↦
      let checked = check_and_notify current last in
      record l { usb_watcher = some checked.0; service = on_notices w exe plug checked.1 l.service }
]

pub watcher_checks : Scheduler → Text → List (Option Text × Plug) → Lifecycle → Lifecycle
watcher_checks w exe [] l = l
watcher_checks w exe ((current, plug) ∷ later) l =
    watcher_checks w exe later (watcher_check w exe plug current l)

-- stop, with the checks that the watcher's thread makes between its halves
unfoldable pub stop : Scheduler → Text → List (Option Text × Plug) → Lifecycle → Lifecycle
stop w exe racing l = end_stop (watcher_checks w exe racing (begin_stop w l))

-- start, with the checks made until the stop event or the interrupt, and those within its stop
unfoldable pub start :
    Scheduler → Text → List (Option Text × Plug) → List (Option Text × Plug) → Lifecycle → Lifecycle
start w exe checks racing l = stop w exe racing (watcher_checks w exe checks (start_async l))

-- A check sees a Pico, and the watcher holds no port: the service is armed.
abbrev pub plugs_in : Option Text → Option (Option Text) → Bool
plugs_in current none = false
plugs_in current (some none) = present current
plugs_in current (some (some p)) = false

-- What may happen to a service that is not started twice before a stop, if between the halves of a stop no
-- check sees a Pico plugged in.
pub data Step (w : Scheduler) (exe : Text) : Lifecycle → Lifecycle → Type 0 where
  starting : (l : Lifecycle) → l.usb_watcher ≡ none → Step w exe l (start_async l)
  checking :
      (l : Lifecycle) (plug : Plug) (current : Option Text)
      → (l.disarming ≡ true → plugs_in current l.usb_watcher ≡ false)
      → Step w exe l (watcher_check w exe plug current l)
  discovering :
      (l : Lifecycle) (app : Text)
      → Step w exe l (record l { service = (on_new_app_discovered app l.service).0 })
  beginning : (l : Lifecycle) → Step w exe l (begin_stop w l)
  ending : (l : Lifecycle) → l.disarming ≡ true → Step w exe l (end_stop l)

pub data Reach (w : Scheduler) (exe : Text) (tasks : Dict Task) : Lifecycle → Type 0 where
  created : Reach w exe tasks (new_lifecycle tasks)
  onward :
      (l after : Lifecycle) → Reach w exe tasks l → Step w exe l after → Reach w exe tasks after

-- The service is not armed and none of its subsystems exists.
abbrev pub IsDisarmed : MonitorService → Type 0
IsDisarmed service =
    (service.armed ≡ false)
    × (service.lock_detector ≡ none)
    × (service.hello_detector ≡ none)
    × (service.updater ≡ none)

-- The watcher, if there is one, holds no port.
abbrev pub holds_port : Option (Option Text) → Bool
holds_port none = false
holds_port (some none) = false
holds_port (some (some p)) = true

abbrev pub IsSettled : Lifecycle → Type 0
IsSettled l =
    (holds_port l.usb_watcher ≡ false → IsDisarmed l.service)
    × (l.disarming ≡ true → IsDisarmed l.service)

disarm-IsDisarmed : (w : Scheduler) (service : MonitorService) → IsDisarmed (disarm w service)
unfolding disarm
disarm-IsDisarmed w service = (refl, refl, refl, refl)

pushed-IsDisarmed :
    (service : MonitorService) (config : Fields) (apps : Option Value)
    → IsDisarmed service
    → IsDisarmed (pushed service config apps).0
unfolding pushed
pushed-IsDisarmed service config none h = h
pushed-IsDisarmed service config (some apps) h = h

if-IsDisarmed :
    (b : Bool) (x y : MonitorService × List Fields)
    → IsDisarmed x.0
    → IsDisarmed y.0
    → IsDisarmed (if b then x else y).0
if-IsDisarmed true x y h k = h
if-IsDisarmed false x y h k = k

discover-IsDisarmed :
    (app : Text) (service : MonitorService)
    → IsDisarmed service
    → IsDisarmed (on_new_app_discovered app service).0
unfolding on_new_app_discovered
discover-IsDisarmed app service h =
    let config = with_default_apps service.config in
    let apps = with_app app (find_or (codes "apps") (obj end) config) in
    if-IsDisarmed service.connected (pushed service config apps) (service, [])
      (pushed-IsDisarmed service config apps h) h

check-IsSettled :
    (w : Scheduler) (exe : Text) (plug : Plug) (current last : Option Text)
    (service : MonitorService)
    → (holds_port (some last) ≡ false → IsDisarmed service)
    → holds_port (some (check_and_notify current last).0) ≡ false
    → IsDisarmed (on_notices w exe plug (check_and_notify current last).1 service)
unfolding check_and_notify on_notices on_notice on_pico_disconnect
check-IsSettled w exe plug none none service h k = h refl
check-IsSettled w exe plug none (some p) service h k = disarm-IsDisarmed w service
check-IsSettled w exe plug (some []) none service h k = h refl
check-IsSettled w exe plug (some []) (some p) service h k = disarm-IsDisarmed w service
check-IsSettled w exe plug (some (c ∷ s)) none service h k = ground arith
check-IsSettled w exe plug (some (c ∷ s)) (some p) service h k = ground arith

check-IsDisarmed :
    (w : Scheduler) (exe : Text) (plug : Plug) (current last : Option Text)
    (service : MonitorService)
    → plugs_in current (some last) ≡ false
    → IsDisarmed service
    → IsDisarmed (on_notices w exe plug (check_and_notify current last).1 service)
unfolding check_and_notify on_notices on_notice on_pico_disconnect present
check-IsDisarmed w exe plug none none service n h = h
check-IsDisarmed w exe plug none (some p) service n h = disarm-IsDisarmed w service
check-IsDisarmed w exe plug (some []) none service n h = h
check-IsDisarmed w exe plug (some []) (some p) service n h = disarm-IsDisarmed w service
check-IsDisarmed w exe plug (some (c ∷ s)) none service n h = cc
check-IsDisarmed w exe plug (some (c ∷ s)) (some p) service n h = h

watcher_check-IsSettled :
    (w : Scheduler) (exe : Text) (plug : Plug) (current : Option Text) (service : MonitorService)
    (watcher : Option (Option Text)) (stopping disarming : Bool)
    → (disarming ≡ true → plugs_in current watcher ≡ false)
    → IsSettled (record {
      service = service;
      usb_watcher = watcher;
      stopping = stopping;
      disarming = disarming;
    })
    → IsSettled (
        watcher_check w exe plug current (record {
          service = service;
          usb_watcher = watcher;
          stopping = stopping;
          disarming = disarming;
        }))
unfolding watcher_check
watcher_check-IsSettled w exe plug current service none stopping disarming n h = h
watcher_check-IsSettled w exe plug current service (some last) stopping disarming n (h, k) = (
  check-IsSettled w exe plug current last service h,
  λ d. check-IsDisarmed w exe plug current last service (n d) (k d),
)

Step-IsSettled :
    (w : Scheduler) (exe : Text) (l after : Lifecycle)
    → Step w exe l after
    → IsSettled l
    → IsSettled after
unfolding start_async begin_stop end_stop
Step-IsSettled w exe m after (starting l e) (h, k) =
    let idle = h (subst (λ watcher. holds_port watcher ≡ false) (sym e) refl) in
    (λ p. idle, λ d. idle)
Step-IsSettled w exe m after (checking l plug current n) h =
    watcher_check-IsSettled w exe plug current l.service l.usb_watcher l.stopping l.disarming n h
Step-IsSettled w exe m after (discovering l app) (h, k) =
    (λ p. discover-IsDisarmed app l.service (h p), λ d. discover-IsDisarmed app l.service (k d))
Step-IsSettled w exe m after (beginning l) h =
    (λ p. disarm-IsDisarmed w l.service, λ d. disarm-IsDisarmed w l.service)
Step-IsSettled w exe m after (ending l e) (h, k) = (λ p. k e, λ d. k e)

Reach-IsSettled_both :
    (w : Scheduler) (exe : Text) (tasks : Dict Task) (l : Lifecycle)
    → Reach w exe tasks l
    → IsSettled l
unfolding new_lifecycle
Reach-IsSettled_both w exe tasks l created = (λ p. (refl, refl, refl, refl), λ d. cc)
Reach-IsSettled_both w exe tasks m (onward l after r s) =
    Step-IsSettled w exe l after s (Reach-IsSettled_both w exe tasks l r)

-- In every state that a new service reaches by starts, checks of the watcher, discovered apps and the two
-- halves of stops, with no second start before a stop, and as long as no check between the halves
-- of a stop sees a Pico plugged in, the service is not armed and has no lock detector, no hello
-- detector and no updater, if its watcher is absent or holds no port, or if a stop is between its
-- halves.
pub Reach-IsSettled :
    (w : Scheduler) (exe : Text) (tasks : Dict Task) (l : Lifecycle)
    → Reach w exe tasks l
    → (holds_port l.usb_watcher ≡ false) ⊎ (l.disarming ≡ true)
    → IsDisarmed l.service
Reach-IsSettled w exe tasks l r (inl p) = (Reach-IsSettled_both w exe tasks l r).0 p
Reach-IsSettled w exe tasks l r (inr d) = (Reach-IsSettled_both w exe tasks l r).1 d

watcher_check_idle :
    (w : Scheduler) (exe : Text) (plug : Plug) (current : Option Text) (l : Lifecycle)
    → l.usb_watcher ≡ none
    → watcher_check w exe plug current l ≡ l
unfolding watcher_check
watcher_check_idle w exe plug current l h =
    subst
      (λ o.
        elim o as (λ _. Lifecycle) [
          | none ↦ l
          | some last ↦
              let checked = check_and_notify current last in
              record l {
                usb_watcher = some checked.0;
                service = on_notices w exe plug checked.1 l.service;
              }
        ]
        ≡ l)
      (sym h) refl

-- Without a watcher there are no checks.
watcher_checks_idle :
    (w : Scheduler) (exe : Text) (checks : List (Option Text × Plug)) (l : Lifecycle)
    → l.usb_watcher ≡ none
    → watcher_checks w exe checks l ≡ l
unfolding watcher_checks watcher_check
watcher_checks_idle w exe [] l h = refl
watcher_checks_idle w exe ((current, plug) ∷ later) l h =
    ap (watcher_checks w exe later) (watcher_check_idle w exe plug current l h)
    ∙ watcher_checks_idle w exe later l h

-- A stop leaves no watcher.
pub stop_no_watcher :
    (w : Scheduler) (exe : Text) (racing : List (Option Text × Plug)) (l : Lifecycle)
    → (stop w exe racing l).usb_watcher ≡ none
unfolding stop end_stop
stop_no_watcher w exe racing l = refl

-- A stop of a service without a watcher leaves it not armed; the tasks whose names do not begin with the
-- program's prefix are as they were.
pub stop-IsDisarmed :
    (w : Scheduler) (exe : Text) (racing : List (Option Text × Plug)) (l : Lifecycle) (name : Text)
    → l.usb_watcher ≡ none
    → starts_with name (codes "pywinhello-") ≡ false
    → IsDisarmed (stop w exe racing l).service
      × (lookup name (stop w exe racing l).service.tasks ≡ lookup name l.service.tasks)
unfolding stop begin_stop end_stop disarm
stop-IsDisarmed w exe racing l name e h =
    rw (watcher_checks_idle w exe racing (begin_stop w l) e)
      ((refl, refl, refl, refl), delete_all_tasks-keeps w l.service.tasks name h)
