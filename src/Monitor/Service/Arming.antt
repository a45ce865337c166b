-- ===== src/Monitor/Service/Arming.antt =====
-- When `MonitorService` of pc/src/pywinhello/monitor/service.py is armed.
use pywinhello.Monitor.Schedule.{Scheduler}
use pywinhello.Monitor.Service.{
  MonitorService, Plug, disarm, on_notice, on_notices, on_pico_disconnect, run,
}
use pywinhello.Monitor.UsbWatcher.{check_and_notify, present}
use pywinhello.Prelude.{List, Option, [], arith, false, none, refl, some, ◌++◌, ◌∷◌, ◌≡◌}
use pywinhello.Prelude.Text.{Text}
use pywinhello.Prelude.Value.{end}

-- Nothing is armed, read or connected.
abbrev pub IsIdle : MonitorService → Type 0
IsIdle service =
    (service.armed ≡ false)
    × (service.connected ≡ false)
    × (service.config ≡ end)
    × (service.lock_detector ≡ none)
    × (service.hello_detector ≡ none)
    × (service.updater ≡ none)

-- A watcher that holds no port has an idle service.
abbrev pub Agrees : Option Text → MonitorService → Type 0
Agrees none service = IsIdle service
Agrees (some p) service = Unit

disconnect-IsIdle :
    (w : Scheduler) (service : MonitorService) → IsIdle (on_pico_disconnect w service)
unfolding on_pico_disconnect disarm
disconnect-IsIdle w service = (refl, refl, refl, refl, refl, refl)

check-Agrees :
    (w : Scheduler) (exe : Text) (plug : Plug) (current last : Option Text)
    (service : MonitorService)
    → Agrees last service
    → Agrees
        (check_and_notify current last).0
        (on_notices w exe plug (check_and_notify current last).1 service)
unfolding check_and_notify on_notices on_notice
check-Agrees w exe plug none none service h = h
check-Agrees w exe plug none (some p) service h = disconnect-IsIdle w service
check-Agrees w exe plug (some []) none service h = h
check-Agrees w exe plug (some []) (some p) service h = disconnect-IsIdle w service
check-Agrees w exe plug (some (c ∷ s)) none service h = tt
check-Agrees w exe plug (some (c ∷ s)) (some p) service h = tt

-- Whatever the checks see and the device answers, a service whose watcher holds no port only while the
-- service is idle is idle after a check that sees no Pico: nothing is armed or connected,
-- no subsystem exists and no configuration is kept.
pub run_unplugged :
    (w : Scheduler) (exe : Text) (checks : List (Option Text × Plug)) (plug : Plug)
    (current last : Option Text) (service : MonitorService)
    → Agrees last service
    → present current ≡ false
    → IsIdle (run w exe (checks ++ ((current, plug) ∷ [])) last service)
unfolding run check_and_notify
run_unplugged w exe [] plug none none service h k = check-Agrees w exe plug none none service h
run_unplugged w exe [] plug none (some p) service h k =
    check-Agrees w exe plug none (some p) service h
run_unplugged w exe [] plug (some []) none service h k =
    check-Agrees w exe plug (some []) none service h
run_unplugged w exe [] plug (some []) (some p) service h k =
    check-Agrees w exe plug (some []) (some p) service h
run_unplugged w exe [] plug (some (c ∷ s)) last service h k = ground arith
run_unplugged w exe ((c, answers) ∷ checks) plug current last service h k =
    run_unplugged w exe checks plug current (check_and_notify c last).0 _
      (check-Agrees w exe answers c last service h) k
