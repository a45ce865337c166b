-- ===== src/Monitor/Service.antt =====
-- `MonitorService` of pc/src/pywinhello/monitor/service.py: what it does when the watcher reports a Pico. How
-- the device answers, and whether the threads start, is a `Plug`.
pub mod Arming
pub mod Discovery
pub mod Lifecycle
pub mod Entry
use pywinhello.Monitor.Lock
use pywinhello.Monitor.Hello
use pywinhello.Monitor.Schedule.{Scheduler, Task, delete_all_tasks, sync_schedule}
use pywinhello.Monitor.UsbWatcher.{Notice, check_and_notify, connect, disconnect}
use pywinhello.Prelude.{
  Bool, List, Option, [], false, if◌then◌else◌, leb, none, some, true, ℕ, ◌&&◌, ◌∷◌,
}
use pywinhello.Prelude.Dict.{Dict, is_some}
use pywinhello.Prelude.Result.{Error, Result, err, ok, ◌>>=◌}
use pywinhello.Prelude.Text.{Text, codes}
use pywinhello.Prelude.Value.{
  Fields, Value, boolean, end, find, find_or, get_field, null, obj, put, truthy,
}

pub record Plug : Type 0 where
  pub handshake : Result ℕ
  pub config_read : Result Fields
  pub lock_thread : Bool
  pub hello_thread : Bool
  pub updater_thread : Bool

-- A subsystem is none, or an object whose thread runs or does not.
pub record MonitorService : Type 0 where
  pub connected : Bool
  pub config : Fields
  pub armed : Bool
  pub lock_detector : Option Bool
  pub hello_detector : Option Bool
  pub updater : Option Bool
  pub tasks : Dict Task

-- _disarm: what stopping and deleting raise is logged.
pub disarm : Scheduler → MonitorService → MonitorService
disarm w service = record service {
  armed = false;
  lock_detector = none;
  hello_detector = none;
  updater = none;
  tasks = (delete_all_tasks w service.tasks).1;
}

-- Step 2 of _arm: the lock's configuration and the schedule's time are read before the object is made.
lock_part : Fields → Bool → Result Bool
lock_part config thread = do
  lock_config ← Lock.from_pico_config config
  time ← get_field (find_or (codes "schedule") (obj end) config) (codes "time") null
  ok (truthy lock_config.enabled && thread)

-- Step 3 of _arm.
hello_part : Fields → Bool → Result Bool
hello_part config thread = do whitelist ← Hello.from_pico_config config; ok thread

-- The `try` of a step: an object that was not made leaves the field.
part_after : Result Bool → Option Bool → Option Bool
part_after (ok running) before = some running
part_after (err e) before = before

start_parts : Scheduler → Text → Plug → MonitorService → MonitorService
unfolding lock_part hello_part part_after
start_parts w exe plug service = record service {
  armed = true;
  lock_detector = part_after (lock_part service.config plug.lock_thread) service.lock_detector;
  hello_detector = part_after (hello_part service.config plug.hello_thread) service.hello_detector;
  updater = some plug.updater_thread;
  tasks = (sync_schedule w exe service.config service.tasks).1;
}

-- _arm
pub arm : Scheduler → Text → Plug → MonitorService → MonitorService
unfolding start_parts
arm w exe plug service =
    start_parts w exe plug (if service.armed then disarm w service else service)

-- The configuration is read from protocol version 2 on.
config_for : Plug → ℕ → Result Fields
config_for plug version = if leb 2 version then plug.config_read else ok end

-- After the handshake: a configuration that cannot be read ends it.
after_config : Scheduler → Text → Plug → Result Fields → MonitorService → MonitorService
after_config w exe plug (ok config) service =
    arm w exe plug (record service { connected = true; config = config })
after_config w exe plug (err e) service = record service { connected = true }

after_handshake : Scheduler → Text → Plug → Result ℕ → MonitorService → MonitorService
unfolding config_for after_config
after_handshake w exe plug (ok version) service =
    after_config w exe plug (config_for plug version) service
after_handshake w exe plug (err e) service = record service { connected = false }

-- _on_pico_connect, with its `try`
pub on_pico_connect : Scheduler → Text → Plug → MonitorService → MonitorService
unfolding after_handshake
on_pico_connect w exe plug service = after_handshake w exe plug plug.handshake service

-- _on_pico_disconnect
pub on_pico_disconnect : Scheduler → MonitorService → MonitorService
on_pico_disconnect w service =
    let idle = disarm w service in record idle { connected = false; config = end }

-- The watcher's callbacks.
pub on_notice : Scheduler → Text → Plug → Notice → MonitorService → MonitorService
on_notice w exe plug (connect port) service = on_pico_connect w exe plug service
on_notice w exe plug disconnect service = on_pico_disconnect w service

pub on_notices : Scheduler → Text → Plug → List Notice → MonitorService → MonitorService
on_notices w exe plug [] service = service
on_notices w exe plug (n ∷ later) service =
    on_notices w exe plug later (on_notice w exe plug n service)

-- The service under the watch loop: what each check sees, and how the device would answer then.
pub run :
    Scheduler → Text → List (Option Text × Plug) → Option Text → MonitorService → MonitorService
run w exe [] last service = service
run w exe ((current, plug) ∷ later) last service =
    let step = check_and_notify current last in
    run w exe later step.0 (on_notices w exe plug step.1 service)

-- config.setdefault("apps", {})
with_default_apps : Fields → Fields
with_default_apps config =
    if is_some (find (codes "apps") config) then config else put (codes "apps") (obj end) config

-- The apps with the new one, or none where it is there or the assignment raises.
with_app : Text → Value → Option Value
with_app exe (obj fs) =
    if is_some (find exe fs) then none else some (obj (put exe (boolean true) fs))
with_app exe _ = none

pushed : MonitorService → Fields → Option Value → MonitorService × List Fields
pushed service config none = (record service { config = config }, [])
pushed service config (some apps) =
    let new_config = put (codes "apps") apps config in
    (record service { config = new_config }, new_config ∷ [])

-- _on_new_app_discovered, and the configurations it sends to the Pico; a failed send changes nothing.
pub on_new_app_discovered : Text → MonitorService → MonitorService × List Fields
unfolding with_default_apps with_app pushed
on_new_app_discovered exe service =
    let config = with_default_apps service.config in
    if service.connected
    then pushed service config (with_app exe (find_or (codes "apps") (obj end) config))
    else (service, [])

-- _cleanup, at the exit of the program
pub cleanup : Scheduler → MonitorService → MonitorService
cleanup w service =
    let idle = if service.armed then disarm w service else service in
    record idle { connected = false }
