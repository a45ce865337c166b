-- ===== src/Tests/Dialogs.antt =====
-- Dialogs, locks and plugs.
use pywinhello.Monitor.Hello.Loop
use pywinhello.Monitor.Hello.{AppWhitelist, Env, handle_dialog}
use pywinhello.Monitor.Hello.Gate.{Guarded, handle_dialog-Guarded, handle_dialog_unknown, hellos}
use pywinhello.Monitor.Hello.Loop.{detection_loop, raises_looking, returns}
use pywinhello.Monitor.Hello.Loop.Answers.{attempts, detection_loop-hellos}
use pywinhello.Monitor.Hello.Loop.Disabled.{detection_loop_disabled, hellos_for}
use pywinhello.Monitor.Lock.{Look, default_lock_config, perform_unlock}
use pywinhello.Monitor.Lock.Retries.{perform_unlock_persists, unlocks}
use pywinhello.Monitor.Schedule.{Scheduler}
use pywinhello.Monitor.Service.{MonitorService, Plug, run}
use pywinhello.Monitor.Service.Arming.{IsIdle, run_unplugged}
use pywinhello.Monitor.Service.Lifecycle.{
  IsDisarmed, Lifecycle, Reach-IsSettled, begin_stop, beginning, checking, created, end_stop,
  ending, new_lifecycle, onward, start_async, starting, watcher_check,
}
use pywinhello.Monitor.UsbWatcher.{present}
use pywinhello.Monitor.UsbWatcher.Alternation.{Alternates}
use pywinhello.Monitor.UsbWatcher.Loops.{
  Round, device_event, look_raises, saw, to_upper, watch_thread, watch_thread-Alternates, watching,
  wmi_error,
}
use pywinhello.Monitor.UsbWatcher.Loops.Current.{sees, told, watch_thread-current}
use pywinhello.Prelude.{List, Option, [], false, inl, none, refl, some, true, ◌++◌, ◌∷◌, ◌≡◌}
use pywinhello.Prelude.Dict.{lookup}
use pywinhello.Prelude.Result.{Result, ok}
use pywinhello.Prelude.Text.{Text, codes, text_eq}
use pywinhello.Prelude.Value.{Fields, Value, boolean, end, field, obj, truthy}

abbrev front_env : Env
front_env = record {
  owner = some (codes "bank.exe");
  foreground = λ n. true;
  on_hello = ok tt;
  dismissed = ok true;
  dismissed_later = ok true;
  has_escape = true;
  has_new_app = true;
}

-- A whitelist without auto-discovery, in which one app is disabled.
abbrev strict_whitelist : Value → AppWhitelist
strict_whitelist v = record {
  apps = (codes "edge.exe", boolean true) ∷ (codes "game.exe", v) ∷ [];
  auto_discover = boolean false;
}

handle_dialog-Guarded_example :
    Guarded false (handle_dialog front_env (strict_whitelist (boolean false))).2
handle_dialog-Guarded_example = handle_dialog-Guarded front_env (strict_whitelist (boolean false))

handle_dialog_unknown_example :
    (handle_dialog front_env (strict_whitelist (boolean false))).0.pin_sent ≡ true
unfolding lookup text_eq truthy
handle_dialog_unknown_example =
    (handle_dialog_unknown front_env (strict_whitelist (boolean false)) b'b' (codes "ank.exe") refl
      refl refl (λ n. refl) refl).0

abbrev app_fields : Fields
app_fields =
    field (codes "auto_discover") (boolean false) (field (codes "lock_screen") (boolean true) end)

-- A Pico that is plugged in, a device of another vendor, and a wait that times out after the unplugging, whose
-- check raises.
abbrev three_rounds : List Round
three_rounds =
    record {
      event = device_event (codes "usb\\vid_239a&pid_80f4");
      seen = saw (some (codes "COM3"));
      again = saw none;
    }
    ∷ record { event = device_event (codes "USB\\VID_046D"); seen = saw none; again = saw none }
    ∷ record {
      event = wmi_error (codes "x_wmi_timed_out");
      seen = saw none;
      again = look_raises (codes "no ports");
    }
    ∷ []

watch_thread-Alternates_example :
    Alternates false (watch_thread watching (saw none) three_rounds none)
watch_thread-Alternates_example = watch_thread-Alternates watching (saw none) three_rounds none

-- The Pico is plugged in again.
watch_thread-current_example :
    told false (
      watch_thread watching
        (saw none)
        (three_rounds ++ (sees (device_event (codes "usb\\vid_239a")) (some (codes "COM4")) ∷ []))
        none)
    ≡ true
unfolding to_upper present
watch_thread-current_example =
    watch_thread-current watching none three_rounds (device_event (codes "usb\\vid_239a"))
      (some (codes "COM4")) none ((some (codes "COM3"), refl), ((none, refl), ((none, refl), tt)))
      (codes "USB\\", [], refl)

-- Every UNLOCK leaves the desktop locked.
abbrev stuck_look : Look
stuck_look = record {
  locked = true;
  from_sleep = true;
  now = 480;
  attempts = λ i. record { stop_set = false; sent = ok tt; still_locked = true };
}

abbrev waits : Value → Result (Unit {0})
waits v = ok tt

perform_unlock_persists_example :
    unlocks (perform_unlock waits default_lock_config stuck_look).1 ≡ 3
perform_unlock_persists_example =
    (perform_unlock_persists waits default_lock_config stuck_look 3 30 1 (λ v. refl) refl refl
      (λ i. (refl, inl refl))).1

abbrev good_plug : Plug
good_plug = record {
  handshake = ok 2;
  config_read = ok end;
  lock_thread = true;
  hello_thread = true;
  updater_thread = true;
}

abbrev no_scheduler : Scheduler
no_scheduler = record { refuses_create = false; refuses_delete = λ name. false; rows = λ t. none }

abbrev idle_service : MonitorService
idle_service = record {
  connected = false;
  config = end;
  armed = false;
  lock_detector = none;
  hello_detector = none;
  updater = none;
  tasks = [];
}

run_unplugged_example : IsIdle (
    run no_scheduler
      (codes "monitor.exe")
      ((some (codes "COM3"), good_plug) ∷ (none, good_plug) ∷ [])
      none
      idle_service)
unfolding present
run_unplugged_example =
    run_unplugged no_scheduler (codes "monitor.exe") ((some (codes "COM3"), good_plug) ∷ [])
      good_plug none none idle_service (refl, refl, refl, refl, refl, refl) refl

-- A Pico is plugged in, and the service is stopped.
abbrev stopped : Lifecycle
stopped = end_stop (
    begin_stop no_scheduler (
      watcher_check no_scheduler (codes "monitor.exe") good_plug (some (codes "COM3"))
        (start_async (new_lifecycle []))))

Reach-IsSettled_example : IsDisarmed stopped.service
unfolding begin_stop end_stop new_lifecycle start_async
Reach-IsSettled_example =
    Reach-IsSettled no_scheduler (codes "monitor.exe") [] _
      (onward _ _
        (onward _ _
          (onward _ _ (onward _ _ created (starting (new_lifecycle []) refl))
            (checking _ good_plug (some (codes "COM3")) (λ d. cc)))
          (beginning _))
        (ending _ refl))
      (inl refl)

-- The watcher sees a Pico, and sees it plugged in again between the halves of the stop.
abbrev plug_seen : List (Option Text × Plug)
plug_seen = (some (codes "COM3"), good_plug) ∷ []

abbrev plugged_again : List (Option Text × Plug)
plugged_again = (none, good_plug) ∷ plug_seen

-- A configuration in which one app is disabled.
abbrev connected_service : MonitorService
connected_service = record idle_service {
  connected = true;
  config = field (codes "apps") (obj (field (codes "game.exe") (boolean false) end)) end;
}

-- A dialog of an unknown app, a look that raises, and a dialog of the disabled app.
abbrev hello_rounds : List Loop.Round
hello_rounds =
    returns true [] front_env
    ∷ raises_looking front_env 1
    ∷ returns true [] (record front_env { owner = some (codes "game.exe") })
    ∷ []

detection_loop_disabled_example :
    hellos_for (λ e. false) (codes "game.exe") hello_rounds (strict_whitelist (boolean false)) ≡ 0
unfolding lookup text_eq truthy
detection_loop_disabled_example =
    (detection_loop_disabled (λ e. false) hello_rounds (strict_whitelist (boolean false))
      (codes "game.exe") (boolean false) refl refl).0

detection_loop-hellos_example :
    hellos (detection_loop (λ e. false) hello_rounds (strict_whitelist (boolean false))).calls
    ≡ attempts (detection_loop (λ e. false) hello_rounds (strict_whitelist (boolean false))).reports
detection_loop-hellos_example =
    detection_loop-hellos (λ e. false) hello_rounds (strict_whitelist (boolean false)) (λ c. refl)
