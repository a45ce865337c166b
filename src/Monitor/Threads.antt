-- ===== src/Monitor/Threads.antt =====
-- The threads of the detectors in pc/src/pywinhello/monitor/usb_watcher.py, pc/src/pywinhello/monitor/hello_detector.py and
-- pc/src/pywinhello/monitor/lock_detector.py: their start and stop. What their loops do has modules of its own.
use pywinhello.Monitor.Lock.{LockConfig}
use pywinhello.Prelude.{
  Bool, List, Option, [], arith, false, if◌then◌else◌, inr, none, refl, some, true, ℕ, ◌&&◌, ◌+◌,
  ◌-◌, ◌∷◌, ◌≡◌, ◌⊎◌,
}
use pywinhello.Prelude.Value.{truthy}

-- A detector's stop event, whether its thread is alive, and how many threads run its loop.
pub record Worker : Type 0 where
  pub stop_event : Bool
  pub thread : Option Bool
  pub loops : ℕ

-- __init__
new_worker : Worker
new_worker = record { stop_event = false; thread = none; loops = 0 }

-- is_running
is_running : Option Bool → Bool
is_running none = false
is_running (some alive) = alive

-- start of USBWatcher and HelloDetector
start_thread : Worker → Worker
unfolding is_running
start_thread u =
    if is_running u.thread
    then u
    else record { stop_event = false; thread = some true; loops = u.loops + 1 }

-- start of LockDetector
start_lock : LockConfig → Worker → Worker
unfolding start_thread
start_lock config u = if truthy config.enabled then start_thread u else u

-- stop; `ended` is whether the join ends before its timeout, after which a thread is dropped as well.
stop_thread : Bool → Worker → Worker
unfolding is_running
stop_thread ended u = record {
  stop_event = true;
  thread = none;
  loops = if is_running u.thread && ended then u.loops - 1 else u.loops;
}

-- trigger_unlock: the unlock that a thread of its own then makes, or none
pub trigger_unlock : {A : Type 0} → LockConfig → A → Option A
trigger_unlock config unlock = if truthy config.enabled then some unlock else none

data WorkerCall : Type 0 where
  starting : WorkerCall
  starting_lock : LockConfig → WorkerCall
  stopping : WorkerCall

-- The calls, where every join ends.
called : WorkerCall → Worker → Worker
called starting u = start_thread u
called (starting_lock config) u = start_lock config u
called stopping u = stop_thread true u

calls : List WorkerCall → Worker → Worker
calls [] u = u
calls (c ∷ later) u = calls later (called c u)

-- One loop where the thread is alive, with the event not set, and none elsewhere.
abbrev IsSingle : Worker → Type 0
IsSingle u =
    ((is_running u.thread ≡ true) × (u.loops ≡ 1) × (u.stop_event ≡ false))
    ⊎ ((is_running u.thread ≡ false) × (u.loops ≡ 0))

start_thread-IsSingle : (u : Worker) → IsSingle u → IsSingle (start_thread u)
unfolding start_thread is_running
start_thread-IsSingle u h = ground arith

called-IsSingle : (c : WorkerCall) (u : Worker) → IsSingle u → IsSingle (called c u)
unfolding called start_lock stop_thread is_running
called-IsSingle starting u h = start_thread-IsSingle u h
called-IsSingle (starting_lock config) u h = ground (arith, start_thread-IsSingle u h)
called-IsSingle stopping u h = ground arith

calls-IsSingle : (cs : List WorkerCall) (u : Worker) → IsSingle u → IsSingle (calls cs u)
unfolding calls
calls-IsSingle [] u h = h
calls-IsSingle (c ∷ cs) u h = calls-IsSingle cs (called c u) (called-IsSingle c u h)

-- Where every join ends, a new detector never has more than one loop: after any starts and stops, one with
-- the event not set if its thread is alive, and none otherwise.
session-IsSingle : (cs : List WorkerCall) → IsSingle (calls cs new_worker)
unfolding new_worker is_running
session-IsSingle cs = calls-IsSingle cs new_worker (inr (refl, refl))

-- A join that does not end leaves the loop running, and a start after it clears the event and adds a second
-- one.
restart_unended :
    (u : Worker)
    → is_running u.thread ≡ true
    → u.loops ≡ 1
    → (start_thread (stop_thread false u)).loops ≡ 2
unfolding start_thread stop_thread is_running
restart_unended u h k = ground arith
