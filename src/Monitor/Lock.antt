-- ===== src/Monitor/Lock.antt =====
-- Unlocking the desktop: pc/src/pywinhello/monitor/lock_detector.py. What Windows, the clock and the
-- device answer is a `Look`; the calls that follow are logged.
pub mod Desktop
pub mod Near
pub mod Retries
use pywinhello.Prelude.{
  Bool, List, Option, [], count, false, if◌then◌else◌, leb, none, not, some, suc, true, zero, ℕ,
  ◌&&◌, ◌*◌, ◌++◌, ◌^◌, ◌||◌, ◌∷◌,
}
use pywinhello.Prelude.Int.{ltb_ℤ, nat_abs, negsuc, pos, ℤ, ◌*ℤ◌, ◌+ℤ◌, ◌-ℤ◌}
use pywinhello.Prelude.Result.{Result, err, ok, type_error, ◌>>=◌}
use pywinhello.Prelude.Text.{Text, codes, text_eq}
use pywinhello.Prelude.Text.Split.{parse_int, split}
use pywinhello.Prelude.Value.{
  Fields, Value, boolean, end, find_or, float, get_field, int, obj, str, truthy,
}

pub data UnlockMode : Type 0 where
  always scheduled_only : UnlockMode

pub record LockConfig : Type 0 where
  pub enabled : Value
  pub mode : UnlockMode
  pub wake_wait_sec : Value
  pub retry_interval_sec : Value
  pub retry_count : Value

abbrev pub default_lock_config : LockConfig
default_lock_config = record {
  enabled = boolean true;
  mode = always;
  wake_wait_sec = float (pos 30) 1;
  retry_interval_sec = float (pos 50) 1;
  retry_count = int (pos 3);
}

-- UnlockMode(value), with its `except ValueError`
mode_of : Value → UnlockMode
mode_of (str s) = if text_eq s (codes "scheduled_only") then scheduled_only else always
mode_of _ = always

unfoldable pub lock_config_of : Fields → Value → Result LockConfig
unfolding mode_of
lock_config_of config (boolean b) = ok (record default_lock_config { enabled = boolean b })
lock_config_of config (obj fs) = do
  let timing = find_or (codes "timing") (obj end) config
  wake ← get_field timing (codes "wake_wait_sec") (float (pos 30) 1)
  interval ← get_field timing (codes "retry_interval_sec") (float (pos 50) 1)
  count ← get_field timing (codes "retry_count") (int (pos 3))
  ok (record {
    enabled = find_or (codes "enabled") (boolean true) fs;
    mode = mode_of (find_or (codes "mode") (str (codes "always")) fs);
    wake_wait_sec = wake;
    retry_interval_sec = interval;
    retry_count = count;
  })
lock_config_of config _ = ok default_lock_config

unfoldable pub from_pico_config : Fields → Result LockConfig
unfolding lock_config_of
from_pico_config config = do
  lock_cfg ← get_field (find_or (codes "apps") (obj end) config) (codes "lock_screen") (obj end)
  lock_config_of config lock_cfg

-- int(parts[0]) * 60 + int(parts[1]), or nothing where that raises
minutes_of_parts : List Text → Option ℤ
minutes_of_parts (h ∷ m ∷ rest) = elim (parse_int h) [
  | none ↦ none
  | some hours ↦ elim (parse_int m) [
    | none ↦ none
    | some minutes ↦ some (hours *ℤ pos 60 +ℤ minutes)
  ]
]
minutes_of_parts _ = none

unfoldable pub minutes_of : Text → Option ℤ
unfolding minutes_of_parts
minutes_of s = minutes_of_parts (split 58 s)

within : ℕ → ℕ → Option ℤ → Bool
within window now none = false
within window now (some m) = leb (nat_abs (pos now -ℤ m)) window

-- _is_near_schedule, with the minute of the day
pub is_near_schedule : ℕ → ℕ → List Text → Bool
unfolding within
is_near_schedule window now [] = false
is_near_schedule window now (s ∷ times) =
    within window now (minutes_of s) || is_near_schedule window now times

pub should_unlock : LockConfig → List Text → ℕ → Bool → Bool
should_unlock config times now from_sleep =
    if not (truthy config.enabled) then false else elim config.mode [
      | always ↦ true
      | scheduled_only ↦ if from_sleep then true else is_near_schedule 5 now times
    ]

pub data UnlockCall : Type 0 where
  waited : Value → UnlockCall
  unlock_sent : UnlockCall

-- One attempt: whether a stop was asked for, how UNLOCK ends, and what the desktop is after it.
pub record Attempt : Type 0 where
  pub stop_set : Bool
  pub sent : Result (Unit {0})
  pub still_locked : Bool

abbrev pub Calls : Type 0
Calls = Result (Unit {0}) × List UnlockCall

-- `stop_event.wait(v)`, then the rest; `wait` says whether the call raises.
wait_then : (Value → Result (Unit {0})) → Value → Calls → Calls
wait_then wait v rest = elim (wait v) [ ok u ↦ (rest.0, waited v ∷ rest.1) | err e ↦ (err e, []) ]

-- The handler of a failed attempt: it waits, except after the last one.
after_failure : (Value → Result (Unit {0})) → Value → ℕ → Calls → Calls
after_failure wait interval zero rest = rest
after_failure wait interval (suc n) rest = wait_then wait interval rest

-- The attempt's `try`, once the stop flag has been looked at.
one_attempt : (Value → Result (Unit {0})) → Value → ℕ → Attempt → Calls → Calls
one_attempt wait interval left a rest = elim a.sent [
  | err e ↦ after_failure wait interval left rest
  | ok u ↦ elim (wait interval) [
    | err e ↦ after_failure wait interval left rest
    | ok v ↦ (
      if a.still_locked then rest.0 else ok tt,
      waited interval ∷ (if a.still_locked then rest.1 else []),
    )
  ]
]

-- The loop over the attempts: `left` are left, the next one is number `i`.
pub retry_unlock : (Value → Result (Unit {0})) → Value → (ℕ → Attempt) → ℕ → ℕ → Calls
retry_unlock wait interval attempts zero i = (ok tt, [])
retry_unlock wait interval attempts (suc left) i =
    let rest =
      one_attempt wait interval left (attempts i)
        (retry_unlock wait interval attempts left (suc i)) in
    if (attempts i).stop_set then (ok tt, []) else (rest.0, unlock_sent ∷ rest.1)

-- max(value, 5.0)
at_least_five : Value → Result Value
at_least_five (int n) = ok (if ltb_ℤ n (pos 5) then float (pos 50) 1 else int n)
at_least_five (float m k) = ok (if ltb_ℤ m (pos (5 * 10 ^ k)) then float (pos 50) 1 else float m k)
at_least_five (boolean b) = ok (float (pos 50) 1)
at_least_five _ = err type_error

-- The length of range(1, value + 1)
tries : Value → Result ℕ
tries (int (pos n)) = ok n
tries (int (negsuc n)) = ok 0
tries (boolean b) = ok (if b then 1 else 0)
tries _ = err type_error

pub record Look : Type 0 where
  pub locked : Bool
  pub from_sleep : Bool
  pub now : ℕ
  pub attempts : ℕ → Attempt

pub perform_unlock : (Value → Result (Unit {0})) → LockConfig → Look → Calls
unfolding at_least_five wait_then
perform_unlock wait config look =
    elim (if look.from_sleep then at_least_five config.wake_wait_sec else ok config.wake_wait_sec) [
      | err e ↦ (err e, [])
      | ok v ↦ wait_then wait v (elim (tries config.retry_count) [
        | err e ↦ (err e, [])
        | ok n ↦ retry_unlock wait config.retry_interval_sec look.attempts n 0
      ])
    ]

-- One round of _detection_loop: `_was_locked` afterwards, and the calls. A raise leaves it.
pub detect :
    (Value → Result (Unit {0})) → LockConfig → List Text → Look → Bool → Bool × List UnlockCall
detect wait config times look was_locked =
    let unlocking = perform_unlock wait config look in
    if look.locked && not was_locked && should_unlock config times look.now look.from_sleep
    then (elim unlocking.0 [ ok u ↦ true | err e ↦ was_locked ], unlocking.1)
    else (look.locked, [])

-- The loop over what it sees.
pub detection_loop :
    (Value → Result (Unit {0})) → LockConfig → List Text → List Look → Bool → List UnlockCall
detection_loop wait config times [] was_locked = []
detection_loop wait config times (look ∷ later) was_locked =
    let step = detect wait config times look was_locked in
    step.1 ++ detection_loop wait config times later step.0
