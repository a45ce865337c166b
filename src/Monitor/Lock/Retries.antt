-- ===== src/Monitor/Lock/Retries.antt =====
-- The calls of the loops of pc/src/pywinhello/monitor/lock_detector.py.
use pywinhello.Monitor.Lock.{
  Attempt, Calls, LockConfig, Look, UnlockCall, after_failure, at_least_five, one_attempt,
  perform_unlock, retry_unlock, tries, unlock_sent, wait_then, waited,
}
use pywinhello.Prelude.{
  List, [], arith, false, inl, inr, refl, suc, true, zero, ℕ, ◌∷◌, ◌≡◌, ◌≤◌, ◌⊎◌,
}
use pywinhello.Prelude.Int.{pos}
use pywinhello.Prelude.Result.{Error, Result, err, ok}
use pywinhello.Prelude.Value.{Value, float, int}

-- How many UNLOCK commands there are among the calls.
abbrev pub unlocks : List UnlockCall → ℕ
unlocks [] = 0
unlocks (waited v ∷ later) = unlocks later
unlocks (unlock_sent ∷ later) = suc (unlocks later)

after_failure_le :
    (wait : Value → Result (Unit {0})) (interval : Value) (left : ℕ) (rest : Calls) (n : ℕ)
    → unlocks rest.1 ≤ n
    → unlocks (after_failure wait interval left rest).1 ≤ n
unfolding after_failure wait_then
after_failure_le wait interval zero rest n h = h
after_failure_le wait interval (suc left) rest n h = ground arith

one_attempt_le :
    (wait : Value → Result (Unit {0})) (interval : Value) (left : ℕ) (a : Attempt) (rest : Calls)
    (n : ℕ)
    → unlocks rest.1 ≤ n
    → unlocks (one_attempt wait interval left a rest).1 ≤ n
unfolding one_attempt
one_attempt_le wait interval left a rest n h =
    ground (arith, after_failure_le wait interval left rest n h)

-- At most as many UNLOCK commands are sent as attempts are left.
retry_unlock_le :
    (wait : Value → Result (Unit {0})) (interval : Value) (attempts : ℕ → Attempt) (left i : ℕ)
    → unlocks (retry_unlock wait interval attempts left i).1 ≤ left
unfolding retry_unlock
retry_unlock_le wait interval attempts zero i = omega arith
retry_unlock_le wait interval attempts (suc left) i = ground (
  arith,
  one_attempt_le wait interval left (attempts i) (retry_unlock wait interval attempts left (suc i))
      left (retry_unlock_le wait interval attempts left (suc i)),
)

-- The attempt goes wrong: no stop, and UNLOCK fails or leaves the desktop locked.
abbrev pub IsFutile : Attempt → Type 0
IsFutile a = (a.stop_set ≡ false) × ((a.still_locked ≡ true) ⊎ ((e : Error) × (a.sent ≡ err e)))

after_failure_waits :
    (wait : Value → Result (Unit {0})) (interval : Value) (left : ℕ) (rest : Calls)
    → wait interval ≡ ok tt
    → ((after_failure wait interval left rest).0 ≡ rest.0)
      × (unlocks (after_failure wait interval left rest).1 ≡ unlocks rest.1)
unfolding after_failure wait_then
after_failure_waits wait interval zero rest w = (refl, refl)
after_failure_waits wait interval (suc left) rest w = ground arith

one_attempt_futile :
    (wait : Value → Result (Unit {0})) (interval : Value) (left : ℕ) (a : Attempt) (rest : Calls)
    → wait interval ≡ ok tt
    → IsFutile a
    → ((one_attempt wait interval left a rest).0 ≡ rest.0)
      × (unlocks (one_attempt wait interval left a rest).1 ≡ unlocks rest.1)
unfolding one_attempt
one_attempt_futile wait interval left a rest w (s, inl l) =
    ground (arith, after_failure_waits wait interval left rest w)
one_attempt_futile wait interval left a rest w (s, inr (e, q)) =
    ground (arith, after_failure_waits wait interval left rest w)

retry_unlock_all :
    (wait : Value → Result (Unit {0})) (interval : Value) (attempts : ℕ → Attempt) (left i : ℕ)
    → wait interval ≡ ok tt
    → ((n : ℕ) → IsFutile (attempts n))
    → ((retry_unlock wait interval attempts left i).0 ≡ ok tt)
      × (unlocks (retry_unlock wait interval attempts left i).1 ≡ left)
unfolding retry_unlock
retry_unlock_all wait interval attempts zero i w f = (refl, refl)
retry_unlock_all wait interval attempts (suc left) i w f = ground (
  arith,
  f i,
  one_attempt_futile wait interval left (attempts i)
      (retry_unlock wait interval attempts left (suc i)) w (f i),
  retry_unlock_all wait interval attempts left (suc i) w f,
)

-- An unlock procedure sends at most `retry_count` UNLOCK commands.
pub perform_unlock_le :
    (wait : Value → Result (Unit {0})) (config : LockConfig) (look : Look) (n : ℕ)
    → config.retry_count ≡ int (pos n)
    → unlocks (perform_unlock wait config look).1 ≤ n
unfolding perform_unlock wait_then tries
perform_unlock_le wait config look n q =
    ground (arith, retry_unlock_le wait config.retry_interval_sec look.attempts n 0)

-- Where waiting does not raise, the timing is a float and every attempt goes wrong (UNLOCK fails,
-- or the desktop stays locked) with no stop asked for, the procedure ends without a raise
-- after exactly `retry_count` UNLOCK commands.
pub perform_unlock_persists :
    (wait : Value → Result (Unit {0})) (config : LockConfig) (look : Look) (n m k : ℕ)
    → ((v : Value) → wait v ≡ ok tt)
    → config.retry_count ≡ int (pos n)
    → config.wake_wait_sec ≡ float (pos m) k
    → ((i : ℕ) → IsFutile (look.attempts i))
    → ((perform_unlock wait config look).0 ≡ ok tt)
      × (unlocks (perform_unlock wait config look).1 ≡ n)
unfolding perform_unlock wait_then tries at_least_five
perform_unlock_persists wait config look n m k w q r f = ground (
  arith,
  retry_unlock_all wait config.retry_interval_sec look.attempts n 0 (w _) f,
  w (float (pos 50) 1),
  w config.wake_wait_sec,
)
