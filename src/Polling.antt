-- ===== src/Polling.antt =====
-- The loop `while clock() - start < timeout: if test(): return True; sleep(interval)`, of
-- pc/src/pywinhello/dialog.py and gui/tests/lock_test.py. Times are in milliseconds.
pub mod Ended
use pywinhello.Prelude.{
  Bool, Option, arith, false, if◌then◌else◌, ltb, none, refl, some, suc, true, zero, ℕ, ◌+◌, ◌-◌,
  ◌<◌, ◌≡◌, ◌≤◌,
}

-- What the loop calls: the clock, a pause and the test.
pub record Polled (S : Type 0) : Type 0 where
  pub now : S → ℕ
  pub pause : S → S
  pub test : S → Bool × S

-- The loop on fuel: `none` is out of fuel, otherwise whether the test held before the timeout.
unfoldable pub poll_until : {S : Type 0} → ℕ → Polled S → ℕ → ℕ → S → Option Bool × S
poll_until zero L timeout start s = (none, s)
poll_until (suc fuel) L timeout start s =
    let later = poll_until fuel L timeout start (L.pause (L.test s).1) in
    if ltb (L.now s - start) timeout
    then (if (L.test s).0 then (some true, (L.test s).1) else later)
    else (some false, s)

-- One round of fuel for each millisecond, and one more.
unfoldable pub poll_for : {S : Type 0} → Polled S → ℕ → S → Option Bool × S
poll_for L timeout s = poll_until (suc timeout) L timeout (L.now s) s
