-- ===== src/Polling/Ended.antt =====
-- How the loop of Polling ends.
use pywinhello.Polling.{Polled, poll_for, poll_until}
use pywinhello.Prelude.{
  Bool, Option, arith, false, if◌then◌else◌, ltb, refl, some, suc, true, zero, ℕ, ◌+◌, ◌-◌, ◌<◌,
  ◌≡◌, ◌≤◌,
}

-- The clock never goes back, and a pause takes a millisecond at least.
pub record IsTimed {S : Type 0} (L : Polled S) : Type 0 where
  pub pause_takes : (s : S) → L.now s < L.now (L.pause s)
  pub test_keeps : (s : S) → L.now s ≤ L.now (L.test s).1

module _ {S : Type 0} (L : Polled S) where
  -- True is answered when the test has just held within the time, False when the time is over.
  pub data Ended (timeout start : ℕ) : Option Bool × S → Type 0 where
    held :
        (s : S)
        → (L.test s).0 ≡ true
        → L.now s < start + timeout
        → Ended timeout start (some true, (L.test s).1)
    over : (s : S) → start + timeout ≤ L.now s → Ended timeout start (some false, s)

  round-Ended :
      (timeout start : ℕ) (s : S) (later : Option Bool × S) (b c : Bool)
      → ltb (L.now s - start) timeout ≡ b
      → (L.test s).0 ≡ c
      → start ≤ L.now s
      → (b ≡ true → Ended timeout start later)
      → Ended timeout start
          (if b then (if c then (some true, (L.test s).1) else later) else (some false, s))
  round-Ended timeout start s later true true e f h k = held s f (ground arith)
  round-Ended timeout start s later true false e f h k = k refl
  round-Ended timeout start s later false c e f h k = over s (ground arith)

  poll_until-Ended :
      (fuel timeout start : ℕ) (s : S)
      → IsTimed L
      → start ≤ L.now s
      → 0 < fuel
      → start + timeout < L.now s + fuel
      → Ended timeout start (poll_until fuel L timeout start s)
  unfolding poll_until
  poll_until-Ended zero timeout start s T h p k = absurd (omega (arith, p))
  poll_until-Ended (suc fuel) timeout start s T h p k =
      round-Ended timeout start s _ (ltb (L.now s - start) timeout) (L.test s).0 refl refl h λ e.
        poll_until-Ended fuel timeout start (L.pause (L.test s).1) T
          (omega (arith, h, T.test_keeps s, T.pause_takes (L.test s).1)) (ground arith)
          (omega (arith, k, T.test_keeps s, T.pause_takes (L.test s).1))

  -- Where the clock goes on, the loop ends: it answers True when the test has just held within the
  -- time, and False when the time is over. The fuel is always enough.
  pub poll_for-Ended :
      (timeout : ℕ) (s : S) → IsTimed L → Ended timeout (L.now s) (poll_for L timeout s)
  unfolding poll_for
  poll_for-Ended timeout s T =
      poll_until-Ended (suc timeout) timeout (L.now s) s T (omega arith) (omega arith) (omega arith)
