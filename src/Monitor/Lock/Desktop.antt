-- ===== src/Monitor/Lock/Desktop.antt =====
-- `is_desktop_locked` and `is_waking_from_sleep` of pc/src/pywinhello/monitor/lock_detector.py, over the calls of
-- user32 and kernel32.
use pywinhello.Prelude.{
  Bool, Bool-cases, arith, false, if◌then◌else◌, inl, inr, ltb, refl, suc, true, zero, ℕ, ◌==◌, ◌↔◌,
  ◌≡◌,
}
use pywinhello.Prelude.Exec.{Exec, attempt, continue, pure, ◌>>=◌, ◌>>◌}
use pywinhello.Prelude.Result.{Result, err, ok}

-- A handle is a number, 0 where there is none.
pub record System : Type 1 where
  pub State : Type 0
  pub win32 : Bool
  pub open_input_desktop : Exec State ℕ
  pub close_desktop : ℕ → Exec State (Unit {0})
  pub get_tick_count : Exec State ℕ

module _ (X : System) where
  -- The body of the `try`
  look_at_desktop : Exec X.State Bool
  look_at_desktop = do
    desktop ← X.open_input_desktop
    if desktop == 0 then pure true else (do X.close_desktop desktop; pure false)

  pub is_desktop_locked : Exec X.State Bool
  unfolding look_at_desktop
  is_desktop_locked = if X.win32 then attempt look_at_desktop (λ e. pure false) else pure false

  pub is_waking_from_sleep : Exec X.State Bool
  is_waking_from_sleep =
      if X.win32
      then attempt (do tick ← X.get_tick_count; pure (ltb tick 30000)) (λ e. pure false)
      else pure false

  after_open : ℕ → Exec X.State Bool
  after_open desktop = if desktop == 0 then pure true else (do X.close_desktop desktop; pure false)

  -- Whatever closing does, only a desktop that is not there counts as locked.
  after_close :
      (r : Result (Unit {0})) (t : X.State)
      → (attempt (λ _. continue r (λ u. pure {S = X.State} false) t) (λ e. pure false) t).0
        ≡ ok false
  after_close (ok u) t = refl
  after_close (err e) t = refl

  after_open_iff :
      (r : Result ℕ) (t : X.State)
      → ((attempt (λ _. continue r after_open t) (λ e. pure false) t).0 ≡ ok true) ↔ (r ≡ ok 0)
  unfolding after_open
  after_open_iff (err e) t = (λ h. cc, λ h. cc)
  after_open_iff (ok zero) t = (λ h. refl, λ h. refl)
  after_open_iff (ok (suc n)) t = (
    λ h. absurd (
        ground (arith, h, after_close (X.close_desktop (suc n) t).0 (X.close_desktop (suc n) t).1)),
    λ h. absurd (ground (arith, h)),
  )

  -- The desktop counts as locked exactly if Windows has been asked and has no input desktop to open.
  pub is_desktop_locked_iff :
      (s : X.State)
      → ((is_desktop_locked s).0 ≡ ok true)
        ↔ ((X.win32 ≡ true) × ((X.open_input_desktop s).0 ≡ ok 0))
  unfolding is_desktop_locked look_at_desktop after_open
  is_desktop_locked_iff s = elim (Bool-cases X.win32) [
    | inl on ↦
        let (there, back) = after_open_iff (X.open_input_desktop s).0 (X.open_input_desktop s).1 in
        rw (on) (λ h. (refl, there h), λ h. back h.1)
    | inr off ↦ rw (off) (λ h. cc, λ h. cc)
  ]
