-- ===== src/Monitor/Lock/Near.antt =====
-- When `_should_unlock` of pc/src/pywinhello/monitor/lock_detector.py answers yes.
use pywinhello.Monitor.Lock.{
  LockConfig, always, is_near_schedule, minutes_of, should_unlock, within,
}
use pywinhello.Prelude.{
  Bool, Bool-cases, Elem, List, Option, [], arith, inl, inr, leb, none, refl, some, subst, sym,
  true, ℕ, ◌+◌, ◌↔◌, ◌∷◌, ◌≡◌, ◌≤◌, ◌⊎◌,
}
use pywinhello.Prelude.Int.{nat_abs, neg_part, negsuc, pos, pos_part, ℤ, ◌-ℤ◌}
use pywinhello.Prelude.Text.{Text}
use pywinhello.Prelude.Value.{truthy}

-- At most `window` minutes apart, with no regard to midnight.
abbrev pub IsClose : ℕ → ℕ → ℤ → Type 0
IsClose window now m =
    (now + neg_part m ≤ pos_part m + window) × (pos_part m ≤ now + neg_part m + window)

-- This entry of the schedule reads as a minute close to `now`.
abbrev pub IsNear : ℕ → ℕ → Text → Type 0
IsNear window now s = (m : ℤ) × (minutes_of s ≡ some m) × IsClose window now m

IsClose-iff :
    (window now : ℕ) (m : ℤ) → (leb (nat_abs (pos now -ℤ m)) window ≡ true) ↔ IsClose window now m
unfolding ◌-ℤ◌
IsClose-iff window now (pos n) = ground arith
IsClose-iff window now (negsuc n) = ground arith

IsClose-eq :
    (window now : ℕ) (m n : ℤ) → some m ≡ some n → IsClose window now n → IsClose window now m
IsClose-eq window now m n e h = let q : m ≡ n = cc in subst (IsClose window now) (sym q) h

within_iff :
    (window now : ℕ) (m : Option ℤ)
    → (within window now m ≡ true) ↔ ((n : ℤ) × (m ≡ some n) × IsClose window now n)
unfolding within
within_iff window now none = ground arith
within_iff window now (some m) = (
  λ h. (m, refl, (IsClose-iff window now m).0 h),
  λ (n, e, h). (IsClose-iff window now m).1 (IsClose-eq window now m n e h),
)

-- The detector is near its schedule exactly when some entry reads as a minute of the day
-- that is at most `window` minutes before or after `now`; other entries count for nothing, and a
-- distance across midnight is the long way round.
pub is_near_schedule_iff :
    (window now : ℕ) (times : List Text)
    → (is_near_schedule window now times ≡ true) ↔ ((s : Text) × Elem s times × IsNear window now s)
unfolding is_near_schedule
is_near_schedule_iff window now [] = (λ h. ground arith, λ (s, e, h). absurd e)
is_near_schedule_iff window now (s ∷ times) = (
  λ h. elim (Bool-cases (within window now (minutes_of s))) [
    | inl q ↦ (s, inl refl, (within_iff window now (minutes_of s)).0 q)
    | inr q ↦
        let (t, e, k) = (is_near_schedule_iff window now times).0 (ground arith) in (t, inr e, k)
  ],
  λ (t, e, h). elim e [
    | inl q ↦
        let k = (within_iff window now (minutes_of s)).1 (subst (IsNear window now) q h) in
        ground arith
    | inr q ↦ let k = (is_near_schedule_iff window now times).1 (t, q, h) in ground arith
  ],
)

-- An unlock is decided on exactly when it is enabled, and the mode is not the scheduled one or the
-- computer comes from sleep or the time is near the schedule.
pub should_unlock_iff :
    (config : LockConfig) (times : List Text) (now : ℕ) (from_sleep : Bool)
    → (should_unlock config times now from_sleep ≡ true) ↔ (
        (truthy config.enabled ≡ true)
        × ((config.mode ≡ always)
            ⊎ ((from_sleep ≡ true) ⊎ ((s : Text) × Elem s times × IsNear 5 now s))))
unfolding should_unlock
should_unlock_iff config times now from_sleep =
    let near = is_near_schedule_iff 5 now times in ground arith
