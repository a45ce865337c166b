-- ===== src/Gui/Wizard/Bars/Agreement.antt =====
-- The wizard and its bars are at the same step: pc/src/pywinhello/gui/wizard/__init__.py.
use pywinhello.Gui.Steps.DeviceStep.{Disks}
use pywinhello.Gui.Wizard.{
  StepName, Wizard, advance, back_from, can_proceed, collect, device_step, enter, finish, go_back,
  go_next, next_from, pin_step, schedule_step, show_step, steps, test_step,
}
use pywinhello.Gui.Wizard.Bars.{WizardView, back_view, next_view, show_view}
use pywinhello.Prelude.{
  Bool, Option, arith, false, get_elem?, if◌then◌else◌, ltb, none, refl, some, suc, sym, true, zero,
  ℕ, ◌-◌, ◌∙◌, ◌≡◌,
}
use pywinhello.Serial.Port.{Pyserial}

module _ (W : Pyserial) (D : Disks W) where
  show_step-index :
      (index : ℕ) (m : Wizard × W.State) → (show_step W D index m).0.current_index ≡ index
  unfolding show_step enter
  show_step-index zero m = refl
  show_step-index (suc zero) m = refl
  show_step-index (suc (suc zero)) m = refl
  show_step-index (suc (suc (suc zero))) m = refl
  show_step-index (suc (suc (suc (suc n)))) m = refl

  -- Back leads the wizard and its bars to the same step.
  go_back-back_view :
      (w : Wizard) (s : W.State) (v : WizardView)
      → v.current_index ≡ w.current_index
      → (back_view v).current_index ≡ (go_back W D (w, s)).0.current_index
  unfolding go_back back_from back_view show_view
  go_back-back_view w s v h = at w.current_index refl
    where
      at :
          (i : ℕ)
          → w.current_index ≡ i
          → (if ltb 0 v.current_index then show_view (v.current_index - 1) v else v).current_index
            ≡ (back_from W D i (w, s)).0.current_index
      at zero e = ground (arith, h, e)
      at (suc n) e = ground (arith, h, e, show_step-index n (w, s))

  -- What the step on the screen answers to Next.
  answer_at : Option StepName → Wizard × W.State → Bool
  answer_at none m = false
  answer_at (some step) m = (can_proceed W D step m).0

  can_proceed-index :
      (step : StepName) (m : Wizard × W.State)
      → (can_proceed W D step m).1.0.current_index ≡ m.0.current_index
  unfolding can_proceed
  can_proceed-index device_step m = refl
  can_proceed-index test_step m = refl
  can_proceed-index pin_step m = refl
  can_proceed-index schedule_step m = refl

  advance-index :
      (step : StepName) (answer : Bool) (m : Wizard × W.State) (v : WizardView)
      → v.current_index ≡ m.0.current_index
      → (next_view answer v).current_index ≡ (advance W D step (answer, m)).0.current_index
  unfolding advance next_view show_view finish collect
  advance-index step false m v h = h
  advance-index step true m v h =
      ground (arith, h, show_step-index (suc m.0.current_index) (collect step m.0, m.1))

  next_from-index :
      (step : Option StepName) (m : Wizard × W.State) (v : WizardView)
      → v.current_index ≡ m.0.current_index
      → (next_view (answer_at step m) v).current_index ≡ (next_from W D step m).0.current_index
  unfolding next_from answer_at next_view
  next_from-index none m v h = h
  next_from-index (some step) m v h =
      advance-index step (can_proceed W D step m).0 (can_proceed W D step m).1 v
        (h ∙ sym (can_proceed-index step m))

  -- Next leads the wizard and its bars to the same step.
  go_next-next_view :
      (m : Wizard × W.State) (v : WizardView)
      → v.current_index ≡ m.0.current_index
      → (next_view (answer_at (get_elem? steps m.0.current_index) m) v).current_index
        ≡ (go_next W D m).0.current_index
  unfolding go_next
  go_next-next_view m v h = next_from-index (get_elem? steps m.0.current_index) m v h
