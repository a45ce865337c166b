-- ===== src/Gui/Wizard/Progress.antt =====
-- How far the wizard of pc/src/pywinhello/gui/wizard/ gets.
use pywinhello.Gui.Connection.{port}
use pywinhello.Gui.Steps.Desktop.{Desktop}
use pywinhello.Gui.Steps.DeviceStep.{Disks, detect, flash}
use pywinhello.Gui.Steps.PinStep.{register}
use pywinhello.Gui.Steps.ScheduleStep.{can_proceed}
use pywinhello.Gui.Steps.TestStep.{run_tests}
use pywinhello.Gui.Steps.TestStep.Failure.{run_tests-fails}
use pywinhello.Gui.Wizard.{
  Wizard, advance, back_from, cancel, collect, device_step, enter, finish, go_back, go_next,
  new_wizard, next_from, show_step, steps, test_step,
}
use pywinhello.Prelude.{
  Bool, List, Option, arith, false, get_elem?, if◌then◌else◌, ltb, refl, subst, suc, sym, true,
  zero, ℕ, ◌<◌, ◌∙◌, ◌≡◌,
}
use pywinhello.Prelude.Text.{Text}
use pywinhello.Serial.Port.{Pyserial}

module _ (W : Pyserial) (D : Disks W) (T : Desktop W) where
  -- A click, or a thread of a step that ends. What the other threads do to the world between two
  -- of them is not fixed.
  pub data Step : Wizard → Wizard → Type 0 where
    next_clicked : (w : Wizard) (s : W.State) → Step w (go_next W D (w, s)).0
    back_clicked : (w : Wizard) (s : W.State) → Step w (go_back W D (w, s)).0
    cancel_clicked : (w : Wizard) (s : W.State) → Step w (cancel W D (w, s)).0
    detection_ended :
        (w : Wizard) (s : W.State) → Step w (record w { device = (detect W D w.device s).0 })
    flash_ended :
        (w : Wizard) (s : W.State) → Step w (record w { device = (flash W D w.device s).0 })
    tests_ended :
        (w : Wizard) (s : W.State)
        → Step w (record w { test = (run_tests W T w.collected_data.port (s, w.test)).1 })
    registration_ended :
        (w : Wizard) (s : W.State) (pin confirm : Text)
        → Step w (record w { pin = (register W w.collected_data.port pin confirm w.pin s).0 })
    schedule_chosen :
        (w : Wizard) (hour minute : Text) (days : List (Text × Bool))
        → Step w (record w {
          schedule = record w.schedule { hour = hour; minute = minute; days = days };
        })

  pub data Reach (w : Wizard) : Wizard → Type 0 where
    here : Reach w w
    further : {u v : Wizard} → Reach w u → Step u v → Reach w v

  -- The test has not passed, the third step is not reached, and nothing was completed.
  pub record IsHeld (w : Wizard) : Type 0 where
    pub not_passed : w.test.all_passed ≡ false
    pub early : w.current_index < 2
    pub incomplete : w.completions ≡ 0

  new_wizard-IsHeld : (port : Option Text) (s : W.State) → IsHeld (new_wizard W D port s).0
  unfolding new_wizard show_step enter
  new_wizard-IsHeld port s = record { not_passed = refl; early = omega arith; incomplete = refl }

  show_step-IsHeld :
      (index : ℕ) (w : Wizard) (s : W.State)
      → index < 2
      → w.test.all_passed ≡ false
      → w.completions ≡ 0
      → IsHeld (show_step W D index (w, s)).0
  unfolding show_step enter
  show_step-IsHeld zero w s l t c = record { not_passed = t; early = omega arith; incomplete = c }
  show_step-IsHeld (suc zero) w s l t c = record {
    not_passed = t;
    early = omega arith;
    incomplete = c;
  }
  show_step-IsHeld (suc (suc n)) w s l t c = absurd (omega (arith, l))

  -- The first step lets the user go on to the second at most.
  advance-IsHeld :
      (b : Bool) (w : Wizard) (s : W.State)
      → w.current_index ≡ 0
      → IsHeld w
      → IsHeld (advance W D device_step (b, (w, s))).0
  unfolding advance collect
  advance-IsHeld false w s e h = h
  advance-IsHeld true w s e h =
      subst
        (λ i.
          IsHeld
            (if ltb i 3
              then show_step W D (suc i) (collect device_step w, s)
              else finish W D device_step (collect device_step w, s)).0)
        (sym e)
        (show_step-IsHeld 1 (collect device_step w) s (omega arith) h.not_passed h.incomplete)

  next_from-IsHeld :
      (index : ℕ) (w : Wizard) (s : W.State)
      → w.current_index ≡ index
      → IsHeld w
      → IsHeld (next_from W D (get_elem? steps index) (w, s)).0
  unfolding next_from can_proceed advance
  next_from-IsHeld zero w s e h = advance-IsHeld w.device.detected w s e h
  next_from-IsHeld (suc zero) w s e h = second w.test.all_passed h.not_passed
    where
      second : (b : Bool) → b ≡ false → IsHeld (advance W D test_step (b, (w, s))).0
      second false k = h
      second true k = cc
  next_from-IsHeld (suc (suc n)) w s e h = absurd (omega (arith, e, h.early))

  go_next-IsHeld : (w : Wizard) (s : W.State) → IsHeld w → IsHeld (go_next W D (w, s)).0
  unfolding go_next
  go_next-IsHeld w s h = next_from-IsHeld w.current_index w s refl h

  back_from-IsHeld :
      (index : ℕ) (w : Wizard) (s : W.State)
      → w.current_index ≡ index
      → IsHeld w
      → IsHeld (back_from W D index (w, s)).0
  unfolding back_from
  back_from-IsHeld zero w s e h = h
  back_from-IsHeld (suc n) w s e h =
      show_step-IsHeld n w s (omega (arith, e, h.early)) h.not_passed h.incomplete

  go_back-IsHeld : (w : Wizard) (s : W.State) → IsHeld w → IsHeld (go_back W D (w, s)).0
  unfolding go_back
  go_back-IsHeld w s h = back_from-IsHeld w.current_index w s refl h

  -- What does not touch the test, the index and the completions.
  IsHeld-same :
      {w v : Wizard}
      → IsHeld w
      → v.test.all_passed ≡ w.test.all_passed
      → v.current_index ≡ w.current_index
      → v.completions ≡ w.completions
      → IsHeld v
  IsHeld-same h t i c = record {
    not_passed = t ∙ h.not_passed;
    early = omega (arith, i, h.early);
    incomplete = c ∙ h.incomplete;
  }

  Step-IsHeld : {w v : Wizard} → Step w v → IsHeld w → IsHeld v
  unfolding cancel
  Step-IsHeld (next_clicked w s) h = go_next-IsHeld w s h
  Step-IsHeld (back_clicked w s) h = go_back-IsHeld w s h
  Step-IsHeld (cancel_clicked w s) h = IsHeld-same h refl refl refl
  Step-IsHeld (detection_ended w s) h = IsHeld-same h refl refl refl
  Step-IsHeld (flash_ended w s) h = IsHeld-same h refl refl refl
  Step-IsHeld (tests_ended w s) h = record {
    not_passed = run_tests-fails W T w.collected_data.port (s, w.test);
    early = h.early;
    incomplete = h.incomplete;
  }
  Step-IsHeld (registration_ended w s pin confirm) h = IsHeld-same h refl refl refl
  Step-IsHeld (schedule_chosen w hour minute days) h = IsHeld-same h refl refl refl

  -- From a new wizard on, whatever is clicked and whatever the Pico, Notepad and the clipboard do,
  -- the wizard stays in its first two steps and never calls `on_complete`.
  pub Reach-IsHeld :
      (port : Option Text) (s : W.State) (w : Wizard) → Reach (new_wizard W D port s).0 w → IsHeld w
  Reach-IsHeld port s w r = along r (new_wizard-IsHeld port s)
    where
      along : {u v : Wizard} → Reach u v → IsHeld u → IsHeld v
      along here h = h
      along (further r st) h = Step-IsHeld st (along r h)
