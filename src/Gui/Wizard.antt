-- ===== src/Gui/Wizard.antt =====
-- `SetupWizard` of pc/src/pywinhello/gui/wizard/__init__.py: the navigation between the four steps.
-- A step's thread runs to its end in one step; what the bars show is in Bars.
pub mod Progress
pub mod Bars
use pywinhello.Gui.Steps.ScheduleStep
use pywinhello.Gui.Steps.DeviceStep.{DeviceStep, Disks, detect, new_device_step}
use pywinhello.Gui.Steps.PinStep.{PinStep, new_pin_step}
use pywinhello.Gui.Steps.ScheduleStep.{ScheduleStep, get_schedule_data, new_schedule_step}
use pywinhello.Gui.Steps.TestStep.{TestStep, new_test_step}
use pywinhello.Prelude.{
  Bool, List, Option, [], false, get_elem?, if◌then◌else◌, length, ltb, none, some, suc, true, zero,
  ℕ, ◌-◌, ◌∷◌,
}
use pywinhello.Prelude.Text.{Text}
use pywinhello.Prelude.Value.{Value}
use pywinhello.Serial.Port.{Pyserial}

-- collected_data
pub record CollectedData : Type 0 where
  pub port : Option Text
  pub device_type : Option Text
  pub firmware_version : Option Text
  pub optimal_interval : Option ℕ
  pub pin_registered : Bool
  pub schedule : Option Value

pub record Wizard : Type 0 where
  pub current_index : ℕ
  pub collected_data : CollectedData
  pub device : DeviceStep
  pub test : TestStep
  pub pin : PinStep
  pub schedule : ScheduleStep
  pub completions : ℕ
  pub cancellations : ℕ

pub data StepName : Type 0 where
  device_step test_step pin_step schedule_step : StepName

-- self._steps
abbrev pub steps : List StepName
steps = device_step ∷ test_step ∷ pin_step ∷ schedule_step ∷ []

-- What step.get_data() adds to the collected data.
add_data : StepName → Wizard → CollectedData → CollectedData
add_data device_step w c = record c {
  port = w.device.port;
  device_type = w.device.device_type;
  firmware_version = w.device.fw_version;
}
add_data test_step w c = record c { optimal_interval = w.test.optimal_interval }
add_data pin_step w c = record c { pin_registered = w.pin.registered }
add_data schedule_step w c = record c { schedule = some (get_schedule_data w.schedule) }

-- collected_data.update(step.get_data())
unfoldable pub collect : StepName → Wizard → Wizard
unfolding add_data
collect step w = record w { collected_data = add_data step w w.collected_data }

module _ (W : Pyserial) (D : Disks W) where
  abbrev pub Moved : Type 0
  Moved = Wizard × W.State

  -- step.on_enter() where it does more than change the buttons.
  enter : Option StepName → Moved → Moved
  enter (some device_step) (w, s) =
      (record w { device = (detect W D w.device s).0 }, (detect W D w.device s).1)
  enter _ m = m

  unfoldable pub show_step : ℕ → Moved → Moved
  unfolding enter
  show_step index (w, s) = enter (get_elem? steps index) (record w { current_index = index }, s)

  -- SetupWizard(), with the port that the window puts in its data.
  unfoldable pub new_wizard : Option Text → W.State → Moved
  new_wizard port s = show_step 0 (
    record {
      current_index = 0;
      collected_data = record {
        port = port;
        device_type = none;
        firmware_version = none;
        optimal_interval = none;
        pin_registered = false;
        schedule = none;
      };
      device = new_device_step;
      test = new_test_step;
      pin = new_pin_step;
      schedule = new_schedule_step;
      completions = 0;
      cancellations = 0;
    },
    s,
  )

  -- step.can_proceed(); that of the last step saves the schedule.
  can_proceed : StepName → Moved → Bool × Moved
  can_proceed device_step (w, s) = (w.device.detected, (w, s))
  can_proceed test_step (w, s) = (w.test.all_passed, (w, s))
  can_proceed pin_step (w, s) = (w.pin.registered, (w, s))
  can_proceed schedule_step (w, s) =
      let r = ScheduleStep.can_proceed W w.collected_data.port w.schedule s in
      (r.0, (record w { schedule = r.1 }, r.2))

  finish : StepName → Moved → Moved
  finish step (w, s) = let v = collect step w in (record v { completions = suc v.completions }, s)

  advance : StepName → Bool × Moved → Moved
  unfolding finish
  advance step (false, m) = m
  advance step (true, (w, s)) =
      let v = collect step w in
      if ltb w.current_index (length steps - 1)
      then show_step (suc w.current_index) (v, s)
      else finish step (v, s)

  next_from : Option StepName → Moved → Moved
  unfolding can_proceed advance
  next_from none m = m
  next_from (some step) m = advance step (can_proceed step m)

  unfoldable pub go_next : Moved → Moved
  unfolding next_from
  go_next m = next_from (get_elem? steps m.0.current_index) m

  back_from : ℕ → Moved → Moved
  back_from zero m = m
  back_from (suc n) m = show_step n m

  unfoldable pub go_back : Moved → Moved
  unfolding back_from
  go_back m = back_from m.0.current_index m

  unfoldable pub cancel : Moved → Moved
  cancel (w, s) = (record w { cancellations = suc w.cancellations }, s)
