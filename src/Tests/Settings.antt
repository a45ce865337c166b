-- ===== src/Tests/Settings.antt =====
-- The settings panel, the wizard and the waits at concrete inputs.
use pywinhello.Dialog.{Win32, appears, disappears, wait_for_dialog, wait_for_dismiss}
use pywinhello.Dialog.Waiting.{IsClock, waits-Ended}
use pywinhello.Gui.Constants.{day_keys}
use pywinhello.Gui.Settings.Advanced.{
  Floats, IsKept, TimingParam, Within, int_value, int_value-Within,
}
use pywinhello.Gui.Settings.Basic.{get_schedule, schedule_vars}
use pywinhello.Gui.Settings.Basic.Schedule.{schedule_vars-get_schedule, vars_of}
use pywinhello.Gui.Steps.Desktop.{Desktop}
use pywinhello.Gui.Steps.DeviceStep.{Disks}
use pywinhello.Gui.Wizard.{Wizard, go_next, new_wizard}
use pywinhello.Gui.Wizard.Progress.{IsHeld, Reach-IsHeld, further, here, next_clicked}
use pywinhello.Polling.Ended.{Ended}
use pywinhello.Prelude.{
  [], arith, false, if◌then◌else◌, inl, ltb, none, refl, some, true, ℕ, ◌+◌, ◌≡◌,
}
use pywinhello.Prelude.Exec.{pure}
use pywinhello.Prelude.Int.{ltb_ℤ, pos}
use pywinhello.Prelude.Result.{ok}
use pywinhello.Prelude.Text.{Text, codes, strip, text_eq}
use pywinhello.Prelude.Text.Split.{parse_int}
use pywinhello.Prelude.Value.{end, field, int}
use pywinhello.Tests.Bench.{bench, flash_bench}

schedule_vars-get_schedule_example :
    schedule_vars (
      field
        (codes "schedule")
        (get_schedule (record {
          hour = codes "07";
          minute = codes "45";
          days = vars_of (λ k. text_eq k (codes "sun")) day_keys;
        }))
        end)
    ≡ ok (record {
      hour = codes "07";
      minute = codes "45";
      days = vars_of (λ k. text_eq k (codes "sun")) day_keys;
    })
schedule_vars-get_schedule_example =
    schedule_vars-get_schedule (codes "07") (codes "45") (λ k. text_eq k (codes "sun")) end
      (grind arith) (grind arith)

-- Numbers with no fraction, as a stand-in for float.
abbrev whole_floats : Floats
whole_floats = record {
  Float = ℕ;
  lt = ltb;
  parse = λ s. none;
  to_value = λ n. int (pos n);
  default_wait = 1;
  min_wait = 0;
  max_wait = 3;
}

abbrev typed_99 : Text → Text
typed_99 key = codes "99"

abbrev retry_row : TimingParam
retry_row = record { cfg_key = codes "boot_wait"; default = 45; min_val = 30; max_val = 90 }

int_value-Within_example :
    Within ltb_ℤ (pos 30) (pos 90) (int_value retry_row (codes "99"))
    × IsKept retry_row (parse_int (strip (codes "99"))) (int_value retry_row (codes "99"))
int_value-Within_example = int_value-Within retry_row (codes "99") (inl refl)

-- A clock whose reading is the state; the dialog is there from the second second on.
abbrev clock : Win32
clock = record {
  State = ℕ;
  find_window = λ s. (if ltb s 1000 then 0 else 7, s);
  get_foreground = λ s. (7, s);
  thread_of = λ h s. (1, s);
  current_thread = λ s. (2, s);
  attach_input = λ a b f s. (true, s);
  bring_to_top = λ h s. s;
  show_window = λ h s. s;
  set_foreground = λ h s. (true, s);
  owner_of = λ h s. (0, s);
  pid_of = λ h s. (0, s);
  open_process = λ p s. (0, s);
  image_name = λ h s. (none, s);
  close_handle = λ h s. s;
  monotonic = λ s. s;
  sleep = λ t s. s + t;
}

clock-IsClock : IsClock clock
clock-IsClock = record { sleep_takes = λ t s. omega arith; find_keeps = λ s. omega arith }

waits-Ended_example :
    Ended (appears clock 500) 10000 (clock.monotonic 0) (wait_for_dialog clock 10000 500 0)
    × Ended (disappears clock 500) 10000 (clock.monotonic 0) (wait_for_dismiss clock 10000 500 0)
waits-Ended_example = waits-Ended clock 500 10000 0 clock-IsClock (omega arith)

abbrev no_disks : Disks bench
no_disks = record {
  drive_exists = λ d. pure false;
  volume_label = λ d. pure none;
  bundled_uf2 = pure [];
  packaged_uf2 = pure [];
  copy_to = λ d p. pure tt;
}

abbrev bench_desktop : Desktop bench
bench_desktop = record {
  open_notepad = pure tt;
  open_clipboard = pure tt;
  clipboard_data = pure (some (codes "pywinhello test"));
  close_clipboard = pure tt;
  empty_clipboard = pure tt;
  put_clipboard = λ text. pure tt;
}

abbrev first_step : Wizard
first_step = (new_wizard bench no_disks (some (codes "COM3")) flash_bench).0

Reach-IsHeld_example :
    IsHeld bench no_disks bench_desktop (go_next bench no_disks (first_step, flash_bench)).0
Reach-IsHeld_example =
    Reach-IsHeld bench no_disks bench_desktop (some (codes "COM3")) flash_bench
      (go_next bench no_disks (first_step, flash_bench)).0
      (further here (next_clicked first_step flash_bench))
