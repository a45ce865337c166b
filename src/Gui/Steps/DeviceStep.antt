-- ===== src/Gui/Steps/DeviceStep.antt =====
-- pc/src/pywinhello/gui/wizard/step_device.py: detection of a Pico and the copy of its firmware.
use pywinhello.Prelude.{
  Bool, List, Option, [], false, if◌then◌else◌, map, none, some, suc, true, zero, ℕ, ◌∷◌,
}
use pywinhello.Prelude.Exec.{Exec, attempt, pure, ◌>>=◌, ◌>>◌}
use pywinhello.Prelude.Result.{Result, err, ok}
use pywinhello.Prelude.Text.{Text, codes, text_eq}
use pywinhello.Serial.Device.{
  DeviceInfo, PicoDevice, connect, disconnect, is_connection_error, new_device,
}
use pywinhello.Serial.Port.{Pyserial}

pub data DeviceStatus : Type 0 where
  detecting bootsel_found com_found not_found flashing flash_failed waiting_reboot : DeviceStatus

pub record DeviceStep : Type 0 where
  pub detected : Bool
  pub device_type : Option Text
  pub fw_version : Option Text
  pub port : Option Text
  pub status : DeviceStatus

-- The state that `build` sets.
abbrev pub new_device_step : DeviceStep
new_device_step = record {
  detected = false;
  device_type = none;
  fw_version = none;
  port = none;
  status = detecting;
}

-- port, device_type and firmware_version
pub record FoundPico : Type 0 where
  pub port : Text
  pub device_type : Text
  pub firmware_version : Text

abbrev drive_paths : List Text
drive_paths = map (λ c. c ∷ codes ":\\") (codes "ABCDEFGHIJKLMNOPQRSTUVWXYZ")

-- result and vol_buf.value == _BOOTSEL_LABEL; `none` is a result of 0.
is_bootsel_label : Option Text → Bool
is_bootsel_label none = false
is_bootsel_label (some label) = text_eq label (codes "RPI-RP2")

-- value or default
or_text : Text → Text → Text
or_text [] d = d
or_text (c ∷ s) d = c ∷ s

on_detect : DeviceStep → DeviceStep
on_detect st = record st { status = detecting }

show_bootsel : DeviceStep → DeviceStep
show_bootsel st = record st { detected = false; status = bootsel_found }

show_com_found : FoundPico → DeviceStep → DeviceStep
unfolding or_text
show_com_found f st = record {
  detected = true;
  device_type = some (or_text f.device_type (codes "Pico"));
  fw_version = some (or_text f.firmware_version (codes "unknown"));
  port = some f.port;
  status = com_found;
}

show_not_found : DeviceStep → DeviceStep
show_not_found st = record st { detected = false; status = not_found }

with_status : DeviceStatus → DeviceStep → DeviceStep
with_status v st = record st { status = v }

module _ (W : Pyserial) where
  -- Drives and firmware files: Path.exists, GetVolumeInformationW, the .uf2 files beside the
  -- package and in its data, and shutil.copy2 to a drive.
  pub record Disks : Type 0 where
    pub drive_exists : Text → Exec W.State Bool
    pub volume_label : Text → Exec W.State (Option Text)
    pub bundled_uf2 : Exec W.State (List Text)
    pub packaged_uf2 : Exec W.State (List Text)
    pub copy_to : Text → Text → Exec W.State (Unit {0})

  -- What a drive that is there says of itself.
  check_label : Disks → Text → Exec W.State (Option Text) → Exec W.State (Option Text)
  unfolding is_bootsel_label
  check_label D d later = do
    label ← D.volume_label d
    if is_bootsel_label label then pure (some d) else later

  first_bootsel : Disks → List Text → Exec W.State (Option Text)
  unfolding check_label
  first_bootsel D [] = pure none
  first_bootsel D (d ∷ drives) =
      let later = first_bootsel D drives in
      do there ← D.drive_exists d; if there then check_label D d later else later

  -- An exception is as no drive.
  unfoldable pub find_bootsel_drive : Disks → Exec W.State (Option Text)
  unfolding first_bootsel
  find_bootsel_drive D = attempt (first_bootsel D drive_paths) (λ e. pure none)

  -- The device is disconnected again, except after a ConnectionError.
  release : Result DeviceInfo × PicoDevice W × W.State → Option FoundPico × W.State
  release (ok i, d, s) = (
    some (record {
      port = i.port;
      device_type = i.ping_info.device_type;
      firmware_version = i.ping_info.firmware_version;
    }),
    (disconnect W d s).1,
  )
  release (err e, d, s) = (none, if is_connection_error e then s else (disconnect W d s).1)

  unfoldable pub find_pico_com : W.State → Option FoundPico × W.State
  unfolding release
  find_pico_com s = release (connect W (new_device W none) s)

  after_com : DeviceStep → Option FoundPico × W.State → DeviceStep × W.State
  unfolding show_com_found show_not_found
  after_com st (some f, s) = (show_com_found f st, s)
  after_com st (none, s) = (show_not_found st, s)

  after_drive : DeviceStep → Result (Option Text) → W.State → DeviceStep × W.State
  unfolding after_com show_bootsel
  after_drive st (ok (some drive)) s = (show_bootsel st, s)
  after_drive st _ s = after_com st (find_pico_com s)

  -- `_on_detect` and its thread.
  unfoldable pub detect : Disks → DeviceStep → W.State → DeviceStep × W.State
  unfolding after_drive on_detect
  detect D st s = after_drive (on_detect st) (find_bootsel_drive D s).0 (find_bootsel_drive D s).1

  -- The wait for the reboot, over the rounds left.
  await_reboot : ℕ → W.State → Option FoundPico × W.State
  await_reboot zero s = (none, s)
  await_reboot (suc rounds) s =
      let r = find_pico_com (W.sleep 1000 s) in
      elim r.0 [ some f ↦ r | none ↦ await_reboot rounds r.1 ]

  firmware_files : Disks → Exec W.State (List Text)
  firmware_files D = do
    files ← D.bundled_uf2
    elim files [ [] ↦ attempt D.packaged_uf2 (λ e. pure []) | f ∷ fs ↦ pure (f ∷ fs) ]

  -- The copy and the wait for the reboot; `none` where there is no drive, no file or no Pico.
  copy_and_wait : Disks → Option Text → Exec W.State (Option FoundPico)
  unfolding firmware_files await_reboot
  copy_and_wait D none = pure none
  copy_and_wait D (some drive) = do
    files ← firmware_files D
    elim files [
      | [] ↦ pure none
      | f ∷ fs ↦ (do D.copy_to f drive; λ s. (ok (await_reboot 30 s).0, (await_reboot 30 s).1))
    ]

  after_flash : DeviceStep → Result (Option FoundPico) → DeviceStep
  unfolding show_com_found with_status
  after_flash st (ok (some f)) = show_com_found f st
  after_flash st _ = with_status flash_failed st

  -- `_on_flash` and its thread: every failure shows the same message.
  unfoldable pub flash : Disks → DeviceStep → W.State → DeviceStep × W.State
  unfolding after_flash copy_and_wait with_status
  flash D st s =
      let r = (do drive ← find_bootsel_drive D; copy_and_wait D drive) s in
      (after_flash (with_status flashing st) r.0, r.1)
