-- ===== src/Setup/Provision.antt =====
-- The first-run set-up: pc/src/pywinhello/setup/__init__.py, firmware.py and the copy of bootsel.py. Progress
-- reports are left out.
pub mod Outcome
mod Tests
use pywinhello.Models.{BoardVariant}
use pywinhello.Prelude.{Bool, Option, [], false, if◌then◌else◌, none, some, true, ◌∷◌}
use pywinhello.Prelude.Dict.{get_or}
use pywinhello.Prelude.Exec.{Exec, pure, ◌>>=◌, ◌>>◌}
use pywinhello.Prelude.Result.{err, ok, os_error}
use pywinhello.Prelude.Text.{Text}
use pywinhello.Serial.Port.{Pyserial}
use pywinhello.Setup.{
  DetectedDevice, Media, SetupState, bootsel, detect, not_found, running_pywinhello,
  unknown_firmware,
}

-- The texts of ProvisionResult.message.
pub data SetupMessage : Type 0 where
  no_pico not_ours already_running unidentified no_firmware verified not_verified : SetupMessage

pub record ProvisionResult : Type 0 where
  pub success : Bool
  pub state : SetupState
  pub board : Option BoardVariant
  pub firmware_version : Option Text
  pub message : SetupMessage

module _ (W : Pyserial) where
  -- The dev fallback of get_firmware_path.
  fallback : Media W → BoardVariant → W.State → Option Text → Option Text
  fallback M b s (some path) = some path
  fallback M b s none = if M.exists (M.beside_package b) s then some (M.beside_package b) else none

  pub get_firmware_path : Media W → BoardVariant → Option Text → W.State → Option Text
  unfolding fallback
  get_firmware_path M b none s = fallback M b s (M.package_data b s)
  get_firmware_path M b (some dir) s =
      if M.exists (M.in_directory dir b) s
      then some (M.in_directory dir b)
      else fallback M b s (M.package_data b s)

  pub flash_uf2 : Media W → Text → Text → Exec W.State Bool
  flash_uf2 M drive path s =
      if M.exists path s
      then (do M.copy path drive; λ t. (ok true, W.sleep 5000 t)) s
      else (err os_error, s)

  refusal : SetupState → Option BoardVariant → SetupMessage → ProvisionResult
  refusal state board message = record {
    success = false;
    state = state;
    board = board;
    firmware_version = none;
    message = message;
  }

  report : SetupMessage → DetectedDevice → ProvisionResult
  report message d = record {
    success = true;
    state = d.state;
    board = d.board;
    firmware_version = d.firmware_version;
    message = message;
  }

  -- The second detection, after the flash.
  verdict_of : BoardVariant → DetectedDevice → ProvisionResult
  unfolding report refusal
  verdict_of b d = elim d.state [
    | running_pywinhello ↦ report verified d
    | _ ↦ refusal d.state (some b) not_verified
  ]

  flash_board : Media W → BoardVariant → Option Text → Option Text → Exec W.State ProvisionResult
  unfolding verdict_of
  flash_board M b drive (some path) = do
    flash_uf2 M (get_or drive []) path
    d ← detect W M
    pure (verdict_of b d)
  flash_board M b drive none = pure (refusal bootsel (some b) no_firmware)

  -- Path(firmware_dir) if firmware_dir else None
  searched : Option Text → Option Text
  searched (some (c ∷ dir)) = some (c ∷ dir)
  searched _ = none

  -- What `provision` does in BOOTSEL mode.
  provision_bootsel : Media W → Option Text → DetectedDevice → Exec W.State ProvisionResult
  unfolding flash_board searched
  provision_bootsel M dir d s = elim d.board [
    | none ↦ (ok (refusal bootsel none unidentified), s)
    | some b ↦ flash_board M b d.drive (get_firmware_path M b (searched dir) s) s
  ]

  -- `provision` after the first detection.
  provision_for : Media W → Option Text → DetectedDevice → SetupState → Exec W.State ProvisionResult
  unfolding provision_bootsel
  provision_for M dir d not_found = pure (refusal not_found none no_pico)
  provision_for M dir d unknown_firmware = pure (refusal unknown_firmware d.board not_ours)
  provision_for M dir d running_pywinhello = pure (report already_running d)
  provision_for M dir d bootsel = provision_bootsel M dir d

  pub provision : Media W → Option Text → Exec W.State ProvisionResult
  unfolding provision_for
  provision M dir = do d ← detect W M; provision_for M dir d d.state
