-- ===== src/Monitor/Updates/Firmware.antt =====
-- `apply_firmware_update` of pc/src/pywinhello/monitor/updater.py: the update of the Pico's firmware over the link.
use pywinhello.Serial.Link
use pywinhello.Prelude.{Bool, Bool-cases, Option, arith, inl, inr, length, some, true, ℕ, ◌++◌, ◌≡◌}
use pywinhello.Prelude.Exec.{>>=-cases, Exec, pure, ◌>>=◌}
use pywinhello.Prelude.Result.{Result, ok}
use pywinhello.Prelude.Text.{Text, codes, text_eq, text_eq_iff}
use pywinhello.Serial.Flasher.{FlashResult, flash_and_verify, flash_firmware, remove_prefix}
use pywinhello.Serial.Flasher.Outcome.{
  flash_and_verify_success, flash_firmware-sent, flash_firmware_refuses,
}
use pywinhello.Serial.Link.{SerialProtocol, show}
use pywinhello.Serial.Port.{IsRecording, Pyserial}
use pywinhello.Serial.Protocol.{Bytes, Command, PingInfo, encode_command}

module _ (W : Pyserial) (sha256 : Bytes → Text) (p : SerialProtocol W)
    (on_progress : ℕ → ℕ → Exec W.State (Unit {0})) where
  unfoldable pub apply_firmware_update :
      Option (Result Bytes) → Option Text → Option Text → Exec W.State Bool
  apply_firmware_update file hash version = do
    result ← flash_and_verify W sha256 p on_progress file hash version
    pure result.success

  -- An image that is flashed with an expected hash has it.
  flash_firmware-hash :
      (image : Bytes) (hash : Text) (s : W.State) (r : FlashResult)
      → (flash_firmware W sha256 p on_progress (some (ok image)) (some hash) s).0 ≡ ok r
      → r.success ≡ true
      → sha256 image ≡ remove_prefix hash (codes "sha256:")
  flash_firmware-hash image hash s r h k =
      elim (Bool-cases (text_eq (sha256 image) (remove_prefix hash (codes "sha256:")))) [
        | inl same ↦ (text_eq_iff (sha256 image) (remove_prefix hash (codes "sha256:"))).0 same
        | inr other ↦ absurd (
            ground (
              arith,
              text_eq_iff (sha256 image) (remove_prefix hash (codes "sha256:")),
              flash_firmware_refuses W sha256 p on_progress image hash s,
            ))
      ]

  -- The result behind an update that is reported as applied.
  applied :
      (file : Option (Result Bytes)) (hash version : Option Text) (s : W.State)
      → (apply_firmware_update file hash version s).0 ≡ ok true
      → (r : FlashResult) × ((flash_and_verify W sha256 p on_progress file hash version s).0 ≡ ok r)
        × (r.success ≡ true)
  unfolding apply_firmware_update
  applied file hash version s h =
      elim (>>=-cases (flash_and_verify W sha256 p on_progress file hash version)
        (λ r. pure r.success) s) [
          | inl (r, e, same) ↦ (r, e, ground (arith, same))
          | inr (c, e, same) ↦ absurd (ground (arith, same))
        ]

-- With a progress callback that writes nothing, a firmware update with a hash and a version that is reported as
-- applied has flashed an image with that hash, every byte of it once and in order behind the FLASH
-- line with its size, and the PING sent after the reboot delay was answered with that version.
pub apply_firmware_update-sent :
    (W : Pyserial) (sent : W.State → Bytes) (R : IsRecording W sent) (sha256 : Bytes → Text)
    (p : SerialProtocol W) (on_progress : ℕ → ℕ → Exec W.State (Unit {0}))
    (quiet : (i n : ℕ) (s : W.State) → sent (on_progress i n s).1 ≡ sent s) (image frame : Bytes)
    (framed : encode_command Command.flash (some (show (length image))) ≡ ok frame)
    (hash version : Text) (s : W.State)
    → (apply_firmware_update W sha256 p on_progress
        (some (ok image))
        (some hash)
        (some version)
        s).0
      ≡ ok true
    → (flashed : W.State) × (info : PingInfo) × (sha256 image
        ≡ remove_prefix hash (codes "sha256:"))
      × (sent flashed ≡ sent s ++ (frame ++ image))
      × ((Link.ping W p (W.sleep 5000 flashed)).0 ≡ ok info)
      × (info.firmware_version ≡ version)
apply_firmware_update-sent W sent R sha256 p on_progress quiet image frame framed hash version s h =
    let (r, e, good) =
      applied W sha256 p on_progress (some (ok image)) (some hash) (some version) s h in
    let (info, flashed, pinged, named) =
      flash_and_verify_success W sha256 p on_progress (some (ok image)) (some hash) version s r e
        good in
    (
      (flash_firmware W sha256 p on_progress (some (ok image)) (some hash) s).1,
      info,
      flash_firmware-hash W sha256 p on_progress image hash s r flashed good,
      flash_firmware-sent W sent R sha256 p on_progress quiet image frame framed (some hash) s r
          flashed good,
      pinged,
      named,
    )
