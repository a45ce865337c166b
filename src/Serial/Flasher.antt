-- ===== src/Serial/Flasher.antt =====
-- Firmware push: pc/src/pywinhello/serial/flasher.py. Paths and elapsed times are left out of
-- `FlashResult`; the firmware file is what `exists` and `read_bytes` see of it.
pub mod Stream
pub mod Outcome
use pywinhello.Serial.Link
use pywinhello.Prelude.{
  Bool, Option, [], drop, false, if◌then◌else◌, length, ltb, min, none, some, suc, take, true, zero,
  ℕ, ◌+◌,
}
use pywinhello.Prelude.Exec.{Exec, attempt, lift, pure, raise, ◌>>=◌, ◌>>◌}
use pywinhello.Prelude.Result.{Error, Result, ok}
use pywinhello.Prelude.Text.{Text, codes, starts_with, text_eq}
use pywinhello.Serial.Link.{SerialProtocol, flash_begin, read_line, write_raw}
use pywinhello.Serial.Port.{Pyserial}
use pywinhello.Serial.Protocol.{Bytes, Response, parse_response}
use pywinhello.Serial.Protocol.Responses.{content}

pub data FlashError : Type 0 where
  file_not_found : FlashError
  hash_mismatch : Text → Text → FlashError
  verification_failed : Text → FlashError
  raised : Error → FlashError
  version_mismatch : Text → Text → FlashError
  post_flash_failed : Error → FlashError

pub record FlashResult : Type 0 where
  pub success : Bool
  pub size : ℕ
  pub sha256 : Text
  pub error : Option FlashError

-- s.removeprefix(prefix)
unfoldable pub remove_prefix : Text → Text → Text
remove_prefix s prefix = if starts_with s prefix then drop (length prefix) s else s

abbrev pub chunk_size : ℕ
chunk_size = 4096

module _ (W : Pyserial) where
  -- The `while sent < size` loop over the bytes not sent, on fuel.
  unfoldable pub stream :
      SerialProtocol W
      → (ℕ → ℕ → Exec W.State (Unit {0}))
      → ℕ
      → ℕ
      → ℕ
      → ℕ
      → Bytes
      → Exec W.State (Unit {0})
  stream p on_progress size chunk zero sent rest = pure tt
  stream p on_progress size chunk (suc fuel) sent rest = elim (ltb sent size) [
    | false ↦ pure tt
    | true ↦ do
      write_raw W p (take chunk rest)
      on_progress (min (sent + chunk) size) size
      stream p on_progress size chunk fuel (min (sent + chunk) size) (drop chunk rest)
  ]

  module _ (sha256 : Bytes → Text) (p : SerialProtocol W)
      (on_progress : ℕ → ℕ → Exec W.State (Unit {0})) where
    abbrev flashed : Bytes → Bool → Option FlashError → FlashResult
    flashed content success error = record {
      success = success;
      size = length content;
      sha256 = sha256 content;
      error = error;
    }

    -- The verdict on the line that the Pico sends after the image.
    unfoldable pub verdict : Bytes → Response → FlashResult
    verdict content r =
        if r.ok?
        then flashed content true none
        else flashed content false (some (verification_failed r.payload))

    -- The body of the `try`.
    unfoldable pub push_image : Bytes → Exec W.State FlashResult
    push_image content = do
      flash_begin W p (length content)
      stream p on_progress (length content) chunk_size (length content) 0 content
      line ← read_line W p 30000
      pure (verdict content (parse_response line))

    unfoldable pub push_or_report : Bytes → Exec W.State FlashResult
    push_or_report content =
        attempt (push_image content) (λ e. pure (flashed content false (some (raised e))))

    -- The hash check, then the push.
    unfoldable pub flash_content : Option Text → Bytes → Exec W.State FlashResult
    flash_content none content = push_or_report content
    flash_content (some hash) content =
        let clean = remove_prefix hash (codes "sha256:") in
        if text_eq (sha256 content) clean
        then push_or_report content
        else pure (flashed content false (some (hash_mismatch clean (sha256 content))))

    -- `none` is a path that does not exist; reading the file may raise.
    unfoldable pub flash_firmware : Option (Result Bytes) → Option Text → Exec W.State FlashResult
    flash_firmware none hash =
        pure (record { success = false; size = 0; sha256 = []; error = some file_not_found })
    flash_firmware (some file) hash = do content ← lift file; flash_content hash content

    -- The PING after the reboot; `failed` keeps size and hash of the flash.
    abbrev failed : FlashResult → FlashError → FlashResult
    failed r e = record r { success = false; error = some e }

    unfoldable pub check_version : FlashResult → Text → Exec W.State FlashResult
    check_version r version =
        attempt
          (do
            info ← Link.ping W p
            pure (
                if text_eq info.firmware_version version
                then r
                else failed r (version_mismatch version info.firmware_version)))
          (λ e. pure (failed r (post_flash_failed e)))

    unfoldable pub verify : FlashResult → Option Text → Exec W.State FlashResult
    verify r none s = (ok r, s)
    verify r (some version) s =
        if r.success then check_version r version (W.sleep 5000 s) else (ok r, s)

    unfoldable pub flash_and_verify :
        Option (Result Bytes) → Option Text → Option Text → Exec W.State FlashResult
    flash_and_verify file hash version = do r ← flash_firmware file hash; verify r version
