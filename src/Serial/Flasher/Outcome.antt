-- ===== src/Serial/Flasher/Outcome.antt =====
-- When `flash_firmware` and `flash_and_verify` report success, and what they do otherwise.
use pywinhello.Serial.Link
use pywinhello.Prelude.{
  Bool-cases, Option, [], ap, append-nil, arith, false, inl, inr, length, none, refl, some, subst,
  true, ℕ, ◌++◌, ◌∙◌, ◌∷◌, ◌≡◌, ◌≢◌,
}
use pywinhello.Prelude.Exec.{>>=-cases, Exec, attempt-total, pure, raise}
use pywinhello.Prelude.Result.{Result, Result-cases, ok, runtime_error, timeout_error}
use pywinhello.Prelude.Text.{Text, codes, strip, text_eq, text_eq_iff}
use pywinhello.Serial.Flasher.{
  FlashResult, check_version, chunk_size, flash_and_verify, flash_content, flash_firmware,
  hash_mismatch, push_image, push_or_report, raised, remove_prefix, stream, verify,
}
use pywinhello.Serial.Flasher.Stream.{stream-Sends}
use pywinhello.Serial.Link.{SerialProtocol, flash_begin, read_line, send, show}
use pywinhello.Serial.Link.Exchange.{
  Sends, Sends-bind, Sends-if, Sends-pure, Sends-raise, quiet_bind, send-Sends,
}
use pywinhello.Serial.Port.{IsRecording, Pyserial}
use pywinhello.Serial.Protocol.{Bytes, Command, PingInfo, encode_command}

module _ (W : Pyserial) (sha256 : Bytes → Text) (p : SerialProtocol W)
    (on_progress : ℕ → ℕ → Exec W.State (Unit {0})) where
  abbrev flash_file : Option (Result Bytes) → Option Text → Exec W.State FlashResult
  flash_file = flash_firmware W sha256 p on_progress

  abbrev flash_checked :
      Option (Result Bytes) → Option Text → Option Text → Exec W.State FlashResult
  flash_checked = flash_and_verify W sha256 p on_progress

  push_or_report-total :
      (image : Bytes) (s : W.State)
      → (r : FlashResult) × ((push_or_report W sha256 p on_progress image s).0 ≡ ok r)
  unfolding push_or_report
  push_or_report-total image s =
      attempt-total (push_image W sha256 p on_progress image)
        (λ e. pure (record {
          success = false;
          size = length image;
          sha256 = sha256 image;
          error = some (raised e);
        }))
        s (λ e t. (_, refl))

  -- A readable image is never answered by an exception: the outcome is always a result.
  pub flash_firmware_total :
      (image : Bytes) (hash : Option Text) (s : W.State)
      → (r : FlashResult) × ((flash_file (some (ok image)) hash s).0 ≡ ok r)
  unfolding flash_firmware flash_content
  flash_firmware_total image none s = push_or_report-total image s
  flash_firmware_total image (some hash) s =
      elim (Bool-cases (text_eq (sha256 image) (remove_prefix hash (codes "sha256:")))) [
        | inl same ↦ rw same (push_or_report-total image s)
        | inr other ↦ rw other (_, refl)
      ]

  -- With an expected hash that the image does not have, nothing is sent: the state is untouched
  -- and the result is a failure that names both hashes.
  pub flash_firmware_refuses :
      (image : Bytes) (hash : Text) (s : W.State)
      → sha256 image ≢ remove_prefix hash (codes "sha256:")
      → flash_file (some (ok image)) (some hash) s ≡ (
        ok (record {
          success = false;
          size = length image;
          sha256 = sha256 image;
          error = some (hash_mismatch (remove_prefix hash (codes "sha256:")) (sha256 image));
        }),
        s,
      )
  unfolding flash_firmware flash_content
  flash_firmware_refuses image hash s h =
      ground (arith, text_eq_iff (sha256 image) (remove_prefix hash (codes "sha256:")))

  version_read :
      (a : FlashResult) (version : Text) (t : W.State) (r : FlashResult)
      → (check_version W sha256 p on_progress a version t).0 ≡ ok r
      → r.success ≡ true
      → (info : PingInfo) × (a ≡ r)
        × ((Link.ping W p t).0 ≡ ok info)
        × (info.firmware_version ≡ version)
  unfolding check_version
  version_read a version t r h k = elim (Result-cases (Link.ping W p t).0) [
    | inl (info, e) ↦ (
      info,
      ground (arith, text_eq_iff info.firmware_version version),
      e,
      ground (arith, text_eq_iff info.firmware_version version),
    )
    | inr (c, e) ↦ absurd (ground arith)
  ]

  verify_success :
      (a : FlashResult) (version : Text) (t : W.State) (r : FlashResult)
      → (verify W sha256 p on_progress a (some version) t).0 ≡ ok r
      → r.success ≡ true
      → (info : PingInfo) × (a ≡ r)
        × ((Link.ping W p (W.sleep 5000 t)).0 ≡ ok info)
        × (info.firmware_version ≡ version)
  unfolding verify
  verify_success a version t r h k = elim (Bool-cases a.success) [
    | inl good ↦ version_read a version (W.sleep 5000 t) r (ground arith) k
    | inr bad ↦ absurd (ground arith)
  ]

  -- Success with an expected version means that the flash had succeeded and that the PING sent
  -- after the reboot delay was answered with that version.
  pub flash_and_verify_success :
      (file : Option (Result Bytes)) (hash : Option Text) (version : Text) (s : W.State)
      (r : FlashResult)
      → (flash_checked file hash (some version) s).0 ≡ ok r
      → r.success ≡ true
      → (info : PingInfo) × ((flash_file file hash s).0 ≡ ok r)
        × ((Link.ping W p (W.sleep 5000 (flash_file file hash s).1)).0 ≡ ok info)
        × (info.firmware_version ≡ version)
  unfolding flash_and_verify
  flash_and_verify_success file hash version s r h k =
      elim (>>=-cases (flash_file file hash) (λ a. verify W sha256 p on_progress a (some version))
        s) [
          | inl (a, ha, e) ↦
              let (info, same, pinged, read) =
                verify_success a version (flash_file file hash s).1 r (rw (← e) h) k in
              (info, ha ∙ ap ok same, pinged, read)
          | inr (c, hc, e) ↦ cc
        ]

module _ (W : Pyserial) (sent : W.State → Bytes) (R : IsRecording W sent) (sha256 : Bytes → Text)
    (p : SerialProtocol W) (on_progress : ℕ → ℕ → Exec W.State (Unit {0}))
    (quiet : (i n : ℕ) (s : W.State) → sent (on_progress i n s).1 ≡ sent s) (image frame : Bytes)
    (framed : encode_command Command.flash (some (show (length image))) ≡ ok frame) where
  flash_begin-Sends : Sends W sent (flash_begin W p (length image)) frame
  unfolding flash_begin
  flash_begin-Sends = subst (Sends W sent _) (append-nil frame) (
      Sends-bind W sent (send W p Command.flash (some (show (length image)))) _ frame []
        (send-Sends W sent R p Command.flash (some (show (length image))) frame framed)
        λ r.
          Sends-if W sent (text_eq (strip r.raw) (codes "READY")) (pure r) (raise runtime_error) []
            (Sends-pure W sent r) (Sends-raise W sent runtime_error []))

  read_line-Sends : Sends W sent (read_line W p 30000) []
  unfolding read_line
  read_line-Sends =
      quiet_bind W sent (W.set_timeout p.serial 30000) _ [] (R.set_timeout_keeps p.serial 30000)
        λ _. quiet_bind W sent (W.readline p.serial) _ [] (R.readline_keeps p.serial) (elim [
          | [] ↦ Sends-raise W sent timeout_error []
          | b ∷ bs ↦ Sends-pure W sent (strip (W.decode (b ∷ bs)))
        ])

  push_image-Sends : Sends W sent (push_image W sha256 p on_progress image) (frame ++ image)
  unfolding push_image
  push_image-Sends =
      Sends-bind W sent (flash_begin W p (length image)) _ frame image flash_begin-Sends λ _.
        subst (Sends W sent _) (append-nil image) (
          Sends-bind W sent
            (stream W p on_progress (length image) chunk_size (length image) 0 image) _ image []
            (stream-Sends W sent R p on_progress quiet (length image) chunk_size (omega arith)
              (length image) 0 image (omega arith) (omega arith))
            λ _.
              Sends-bind W sent (read_line W p 30000) _ [] [] read_line-Sends
                λ line. Sends-pure W sent _)

  push_or_report-sent :
      (s : W.State) (r : FlashResult)
      → (push_or_report W sha256 p on_progress image s).0 ≡ ok r
      → r.success ≡ true
      → sent (push_or_report W sha256 p on_progress image s).1 ≡ sent s ++ (frame ++ image)
  unfolding push_or_report
  push_or_report-sent s r h k = elim (Result-cases (push_image W sha256 p on_progress image s).0) [
    | inl (a, e) ↦ ground (arith, push_image-Sends.at s a e)
    | inr (c, e) ↦ absurd (ground arith)
  ]

  -- With a progress callback that writes nothing, a flash that reports success has written, after the line
  -- of the FLASH command with the size, exactly the image: every byte once and in order.
  pub flash_firmware-sent :
      (hash : Option Text) (s : W.State) (r : FlashResult)
      → (flash_firmware W sha256 p on_progress (some (ok image)) hash s).0 ≡ ok r
      → r.success ≡ true
      → sent (flash_firmware W sha256 p on_progress (some (ok image)) hash s).1
        ≡ sent s ++ (frame ++ image)
  unfolding flash_firmware flash_content
  flash_firmware-sent none s r h k = push_or_report-sent s r h k
  flash_firmware-sent (some hash) s r h k =
      elim (Bool-cases (text_eq (sha256 image) (remove_prefix hash (codes "sha256:")))) [
        | inl same ↦ rw same (push_or_report-sent s r (rw same at h) k)
        | inr other ↦ absurd (ground arith)
      ]
