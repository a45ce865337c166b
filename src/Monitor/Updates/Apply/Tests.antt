-- ===== src/Monitor/Updates/Apply/Tests.antt =====
-- A check that offers firmware.
use pywinhello.Monitor.Updates.{UpdateCheck, manifest_from_dict}
use pywinhello.Monitor.Updates.Apply.{
  apply_firmware, do_check, expected_hash, firmware_name, flash_asset, known_hash, with_manifest,
}
use pywinhello.Monitor.Updates.Loop.{IsFlashOf, Turn, apply_all, check_loop, check_loop-IsFlashOf}
use pywinhello.Prelude.{Elem, [], false, inl, none, refl, some, true, ◌∷◌}
use pywinhello.Prelude.Dict.{lookup}
use pywinhello.Prelude.Result.{err, ok, os_error}
use pywinhello.Prelude.Text.{codes, text_eq}
use pywinhello.Prelude.Value.{end, find, find_or, str, truthy}

-- A check that offers firmware for one device type.
abbrev firmware_check : UpdateCheck
firmware_check = record {
  has_software_update = false;
  has_firmware_update = true;
  manifest = some (manifest_from_dict end);
  assets = (codes "firmware_rp2040.uf2", str (codes "url")) ∷ [];
  error = none;
}

-- A check at the start that offers firmware, and a turn that is stopped.
abbrev stopped_turn : Turn
stopped_turn = record { set_before = false; set_after = true; result = err os_error }

check_loop-IsFlashOf_example :
    (c : UpdateCheck) × Elem (ok c) (check_loop (ok firmware_check) (stopped_turn ∷ []))
    × IsFlashOf true (codes "rp2040") c (str (codes "url")) none (str (codes "0.0.0"))
unfolding do_check with_manifest apply_firmware flash_asset firmware_name expected_hash known_hash
    manifest_from_dict lookup text_eq truthy find_or find apply_all check_loop
check_loop-IsFlashOf_example =
    check_loop-IsFlashOf (λ url. true) true (codes "rp2040") (ok firmware_check) (stopped_turn ∷ [])
      (str (codes "url")) none (str (codes "0.0.0")) (inl refl)
