-- ===== src/Monitor/Updates/Tests.antt =====
-- Checks for updates and the renames at a start.
use pywinhello.Monitor.Updates.{
  Network, Reply, UpdateCheck, after_reply, asked, check_for_updates, collect_assets,
  compare_with_manifest, fetch_manifest, http_error, is_older, is_older_known, judged,
  manifest_from_dict, manifest_of, no_update, page, read_body, read_release, saved, with_assets,
}
use pywinhello.Monitor.Updates.Checks.{
  IsSoundCheck, check_for_updates-IsSound, check_for_updates_again,
}
use pywinhello.Monitor.Updates.Renames.{Faults, Files, cleanup-keeps, cleanup_old_update}
use pywinhello.Monitor.Versions.{compare_tuples, compare_versions, parse_version, tuple_lt}
use pywinhello.Prelude.{Option, [], ap, false, if◌then◌else◌, none, refl, some, true, ◌∷◌, ◌≡◌, ◌⊎◌}
use pywinhello.Prelude.Dict.{insert}
use pywinhello.Prelude.Result.{ok}
use pywinhello.Prelude.Text.{Text, codes, is_space, strip, text_eq}
use pywinhello.Prelude.Text.Split.{parse_int, split}
use pywinhello.Prelude.Value.{
  Value, arr, cons, end, field, find, find_or, get_field, iterate, nil, obj, str, truthy,
}

-- A release with one asset, the manifest.
abbrev release_page : Value
release_page = obj (
    field (codes "assets")
      (arr (
        cons
          (obj (
            field (codes "name") (str (codes "manifest.json"))
              (field (codes "browser_download_url") (str (codes "url")) end)))
          nil))
      end)

abbrev manifest_page : Value
manifest_page = obj (field (codes "software_version") (str (codes "2.0.0")) end)

-- The releases are not asked for again while the tag is known.
abbrev releases_page : Option Text → Reply
releases_page none = page (some (codes "t1")) (codes "page")
releases_page (some tag) = http_error 304

abbrev test_network : Network
test_network = record {
  releases = releases_page;
  download = λ url. ok (codes "manifest");
  loads = λ s. ok (if text_eq s (codes "page") then release_page else manifest_page);
  can_save = true;
}

abbrev expected_check : UpdateCheck
expected_check = record {
  has_software_update = true;
  has_firmware_update = false;
  manifest = some (manifest_from_dict (field (codes "software_version") (str (codes "2.0.0")) end));
  assets = (codes "manifest.json", str (codes "url")) ∷ [];
  error = none;
}

check_for_updates-IsSound_example : IsSoundCheck (codes "1.0.0") none expected_check
unfolding check_for_updates after_reply asked saved read_body read_release with_assets judged
    collect_assets compare_with_manifest is_older is_older_known fetch_manifest manifest_of
    manifest_from_dict find find_or get_field iterate truthy insert text_eq compare_versions
    compare_tuples tuple_lt parse_version split parse_int strip is_space
check_for_updates-IsSound_example =
    check_for_updates-IsSound test_network (codes "1.0.0") none none expected_check refl

check_for_updates_again_example :
    (check_for_updates test_network
      (codes "1.0.0")
      none
      (check_for_updates test_network (codes "1.0.0") none none).1).0
    ≡ ok no_update
unfolding asked
check_for_updates_again_example =
    ap (λ r. r.0)
      (check_for_updates_again test_network (codes "1.0.0") none none b't' (codes "1")
        (codes "page") refl refl refl)

abbrev staged_files : Files
staged_files = record {
  exe = some (codes "v1");
  exe_old = some (codes "v0");
  exe_new = some (codes "v2");
}

-- The old program is still in use.
abbrev locked_old : Faults
locked_old = record { unlink_old = true; rename_exe = false; rename_new = false }

abbrev no_faults : Faults
no_faults = record { unlink_old = false; rename_exe = false; rename_new = false }

cleanup-keeps_example :
    ((cleanup_old_update true locked_old staged_files).exe ≡ some (codes "v1"))
    ⊎ ((cleanup_old_update true locked_old staged_files).exe_old ≡ some (codes "v1"))
cleanup-keeps_example = cleanup-keeps true locked_old staged_files (codes "v1") refl
