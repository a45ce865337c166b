-- ===== src/Monitor/Updates.antt =====
-- Updates: pc/src/pywinhello/monitor/updater.py. The network, the cache file and the file system are
-- the states that the functions take and give back.
pub mod Download
pub mod Checks
pub mod Renames
pub mod Apply
pub mod Loop
pub mod Cache
pub mod Firmware
mod Tests
use pywinhello.Monitor.Versions.{compare_versions}
use pywinhello.Prelude.{
  Bool, List, Option, [], false, if◌then◌else◌, none, not, some, ℕ, ◌&&◌, ◌==◌, ◌||◌, ◌∷◌,
}
use pywinhello.Prelude.Dict.{Dict, insert, is_some}
use pywinhello.Prelude.Int.{ltb_ℤ, pos}
use pywinhello.Prelude.Result.{Error, Result, attribute_error, err, ok, type_error, ◌>>=◌}
use pywinhello.Prelude.Text.{Text, codes, text_eq}
use pywinhello.Prelude.Value.{
  Fields, Value, arr, boolean, find_or, get_field, int, iterate, nil, obj, str, truthy,
}

pub record ReleaseManifest : Type 0 where
  pub version : Value
  pub software_version : Value
  pub firmware_version : Value
  pub firmware_hash_rp2040 : Value
  pub firmware_hash_rp2350 : Value
  pub changelog_en : Value
  pub changelog_ja : Value
  pub force_update : Value
  pub min_protocol_version : Value

pub manifest_from_dict : Fields → ReleaseManifest
manifest_from_dict fs =
    let version = find_or (codes "version") (str (codes "0.0.0")) fs in
    record {
      version = version;
      software_version = find_or (codes "software_version") version fs;
      firmware_version = find_or (codes "firmware_version") (str (codes "0.0.0")) fs;
      firmware_hash_rp2040 = find_or (codes "firmware_hash_rp2040") (str []) fs;
      firmware_hash_rp2350 = find_or (codes "firmware_hash_rp2350") (str []) fs;
      changelog_en = find_or (codes "changelog_en") (str []) fs;
      changelog_ja = find_or (codes "changelog_ja") (str []) fs;
      force_update = find_or (codes "force_update") (boolean false) fs;
      min_protocol_version = find_or (codes "min_protocol_version") (int (pos 2)) fs;
    }

pub data CheckError : Type 0 where
  no_releases : CheckError
  api_error : ℕ → CheckError
  network_error invalid_json no_manifest bad_manifest : CheckError

pub record UpdateCheck : Type 0 where
  pub has_software_update : Bool
  pub has_firmware_update : Bool
  pub manifest : Option ReleaseManifest
  pub assets : Dict Value
  pub error : Option CheckError

abbrev pub no_update : UpdateCheck
no_update = record {
  has_software_update = false;
  has_firmware_update = false;
  manifest = none;
  assets = [];
  error = none;
}

-- How `urlopen` of the releases page and the read of its body end.
pub data Reply : Type 0 where
  page : Option Text → Text → Reply
  http_error : ℕ → Reply
  unreachable : Reply

-- The two requests, the JSON parser, and the cache file that may or may not be written.
pub record Network : Type 0 where
  pub releases : Option Text → Reply
  pub download : Value → Result Text
  pub loads : Text → Result Value
  pub can_save : Bool

-- The header is sent only where there is a tag.
pub asked : Option Text → Option Text
asked none = none
asked (some []) = none
asked (some (c ∷ s)) = some (c ∷ s)

-- _save_etag, where the reply has one: the cached tag afterwards
saved : Network → Option Text → Option Text → Option Text
saved net none cached = cached
saved net (some []) cached = cached
saved net (some (c ∷ s)) cached = if net.can_save then some (c ∷ s) else cached

-- The assets by name, and the URL of manifest.json. A name is a key: a text here.
abbrev Assets : Type 0
Assets = Dict Value × Option Value

collect_assets : List Value → Assets → Result Assets
collect_assets [] found = ok found
collect_assets (asset ∷ later) found = do
  name ← get_field asset (codes "name") (str [])
  url ← get_field asset (codes "browser_download_url") (str [])
  elim name [
    | str s ↦
        collect_assets later
          (insert s url found.0, if text_eq s (codes "manifest.json") then some url else found.1)
    | _ ↦ err type_error
  ]

-- compare_versions(current, offered) < 0, where `offered` has to be a text
is_older : Text → Value → Result Bool
is_older current (str s) = ok (ltb_ℤ (compare_versions current s) (pos 0))
is_older current _ = err attribute_error

is_older_known : Option Text → Value → Result Bool
is_older_known none offered = ok false
is_older_known (some current) offered = is_older current offered

compare_with_manifest : Text → Option Text → Dict Value → ReleaseManifest → Result UpdateCheck
compare_with_manifest sw fw assets m = do
  has_sw ← is_older sw m.software_version
  has_fw ← is_older_known fw m.firmware_version
  ok (record {
    has_software_update = has_sw;
    has_firmware_update = has_fw;
    manifest = some m;
    assets = assets;
    error = none;
  })

manifest_of : Value → Result ReleaseManifest
manifest_of (obj fs) = ok (manifest_from_dict fs)
manifest_of _ = err attribute_error

-- The `try` around the manifest's download and the parse of it.
fetch_manifest : Network → Value → Result ReleaseManifest
fetch_manifest net url = do body ← net.download url; parsed ← net.loads body; manifest_of parsed

failed_check : CheckError → Dict Value → UpdateCheck
failed_check e assets = record no_update { assets = assets; error = some e }

-- The manifest's `try`, and the comparison after it.
judged : Text → Option Text → Dict Value → Result ReleaseManifest → Result UpdateCheck
judged sw fw assets (ok m) = compare_with_manifest sw fw assets m
judged sw fw assets (err e) = ok (failed_check bad_manifest assets)

with_assets : Network → Text → Option Text → Assets → Result UpdateCheck
with_assets net sw fw (assets, none) = ok (failed_check no_manifest assets)
with_assets net sw fw (assets, some url) =
    if truthy url
    then judged sw fw assets (fetch_manifest net url)
    else ok (failed_check no_manifest assets)

-- From the parsed release page on. What raises here is not caught.
read_release : Network → Text → Option Text → Value → Result UpdateCheck
read_release net sw fw release = do
  listed ← get_field release (codes "assets") (arr nil)
  items ← iterate listed
  found ← collect_assets items ([], none)
  with_assets net sw fw found

-- The parsed body of a reply with status 200, or that it does not parse.
read_body : Network → Text → Option Text → Result Value → Result UpdateCheck
read_body net sw fw (ok release) = read_release net sw fw release
read_body net sw fw (err e) = ok (failed_check invalid_json [])

-- The statuses that `urlopen` raises.
http_failure : ℕ → UpdateCheck
http_failure code =
    if code == 304
    then no_update
    else if code == 404
    then failed_check no_releases []
    else failed_check (api_error code) []

after_reply : Network → Text → Option Text → Option Text → Reply → Result UpdateCheck × Option Text
after_reply net sw fw cached unreachable = (ok (failed_check network_error []), cached)
after_reply net sw fw cached (http_error code) = (ok (http_failure code), cached)
after_reply net sw fw cached (page tag body) =
    (read_body net sw fw (net.loads body), saved net tag cached)

-- check_for_updates for the installed versions, with the tag that the cache file holds
-- before and after.
pub check_for_updates :
    Network → Text → Option Text → Option Text → Result UpdateCheck × Option Text
check_for_updates net sw fw cached = after_reply net sw fw cached (net.releases (asked cached))
