-- ===== src/Gui/Settings/VersionInfo.antt =====
-- pc/src/pywinhello/gui/settings/version_info.py: the check for a release, and the button that
-- updates the firmware. The HTTP request is a parameter.
use pywinhello.Gui.Connection.{Gui}
use pywinhello.Gui.Settings.Saving.{SaveOutcome, send_and_show}
use pywinhello.Prelude.{
  Bool, List, Option, [], drop_while, false, if◌then◌else◌, none, reverse, some, true, ℕ, ◌==◌, ◌∷◌,
}
use pywinhello.Prelude.Result.{Result, attribute_error, err, key_error, ok, type_error, ◌>>=◌}
use pywinhello.Prelude.Text.{Text, codes, starts_with, text_eq}
use pywinhello.Prelude.Value.{Value, arr, find, get_field, iterate, nil, obj, str}
use pywinhello.Serial.Port.{Pyserial}

pub data VersionStatus : Type 0 where
  update_available latest : VersionStatus

pub data CheckStatus : Type 0 where
  checking up_to_date check_failed : CheckStatus

pub record VersionView : Type 0 where
  pub sw_status : Option VersionStatus
  pub fw_status : Option VersionStatus
  pub update_enabled : Bool
  pub check_enabled : Bool
  pub update_status : CheckStatus

-- s.lstrip("v")
unfoldable pub lstrip_v : Text → Text
lstrip_v s = drop_while (λ c. c == b'v') s

-- s.endswith(suffix)
unfoldable pub ends_with : Text → Text → Bool
ends_with s suffix = starts_with (reverse s) (reverse suffix)

-- latest_tag and latest_tag != current
unfoldable pub software_status : Text → Text → VersionStatus
software_status tag current =
    if text_eq tag [] then latest else if text_eq tag current then latest else update_available

-- a["name"].endswith(".uf2")
is_uf2 : Value → Result Bool
is_uf2 (obj fs) = elim (find (codes "name") fs) [
  | none ↦ err key_error
  | some (str s) ↦ ok (ends_with s (codes ".uf2"))
  | some _ ↦ err attribute_error
]
is_uf2 _ = err type_error

-- any(...): the first .uf2 file ends the search.
any_uf2 : List Value → Result Bool
unfolding is_uf2
any_uf2 [] = ok false
any_uf2 (a ∷ assets) = do b ← is_uf2 a; if b then ok true else any_uf2 assets

show_firmware : Bool → VersionView → VersionView
show_firmware true v = record v { fw_status = some update_available; update_enabled = true }
show_firmware false v = record v { fw_status = some latest }

finished : CheckStatus → VersionView → VersionView
finished c v = record v { update_status = c; check_enabled = true }

-- The end of `_update_ui`: what raises in it leaves the button disabled.
firmware_part : Result Bool → VersionView → VersionView
unfolding show_firmware finished
firmware_part (ok has_uf2) v = finished up_to_date (show_firmware has_uf2 v)
firmware_part (err e) v = v

-- data.get("assets", [])
assets_of : Value → Result Bool
unfolding any_uf2
assets_of data_ = do
  assets ← get_field data_ (codes "assets") (arr nil)
  items ← iterate assets
  any_uf2 items

-- data.get("tag_name", "").lstrip("v")
latest_tag : Value → Result Text
latest_tag data_ = do
  tag ← get_field data_ (codes "tag_name") (str [])
  elim tag [ str s ↦ ok (lstrip_v s) | _ ↦ err attribute_error ]

after_tag : Text → Value → Result Text → VersionView → VersionView
unfolding firmware_part assets_of finished
after_tag current data_ (err e) v = finished check_failed v
after_tag current data_ (ok tag) v =
    firmware_part (assets_of data_) (record v { sw_status = some (software_status tag current) })

after_reply : Text → Bool → Result Value → VersionView → VersionView
unfolding after_tag latest_tag finished
after_reply current true (ok data_) v = after_tag current data_ (latest_tag data_) v
after_reply current _ _ v = finished check_failed v

-- `_on_check` and its thread: `reply` is the status code with the JSON, or an exception; `current`
-- the version of the software without "-dev".
unfoldable pub on_check : Text → Result (ℕ × Result Value) → VersionView → VersionView
unfolding after_reply finished
on_check current (ok (code, data_)) v =
    after_reply current (code == 200) data_
      (record v { update_status = checking; check_enabled = false })
on_check current (err e) v = finished check_failed (record v { update_status = checking })

-- `_on_update_firmware`: a FLASH without a size, whose success is an answer OK.
unfoldable pub on_update_firmware : (W : Pyserial) → Gui W → SaveOutcome × Gui W
on_update_firmware W = send_and_show W (codes "FLASH")
