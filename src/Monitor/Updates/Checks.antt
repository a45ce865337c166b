-- ===== src/Monitor/Updates/Checks.antt =====
-- What `check_for_updates` of pc/src/pywinhello/monitor/updater.py reports.
use pywinhello.Monitor.Updates.{
  Assets, CheckError, Network, ReleaseManifest, Reply, UpdateCheck, after_reply, asked,
  bad_manifest, check_for_updates, collect_assets, compare_with_manifest, failed_check,
  fetch_manifest, http_error, http_failure, invalid_json, is_older, is_older_known, judged,
  network_error, no_manifest, no_update, page, read_body, read_release, saved, unreachable,
  with_assets,
}
use pywinhello.Monitor.Versions.{compare_versions}
use pywinhello.Prelude.{
  Bool, Option, [], arith, false, if◌then◌else◌, inl, inr, none, refl, some, subst, sym, true, ℕ,
  ◌∷◌, ◌≡◌, ◌⊎◌,
}
use pywinhello.Prelude.Dict.{Dict}
use pywinhello.Prelude.Int.{ltb_ℤ, pos}
use pywinhello.Prelude.Result.{>>=-eq-ok, Result, err, ok, ok-injective}
use pywinhello.Prelude.Text.{Text, codes}
use pywinhello.Prelude.Value.{
  Value, arr, boolean, float, get_field, int, iterate, nil, null, obj, str, truthy,
}
use pywinhello.Serial.Link.{answer}

-- The installed version compares as older than the offered one.
abbrev pub is_newer : Text → Text → Bool
is_newer current offered = ltb_ℤ (compare_versions current offered) (pos 0)

-- What a check says of the firmware: nothing where its version is unknown.
abbrev pub FirmwareIsCompared : Option Text → Value → Bool → Type 0
FirmwareIsCompared none offered answer = answer ≡ false
FirmwareIsCompared (some current) offered answer =
    (s : Text) × (offered ≡ str s) × (answer ≡ is_newer current s)

-- A check reports no update and no manifest, or no error and how the versions compare to the manifest's.
abbrev pub IsSoundCheck : Text → Option Text → UpdateCheck → Type 0
IsSoundCheck sw fw c =
    ((c.manifest ≡ none) × (c.has_software_update ≡ false) × (c.has_firmware_update ≡ false))
    ⊎ ((m : ReleaseManifest) × (s : Text) × (c.manifest ≡ some m)
        × (c.error ≡ none)
        × (m.software_version ≡ str s)
        × (c.has_software_update ≡ is_newer sw s)
        × FirmwareIsCompared fw m.firmware_version c.has_firmware_update)

older_inv :
    (current : Text) (offered : Value) (b : Bool)
    → is_older current offered ≡ ok b
    → (s : Text) × (offered ≡ str s) × (b ≡ is_newer current s)
unfolding is_older
older_inv current (str s) b h = (s, refl, sym (ok-injective h))
older_inv current null b h = ground arith
older_inv current (boolean x) b h = ground arith
older_inv current (int x) b h = ground arith
older_inv current (float x k) b h = ground arith
older_inv current (arr x) b h = ground arith
older_inv current (obj x) b h = ground arith

known_inv :
    (fw : Option Text) (offered : Value) (b : Bool)
    → is_older_known fw offered ≡ ok b
    → FirmwareIsCompared fw offered b
unfolding is_older_known
known_inv none offered b h = sym (ok-injective h)
known_inv (some current) offered b h = older_inv current offered b h

compare_sound :
    (sw : Text) (fw : Option Text) (assets : Dict Value) (m : ReleaseManifest) (c : UpdateCheck)
    → compare_with_manifest sw fw assets m ≡ ok c
    → IsSoundCheck sw fw c
unfolding compare_with_manifest
compare_sound sw fw assets m c h =
    let (has_sw, p, k) = >>=-eq-ok (is_older sw m.software_version) _ h in
    let (has_fw, q, l) = >>=-eq-ok (is_older_known fw m.firmware_version) _ k in
    let (s, r, t) = older_inv sw m.software_version has_sw p in
    subst (IsSoundCheck sw fw) (ok-injective l)
      (inr (m, s, refl, refl, r, t, known_inv fw m.firmware_version has_fw q))

failed_sound :
    (sw : Text) (fw : Option Text) (e : CheckError) (assets : Dict Value) (c : UpdateCheck)
    → ok (failed_check e assets) ≡ ok c
    → IsSoundCheck sw fw c
unfolding failed_check
failed_sound sw fw e assets c h =
    subst (IsSoundCheck sw fw) (ok-injective h) (inl (refl, refl, refl))

judged_sound :
    (sw : Text) (fw : Option Text) (assets : Dict Value) (r : Result ReleaseManifest)
    (c : UpdateCheck)
    → judged sw fw assets r ≡ ok c
    → IsSoundCheck sw fw c
unfolding judged
judged_sound sw fw assets (ok m) c h = compare_sound sw fw assets m c h
judged_sound sw fw assets (err e) c h = failed_sound sw fw bad_manifest assets c h

if_sound :
    (sw : Text) (fw : Option Text) (b : Bool) (r s : Result UpdateCheck) (c : UpdateCheck)
    → (r ≡ ok c → IsSoundCheck sw fw c)
    → (s ≡ ok c → IsSoundCheck sw fw c)
    → (if b then r else s) ≡ ok c
    → IsSoundCheck sw fw c
if_sound sw fw true r s c f g h = f h
if_sound sw fw false r s c f g h = g h

assets_sound :
    (net : Network) (sw : Text) (fw : Option Text) (found : Assets) (c : UpdateCheck)
    → with_assets net sw fw found ≡ ok c
    → IsSoundCheck sw fw c
unfolding with_assets
assets_sound net sw fw (assets, none) c h = failed_sound sw fw no_manifest assets c h
assets_sound net sw fw (assets, some url) c h =
    if_sound sw fw (truthy url) _ _ c (judged_sound sw fw assets (fetch_manifest net url) c)
      (failed_sound sw fw no_manifest assets c) h

body_sound :
    (net : Network) (sw : Text) (fw : Option Text) (r : Result Value) (c : UpdateCheck)
    → read_body net sw fw r ≡ ok c
    → IsSoundCheck sw fw c
unfolding read_body read_release
body_sound net sw fw (err e) c h = failed_sound sw fw invalid_json [] c h
body_sound net sw fw (ok release) c h =
    let (listed, p, k) = >>=-eq-ok (get_field release (codes "assets") (arr nil)) _ h in
    let (items, q, l) = >>=-eq-ok (iterate listed) _ k in
    let (found, r, t) = >>=-eq-ok (collect_assets items ([], none)) _ l in
    assets_sound net sw fw found c t

http_sound : (sw : Text) (fw : Option Text) (code : ℕ) → IsSoundCheck sw fw (http_failure code)
unfolding http_failure failed_check
http_sound sw fw code = inl (ground arith, ground arith, ground arith)

reply_sound :
    (net : Network) (sw : Text) (fw cached : Option Text) (reply : Reply) (c : UpdateCheck)
    → (after_reply net sw fw cached reply).0 ≡ ok c
    → IsSoundCheck sw fw c
unfolding after_reply
reply_sound net sw fw cached unreachable c h = failed_sound sw fw network_error [] c h
reply_sound net sw fw cached (http_error code) c h =
    subst (IsSoundCheck sw fw) (ok-injective h) (http_sound sw fw code)
reply_sound net sw fw cached (page tag body) c h = body_sound net sw fw (net.loads body) c h

-- Whatever the network answers, a check that returns reports either no update and no manifest, or
-- no error, a manifest, and exactly whether the installed versions are older than the
-- manifest's, the firmware only where its version is known.
pub check_for_updates-IsSound :
    (net : Network) (sw : Text) (fw cached : Option Text) (c : UpdateCheck)
    → (check_for_updates net sw fw cached).0 ≡ ok c
    → IsSoundCheck sw fw c
unfolding check_for_updates
check_for_updates-IsSound net sw fw cached c h =
    reply_sound net sw fw cached (net.releases (asked cached)) c h

-- A page with a tag that can be saved is cached whatever becomes of its manifest. When the site then
-- answers that tag with 304, the next check reports neither an update nor an error.
pub check_for_updates_again :
    (net : Network) (sw : Text) (fw cached : Option Text) (b : ℕ) (tag body : Text)
    → net.releases (asked cached) ≡ page (some (b ∷ tag)) body
    → net.can_save ≡ true
    → net.releases (some (b ∷ tag)) ≡ http_error 304
    → check_for_updates net sw fw (check_for_updates net sw fw cached).1
      ≡ (ok no_update, some (b ∷ tag))
unfolding check_for_updates after_reply saved asked http_failure
check_for_updates_again net sw fw cached b tag body p k q = rw (p, k, q) refl
