-- ===== src/Monitor/Updates/Apply.antt =====
-- What a daily check of pc/src/pywinhello/monitor/updater.py applies. A download succeeds or not; the steps that
-- follow it are logged.
mod Tests
use pywinhello.Monitor.Updates.{ReleaseManifest, UpdateCheck}
use pywinhello.Prelude.{
  Bool, Bool-cases, Elem, List, Option, [], arith, false, if◌then◌else◌, inl, inr, none, refl, some,
  subst, sym, true, ◌&&◌, ◌++◌, ◌∙◌, ◌∷◌, ◌≡◌, ◌≢◌, ◌⊎◌,
}
use pywinhello.Prelude.Dict.{Dict, is_some, lookup}
use pywinhello.Prelude.Result.{Error, Result, err, ok}
use pywinhello.Prelude.Text.{Text, codes, text_eq, text_eq_iff}
use pywinhello.Prelude.Value.{Value, truthy}

-- Staging the downloaded program, and flashing the downloaded image with hash and version.
pub data UpdateStep : Type 0 where
  stage : Value → UpdateStep
  flash : Value → Option Value → Value → UpdateStep

-- fw_name
pub firmware_name : Text → Text
firmware_name device_type = codes "firmware_" ++ (device_type ++ codes ".uf2")

-- expected_hash if expected_hash else None
known_hash : Value → Option Value
known_hash h = if truthy h then some h else none

pub expected_hash : Text → ReleaseManifest → Option Value
unfolding known_hash
expected_hash device_type m =
    if text_eq device_type (codes "rp2040")
    then known_hash m.firmware_hash_rp2040
    else if text_eq device_type (codes "rp2350")
    then known_hash m.firmware_hash_rp2350
    else none

-- _apply_software
apply_software : (Value → Bool) → Dict Value → List UpdateStep
apply_software downloads assets = elim (lookup (codes "pywinhello-monitor.exe") assets) [
  | none ↦ []
  | some url ↦ if downloads url then stage url ∷ [] else []
]

-- _apply_firmware, where the protocol and the manifest are there
flash_asset : (Value → Bool) → Text → ReleaseManifest → Option Value → List UpdateStep
flash_asset downloads device_type m none = []
flash_asset downloads device_type m (some url) =
    if downloads url then flash url (expected_hash device_type m) m.firmware_version ∷ [] else []

apply_firmware : (Value → Bool) → Option Text → ReleaseManifest → Dict Value → List UpdateStep
unfolding flash_asset
apply_firmware downloads none m assets = []
apply_firmware downloads (some []) m assets = []
apply_firmware downloads (some (c ∷ s)) m assets =
    flash_asset downloads (c ∷ s) m (lookup (firmware_name (c ∷ s)) assets)

with_manifest :
    (Value → Bool) → Bool → Option Text → UpdateCheck → Option ReleaseManifest → List UpdateStep
unfolding apply_software apply_firmware
with_manifest downloads has_protocol device_type c none = []
with_manifest downloads has_protocol device_type c (some m) =
    (if c.has_software_update then apply_software downloads c.assets else [])
    ++ (if c.has_firmware_update && has_protocol
        then apply_firmware downloads device_type m c.assets
        else [])

-- _do_check, with how its check ended
pub do_check : (Value → Bool) → Bool → Option Text → Result UpdateCheck → List UpdateStep
unfolding with_manifest
do_check downloads has_protocol device_type (err e) = []
do_check downloads has_protocol device_type (ok c) =
    if is_some c.error then [] else with_manifest downloads has_protocol device_type c c.manifest

-- The image that the code takes for a device type, and its hash.
abbrev IsTaken : Text → ReleaseManifest → Dict Value → Value → Option Value → Value → Type 0
IsTaken device_type m assets url hash version =
    (lookup (firmware_name device_type) assets ≡ some url)
    × (hash ≡ expected_hash device_type m)
    × (version ≡ m.firmware_version)

-- The hash is the field's, where the field is not empty.
abbrev pub IsHashOf : Value → Option Value → Type 0
IsHashOf v (some h) = (truthy v ≡ true) × (h ≡ v)
IsHashOf v none = truthy v ≡ false

-- What a release offers a device type: the file of its name, with the hash that the manifest has for it.
abbrev pub IsOffered : Text → ReleaseManifest → Dict Value → Value → Option Value → Value → Type 0
IsOffered device_type m assets url hash version =
    (version ≡ m.firmware_version)
    × (((device_type ≡ codes "rp2040")
          × (lookup (codes "firmware_rp2040.uf2") assets ≡ some url)
          × IsHashOf m.firmware_hash_rp2040 hash)
        ⊎ ((device_type ≡ codes "rp2350")
            × (lookup (codes "firmware_rp2350.uf2") assets ≡ some url)
            × IsHashOf m.firmware_hash_rp2350 hash)
        ⊎ ((device_type ≢ codes "rp2040")
            × (device_type ≢ codes "rp2350")
            × (lookup (codes "firmware_" ++ (device_type ++ codes ".uf2")) assets ≡ some url)
            × (hash ≡ none)))

known_hash-IsHashOf :
    (v : Value) (b : Bool) → truthy v ≡ b → IsHashOf v (if b then some v else none)
known_hash-IsHashOf v true h = (h, refl)
known_hash-IsHashOf v false h = h

IsTaken-IsOffered :
    (t : Text) (m : ReleaseManifest) (assets : Dict Value) (url : Value) (hash : Option Value)
    (version : Value)
    → IsTaken t m assets url hash version
    → IsOffered t m assets url hash version
unfolding firmware_name expected_hash known_hash
IsTaken-IsOffered t m assets url hash version (found, h, v) =
    elim (Bool-cases (text_eq t (codes "rp2040"))) [
      | inl first ↦
          let e = (text_eq_iff t (codes "rp2040")).0 first in
          (
            v,
            inl (
              e,
              subst (λ d. lookup (firmware_name d) assets ≡ some url) e found,
              subst (IsHashOf m.firmware_hash_rp2040) (sym (h ∙ rw (first) refl))
                  (known_hash-IsHashOf m.firmware_hash_rp2040 (truthy m.firmware_hash_rp2040) refl),
            ),
          )
      | inr other ↦ elim (Bool-cases (text_eq t (codes "rp2350"))) [
        | inl second ↦
            let e = (text_eq_iff t (codes "rp2350")).0 second in
            (
              v,
              inr (
                  inl (
                    e,
                    subst (λ d. lookup (firmware_name d) assets ≡ some url) e found,
                    subst (IsHashOf m.firmware_hash_rp2350) (sym (h ∙ rw (other, second) refl)) (
                        known_hash-IsHashOf m.firmware_hash_rp2350 (truthy m.firmware_hash_rp2350)
                          refl),
                  )),
            )
        | inr neither ↦ (
          v,
          inr (
              inr (
                λ e. absurd (cc ((text_eq_iff t (codes "rp2040")).1 e, other)),
                λ e. absurd (cc ((text_eq_iff t (codes "rp2350")).1 e, neither)),
                found,
                h ∙ rw (other, neither) refl,
              )),
        )
      ]
    ]

flash_asset-IsTaken :
    (downloads : Value → Bool) (device_type : Text) (m : ReleaseManifest) (found : Option Value)
    (url : Value) (hash : Option Value) (version : Value)
    → Elem (flash url hash version) (flash_asset downloads device_type m found)
    → (found ≡ some url) × (hash ≡ expected_hash device_type m) × (version ≡ m.firmware_version)
unfolding flash_asset
flash_asset-IsTaken downloads device_type m none url hash version e = absurd e
flash_asset-IsTaken downloads device_type m (some u) url hash version e = ground arith

software_no_flash :
    (downloads : Value → Bool) (assets : Dict Value) (url : Value) (hash : Option Value)
    (version : Value)
    → Elem (flash url hash version) (apply_software downloads assets)
    → ⊥
unfolding apply_software
software_no_flash downloads assets url hash version e = ground arith

pub Elem-append : {A : Type 0} (x : A) (xs ys : List A) → Elem x (xs ++ ys) → Elem x xs ⊎ Elem x ys
Elem-append x [] ys h = inr h
Elem-append x (y ∷ xs) ys (inl e) = inl (inl e)
Elem-append x (y ∷ xs) ys (inr h) = elim (Elem-append x xs ys h) [
  | inl e ↦ inl (inr e)
  | inr e ↦ inr e
]

Elem-if :
    {A : Type 0} (x : A) (b : Bool) (xs : List A)
    → Elem x (if b then xs else [])
    → (b ≡ true) × Elem x xs
Elem-if x true xs h = (refl, h)
Elem-if x false xs h = absurd h

firmware-IsOffered :
    (downloads : Value → Bool) (t : Text) (m : ReleaseManifest) (assets : Dict Value) (url : Value)
    (hash : Option Value) (version : Value)
    → Elem (flash url hash version) (apply_firmware downloads (some t) m assets)
    → IsOffered t m assets url hash version
unfolding apply_firmware
firmware-IsOffered downloads [] m assets url hash version e = absurd e
firmware-IsOffered downloads (c ∷ s) m assets url hash version e =
    IsTaken-IsOffered (c ∷ s) m assets url hash version (
      flash_asset-IsTaken downloads (c ∷ s) m (lookup (firmware_name (c ∷ s)) assets) url hash
        version e)

manifest-IsOffered :
    (downloads : Value → Bool) (has_protocol : Bool) (t : Text) (c : UpdateCheck)
    (m : ReleaseManifest) (url : Value) (hash : Option Value) (version : Value)
    → Elem (flash url hash version) (with_manifest downloads has_protocol (some t) c (some m))
    → ((c.has_firmware_update && has_protocol) ≡ true) × IsOffered t m c.assets url hash version
unfolding with_manifest
manifest-IsOffered downloads has_protocol t c m url hash version e =
    elim (Elem-append (flash url hash version)
      (if c.has_software_update then apply_software downloads c.assets else []) _ e) [
        | inl h ↦ absurd (
            software_no_flash downloads c.assets url hash version
              (Elem-if (flash url hash version) c.has_software_update _ h).1)
        | inr h ↦
            let (p, q) =
              Elem-if (flash url hash version) (c.has_firmware_update && has_protocol)
                (apply_firmware downloads (some t) m c.assets) h in
            (p, firmware-IsOffered downloads t m c.assets url hash version q)
      ]

-- Firmware is flashed after a check only if the check had no error, offers a firmware update and the Pico
-- is connected; the image is the device type's, with the manifest's hash for that type, if it
-- has one, and with the manifest's firmware version.
pub do_check-IsOffered :
    (downloads : Value → Bool) (has_protocol : Bool) (t : Text) (c : UpdateCheck)
    (m : ReleaseManifest) (url : Value) (hash : Option Value) (version : Value)
    → c.manifest ≡ some m
    → Elem (flash url hash version) (do_check downloads has_protocol (some t) (ok c))
    → (is_some c.error ≡ false)
      × ((c.has_firmware_update && has_protocol) ≡ true)
      × IsOffered t m c.assets url hash version
unfolding do_check
do_check-IsOffered downloads has_protocol t c m url hash version h e =
    elim (Bool-cases (is_some c.error)) [
      | inl bad ↦ absurd (
          subst
            (λ b.
              Elem (flash url hash version)
                (if b then [] else with_manifest downloads has_protocol (some t) c c.manifest))
            bad e)
      | inr good ↦
          let k =
            subst
              (λ b.
                Elem (flash url hash version)
                  (if b then [] else with_manifest downloads has_protocol (some t) c c.manifest))
              good e in
          let (p, q) = manifest-IsOffered downloads has_protocol t c m url hash version (
            subst
              (λ o.
                Elem (flash url hash version) (with_manifest downloads has_protocol (some t) c o))
              h k) in
          (good, p, q)
    ]

pub no_flash_of_error :
    (downloads : Value → Bool) (has_protocol : Bool) (t : Text) (x : Error) (step : UpdateStep)
    → Elem step (do_check downloads has_protocol (some t) (err x))
    → ⊥
unfolding do_check
no_flash_of_error downloads has_protocol t x step e = absurd e

pub no_flash_without :
    (downloads : Value → Bool) (has_protocol : Bool) (t : Text) (c : UpdateCheck)
    (step : UpdateStep)
    → c.manifest ≡ none
    → Elem step (do_check downloads has_protocol (some t) (ok c))
    → ⊥
unfolding do_check with_manifest
no_flash_without downloads has_protocol t c step h e = ground arith
