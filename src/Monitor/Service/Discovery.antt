-- ===== src/Monitor/Service/Discovery.antt =====
-- `_on_new_app_discovered` of pc/src/pywinhello/monitor/service.py.
use pywinhello.Monitor.Service.{
  MonitorService, on_new_app_discovered, pushed, with_app, with_default_apps,
}
use pywinhello.Prelude.{
  Bool, Bool-cases, ap, arith, if◌then◌else◌, inl, inr, not, refl, some, subst, sym, true, ◌&&◌,
  ◌∙◌, ◌≡◌,
}
use pywinhello.Prelude.Dict.{is_some}
use pywinhello.Prelude.Text.{Text, codes, text_eq}
use pywinhello.Prelude.Value.{Fields, Value, boolean, end, find, find-put, find_or, obj, put}

pushed-find :
    (service : MonitorService) (config fs : Fields) (exe k : Text)
    → find (codes "apps") config ≡ some (obj fs)
    → (new : Fields) × (find (codes "apps") (pushed service config (with_app exe (obj fs))).0.config
        ≡ some (obj new))
      × (find k new ≡ (
          if text_eq exe k && not (is_some (find exe fs)) then some (boolean true) else find k fs))
unfolding pushed with_app text_eq
pushed-find service config fs exe k h = elim (Bool-cases (is_some (find exe fs))) [
  | inl q ↦ (fs, ground arith, ground arith)
  | inr q ↦ (
    put exe (boolean true) fs,
    ground (arith, find-put (codes "apps") (codes "apps") (obj (put exe (boolean true) fs)) config),
    ground (arith, find-put exe k (boolean true) fs),
  )
]

if_true : {A : Type 0} {b : Bool} (x y : A) → b ≡ true → (if b then x else y) ≡ x
if_true x y h = rw h refl

default_kept :
    (config : Fields) (v : Value)
    → find (codes "apps") config ≡ some v
    → with_default_apps config ≡ config
unfolding with_default_apps
default_kept config v h = rw h refl

find_or_found : (k : Text) (d v : Value) (fs : Fields) → find k fs ≡ some v → find_or k d fs ≡ v
unfolding find_or
find_or_found k d v fs h = rw (h, find_or) refl

discovered_eq :
    (service : MonitorService) (fs : Fields) (exe : Text)
    → service.connected ≡ true
    → find (codes "apps") service.config ≡ some (obj fs)
    → on_new_app_discovered exe service ≡ pushed service service.config (with_app exe (obj fs))
unfolding on_new_app_discovered
discovered_eq service fs exe c h =
    if_true _ _ c
    ∙ (ap (λ config. pushed service config (with_app exe (find_or (codes "apps") (obj end) config)))
          (default_kept service.config (obj fs) h)
        ∙ ap (λ v. pushed service service.config (with_app exe v))
            (find_or_found (codes "apps") (obj end) (obj fs) service.config h))

-- A discovered app is enabled in the configuration of a connected service if it has no entry there;
-- an entry that it has, and every other app's, stays as it is.
pub on_new_app-find :
    (service : MonitorService) (fs : Fields) (exe k : Text)
    → service.connected ≡ true
    → find (codes "apps") service.config ≡ some (obj fs)
    → (new : Fields) × (find (codes "apps") (on_new_app_discovered exe service).0.config
        ≡ some (obj new))
      × (find k new ≡ (
          if text_eq exe k && not (is_some (find exe fs)) then some (boolean true) else find k fs))
on_new_app-find service fs exe k c h =
    subst
      (λ r.
        (new : Fields) × (find (codes "apps") r.0.config ≡ some (obj new))
        × (find k new ≡ (
            if text_eq exe k && not (is_some (find exe fs))
            then some (boolean true)
            else find k fs)))
      (sym (discovered_eq service fs exe c h)) (pushed-find service service.config fs exe k h)
