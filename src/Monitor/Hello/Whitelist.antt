-- ===== src/Monitor/Hello/Whitelist.antt =====
-- The per-app whitelist of pc/src/pywinhello/monitor/hello_detector.py.
use pywinhello.Monitor.Hello.{
  AppWhitelist, add_app, app_entries, enabled_of, from_pico_config, whitelist_of,
}
use pywinhello.Prelude.{Option, [], ap, arith, false, none, not, refl, some, true, ◌∙◌, ◌≡◌}
use pywinhello.Prelude.Dict.{Dict, insert, is_some, lookup, lookup-insert}
use pywinhello.Prelude.Result.{ok}
use pywinhello.Prelude.Text.{Text, codes, text_eq, text_eq_iff, text_eq_refl}
use pywinhello.Prelude.Value.{Fields, Value, boolean, end, field, find, find_or, obj}

-- A JSON object has each key once.
abbrev pub UniqueKeys : Fields → Type 0
UniqueKeys end = Unit
UniqueKeys (field k v fs) = (find k fs ≡ none) × UniqueKeys fs

-- The flag that the whitelist takes from an entry of "apps".
abbrev pub flag_of : Option Value → Option Value
flag_of (some (boolean b)) = some (boolean b)
flag_of (some (obj fs)) = some (find_or (codes "enabled") (boolean true) fs)
flag_of _ = none

abbrev or_else : Option Value → Option Value → Option Value
or_else none d = d
or_else (some v) d = some v

entry_lem :
    (k : Text) (key : Text) (v : Value) (rest : Fields) (apps : Dict Value)
    → text_eq k (codes "lock_screen") ≡ false
    → find key rest ≡ none
    → ((apps' : Dict Value)
        → lookup k (app_entries rest apps') ≡ or_else (flag_of (find k rest)) (lookup k apps'))
    → lookup k (app_entries (field key v rest) apps)
      ≡ or_else (flag_of (find k (field key v rest))) (lookup k apps)
unfolding app_entries find
entry_lem k key (boolean b) rest apps n u ih = ground (
  arith,
  ih apps,
  ih (insert key (boolean b) apps),
  lookup-insert key k (boolean b) apps,
  text_eq_iff key k,
  text_eq_iff key (codes "lock_screen"),
  text_eq_iff k (codes "lock_screen"),
)
entry_lem k key (obj fs) rest apps n u ih = ground (
  arith,
  ih apps,
  ih (insert key (enabled_of fs) apps),
  lookup-insert key k (enabled_of fs) apps,
  text_eq_iff key k,
  text_eq_iff key (codes "lock_screen"),
  text_eq_iff k (codes "lock_screen"),
)
entry_lem k key _ rest apps n u ih = ground (arith, ih apps, text_eq_iff key k)

lookup-app_entries :
    (k : Text) (fs : Fields) (apps : Dict Value)
    → text_eq k (codes "lock_screen") ≡ false
    → UniqueKeys fs
    → lookup k (app_entries fs apps) ≡ or_else (flag_of (find k fs)) (lookup k apps)
lookup-app_entries k end apps n u = unfold app_entries find in refl
lookup-app_entries k (field key v rest) apps n (fresh, u) =
    entry_lem k key v rest apps n fresh (λ apps'. lookup-app_entries k rest apps' n u)

apps_of :
    (config fs : Fields)
    → find (codes "apps") config ≡ some (obj fs)
    → find_or (codes "apps") (obj end) config ≡ obj fs
unfolding find_or
apps_of config fs h = ground arith

-- The whitelist of a configuration whose "apps" is an object: each key but "lock_screen", the
-- key "auto_discover" included, is an app with the flag of its entry; entries that are neither a
-- flag nor an object are no apps.
pub from_pico_config-lookup :
    (config fs : Fields) (k : Text)
    → find (codes "apps") config ≡ some (obj fs)
    → UniqueKeys fs
    → text_eq k (codes "lock_screen") ≡ false
    → (w : AppWhitelist) × (from_pico_config config ≡ ok w)
      × (lookup k w.apps ≡ flag_of (find k fs))
unfolding from_pico_config
from_pico_config-lookup config fs k h u n = (
  record {
    apps = app_entries fs [];
    auto_discover = find_or (codes "auto_discover") (boolean true) fs;
  },
  ap whitelist_of (apps_of config fs h),
  lookup-app_entries k fs [] n u ∙ or_else-none (flag_of (find k fs)),
)
  where
    or_else-none : (o : Option Value) → or_else o (lookup k []) ≡ o
    or_else-none none = unfold lookup in refl
    or_else-none (some v) = refl

-- Adding an app changes no entry that is there, and enables it if it was not there.
pub add_app-keeps :
    (w : AppWhitelist) (exe k : Text) (v : Value)
    → lookup k w.apps ≡ some v
    → (lookup k (add_app w exe).0.apps ≡ some v)
      × ((add_app w exe).1 ≡ not (is_some (lookup exe w.apps)))
      × (is_some (lookup exe (add_app w exe).0.apps) ≡ true)
unfolding add_app
add_app-keeps w exe k v h = (
  ground (arith, lookup-insert exe k (boolean true) w.apps, text_eq_iff exe k),
  ground arith,
  ground (arith, lookup-insert exe exe (boolean true) w.apps, text_eq_refl exe),
)
