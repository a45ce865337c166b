-- ===== src/Gui/I18n.antt =====
-- The texts of the window: pc/src/pywinhello/gui/i18n/__init__.py. The module's globals are the
-- state; the locale files and `str.format` are parameters.
pub mod Lookup
use pywinhello.Prelude.{Bool, List, Option, [], if◌then◌else◌, none, some, ◌||◌, ◌∷◌}
use pywinhello.Prelude.Dict.{Dict, insert, lookup}
use pywinhello.Prelude.Exec.{Exec, lift, pure, ◌>>=◌, ◌>>◌}
use pywinhello.Prelude.Result.{
  Result, attribute_error, err, index_error, key_error, ok, os_error, value_error,
}
use pywinhello.Prelude.Text.{Text, codes, starts_with, text_eq}
use pywinhello.Prelude.Text.Split.{split}
use pywinhello.Prelude.Value.{Fields, Value, end, field, find, obj, str}

abbrev pub default_locale : Text
default_locale = codes "ja"

-- locale in _SUPPORTED_LOCALES
unfoldable pub is_supported : Text → Bool
is_supported locale = text_eq locale (codes "ja") || text_eq locale (codes "en")

-- _cache and _current_locale
pub record Locales : Type 0 where
  pub cache : Dict Value
  pub current_locale : Text

-- The locale files: whether one is there, and what `json.load` makes of it. `format` is
-- `node.format(**kwargs)`.
pub record LocaleFiles : Type 0 where
  pub exists : Text → Bool
  pub load : Text → Result Value
  pub format : Text → Fields → Result Text

-- One part of a key path: `none` where the node is no dict or has no such key.
unfoldable pub step_into : Text → Value → Option Value
step_into part (obj fs) = find part fs
step_into part _ = none

-- The loop over the parts of a key path.
unfoldable pub walk : List Text → Value → Option Value
walk [] node = some node
walk (part ∷ parts) node = elim (step_into part node) [ none ↦ none | some v ↦ walk parts v ]

module _ (F : LocaleFiles) where
  -- The strings that were read go into the cache.
  remember : Text → Result Value → Exec Locales Value
  remember locale (ok strings) st =
      (ok strings, record st { cache = insert locale strings st.cache })
  remember locale (err e) st = (err e, st)

  unfoldable pub load_supported : Text → Option Value → Exec Locales Value
  unfolding remember
  load_supported locale (some strings) st = (ok strings, st)
  load_supported locale none st =
      if F.exists locale then remember locale (F.load locale) st else (err os_error, st)

  unfoldable pub load_strings : Text → Exec Locales Value
  load_strings locale st =
      if is_supported locale
      then load_supported locale (lookup locale st.cache) st
      else (err value_error, st)

  -- The active locale is changed before its file is read.
  unfoldable pub set_locale : Text → Exec Locales (Unit {0})
  set_locale locale st =
      if is_supported locale
      then (do load_strings locale; pure tt) (record st { current_locale = locale })
      else (err value_error, st)

  -- except (KeyError, IndexError): return node
  or_template : Text → Result Text → Result Text
  or_template node (ok text) = ok text
  or_template node (err key_error) = ok node
  or_template node (err index_error) = ok node
  or_template node (err e) = err e

  -- What is shown for the node that a key path leads to; anything but a text is the key itself.
  unfoldable pub shown : Text → Fields → Option Value → Result Text
  unfolding or_template
  shown key kwargs (some (str node)) = elim kwargs [
    | end ↦ ok node
    | field k v fs ↦ or_template node (F.format node (field k v fs))
  ]
  shown key kwargs _ = ok key

  unfoldable pub translate : Text → Fields → Exec Locales Text
  translate key kwargs st =
      (do
        strings ← load_strings st.current_locale
        lift (shown key kwargs (walk (split b'.' key) strings)))
        st

-- `PicoDevice.find()`: the class has no such attribute, so the call raises before any device is
-- asked.
abbrev find_device : Result (Option Text)
find_device = err attribute_error

-- The locale of Windows, where it is one of the two.
of_system : Result (Option Text) → Text
of_system (err e) = default_locale
of_system (ok none) = default_locale
of_system (ok (some lang)) =
    if starts_with lang (codes "ja")
    then codes "ja"
    else if starts_with lang (codes "en")
    then codes "en"
    else default_locale

-- The locale that the Pico's configuration names, where it is supported.
after_pico : Result (Option Text) → Result (Option Text) → Text
unfolding of_system
after_pico (ok (some locale)) system = if is_supported locale then locale else of_system system
after_pico _ system = of_system system

-- The argument is what `locale.getdefaultlocale()` gives for the language.
unfoldable pub detect_default_locale : Result (Option Text) → Text
unfolding after_pico
detect_default_locale system = after_pico find_device system
