-- ===== src/Gui/I18n/Lookup.antt =====
-- What `t` gives, and when it raises: pc/src/pywinhello/gui/i18n/__init__.py.
use pywinhello.Gui.I18n.{
  LocaleFiles, Locales, after_pico, detect_default_locale, is_supported, load_strings,
  load_supported, of_system, remember, set_locale, shown, translate, walk,
}
use pywinhello.Prelude.{
  Bool-cases, List, Option, arith, false, inl, inr, none, refl, some, true, ◌∙◌, ◌∷◌, ◌≡◌, ◌⊎◌,
}
use pywinhello.Prelude.Dict.{get_or, lookup, lookup-insert}
use pywinhello.Prelude.Exec.{continue, pure}
use pywinhello.Prelude.Result.{Result, err, ok}
use pywinhello.Prelude.Text.{Text, codes, text_eq, text_eq_refl}
use pywinhello.Prelude.Text.Split.{AllLack, join, split-join}
use pywinhello.Prelude.Value.{Value, arr, boolean, end, float, int, null, obj, str}

leaf : Option Value → Option Text
leaf (some (str node)) = some node
leaf _ = none

-- The text that a locale gives for the parts of a key path, if its node there is a text.
unfoldable pub text_at : List Text → Value → Option Text
unfolding leaf
text_at parts strings = leaf (walk parts strings)

module _ (F : LocaleFiles) where
  -- The strings of the active locale are in the cache.
  abbrev pub IsLoaded : Locales → Value → Type 0
  IsLoaded st strings =
      (is_supported st.current_locale ≡ true) × (lookup st.current_locale st.cache ≡ some strings)

  load_strings-IsLoaded :
      (st : Locales) (strings : Value)
      → IsLoaded st strings
      → load_strings F st.current_locale st ≡ (ok strings, st)
  unfolding load_strings load_supported
  load_strings-IsLoaded st strings (h, k) = rw (h, k)

  shown-leaf : (key : Text) (o : Option Value) → shown F key end o ≡ ok (get_or (leaf o) key)
  unfolding shown leaf
  shown-leaf key none = refl
  shown-leaf key (some null) = refl
  shown-leaf key (some (boolean b)) = refl
  shown-leaf key (some (int n)) = refl
  shown-leaf key (some (float m k)) = refl
  shown-leaf key (some (str s)) = refl
  shown-leaf key (some (arr vs)) = refl
  shown-leaf key (some (obj fs)) = refl

  -- Once the active locale is loaded, `t` without arguments returns and changes nothing: for a key
  -- path whose parts hold no dot it gives the text at these parts, or the key path itself where
  -- the locale has no text there.
  pub translate-join :
      (st : Locales) (strings : Value) (p : Text) (ps : List Text)
      → IsLoaded st strings
      → AllLack b'.' (p ∷ ps)
      → translate F (join (codes ".") (p ∷ ps)) end st
        ≡ (ok (get_or (text_at (p ∷ ps) strings) (join (codes ".") (p ∷ ps))), st)
  unfolding translate text_at
  translate-join st strings p ps h l = rw (
    load_strings-IsLoaded st strings h,
    split-join b'.' p ps l,
    shown-leaf (join (codes ".") (p ∷ ps)) (walk (p ∷ ps) strings),
  )

  -- Strings were loaded, or the call raised; the active locale is the same.
  abbrev Loaded : Locales → Result Value × Locales → Type 0
  Loaded st (ok strings, t) = IsLoaded t strings × (t.current_locale ≡ st.current_locale)
  Loaded st (err e, t) = t ≡ st

  remember-Loaded :
      (r : Result Value) (st : Locales)
      → is_supported st.current_locale ≡ true
      → Loaded st (remember F st.current_locale r st)
  unfolding remember
  remember-Loaded (ok v) st h = (
    (
      h,
      lookup-insert st.current_locale st.current_locale v st.cache
          ∙ rw (text_eq_refl st.current_locale),
    ),
    refl,
  )
  remember-Loaded (err e) st h = refl

  load_supported-Loaded :
      (o : Option Value) (st : Locales)
      → is_supported st.current_locale ≡ true
      → lookup st.current_locale st.cache ≡ o
      → Loaded st (load_supported F st.current_locale o st)
  unfolding load_supported
  load_supported-Loaded (some v) st h k = ((h, k), refl)
  load_supported-Loaded none st h k = elim (Bool-cases (F.exists st.current_locale)) [
    | inl e ↦ rw e (remember-Loaded (F.load st.current_locale) st h)
    | inr e ↦ rw e
  ]

  -- How `set_locale` ends.
  abbrev pub WasSet : Text → Locales → Result (Unit {0}) × Locales → Type 0
  WasSet locale st (ok u, t) = (strings : Value) × IsLoaded t strings × (t.current_locale ≡ locale)
  WasSet locale st (err e, t) =
      ((is_supported locale ≡ false) × (t ≡ st))
      ⊎ ((is_supported locale ≡ true) × (t ≡ record st { current_locale = locale }))

  after_load :
      (locale : Text) (st : Locales) (r : Result Value) (t : Locales)
      → is_supported locale ≡ true
      → Loaded (record st { current_locale = locale }) (r, t)
      → WasSet locale st (continue r (λ v. pure tt) t)
  after_load locale st (ok v) t h (l, c) = (v, l, c)
  after_load locale st (err e) t h c = inr (h, c)

  -- A locale that was set is active and loaded. Where `set_locale` raises, either the locale is not
  -- one of the two and nothing changed, or its strings could not be read and it has become the
  -- active one all the same.
  pub set_locale-WasSet : (locale : Text) (st : Locales) → WasSet locale st (set_locale F locale st)
  unfolding set_locale load_strings
  set_locale-WasSet locale st = elim (Bool-cases (is_supported locale)) [
    | inl e ↦ rw e (
        after_load locale st _ _ e (
          load_supported-Loaded (lookup locale st.cache) (record st { current_locale = locale }) e
            refl))
    | inr e ↦ rw e (inl (e, refl))
  ]

-- The locale that the window starts with is one that `set_locale` takes, whatever Windows answers.
pub detect_default_locale-is_supported :
    (system : Result (Option Text)) → is_supported (detect_default_locale system) ≡ true
unfolding detect_default_locale after_pico of_system is_supported text_eq
detect_default_locale-is_supported (err e) = refl
detect_default_locale-is_supported (ok none) = refl
detect_default_locale-is_supported (ok (some lang)) = ground arith
