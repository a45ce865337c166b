-- ===== src/Gui/Settings/Advanced/Rows.antt =====
-- The entries of pc/src/pywinhello/gui/settings/advanced.py: what they show when the section is built and
-- after a reset. Python's `str` of a float, and of a value that is neither a text nor a natural number, is a
-- parameter.
use pywinhello.Gui.Settings.Advanced
use pywinhello.Gui.Connection.{Gui}
use pywinhello.Gui.I18n.{shown}
use pywinhello.Gui.Settings.Advanced.{
  Floats, TimingParam, above, below, clamp, get_values, int_fields, int_params, int_value, on_save,
  value_of, wait_value,
}
use pywinhello.Gui.Settings.Saving.{SaveOutcome}
use pywinhello.Prelude.{
  Bool, Elem, List, [], ap, arith, false, if◌then◌else◌, inl, inr, max, min, none, refl, some,
  subst, sym, true, ℕ, ◌∙◌, ◌∷◌, ◌≡◌,
}
use pywinhello.Prelude.Dict.{Dict, get_or, lookup}
use pywinhello.Prelude.Int.{ltb_ℤ, pos}
use pywinhello.Prelude.Text.{Text, codes, is_space, strip, text_eq}
use pywinhello.Prelude.Text.Split.{parse_int}
use pywinhello.Prelude.Text.Split.Digits.{strip-AllDigits}
use pywinhello.Prelude.Value.{Fields, Value, end, field, find, find_or, int, str}
use pywinhello.Serial.Link.{show}
use pywinhello.Serial.Link.Digits.{parse_int-show, show-AllDigits}
use pywinhello.Serial.Port.{Pyserial}

-- What is shown below the rows.
pub data AdvancedStatus : Type 0 where
  no_status : AdvancedStatus
  reset_success : AdvancedStatus
  save_shown : SaveOutcome → AdvancedStatus

-- The section: the texts of the entries by key, the status, and whether the dialog of the reset is open.
pub record AdvancedSettings : Type 0 where
  pub entries : Dict Text
  pub status : AdvancedStatus
  pub reset_dialog : Bool

-- `str`, with the cases that the program's own values need.
pub record ValueTexts (F : Floats) : Type 0 where
  pub show_float : F.Float → Text
  pub show_other : Value → Text

module _ (F : Floats) (S : ValueTexts F) where
  str_of : Value → Text
  str_of (str s) = s
  str_of (int (pos n)) = show n
  str_of v = S.show_other v

  -- str(config.get(cfg_key, default)) of an integer row
  row_text : Fields → TimingParam → Text
  unfolding str_of
  row_text config p = str_of (find_or p.cfg_key (int (pos p.default)) config)

  -- The same of the row `dialog_wait`, whose default is a float.
  wait_text : Fields → Text
  unfolding str_of
  wait_text config = elim (find (codes "dialog_wait") config) [
    | none ↦ S.show_float F.default_wait
    | some v ↦ str_of v
  ]

  build_rows : Fields → List TimingParam → Dict Text
  unfolding row_text wait_text
  build_rows config [] = (codes "dialog_wait", wait_text config) ∷ []
  build_rows config (p ∷ ps) = (p.cfg_key, row_text config p) ∷ build_rows config ps

  -- __init__
  unfoldable pub build : Fields → AdvancedSettings
  unfolding build_rows
  build config = record {
    entries = build_rows config int_params;
    status = no_status;
    reset_dialog = false;
  }

  -- str(_DEFAULTS[cfg_key]); a row has each key.
  default_text : List TimingParam → Text → Text
  default_text [] key = S.show_float F.default_wait
  default_text (p ∷ ps) key = if text_eq p.cfg_key key then show p.default else default_text ps key

  -- The loop of the reset over the entries.
  reset_rows : Dict Text → Dict Text
  unfolding default_text
  reset_rows [] = []
  reset_rows ((key, shown) ∷ later) = (key, default_text int_params key) ∷ reset_rows later

  -- The buttons: _on_reset, its two answers, and _on_save.
  pub on_reset : AdvancedSettings → AdvancedSettings
  on_reset v = record v { reset_dialog = true }

  pub cancel_reset : AdvancedSettings → AdvancedSettings
  cancel_reset v = record v { reset_dialog = false }

  unfoldable pub confirm_reset : AdvancedSettings → AdvancedSettings
  unfolding reset_rows
  confirm_reset v = record v {
    entries = reset_rows v.entries;
    status = reset_success;
    reset_dialog = false;
  }

  -- The text of an entry; every row has one.
  abbrev pub entry_text : AdvancedSettings → Text → Text
  entry_text v key = get_or (lookup key v.entries) []

  pub save_rows : (W : Pyserial) → AdvancedSettings → Gui W → AdvancedSettings × Gui W
  save_rows W v g =
      let r = Advanced.on_save F W (entry_text v) g in (record v { status = save_shown r.0 }, r.1)

  clamp-pos : (lo hi n : ℕ) → clamp ltb_ℤ (pos lo) (pos hi) (pos n) ≡ pos (max lo (min hi n))
  unfolding clamp
  clamp-pos lo hi n = ground arith

  row_text-saved :
      (config : Fields) (p : TimingParam) (n : ℕ)
      → find_or p.cfg_key (int (pos p.default)) config ≡ int (pos n)
      → int_value p (row_text config p) ≡ pos (max p.min_val (min p.max_val n))
  unfolding row_text str_of int_value value_of
  row_text-saved config p n h =
      rw (h, strip-AllDigits (show n) (show-AllDigits n), parse_int-show n)
        (clamp-pos p.min_val p.max_val n)

  -- The entry of a row is the row's text.
  abbrev Shown : Fields → TimingParam → Type 0
  Shown config p = entry_text (build config) p.cfg_key ≡ row_text config p

  build-Shown : (config : Fields) (p : TimingParam) → Elem p int_params → Shown config p
  unfolding build build_rows lookup text_eq
  build-Shown config p (inl e) = subst (Shown config) (sym e) refl
  build-Shown config p (inr (inl e)) = subst (Shown config) (sym e) refl
  build-Shown config p (inr (inr (inl e))) = subst (Shown config) (sym e) refl
  build-Shown config p (inr (inr (inr (inl e)))) = subst (Shown config) (sym e) refl
  build-Shown config p (inr (inr (inr (inr (inl e))))) = subst (Shown config) (sym e) refl
  build-Shown config p (inr (inr (inr (inr (inr x))))) = elim x [ ]

  -- The number that is saved for a row is that of the row's entry.
  abbrev Saved : (Text → Text) → TimingParam → Type 0
  Saved entry p = find p.cfg_key (get_values F entry) ≡ some (int (int_value p (entry p.cfg_key)))

  get_values-Saved : (entry : Text → Text) (p : TimingParam) → Elem p int_params → Saved entry p
  unfolding get_values int_fields find text_eq
  get_values-Saved entry p (inl e) = subst (Saved entry) (sym e) refl
  get_values-Saved entry p (inr (inl e)) = subst (Saved entry) (sym e) refl
  get_values-Saved entry p (inr (inr (inl e))) = subst (Saved entry) (sym e) refl
  get_values-Saved entry p (inr (inr (inr (inl e)))) = subst (Saved entry) (sym e) refl
  get_values-Saved entry p (inr (inr (inr (inr (inl e))))) = subst (Saved entry) (sym e) refl
  get_values-Saved entry p (inr (inr (inr (inr (inr x))))) = elim x [ ]

  -- The dict that is saved by a section that was built from a configuration and not edited has, under the key
  -- of each integer row, the natural number that is configured, or the default where none is,
  -- brought into the range of the row.
  pub build-saved :
      (config : Fields) (p : TimingParam) (n : ℕ)
      → Elem p int_params
      → find_or p.cfg_key (int (pos p.default)) config ≡ int (pos n)
      → find p.cfg_key (get_values F (entry_text (build config)))
        ≡ some (int (pos (max p.min_val (min p.max_val n))))
  build-saved config p n e h =
      get_values-Saved (entry_text (build config)) p e
      ∙ ap (λ v. some (int v))
          (ap (int_value p) (build-Shown config p e) ∙ row_text-saved config p n h)

  wait_value-default :
      F.parse (strip (S.show_float F.default_wait)) ≡ some F.default_wait
      → F.lt F.default_wait F.max_wait ≡ true
      → F.lt F.min_wait F.default_wait ≡ true
      → wait_value F (S.show_float F.default_wait) ≡ F.default_wait
  unfolding wait_value clamp
  wait_value-default h below above = rw (h, wait_value) (rw (below, above))

  -- The defaults that the program documents, with a number for `dialog_wait`.
  abbrev pub factory_values : F.Float → Fields
  factory_values v = field (codes "boot_wait") (int (pos 45)) (
      field (codes "wake_wait") (int (pos 5)) (
        field (codes "keystroke_ms") (int (pos 50)) (
          field (codes "retry_count") (int (pos 3)) (
            field (codes "retry_interval") (int (pos 10))
              (field (codes "dialog_wait") (F.to_value v) end)))))

  reset-factory_values :
      (config : Fields)
      → get_values F (entry_text (confirm_reset (build config)))
        ≡ factory_values (wait_value F (S.show_float F.default_wait))
  unfolding confirm_reset build build_rows lookup text_eq get_values int_fields int_value value_of
      reset_rows default_text clamp parse_int strip is_space show
  reset-factory_values config = refl

  -- After a confirmed reset the section saves the program's values, whatever the configuration
  -- was; the default of `dialog_wait` has to be read back by `float` and lie within its range.
  pub confirm_reset-saved :
      (config : Fields)
      → F.parse (strip (S.show_float F.default_wait)) ≡ some F.default_wait
      → F.lt F.default_wait F.max_wait ≡ true
      → F.lt F.min_wait F.default_wait ≡ true
      → get_values F (entry_text (confirm_reset (build config))) ≡ factory_values F.default_wait
  confirm_reset-saved config h below above =
      reset-factory_values config ∙ ap factory_values (wait_value-default h below above)
