-- ===== src/Tests/Panel.antt =====
-- The settings panel and the bars of the wizard at concrete inputs.
use pywinhello.Gui.Settings.Advanced.{Floats, TimingParam, get_values}
use pywinhello.Gui.Settings.Advanced.Rows.{
  ValueTexts, build, build-saved, confirm_reset, confirm_reset-saved, entry_text, factory_values,
}
use pywinhello.Gui.Settings.Apps.{AppVars, app_settings}
use pywinhello.Gui.Settings.Basic.{ScheduleVars, schedule_vars}
use pywinhello.Gui.Settings.Panel.{basic, loads, new_panel}
use pywinhello.Gui.Settings.Panel.Rebuild.{
  Buildable, IsShowing, all_sections, build_sections-twice, loads-IsShowing,
}
use pywinhello.Gui.Wizard.Bars.{IsDrawn, new_view}
use pywinhello.Gui.Wizard.Bars.Drawn.{
  click_back, click_language, click_next, clicks, session-IsDrawn,
}
use pywinhello.Prelude.{Bool, [], false, inl, inr, ltb, refl, some, true, ℕ, ◌++◌, ◌∷◌, ◌≡◌}
use pywinhello.Prelude.Int.{pos}
use pywinhello.Prelude.Result.{attribute_error}
use pywinhello.Prelude.Text.{codes, text_eq}
use pywinhello.Prelude.Text.Split.{split}
use pywinhello.Prelude.Value.{Fields, Value, end, field, find, find_or, get_field, int, obj, truthy}

abbrev whole_floats : Floats
whole_floats = record {
  Float = ℕ;
  lt = ltb;
  parse = λ s. some 1;
  to_value = λ n. int (pos n);
  default_wait = 1;
  min_wait = 0;
  max_wait = 3;
}

abbrev plain_texts : ValueTexts whole_floats
plain_texts = record { show_float = λ n. codes "1.0"; show_other = λ v. codes "?" }

-- A retry count above the range of its row.
abbrev seven_retries : Fields
seven_retries = field (codes "retry_count") (int (pos 7)) end

abbrev retry_row : TimingParam
retry_row = record { cfg_key = codes "retry_count"; default = 3; min_val = 1; max_val = 5 }

build-saved_example :
    find (codes "retry_count") (
      get_values whole_floats
        (entry_text whole_floats plain_texts (build whole_floats plain_texts seven_retries)))
    ≡ some (int (pos 5))
unfolding find_or find text_eq
build-saved_example =
    build-saved whole_floats plain_texts seven_retries retry_row 7 (inr (inr (inr (inl refl)))) refl

confirm_reset-saved_example :
    get_values whole_floats (
      entry_text whole_floats plain_texts
        (confirm_reset whole_floats plain_texts (build whole_floats plain_texts seven_retries)))
    ≡ factory_values whole_floats plain_texts 1
confirm_reset-saved_example =
    confirm_reset-saved whole_floats plain_texts seven_retries refl refl refl

session-IsDrawn_example :
    IsDrawn (clicks (click_next true ∷ click_language ∷ click_back ∷ []) new_view)
session-IsDrawn_example = (session-IsDrawn (click_next true ∷ click_language ∷ click_back ∷ [])).0

-- `BooleanVar` of a flag.
abbrev flag_var : Value → Bool
flag_var v = truthy v

-- The apps as a number.
abbrev bad_apps : Fields
bad_apps = field (codes "apps") (int (pos 7)) end

-- What the section shows of a configuration without a schedule.
abbrev default_vars : ScheduleVars
default_vars = record {
  hour = codes "07";
  minute = codes "45";
  days =
      (codes "mon", true)
      ∷ (codes "tue", true)
      ∷ (codes "wed", true)
      ∷ (codes "thu", true)
      ∷ (codes "fri", true)
      ∷ (codes "sat", false)
      ∷ (codes "sun", false)
      ∷ [];
}

abbrev no_apps : AppVars
no_apps = record { lock_var = true; app_vars = [] }

retries-Buildable : Buildable flag_var (obj seven_retries)
unfolding schedule_vars app_settings find_or find text_eq get_field split truthy
retries-Buildable = (default_vars, no_apps, refl, refl)

loads-IsShowing_example :
    IsShowing
      (obj seven_retries)
      (loads flag_var ((obj seven_retries ∷ []) ++ (obj seven_retries ∷ [])) (new_panel true))
loads-IsShowing_example =
    loads-IsShowing flag_var (obj seven_retries ∷ []) (obj seven_retries) true
      (retries-Buildable, tt) retries-Buildable

build_sections-twice_example :
    (loads flag_var (obj bad_apps ∷ obj seven_retries ∷ []) (new_panel true)).scroll
    ≡ basic ∷ all_sections
unfolding schedule_vars app_settings find_or find text_eq get_field split truthy
build_sections-twice_example =
    build_sections-twice flag_var bad_apps seven_retries attribute_error default_vars default_vars
      no_apps true refl refl refl refl
