-- ===== src/Gui/Settings/Basic/Schedule.antt =====
-- A saved schedule is read back as it was: pc/src/pywinhello/gui/settings/basic.py.
use pywinhello.Gui.Constants.{day_keys}
use pywinhello.Gui.Settings.Basic.{
  day_vars, get_schedule, hour_minute, in_items, is_active, schedule_vars, time_parts, vars_from,
}
use pywinhello.Gui.Steps.ScheduleStep.{chosen_days, elem_text, schedule_value}
use pywinhello.Prelude.{
  Bool, List, [], all_of, ap, arith, false, map, refl, true, ◌&&◌, ◌++◌, ◌∙◌, ◌∷◌, ◌≡◌,
}
use pywinhello.Prelude.Result.{ok}
use pywinhello.Prelude.Text.{Text, codes, text_eq, text_eq_iff}
use pywinhello.Prelude.Text.Split.{Lacks, split, split-Lacks, split_at_sep}
use pywinhello.Prelude.Value.{Fields, Items, arr, field, find, find_or, get_field, str}

-- Check boxes of the days that a test chooses.
abbrev pub vars_of : (Text → Bool) → List Text → List (Text × Bool)
vars_of f keys = map (λ k. (k, f k)) keys

in_items-chosen :
    (f : Text → Bool) (key : Text) (keys : List Text)
    → in_items key (chosen_days (vars_of f keys)) ≡ (elem_text key keys && f key)
unfolding in_items chosen_days elem_text
in_items-chosen f key [] = refl
in_items-chosen f key (k ∷ keys) =
    ground (arith, in_items-chosen f key keys, text_eq_iff k key, text_eq_iff key k, same)
  where
    same : k ≡ key → f k ≡ f key
    same e = ap f e

day_vars-chosen :
    (vs : Items) (keys : List Text)
    → day_vars (arr vs) keys ≡ ok (vars_of (λ k. in_items k vs) keys)
unfolding day_vars is_active
day_vars-chosen vs [] = refl
day_vars-chosen vs (k ∷ keys) = rw (day_vars-chosen vs keys)

shown-chosen :
    (f : Text → Bool) (all keys : List Text)
    → all_of (λ k. elem_text k all) keys ≡ true
    → vars_of (λ k. in_items k (chosen_days (vars_of f all))) keys ≡ vars_of f keys
shown-chosen f all [] h = refl
shown-chosen f all (k ∷ keys) h =
    let (e, r) = both (elem_text k all) (all_of (λ j. elem_text j all) keys) h in
    let flag : in_items k (chosen_days (vars_of f all)) ≡ f k =
      in_items-chosen f k all ∙ ap (λ b. b && f k) e in
    ap (λ b. (k, b) ∷ vars_of (λ j. in_items j (chosen_days (vars_of f all))) keys) flag
    ∙ ap (λ l. (k, f k) ∷ l) (shown-chosen f all keys r)
  where
    both : (a b : Bool) → (a && b) ≡ true → (a ≡ true) × (b ≡ true)
    both true b h = (refl, h)
    both false b h = cc

split-time :
    (hour minute : Text)
    → Lacks b':' hour
    → Lacks b':' minute
    → split b':' (hour ++ (codes ":" ++ minute)) ≡ hour ∷ minute ∷ []
split-time hour minute hh hm =
    split_at_sep b':' hour minute hh ∙ ap (λ l. hour ∷ l) (split-Lacks b':' minute hm)

vars_from-chosen :
    (hour minute : Text) (f : Text → Bool) (keys : List Text)
    → Lacks b':' hour
    → Lacks b':' minute
    → all_of (λ k. elem_text k keys) keys ≡ true
    → vars_from (str (hour ++ (codes ":" ++ minute))) (arr (chosen_days (vars_of f keys))) keys
      ≡ ok (record { hour = hour; minute = minute; days = vars_of f keys })
unfolding vars_from time_parts hour_minute
vars_from-chosen hour minute f keys hh hm h = rw (
  split-time hour minute hh hm,
  day_vars-chosen (chosen_days (vars_of f keys)) keys,
  shown-chosen f keys keys h,
)

-- A configuration with the schedule that the section saves shows the same hour, minute and days,
-- whatever the configuration holds behind it.
pub schedule_vars-get_schedule :
    (hour minute : Text) (f : Text → Bool) (rest : Fields)
    → Lacks b':' hour
    → Lacks b':' minute
    → schedule_vars (
        field
          (codes "schedule")
          (get_schedule (record { hour = hour; minute = minute; days = vars_of f day_keys }))
          rest)
      ≡ ok (record { hour = hour; minute = minute; days = vars_of f day_keys })
unfolding schedule_vars get_schedule schedule_value get_field find_or find text_eq elem_text
schedule_vars-get_schedule hour minute f rest hh hm =
    vars_from-chosen hour minute f day_keys hh hm refl
