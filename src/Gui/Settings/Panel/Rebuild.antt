-- ===== src/Gui/Settings/Panel/Rebuild.antt =====
-- What the settings panel holds after loads: pc/src/pywinhello/gui/settings/__init__.py.
use pywinhello.Gui.Settings.Apps.{AppVars, app_settings}
use pywinhello.Gui.Settings.Basic.{ScheduleVars, schedule_vars}
use pywinhello.Gui.Settings.Panel.{
  SectionName, SettingsPanel, add, advanced, apps, basic, build_actions, build_from, build_sections,
  clear_built, loads, log, new_panel, status_of, version,
}
use pywinhello.Prelude.{
  Bool, Bool-cases, List, [], ap, arith, false, inl, inr, none, refl, subst, sym, true, ◌++◌, ◌+◌,
  ◌∙◌, ◌∷◌, ◌≡◌,
}
use pywinhello.Prelude.Result.{Error, err, ok}
use pywinhello.Prelude.Value.{Fields, Value, arr, boolean, float, int, null, obj, str}

-- A configuration from which every section can be built.
abbrev pub Buildable : (Value → Bool) → Value → Type 0
Buildable boolean_var (obj fs) =
    (vars : ScheduleVars) × (rows : AppVars) × (schedule_vars fs ≡ ok vars)
    × (app_settings boolean_var fs ≡ ok rows)
Buildable boolean_var _ = ⊥

abbrev pub AllBuildable : (Value → Bool) → List Value → Type 0
AllBuildable boolean_var [] = Unit
AllBuildable boolean_var (c ∷ cs) = Buildable boolean_var c × AllBuildable boolean_var cs

abbrev pub all_sections : List SectionName
all_sections = basic ∷ apps ∷ advanced ∷ log ∷ version ∷ []

-- A panel whose frames are empty until they are built.
abbrev IsClean : SettingsPanel → Type 0
IsClean p = p.sections_built ≡ false → (p.scroll ≡ []) × (p.actions ≡ 0)

-- What is shown of a configuration.
pub record IsShowing (config : Value) (p : SettingsPanel) : Type 0 where
  pub kept : p.config ≡ config
  pub built : p.sections_built ≡ true
  pub status : p.status ≡ status_of config
  pub sections : p.scroll ≡ all_sections
  pub buttons : p.actions ≡ 4

clear_built-empty :
    (p : SettingsPanel) → IsClean p → ((clear_built p).scroll ≡ []) × ((clear_built p).actions ≡ 0)
unfolding clear_built
clear_built-empty p clean = elim (Bool-cases p.sections_built) [
  | inl built ↦ (ground arith, ground arith)
  | inr fresh ↦ let (no_scroll, no_actions) = clean fresh in (ground arith, ground arith)
]

clear_built-config : (p : SettingsPanel) → (clear_built p).config ≡ p.config
unfolding clear_built
clear_built-config p = ground arith

module _ (boolean_var : Value → Bool) where
  -- The panel when the sections are added one after the other.
  build_from-added :
      (fs : Fields) (vars : ScheduleVars) (rows : AppVars) (q : SettingsPanel)
      → schedule_vars fs ≡ ok vars
      → app_settings boolean_var fs ≡ ok rows
      → build_from boolean_var fs q ≡ (
        ok tt,
        record q {
          scroll =
              ((((q.scroll ++ (basic ∷ [])) ++ (apps ∷ [])) ++ (advanced ∷ [])) ++ (log ∷ []))
              ++ (version ∷ []);
          actions = q.actions + 4;
          action_status = none;
          sections_built = true;
        },
      )
  unfolding build_from add build_actions
  build_from-added fs vars rows q hv hr = rw (hv, hr)

  -- The same where the frames are empty.
  build_from-IsShowing :
      (fs : Fields) (vars : ScheduleVars) (rows : AppVars) (q : SettingsPanel)
      → schedule_vars fs ≡ ok vars
      → app_settings boolean_var fs ≡ ok rows
      → q.scroll ≡ []
      → q.actions ≡ 0
      → q.config ≡ obj fs
      → q.status ≡ status_of (obj fs)
      → IsShowing (obj fs) (build_from boolean_var fs q).1
  build_from-IsShowing fs vars rows q hv hr no_scroll no_actions kept status =
      subst (IsShowing (obj fs)) (sym (ap (λ r. r.1) (build_from-added fs vars rows q hv hr)))
        (record {
          kept = kept;
          built = refl;
          status = status;
          sections = rw no_scroll;
          buttons = omega arith;
        })

  build_sections-IsShowing :
      (config : Value) (p : SettingsPanel)
      → Buildable boolean_var config
      → IsClean p
      → IsShowing config (build_sections boolean_var config p).1
  unfolding build_sections
  build_sections-IsShowing (obj fs) p (vars, rows, hv, hr) clean =
      let cleared = clear_built (record p { config = obj fs }) in
      let (no_scroll, no_actions) = clear_built-empty (record p { config = obj fs }) clean in
      build_from-IsShowing fs vars rows (record cleared { status = status_of (obj fs) }) hv hr
        no_scroll no_actions (clear_built-config (record p { config = obj fs })) refl
  build_sections-IsShowing null p x clean = elim x [ ]
  build_sections-IsShowing (boolean b) p x clean = elim x [ ]
  build_sections-IsShowing (int n) p x clean = elim x [ ]
  build_sections-IsShowing (float m k) p x clean = elim x [ ]
  build_sections-IsShowing (str s) p x clean = elim x [ ]
  build_sections-IsShowing (arr vs) p x clean = elim x [ ]

  loads-from :
      (cs : List Value) (config : Value) (p : SettingsPanel)
      → AllBuildable boolean_var cs
      → Buildable boolean_var config
      → IsClean p
      → IsShowing config (loads boolean_var (cs ++ (config ∷ [])) p)
  unfolding loads
  loads-from [] config p hs h clean = build_sections-IsShowing config p h clean
  loads-from (c ∷ cs) config p (hc, hs) h clean =
      loads-from cs config (build_sections boolean_var c p).1 hs h
        λ fresh. absurd_built (build_sections-IsShowing c p hc clean) fresh
    where
      absurd_built :
          {q : SettingsPanel}
          → IsShowing c q
          → q.sections_built ≡ false
          → (q.scroll ≡ []) × (q.actions ≡ 0)
      absurd_built s fresh = absurd (ground (arith, s.built, fresh))

  -- After loads of configurations from which every section can be built, a new panel shows the last one: its
  -- status, each of the five sections once and in order, and one row of buttons.
  pub loads-IsShowing :
      (cs : List Value) (config : Value) (has_wizard : Bool)
      → AllBuildable boolean_var cs
      → Buildable boolean_var config
      → IsShowing config (loads boolean_var (cs ++ (config ∷ [])) (new_panel has_wizard))
  unfolding new_panel
  loads-IsShowing cs config has_wizard hs h =
      loads-from cs config (new_panel has_wizard) hs h (λ fresh. (refl, refl))

  -- What a failed build of the section of the apps leaves.
  abbrev failed_panel : Fields → Bool → SettingsPanel
  failed_panel fs has_wizard = record (new_panel has_wizard) {
    config = obj fs;
    status = status_of (obj fs);
    scroll = basic ∷ [];
  }

  build_sections-failed :
      (fs : Fields) (vars : ScheduleVars) (e : Error) (has_wizard : Bool)
      → schedule_vars fs ≡ ok vars
      → app_settings boolean_var fs ≡ err e
      → build_sections boolean_var (obj fs) (new_panel has_wizard)
        ≡ (err e, failed_panel fs has_wizard)
  unfolding build_sections build_from clear_built new_panel add
  build_sections-failed fs vars e has_wizard hv he = rw (hv, he)

  rebuilt :
      (fs config : Fields) (vars : ScheduleVars) (rows : AppVars) (has_wizard : Bool)
      → schedule_vars config ≡ ok vars
      → app_settings boolean_var config ≡ ok rows
      → (build_sections boolean_var (obj config) (failed_panel fs has_wizard)).1.scroll
        ≡ basic ∷ all_sections
  unfolding build_sections clear_built new_panel
  rebuilt fs config vars rows has_wizard hv hr =
      ap (λ r. r.1.scroll)
        (build_from-added config vars rows
          (record (failed_panel fs has_wizard) {
            config = obj config;
            status = status_of (obj config);
          })
          hv hr)

  -- A first load whose apps cannot be read leaves the basic section in a panel that does not count as built;
  -- the next build does not clear it and shows the basic section twice.
  pub build_sections-twice :
      (fs config : Fields) (e : Error) (old vars : ScheduleVars) (rows : AppVars)
      (has_wizard : Bool)
      → schedule_vars fs ≡ ok old
      → app_settings boolean_var fs ≡ err e
      → schedule_vars config ≡ ok vars
      → app_settings boolean_var config ≡ ok rows
      → (loads boolean_var (obj fs ∷ obj config ∷ []) (new_panel has_wizard)).scroll
        ≡ basic ∷ all_sections
  unfolding loads
  build_sections-twice fs config e old vars rows has_wizard ho he hv hr =
      ap (λ r. (build_sections boolean_var (obj config) r.1).1.scroll)
        (build_sections-failed fs old e has_wizard ho he)
      ∙ rebuilt fs config vars rows has_wizard hv hr
