-- ===== src/Gui/Wizard/Bars.antt =====
-- What the set-up wizard shows around its steps: pc/src/pywinhello/gui/wizard/base.py, and the header of
-- pc/src/pywinhello/gui/wizard/__init__.py. Texts are the keys of their translations.
pub mod Drawn
pub mod Agreement
use pywinhello.Gui.Wizard.{StepName, steps}
use pywinhello.Prelude.{
  Bool, List, Option, [], false, get_elem?, if◌then◌else◌, leb, length, ltb, none, suc, true, zero,
  ℕ, ◌++◌, ◌+◌, ◌-◌, ◌<◌, ◌==◌, ◌∷◌, ◌≡◌, ◌⊎◌,
}

-- The accent of the theme, and gray.
pub data Color : Type 0 where
  accent gray60 : Color

pub data NextText : Type 0 where
  btn_next btn_finish : NextText

-- WizardStep: whether its frame is built and packed, and how often it was built.
pub record Frame : Type 0 where
  pub built : Bool
  pub packed : Bool
  pub builds : ℕ

pub record WizardView : Type 0 where
  pub current_index : ℕ
  pub step_label : ℕ × ℕ
  pub step_title : Option StepName
  pub circles : List Color
  pub lines : List Color
  pub back_enabled : Bool
  pub next_text : NextText
  pub frames : ℕ → Frame

-- WizardStep.show
pub show_frame : Frame → Frame
show_frame f = record {
  built = true;
  packed = true;
  builds = if f.built then f.builds else f.builds + 1;
}

-- WizardStep.hide
pub hide_frame : Frame → Frame
hide_frame f = record f { packed = false }

pub update : ℕ → (Frame → Frame) → (ℕ → Frame) → ℕ → Frame
update i change frames j = if i == j then change (frames j) else frames j

-- The loops of ProgressBar.set_step, from an index on.
pub paint_circles : ℕ → ℕ → List Color → List Color
paint_circles step i [] = []
paint_circles step i (c ∷ circles) =
    (if leb i step then accent else gray60) ∷ paint_circles step (i + 1) circles

pub paint_lines : ℕ → ℕ → List Color → List Color
paint_lines step i [] = []
paint_lines step i (c ∷ lines) =
    (if ltb i step then accent else gray60) ∷ paint_lines step (i + 1) lines

-- _show_step
pub show_view : ℕ → WizardView → WizardView
unfolding update show_frame hide_frame paint_circles paint_lines
show_view index v =
    let hidden =
      if ltb v.current_index (length steps)
      then update v.current_index hide_frame v.frames
      else v.frames in
    record {
      current_index = index;
      step_label = (index + 1, length steps);
      step_title = get_elem? steps index;
      circles = paint_circles index 0 v.circles;
      lines = paint_lines index 0 v.lines;
      back_enabled = ltb 0 index;
      next_text = if index == length steps - 1 then btn_finish else btn_next;
      frames = update index show_frame hidden;
    }

-- What __init__ makes of the bars, and the first step.
pub new_view : WizardView
unfolding show_view
new_view = show_view 0 (record {
  current_index = 0;
  step_label = (0, 0);
  step_title = none;
  circles = gray60 ∷ gray60 ∷ gray60 ∷ gray60 ∷ [];
  lines = gray60 ∷ gray60 ∷ gray60 ∷ [];
  back_enabled = true;
  next_text = btn_next;
  frames = λ i. record { built = false; packed = false; builds = 0 };
})

-- _go_next, by what `can_proceed` answers
pub next_view : Bool → WizardView → WizardView
next_view false v = v
next_view true v =
    if ltb v.current_index (length steps - 1) then show_view (v.current_index + 1) v else v

-- _go_back
pub back_view : WizardView → WizardView
back_view v = if ltb 0 v.current_index then show_view (v.current_index - 1) v else v

-- refresh_i18n, with NavigationBar.refresh_text
pub refresh_i18n : WizardView → WizardView
refresh_i18n v = record v {
  step_label = (v.current_index + 1, length steps);
  step_title = get_elem? steps v.current_index;
  next_text = btn_next;
}

abbrev pub replicate {ℓ} : {A : Type ℓ} → ℕ → A → List A
replicate zero a = []
replicate (suc n) a = a ∷ replicate n a

-- The bars as the documentation draws them for a step, and one frame on the screen.
pub record IsDrawn (v : WizardView) : Type 0 where
  pub inside : v.current_index < 4
  pub label : v.step_label ≡ (v.current_index + 1, 4)
  pub title : v.step_title ≡ get_elem? steps v.current_index
  pub done_circles :
      v.circles ≡ replicate (v.current_index + 1) accent ++ replicate (3 - v.current_index) gray60
  pub done_lines :
      v.lines ≡ replicate v.current_index accent ++ replicate (3 - v.current_index) gray60
  pub back : v.back_enabled ≡ ltb 0 v.current_index
  pub finish_last : (v.next_text ≡ btn_next) ⊎ (v.current_index ≡ 3)
  pub one_frame : (i : ℕ) → (v.frames i).packed ≡ (v.current_index == i)
  pub built_once : (i : ℕ) → (v.frames i).builds ≡ (if (v.frames i).built then 1 else 0)
