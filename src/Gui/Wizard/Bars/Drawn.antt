-- ===== src/Gui/Wizard/Bars/Drawn.antt =====
-- The bars of the set-up wizard fit its step: pc/src/pywinhello/gui/wizard/base.py.
use pywinhello.Gui.Wizard.Bars.{
  Color, IsDrawn, NextText, WizardView, accent, back_view, btn_finish, btn_next, gray60, hide_frame,
  new_view, next_view, paint_circles, paint_lines, refresh_i18n, replicate, show_frame, show_view,
  update,
}
use pywinhello.Prelude.{
  Bool, Bool-cases, List, [], ap, arith, false, if◌then◌else◌, inl, inr, ltb, refl, suc, true, zero,
  ℕ, ◌++◌, ◌+◌, ◌-◌, ◌<◌, ◌==◌, ◌∙◌, ◌∷◌, ◌≡◌, ◌⊎◌,
}
use pywinhello.Serial.Link.{answer}

-- The circles and the lines of a step.
abbrev drawn_circles : ℕ → List Color
drawn_circles step = replicate (step + 1) accent ++ replicate (3 - step) gray60

abbrev drawn_lines : ℕ → List Color
drawn_lines step = replicate step accent ++ replicate (3 - step) gray60

-- Painting looks at the number of the circles only.
paint_four :
    (step : ℕ) (a b c d : Color)
    → step < 4
    → paint_circles step 0 (a ∷ b ∷ c ∷ d ∷ []) ≡ drawn_circles step
unfolding paint_circles
paint_four zero a b c d h = refl
paint_four (suc zero) a b c d h = refl
paint_four (suc (suc zero)) a b c d h = refl
paint_four (suc (suc (suc zero))) a b c d h = refl
paint_four (suc (suc (suc (suc n)))) a b c d h = absurd (omega arith)

paint_three :
    (step : ℕ) (a b c : Color) → step < 4 → paint_lines step 0 (a ∷ b ∷ c ∷ []) ≡ drawn_lines step
unfolding paint_lines
paint_three zero a b c h = refl
paint_three (suc zero) a b c h = refl
paint_three (suc (suc zero)) a b c h = refl
paint_three (suc (suc (suc zero))) a b c h = refl
paint_three (suc (suc (suc (suc n)))) a b c h = absurd (omega arith)

circles-repainted :
    (old step : ℕ)
    → old < 4
    → step < 4
    → paint_circles step 0 (drawn_circles old) ≡ drawn_circles step
circles-repainted zero step p q = paint_four step _ _ _ _ q
circles-repainted (suc zero) step p q = paint_four step _ _ _ _ q
circles-repainted (suc (suc zero)) step p q = paint_four step _ _ _ _ q
circles-repainted (suc (suc (suc zero))) step p q = paint_four step _ _ _ _ q
circles-repainted (suc (suc (suc (suc n)))) step p q = absurd (omega arith)

lines-repainted :
    (old step : ℕ) → old < 4 → step < 4 → paint_lines step 0 (drawn_lines old) ≡ drawn_lines step
lines-repainted zero step p q = paint_three step _ _ _ q
lines-repainted (suc zero) step p q = paint_three step _ _ _ q
lines-repainted (suc (suc zero)) step p q = paint_three step _ _ _ q
lines-repainted (suc (suc (suc zero))) step p q = paint_three step _ _ _ q
lines-repainted (suc (suc (suc (suc n)))) step p q = absurd (omega arith)

show_view-IsDrawn :
    (index : ℕ) (v : WizardView) → index < 4 → IsDrawn v → IsDrawn (show_view index v)
unfolding show_view update show_frame hide_frame
show_view-IsDrawn index v l h = record {
  inside = l;
  label = refl;
  title = refl;
  done_circles =
      ap (paint_circles index 0) h.done_circles
      ∙ circles-repainted v.current_index index h.inside l;
  done_lines =
      ap (paint_lines index 0) h.done_lines ∙ lines-repainted v.current_index index h.inside l;
  back = refl;
  finish_last = ground arith;
  one_frame = λ i. ground (arith, h.one_frame i, h.inside);
  built_once = λ i. ground (arith, h.built_once i);
}

-- The first step is drawn over bars that are all gray, with no frame built.
new_view-IsDrawn : IsDrawn new_view
unfolding new_view show_view update show_frame hide_frame paint_circles paint_lines
new_view-IsDrawn = record {
  inside = omega arith;
  label = refl;
  title = refl;
  done_circles = refl;
  done_lines = refl;
  back = refl;
  finish_last = ground arith;
  one_frame = λ i. ground arith;
  built_once = λ i. ground arith;
}

-- Clicks on the buttons, on Next with what `can_proceed` answers, and on the button of the language.
pub data Click : Type 0 where
  click_next : Bool → Click
  click_back click_language : Click

clicked : Click → WizardView → WizardView
clicked (click_next answer) v = next_view answer v
clicked click_back v = back_view v
clicked click_language v = refresh_i18n v

pub clicks : List Click → WizardView → WizardView
unfolding clicked
clicks [] v = v
clicks (c ∷ later) v = clicks later (clicked c v)

-- Whether the language is never changed.
abbrev pub one_language : List Click → Bool
one_language [] = true
one_language (click_next answer ∷ later) = one_language later
one_language (click_back ∷ later) = one_language later
one_language (click_language ∷ later) = false

-- What Next reads in a step that was just shown.
abbrev next_of : WizardView → NextText
next_of v = if v.current_index == 3 then btn_finish else btn_next

refresh-IsDrawn : (v : WizardView) → IsDrawn v → IsDrawn (refresh_i18n v)
unfolding refresh_i18n
refresh-IsDrawn v h = record {
  inside = h.inside;
  label = refl;
  title = refl;
  done_circles = h.done_circles;
  done_lines = h.done_lines;
  back = h.back;
  finish_last = inl refl;
  one_frame = h.one_frame;
  built_once = h.built_once;
}

clicked-IsDrawn : (c : Click) (v : WizardView) → IsDrawn v → IsDrawn (clicked c v)
unfolding clicked next_view back_view
clicked-IsDrawn (click_next false) v h = h
clicked-IsDrawn (click_next true) v h = elim (Bool-cases (ltb v.current_index 3)) [
  | inl more ↦ rw more (show_view-IsDrawn (v.current_index + 1) v (ground arith) h)
  | inr last ↦ rw last h
]
clicked-IsDrawn click_back v h = elim (Bool-cases (ltb 0 v.current_index)) [
  | inl more ↦ rw more (show_view-IsDrawn (v.current_index - 1) v (omega (arith, h.inside)) h)
  | inr first ↦ rw first h
]
clicked-IsDrawn click_language v h = refresh-IsDrawn v h

clicks-IsDrawn : (cs : List Click) (v : WizardView) → IsDrawn v → IsDrawn (clicks cs v)
unfolding clicks
clicks-IsDrawn [] v h = h
clicks-IsDrawn (c ∷ cs) v h = clicks-IsDrawn cs (clicked c v) (clicked-IsDrawn c v h)

next_view-next :
    (answer : Bool) (v : WizardView)
    → v.next_text ≡ next_of v
    → (next_view answer v).next_text ≡ next_of (next_view answer v)
unfolding next_view show_view
next_view-next false v h = h
next_view-next true v h = elim (Bool-cases (ltb v.current_index 3)) [
  | inl more ↦ rw more refl
  | inr last ↦ rw last h
]

back_view-next :
    (v : WizardView) → v.next_text ≡ next_of v → (back_view v).next_text ≡ next_of (back_view v)
unfolding back_view show_view
back_view-next v h = elim (Bool-cases (ltb 0 v.current_index)) [
  | inl more ↦ rw more refl
  | inr first ↦ rw first h
]

clicks-next :
    (cs : List Click) (v : WizardView)
    → one_language cs ≡ true
    → v.next_text ≡ next_of v
    → (clicks cs v).next_text ≡ next_of (clicks cs v)
unfolding clicks clicked
clicks-next [] v l h = h
clicks-next (click_next answer ∷ cs) v l h =
    clicks-next cs (next_view answer v) l (next_view-next answer v h)
clicks-next (click_back ∷ cs) v l h = clicks-next cs (back_view v) l (back_view-next v h)
clicks-next (click_language ∷ cs) v l h = cc

-- Whatever is clicked, the button of the language included, and whatever the steps answer to Next, the bars
-- fit the step: its number and title are shown, the circles up to it and the lines before it are
-- coloured and the others gray, Back is enabled after the first step, the step's frame alone is on
-- the screen, and no frame was built twice. Next reads Finish only in the last step, and, as long
-- as the language is not changed, always there.
pub session-IsDrawn :
    (cs : List Click)
    → IsDrawn (clicks cs new_view)
      × ((one_language cs ≡ false)
          ⊎ ((clicks cs new_view).next_text ≡ next_of (clicks cs new_view)))
unfolding new_view show_view
session-IsDrawn cs = (
  clicks-IsDrawn cs new_view new_view-IsDrawn,
  elim (Bool-cases (one_language cs)) [
    | inl l ↦ inr (clicks-next cs new_view l refl)
    | inr l ↦ inl l
  ],
)
