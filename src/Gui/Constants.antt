-- ===== src/Gui/Constants.antt =====
-- pc/src/pywinhello/gui/constants.py: the days and the check of a PIN.
use pywinhello.Prelude.{
  Bool, List, Option, [], ap, arith, false, if◌then◌else◌, length, ltb, none, not, refl, some, ℕ,
  ◌↔◌, ◌∷◌, ◌≡◌, ◌≤◌,
}
use pywinhello.Prelude.Text.{Text, codes, text_eq, text_eq_iff}

abbrev pub min_pin_length : ℕ
min_pin_length = 4

abbrev pub day_keys : List Text
day_keys =
    codes "mon"
    ∷ codes "tue"
    ∷ codes "wed"
    ∷ codes "thu"
    ∷ codes "fri"
    ∷ codes "sat"
    ∷ codes "sun"
    ∷ []

abbrev pub default_days : List Text
default_days = codes "mon" ∷ codes "tue" ∷ codes "wed" ∷ codes "thu" ∷ codes "fri" ∷ []

-- confirm is not None and pin != confirm
differs : Text → Option Text → Bool
differs pin none = false
differs pin (some confirm) = not (text_eq pin confirm)

-- The i18n key of the error, or `none`.
unfoldable pub validate_pin : Text → Option Text → Option Text
unfolding differs
validate_pin pin confirm =
    if text_eq pin []
    then some (codes "wizard.step3.pin_empty")
    else if ltb (length pin) min_pin_length
    then some (codes "wizard.step3.pin_too_short")
    else if differs pin confirm
    then some (codes "wizard.step3.pin_mismatch")
    else none

abbrev pub Confirms : Text → Option Text → Type 0
Confirms pin none = Unit
Confirms pin (some confirm) = confirm ≡ pin

differs_iff :
    (pin : Text) (confirm : Option Text) → (differs pin confirm ≡ false) ↔ Confirms pin confirm
unfolding differs
differs_iff pin none = (λ h. tt, λ h. refl)
differs_iff pin (some confirm) = ground (arith, text_eq_iff pin confirm)

-- A PIN is accepted exactly if it has four characters or more and equals the confirmation, where
-- one is given; that it is not empty follows.
pub validate_pin_iff :
    (pin : Text) (confirm : Option Text)
    → (validate_pin pin confirm ≡ none) ↔ ((4 ≤ length pin) × Confirms pin confirm)
unfolding validate_pin
validate_pin_iff pin confirm =
    ground (arith, differs_iff pin confirm, text_eq_iff pin [], not_empty)
  where
    not_empty : pin ≡ [] → length pin ≡ 0
    not_empty e = ap length e
