-- ===== src/Serial/Link/Digits.antt =====
-- A number that is written in decimal is read as itself.
use pywinhello.Prelude.{
  Bool-cases, [], ap, arith, false, inl, inr, length, ltb, refl, some, subst, suc, sym, true, zero,
  ℕ, ◌%◌, ◌+◌, ◌/◌, ◌<◌, ◌∙◌, ◌∷◌, ◌≡◌, ◌≤◌,
}
use pywinhello.Prelude.Int.{pos}
use pywinhello.Prelude.Text.{Text}
use pywinhello.Prelude.Text.Split.{parse_int}
use pywinhello.Prelude.Text.Split.Digits.{AllDigits, digits_value, parse_int-AllDigits}
use pywinhello.Serial.Link.{show, show_digits}

show_digits-small :
    (f n : ℕ) (rest : Text) → ltb n 10 ≡ true → show_digits (suc f) n rest ≡ (b'0' + n) ∷ rest
unfolding show_digits
show_digits-small f n rest h = ground arith

show_digits-large :
    (f n : ℕ) (rest : Text)
    → ltb n 10 ≡ false
    → show_digits (suc f) n rest ≡ show_digits f (n / 10) ((b'0' + n % 10) ∷ rest)
unfolding show_digits
show_digits-large f n rest h = ground arith

show_digits-AllDigits : (f n : ℕ) (rest : Text) → AllDigits rest → AllDigits (show_digits f n rest)
show_digits-AllDigits zero n rest h = unfold show_digits in h
show_digits-AllDigits (suc f) n rest h = elim (Bool-cases (ltb n 10)) [
  | inl small ↦ subst AllDigits (sym (show_digits-small f n rest small)) (ground arith)
  | inr large ↦
      subst AllDigits (sym (show_digits-large f n rest large))
        (show_digits-AllDigits f (n / 10) ((b'0' + n % 10) ∷ rest) (ground arith))
]

show_digits-value :
    (f n : ℕ) (rest : Text) → n < f → digits_value 0 (show_digits f n rest) ≡ digits_value n rest
unfolding digits_value
show_digits-value zero n rest h = absurd (omega arith)
show_digits-value (suc f) n rest h = elim (Bool-cases (ltb n 10)) [
  | inl small ↦
      ap (digits_value 0) (show_digits-small f n rest small)
      ∙ ap (λ k. digits_value k rest) (omega arith)
  | inr large ↦
      ap (digits_value 0) (show_digits-large f n rest large)
      ∙ show_digits-value f (n / 10) ((b'0' + n % 10) ∷ rest) (ground arith)
      ∙ ap (λ k. digits_value k rest) (omega arith)
]

parse_nonempty :
    (s : Text) (n : ℕ)
    → AllDigits s
    → 0 < length s
    → digits_value 0 s ≡ n
    → parse_int s ≡ some (pos n)
parse_nonempty [] n h l e = absurd (omega arith)
parse_nonempty (c ∷ s) n h l e = parse_int-AllDigits c s h ∙ ap (λ k. some (pos k)) e

show_digits-le : (f n : ℕ) (rest : Text) → length rest ≤ length (show_digits f n rest)
show_digits-le zero n rest = unfold show_digits in omega arith
show_digits-le (suc f) n rest = elim (Bool-cases (ltb n 10)) [
  | inl small ↦ omega (arith, ap length (show_digits-small f n rest small))
  | inr large ↦ omega (
    arith,
    ap length (show_digits-large f n rest large),
    show_digits-le f (n / 10) ((b'0' + n % 10) ∷ rest),
  )
]

show-nonempty : (n : ℕ) → 0 < length (show n)
unfolding show
show-nonempty n = elim (Bool-cases (ltb n 10)) [
  | inl small ↦ omega (arith, ap length (show_digits-small n n [] small))
  | inr large ↦ omega (
    arith,
    ap length (show_digits-large n n [] large),
    show_digits-le n (n / 10) ((b'0' + n % 10) ∷ []),
  )
]

pub show-AllDigits : (n : ℕ) → AllDigits (show n)
unfolding show
show-AllDigits n = show_digits-AllDigits (suc n) n [] refl

-- int(str(n))
pub parse_int-show : (n : ℕ) → parse_int (show n) ≡ some (pos n)
unfolding show digits_value
parse_int-show n =
    parse_nonempty (show n) n (show-AllDigits n) (show-nonempty n)
      (show_digits-value (suc n) n [] (omega arith))
