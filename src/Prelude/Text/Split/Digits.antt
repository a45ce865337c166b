-- ===== src/Prelude/Text/Split/Digits.antt =====
-- `int` of a text of decimal digits.
use mathlib.Core.List.{reverse-append, reverse-reverse}
use pywinhello.Prelude.{
  Bool, [], all_of, all_of-append, arith, drop_while, false, leb, refl, reverse, some, true, ℕ,
  ◌&&◌, ◌*◌, ◌+◌, ◌-◌, ◌∷◌, ◌≡◌,
}
use pywinhello.Prelude.Int.{pos}
use pywinhello.Prelude.Text.{Text, is_space, strip}
use pywinhello.Prelude.Text.Split.{parse_int, scan_digits, signed, unsigned}

abbrev pub is_digit : ℕ → Bool
is_digit c = leb b'0' c && leb c b'9'

abbrev pub AllDigits : Text → Type 0
AllDigits s = all_of is_digit s ≡ true

-- The number that digits stand for behind a number.
unfoldable pub digits_value : ℕ → Text → ℕ
digits_value acc [] = acc
digits_value acc (c ∷ s) = digits_value (acc * 10 + (c - 48)) s

scan_digits-AllDigits :
    (acc : ℕ) (s : Text) → AllDigits s → scan_digits acc s ≡ some (digits_value acc s)
unfolding scan_digits digits_value
scan_digits-AllDigits acc [] h = refl
scan_digits-AllDigits acc (c ∷ []) h = ground arith
scan_digits-AllDigits acc (c ∷ d ∷ s) h =
    ground (arith, scan_digits-AllDigits (acc * 10 + (c - 48)) (d ∷ s))

digit_no_space : (c : ℕ) → is_digit c ≡ true → is_space c ≡ false
unfolding is_space
digit_no_space c h = ground arith

drop_while-AllDigits : (s : Text) → AllDigits s → drop_while is_space s ≡ s
drop_while-AllDigits [] h = refl
drop_while-AllDigits (c ∷ s) h = ground (arith, digit_no_space c)

AllDigits-reverse : (s : Text) → AllDigits s → AllDigits (reverse s)
AllDigits-reverse [] h = refl
AllDigits-reverse (c ∷ s) h =
    rw (reverse-append (c ∷ []) s)
      (ground (arith, all_of-append is_digit (reverse s) (c ∷ []), AllDigits-reverse s))

pub strip-AllDigits : (s : Text) → AllDigits s → strip s ≡ s
unfolding strip
strip-AllDigits s h =
    rw (drop_while-AllDigits s h, drop_while-AllDigits (reverse s) (AllDigits-reverse s h))
      (reverse-reverse s)

-- Digits are read as the number that they stand for.
pub parse_int-AllDigits :
    (c : ℕ) (s : Text) → AllDigits (c ∷ s) → parse_int (c ∷ s) ≡ some (pos (digits_value 0 (c ∷ s)))
unfolding parse_int signed unsigned digits_value
parse_int-AllDigits c s h =
    rw (strip-AllDigits (c ∷ s) h) (ground (arith, scan_digits-AllDigits (c - 48) s))
