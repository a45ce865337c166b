-- ===== src/Prelude/Text/Strip.antt =====
-- What `strip` takes off, and what it leaves.
use mathlib.Core.List.{reverse-append, reverse-reverse}
use pywinhello.Prelude.{
  [], all_of, all_of-append, arith, drop_while, drop_while-append, false, refl, reverse, true, ℕ,
  ◌++◌, ◌∷◌, ◌≡◌,
}
use pywinhello.Prelude.Text.{Text, is_space, strip}

-- No white space at the right end.
abbrev pub IsRightTrimmed : Text → Type 0
IsRightTrimmed s = drop_while is_space (reverse s) ≡ reverse s

abbrev pub IsBlank : Text → Type 0
IsBlank w = all_of is_space w ≡ true

IsBlank-reverse : (w : Text) → IsBlank w → IsBlank (reverse w)
IsBlank-reverse [] h = refl
IsBlank-reverse (c ∷ w) h =
    rw (reverse-append (c ∷ []) w)
      (ground (arith, all_of-append is_space (reverse w) (c ∷ []), IsBlank-reverse w))

-- White space behind a text that neither starts nor ends with white space goes.
pub strip-append :
    (c : ℕ) (s w : Text)
    → is_space c ≡ false
    → IsRightTrimmed (c ∷ s)
    → IsBlank w
    → strip ((c ∷ s) ++ w) ≡ c ∷ s
unfolding strip
strip-append c s w hc hs hw =
    let front : drop_while is_space (c ∷ (s ++ w)) ≡ c ∷ (s ++ w) = rw hc in
    rw
      (
        front,
        reverse-append (c ∷ s) w,
        drop_while-append is_space (reverse w) (reverse (c ∷ s)) (IsBlank-reverse w hw),
        hs,
      )
      (reverse-reverse (c ∷ s))
