-- ===== src/Prelude/Text/Split.antt =====
-- `str.split` at one character, and `int` of a text.
pub mod Digits
use Prim.Native.Nat.{ℕ, ◌*◌, ◌+◌, ◌-◌}
use mathlib.Core.Bool.{false, true, ◌&&◌}
use mathlib.Core.List.{List, [], ◌++◌, ◌∷◌}
use mathlib.Core.Logic.{◌≢◌}
use mathlib.Core.Option.{Option, none, some}
use mathlib.Core.Path.{refl, ◌≡◌}
use native.Mathlib.Omega.{arith}
use pywinhello.Prelude.{ap, if◌then◌else◌, leb, ◌==◌, ◌∙◌}
use pywinhello.Prelude.Int.{negate, pos, ℤ}
use pywinhello.Prelude.Text.{Text, codes, is_space, strip}

push_head : ℕ → List Text → List Text
push_head c [] = (c ∷ []) ∷ []
push_head c (p ∷ ps) = (c ∷ p) ∷ ps

-- s.split(sep), sep one character: there is always a first part.
unfoldable pub split : ℕ → Text → List Text
unfolding push_head
split sep [] = [] ∷ []
split sep (c ∷ s) = let rest = split sep s in if c == sep then [] ∷ rest else push_head c rest

-- sep.join(parts)
unfoldable pub join : Text → List Text → Text
join sep [] = []
join sep (p ∷ []) = p
join sep (p ∷ q ∷ ps) = p ++ (sep ++ join sep (q ∷ ps))

abbrev pub Lacks : ℕ → Text → Type 0
Lacks sep [] = Unit
Lacks sep (c ∷ s) = (c ≢ sep) × Lacks sep s

pub Lacks-append : (sep : ℕ) (s t : Text) → Lacks sep s → Lacks sep t → Lacks sep (s ++ t)
Lacks-append sep [] t h k = k
Lacks-append sep (c ∷ s) t (hc, h) k = (hc, Lacks-append sep s t h k)

-- parts[0], which a split always has
abbrev pub first_part : List Text → Text
first_part [] = []
first_part (p ∷ ps) = p

push_head-head : (c : ℕ) (p s : Text) (ps : List Text) → push_head c (p ∷ ps) ≡ (c ∷ p) ∷ ps
unfolding push_head
push_head-head c p s ps = refl

pub split-Lacks : (sep : ℕ) (p : Text) → Lacks sep p → split sep p ≡ p ∷ []
unfolding split
split-Lacks sep [] h = refl
split-Lacks sep (c ∷ p) (hc, h) = ground (arith, split-Lacks sep p h)

pub split_at_sep :
    (sep : ℕ) (p rest : Text) → Lacks sep p → split sep (p ++ (sep ∷ rest)) ≡ p ∷ split sep rest
unfolding split
split_at_sep sep [] rest h = ground arith
split_at_sep sep (c ∷ p) rest (hc, h) = ground (arith, split_at_sep sep p rest h)

-- Digits with single underscores between them: the loop over what follows a digit.
scan_digits : ℕ → Text → Option ℕ
scan_digits acc [] = some acc
scan_digits acc (c ∷ []) = if leb b'0' c && leb c b'9' then some (acc * 10 + (c - 48)) else none
scan_digits acc (c ∷ d ∷ s) = elim (c == b'_') [
  | true ↦ if leb b'0' d && leb d b'9' then scan_digits (acc * 10 + (d - 48)) s else none
  | false ↦ if leb b'0' c && leb c b'9' then scan_digits (acc * 10 + (c - 48)) (d ∷ s) else none
]

unsigned : Text → Option ℕ
unfolding scan_digits
unsigned [] = none
unsigned (c ∷ s) = if leb b'0' c && leb c b'9' then scan_digits (c - 48) s else none

signed : Text → Option ℤ
unfolding unsigned
signed [] = none
signed (c ∷ s) =
    if c == b'-'
    then elim (unsigned s) [ none ↦ none | some n ↦ some (negate (pos n)) ]
    else if c == b'+'
    then elim (unsigned s) [ none ↦ none | some n ↦ some (pos n) ]
    else elim (unsigned (c ∷ s)) [ none ↦ none | some n ↦ some (pos n) ]

-- int(s): `none` is a ValueError. Digits are the ASCII ones.
unfoldable pub parse_int : Text → Option ℤ
unfolding signed
parse_int s = signed (strip s)

int_tests :
    (parse_int (codes " +1_0 ") ≡ some (pos 10))
    × (parse_int (codes "-7") ≡ some (negate (pos 7)))
    × (parse_int (codes "1__0") ≡ none)
    × (parse_int (codes "_1") ≡ none)
    × (parse_int (codes "1_") ≡ none)
    × (parse_int (codes "4x") ≡ none)
unfolding parse_int strip is_space
int_tests = (refl, refl, refl, refl, refl, refl)

split_test : split b',' (codes "a,,b") ≡ codes "a" ∷ [] ∷ codes "b" ∷ []
unfolding split
split_test = refl

-- No part holds the separator.
abbrev pub AllLack : ℕ → List Text → Type 0
AllLack sep [] = Unit
AllLack sep (p ∷ ps) = Lacks sep p × AllLack sep ps

-- Splitting what was joined at one character gives the parts back.
pub split-join :
    (sep : ℕ) (p : Text) (ps : List Text)
    → AllLack sep (p ∷ ps)
    → split sep (join (sep ∷ []) (p ∷ ps)) ≡ p ∷ ps
unfolding join
split-join sep p [] (h, hs) = split-Lacks sep p h
split-join sep p (q ∷ ps) (h, hs) =
    split_at_sep sep p _ h ∙ ap (λ l. p ∷ l) (split-join sep q ps hs)
