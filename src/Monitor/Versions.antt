-- ===== src/Monitor/Versions.antt =====
-- `compare_versions` of pc/src/pywinhello/monitor/updater.py.
pub mod Order
pub mod Numbers
use pywinhello.Prelude.{
  Bool, List, [], drop_while, false, if◌then◌else◌, map, none, some, true, ◌==◌, ◌∷◌,
}
use pywinhello.Prelude.Int.{ltb_ℤ, negsuc, pos, ℤ}
use pywinhello.Prelude.Text.{Text}
use pywinhello.Prelude.Text.Split.{first_part, parse_int, split}

-- int(p), or 0 on a ValueError
unfoldable pub component : Text → ℤ
component p = elim (parse_int p) [ none ↦ pos 0 | some n ↦ n ]

-- while len(parts) < 3: parts.append(0)
unfoldable pub pad : List ℤ → List ℤ
pad [] = pos 0 ∷ pos 0 ∷ pos 0 ∷ []
pad (a ∷ []) = a ∷ pos 0 ∷ pos 0 ∷ []
pad (a ∷ b ∷ []) = a ∷ b ∷ pos 0 ∷ []
pad (a ∷ b ∷ c ∷ rest) = a ∷ b ∷ c ∷ rest

-- v.lstrip("v").split("-")[0]
unfoldable pub stripped : Text → Text
stripped v = first_part (split b'-' (drop_while (λ c. c == b'v') v))

unfoldable pub parse_version : Text → List ℤ
unfolding stripped component pad
parse_version v = pad (map component (split b'.' (stripped v)))

-- `<` on tuples of integers
unfoldable pub tuple_lt : List ℤ → List ℤ → Bool
tuple_lt [] [] = false
tuple_lt [] (y ∷ ys) = true
tuple_lt (x ∷ xs) [] = false
tuple_lt (x ∷ xs) (y ∷ ys) = if ltb_ℤ x y then true else if ltb_ℤ y x then false else tuple_lt xs ys

abbrev pub minus_one : ℤ
minus_one = negsuc 0

unfoldable pub compare_tuples : List ℤ → List ℤ → ℤ
compare_tuples p q = if tuple_lt p q then minus_one else if tuple_lt q p then pos 1 else pos 0

unfoldable pub compare_versions : Text → Text → ℤ
compare_versions v1 v2 = compare_tuples (parse_version v1) (parse_version v2)
