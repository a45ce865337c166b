-- ===== src/Monitor/Versions/Numbers.antt =====
-- What `compare_versions` of pc/src/pywinhello/monitor/updater.py makes of versions that are written as numbers.
use pywinhello.Monitor.Versions.{minus_one}
use pywinhello.Prelude.{List, [], if◌then◌else◌, ltb, suc, zero, ℕ, ◌∷◌}
use pywinhello.Prelude.Int.{pos, ℤ}
use pywinhello.Prelude.Text.{Text, codes}
use pywinhello.Prelude.Text.Split.{join}
use pywinhello.Prelude.Text.Split.Digits.{AllDigits, digits_value}

-- One to three numbers in decimal.
abbrev pub AllNumbers : List Text → Type 0
AllNumbers [] = Unit
AllNumbers ([] ∷ ps) = ⊥
AllNumbers ((c ∷ s) ∷ ps) = AllDigits (c ∷ s) × AllNumbers ps

abbrev pub IsNumbered : List Text → Type 0
IsNumbered (p ∷ []) = AllNumbers (p ∷ [])
IsNumbered (p ∷ q ∷ []) = AllNumbers (p ∷ q ∷ [])
IsNumbered (p ∷ q ∷ r ∷ []) = AllNumbers (p ∷ q ∷ r ∷ [])
IsNumbered _ = ⊥

-- The number at a place, which is 0 where the version has none.
abbrev pub number_at : ℕ → List Text → ℕ
number_at i [] = 0
number_at zero (p ∷ ps) = digits_value 0 p
number_at (suc i) (p ∷ ps) = number_at i ps

-- The order of two numbers, or that of what follows them.
abbrev pub order_of : ℕ → ℕ → ℤ → ℤ
order_of m n rest = if ltb m n then minus_one else if ltb n m then pos 1 else rest

-- The order that the first places that differ decide.
abbrev pub order_from : ℕ → List Text → List Text → ℤ → ℤ
order_from i ps qs rest = order_of (number_at i ps) (number_at i qs) rest

-- A version that is written as numbers.
abbrev pub dotted : List Text → Text
dotted ps = join (codes ".") ps
