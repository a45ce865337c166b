-- ===== src/Prelude/Value.antt =====
-- JSON values as `json.loads` gives them, and the untyped operations that the program uses on them.
use Prim.Native.Nat.{zero, ℕ}
use mathlib.Core.Bool.{Bool, false, not, true}
use mathlib.Core.List.{List, [], ◌∷◌}
use mathlib.Core.Option.{Option, none, some}
use mathlib.Core.Path.{refl, ◌≡◌}
use native.Mathlib.Omega.{arith}
use pywinhello.Prelude.{if◌then◌else◌, ◌==◌}
use pywinhello.Prelude.Int.{nat_abs, negsuc, ℤ}
use pywinhello.Prelude.Result.{Result, attribute_error, err, ok, type_error}
use pywinhello.Prelude.Text.{Text, text_eq, text_eq_iff}

-- A float literal stands for `m / 10 ^ k`.
mutual
  pub data Value : Type 0 where
    null : Value
    boolean : Bool → Value
    int : ℤ → Value
    float : ℤ → ℕ → Value
    str : Text → Value
    arr : Items → Value
    obj : Fields → Value

  pub data Items : Type 0 where
    nil : Items
    cons : Value → Items → Items

  pub data Fields : Type 0 where
    end : Fields
    field : Text → Value → Fields → Fields

-- fields[key], if it is there
unfoldable pub find : Text → Fields → Option Value
find k end = none
find k (field j v fs) = if text_eq j k then some v else find k fs

-- fields[key] = value
unfoldable pub put : Text → Value → Fields → Fields
put k v end = field k v end
put k v (field j w fs) = if text_eq j k then field j v fs else field j w (put k v fs)

pub find-put :
    (k j : Text) (v : Value) (fs : Fields)
    → find j (put k v fs) ≡ (if text_eq k j then some v else find j fs)
unfolding find put
find-put k j v end = refl
find-put k j v (field i w fs) =
    ground (arith, text_eq_iff k j, text_eq_iff i k, text_eq_iff i j, find-put k j v fs)

-- fields.get(key, default)
unfoldable pub find_or : Text → Value → Fields → Value
find_or k d fs = elim (find k fs) [ none ↦ d | some v ↦ v ]

-- value.get(key, default), which only a dict has
unfoldable pub get_field : Value → Text → Value → Result Value
get_field (obj fs) k d = ok (find_or k d fs)
get_field _ k d = err attribute_error

-- bool(value)
unfoldable pub truthy : Value → Bool
truthy null = false
truthy (boolean b) = b
truthy (int n) = not (nat_abs n == 0)
truthy (float m k) = not (nat_abs m == 0)
truthy (str []) = false
truthy (str (c ∷ s)) = true
truthy (arr nil) = false
truthy (arr (cons v vs)) = true
truthy (obj end) = false
truthy (obj (field k v fs)) = true

abbrev pub items_list : Items → List Value
items_list nil = []
items_list (cons v vs) = v ∷ items_list vs

chars : Text → List Value
chars [] = []
chars (c ∷ s) = str (c ∷ []) ∷ chars s

keys : Fields → List Value
keys end = []
keys (field k v fs) = str k ∷ keys fs

-- for x in value
unfoldable pub iterate : Value → Result (List Value)
unfolding chars keys
iterate (arr vs) = ok (items_list vs)
iterate (str s) = ok (chars s)
iterate (obj fs) = ok (keys fs)
iterate _ = err type_error

truthy_tests : (truthy (int (negsuc zero)) ≡ true) × (truthy (str []) ≡ false)
unfolding truthy
truthy_tests = (refl, refl)
