-- ===== src/Gui/Settings/Advanced.antt =====
-- pc/src/pywinhello/gui/settings/advanced.py: the timing parameters and their ranges. Python's
-- `float` is a parameter.
pub mod Rows
use pywinhello.Gui.Connection.{Gui}
use pywinhello.Gui.Settings.Saving.{SaveOutcome, save}
use pywinhello.Prelude.{
  Bool, Bool-cases, Elem, List, Option, [], arith, false, if◌then◌else◌, inl, inr, none, refl, some,
  subst, sym, true, ℕ, ◌<◌, ◌∷◌, ◌≡◌, ◌≤◌, ◌⊎◌,
}
use pywinhello.Prelude.Int.{ltb_ℤ, pos, ℤ}
use pywinhello.Prelude.Text.{Text, codes, strip}
use pywinhello.Prelude.Text.Split.{parse_int}
use pywinhello.Prelude.Value.{Fields, Value, end, field, int, obj}
use pywinhello.Serial.Port.{Pyserial}

-- A row of _TIMING_PARAMS with type int.
pub record TimingParam : Type 0 where
  pub cfg_key : Text
  pub default : ℕ
  pub min_val : ℕ
  pub max_val : ℕ

abbrev pub int_params : List TimingParam
int_params =
    record { cfg_key = codes "boot_wait"; default = 45; min_val = 30; max_val = 90 }
    ∷ record { cfg_key = codes "wake_wait"; default = 5; min_val = 3; max_val = 10 }
    ∷ record { cfg_key = codes "keystroke_ms"; default = 50; min_val = 30; max_val = 150 }
    ∷ record { cfg_key = codes "retry_count"; default = 3; min_val = 1; max_val = 5 }
    ∷ record { cfg_key = codes "retry_interval"; default = 10; min_val = 5; max_val = 30 }
    ∷ []

-- `float` with the comparison, and the three numbers of the row `dialog_wait`.
pub record Floats : Type 1 where
  pub Float : Type 0
  pub lt : Float → Float → Bool
  pub parse : Text → Option Float
  pub to_value : Float → Value
  pub default_wait : Float
  pub min_wait : Float
  pub max_wait : Float

-- max(min_val, min(max_val, val)), with Python's choice among equal or incomparable numbers.
unfoldable pub clamp : {A : Type 0} → (A → A → Bool) → A → A → A → A
clamp lt lo hi v = let m = if lt v hi then v else hi in if lt lo m then m else lo

value_of : TimingParam → Option ℤ → ℤ
value_of p none = pos p.default
value_of p (some v) = clamp ltb_ℤ (pos p.min_val) (pos p.max_val) v

unfoldable pub int_value : TimingParam → Text → ℤ
unfolding value_of
int_value p text = value_of p (parse_int (strip text))

module _ (F : Floats) where
  unfoldable pub wait_value : Text → F.Float
  wait_value text = elim (F.parse (strip text)) [
    | none ↦ F.default_wait
    | some v ↦ clamp F.lt F.min_wait F.max_wait v
  ]

  unfoldable pub int_fields : (Text → Text) → List TimingParam → Fields → Fields
  int_fields entry [] rest = rest
  int_fields entry (p ∷ ps) rest =
      field p.cfg_key (int (int_value p (entry p.cfg_key))) (int_fields entry ps rest)

  -- The texts of the entries by key, as the dict that is saved.
  unfoldable pub get_values : (Text → Text) → Fields
  unfolding int_fields
  get_values entry =
      int_fields entry int_params
        (field (codes "dialog_wait") (F.to_value (wait_value (entry (codes "dialog_wait")))) end)

  unfoldable pub on_save : (W : Pyserial) → (Text → Text) → Gui W → SaveOutcome × Gui W
  on_save W entry = save W (obj (get_values entry))

-- Bounds that a comparison respects: not below the one and not above the other.
abbrev pub Within : {A : Type 0} → (A → A → Bool) → A → A → A → Type 0
Within lt lo hi v = (lt v lo ≡ false) × (lt hi v ≡ false)

-- For any asymmetric comparison, also one that leaves numbers incomparable, what is clamped to a
-- range is within it.
clamp-Within :
    {A : Type 0} (lt : A → A → Bool) (lo hi v : A)
    → ((a b : A) → lt a b ≡ true → lt b a ≡ false)
    → lt lo hi ≡ true
    → Within lt lo hi (clamp lt lo hi v)
unfolding clamp
clamp-Within lt lo hi v asym range =
    ground (arith, asym lo hi range, asym v hi, asym lo v, asym hi hi, asym lo lo, asym lo hi)

-- The default of a row lies in its range.
abbrev IsRow : TimingParam → Type 0
IsRow p = (p.min_val < p.max_val) × (p.min_val ≤ p.default) × (p.default ≤ p.max_val)

abbrev AllRows : List TimingParam → Type 0
AllRows [] = Unit
AllRows (p ∷ ps) = IsRow p × AllRows ps

Elem-IsRow : (p : TimingParam) (ps : List TimingParam) → AllRows ps → Elem p ps → IsRow p
Elem-IsRow p [] h e = absurd e
Elem-IsRow p (q ∷ ps) (h, hs) (inl e) = subst IsRow (sym e) h
Elem-IsRow p (q ∷ ps) (h, hs) (inr k) = Elem-IsRow p ps hs k

int_params-AllRows : AllRows int_params
int_params-AllRows = grind arith

ltb_ℤ-asym : (x y : ℤ) → ltb_ℤ x y ≡ true → ltb_ℤ y x ≡ false
ltb_ℤ-asym x y h = ground arith

value_of-Within :
    (p : TimingParam) (o : Option ℤ)
    → IsRow p
    → Within ltb_ℤ (pos p.min_val) (pos p.max_val) (value_of p o)
unfolding value_of
value_of-Within p none (a, b, c) = ground arith
value_of-Within p (some v) (a, b, c) =
    clamp-Within ltb_ℤ (pos p.min_val) (pos p.max_val) v ltb_ℤ-asym (ground arith)

below :
    (p : TimingParam) (v : ℤ)
    → IsRow p
    → ltb_ℤ v (pos p.min_val) ≡ true
    → clamp ltb_ℤ (pos p.min_val) (pos p.max_val) v ≡ pos p.min_val
unfolding clamp
below p v (a, b, c) k = ground arith

above :
    (p : TimingParam) (v : ℤ)
    → IsRow p
    → ltb_ℤ (pos p.max_val) v ≡ true
    → clamp ltb_ℤ (pos p.min_val) (pos p.max_val) v ≡ pos p.max_val
unfolding clamp
above p v (a, b, c) k = ground arith

clamp-of :
    (lo hi : ℕ) (v : ℤ) → Within ltb_ℤ (pos lo) (pos hi) v → clamp ltb_ℤ (pos lo) (pos hi) v ≡ v
unfolding clamp
clamp-of lo hi v h = ground (arith, h)

-- What is saved for what an entry was read as: the default for what is no integer, an integer within the range
-- itself, one below it the least number, and one above it the greatest.
abbrev pub IsKept : TimingParam → Option ℤ → ℤ → Type 0
IsKept p none v = v ≡ pos p.default
IsKept p (some n) v =
    (Within ltb_ℤ (pos p.min_val) (pos p.max_val) n × (v ≡ n))
    ⊎ ((ltb_ℤ n (pos p.min_val) ≡ true) × (v ≡ pos p.min_val))
    ⊎ ((ltb_ℤ (pos p.max_val) n ≡ true) × (v ≡ pos p.max_val))

value_of-IsKept : (p : TimingParam) (o : Option ℤ) → IsRow p → IsKept p o (value_of p o)
unfolding value_of
value_of-IsKept p none row = refl
value_of-IsKept p (some n) row = elim (Bool-cases (ltb_ℤ n (pos p.min_val))) [
  | inl low ↦ inr (inl (low, below p n row low))
  | inr fine ↦ elim (Bool-cases (ltb_ℤ (pos p.max_val) n)) [
    | inl high ↦ inr (inr (high, above p n row high))
    | inr good ↦ inl ((fine, good), clamp-of p.min_val p.max_val n (fine, good))
  ]
]

-- Whatever is typed into the entry of an integer row, the number that is saved is within the range
-- of the row: what is no integer gives the default, an integer within the range itself, one below
-- the range its least number, and one above it its greatest.
pub int_value-Within :
    (p : TimingParam) (text : Text)
    → Elem p int_params
    → Within ltb_ℤ (pos p.min_val) (pos p.max_val) (int_value p text)
      × IsKept p (parse_int (strip text)) (int_value p text)
unfolding int_value value_of
int_value-Within p text e =
    let row = Elem-IsRow p int_params int_params-AllRows e in
    (value_of-Within p (parse_int (strip text)) row, value_of-IsKept p (parse_int (strip text)) row)
