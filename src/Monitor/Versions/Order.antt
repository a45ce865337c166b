-- ===== src/Monitor/Versions/Order.antt =====
-- `compare_versions` of pc/src/pywinhello/monitor/updater.py as an order on versions.
use pywinhello.Monitor.Versions.{
  compare_tuples, compare_versions, component, pad, parse_version, stripped, tuple_lt,
}
use pywinhello.Prelude.{
  Bool-cases, List, [], ap, arith, false, inl, inr, map, refl, true, ◌++◌, ◌==◌, ◌↔◌, ◌∷◌, ◌≡◌,
}
use pywinhello.Prelude.Int.{ltb_ℤ_trichotomy, negate, pos, ℤ}
use pywinhello.Prelude.Text.{Text}
use pywinhello.Prelude.Text.Split.{Lacks, split, split-Lacks, split_at_sep}

tuple_lt_asym : (p q : List ℤ) → tuple_lt p q ≡ true → tuple_lt q p ≡ false
unfolding tuple_lt
tuple_lt_asym [] [] h = refl
tuple_lt_asym [] (y ∷ ys) h = refl
tuple_lt_asym (x ∷ xs) [] h = cc
tuple_lt_asym (x ∷ xs) (y ∷ ys) h = ground (arith, tuple_lt_asym xs ys)

tuple_lt_total : (p q : List ℤ) → tuple_lt p q ≡ false → tuple_lt q p ≡ false → p ≡ q
unfolding tuple_lt
tuple_lt_total [] [] h k = refl
tuple_lt_total [] (y ∷ ys) h k = cc
tuple_lt_total (x ∷ xs) [] h k = cc
tuple_lt_total (x ∷ xs) (y ∷ ys) h k = ground (arith, tuple_lt_total xs ys, ltb_ℤ_trichotomy x y)

tuple_lt_irrefl : (p : List ℤ) → tuple_lt p p ≡ false
unfolding tuple_lt
tuple_lt_irrefl [] = refl
tuple_lt_irrefl (x ∷ xs) = ground (arith, tuple_lt_irrefl xs)

-- Comparing the other way round gives the opposite sign.
pub compare_versions_antisym : (v w : Text) → compare_versions w v ≡ negate (compare_versions v w)
unfolding compare_versions compare_tuples
compare_versions_antisym v w = ground (arith, tuple_lt_asym (parse_version v) (parse_version w))

-- Two versions compare equal exactly when their numbers, padded to three, are the same.
pub compare_versions_zero_iff :
    (v w : Text) → (compare_versions v w ≡ pos 0) ↔ (parse_version v ≡ parse_version w)
unfolding compare_versions compare_tuples
compare_versions_zero_iff v w = (
  λ h. tuple_lt_total (parse_version v) (parse_version w) (ground arith) (ground arith),
  λ e. rw (e, tuple_lt_irrefl (parse_version w)),
)

-- A leading "v" does not change how a version compares.
pub compare_versions_v : (v w : Text) → compare_versions (b'v' ∷ v) w ≡ compare_versions v w
unfolding compare_versions parse_version
compare_versions_v v w = refl

stripped_suffix : (v suffix : Text) → Lacks b'-' v → stripped (v ++ (b'-' ∷ suffix)) ≡ stripped v
unfolding stripped
stripped_suffix [] suffix h = unfold split in refl
stripped_suffix (c ∷ v) suffix (hc, h) = elim (Bool-cases (c == b'v')) [
  | inl e ↦ rw e (stripped_suffix v suffix h)
  | inr e ↦ rw (e, split_at_sep b'-' (c ∷ v) suffix (hc, h), split-Lacks b'-' (c ∷ v) (hc, h))
]

-- A suffix behind the first dash, as of a pre-release, does not change how a version compares.
pub compare_versions_suffix :
    (v suffix w : Text)
    → Lacks b'-' v
    → compare_versions (v ++ (b'-' ∷ suffix)) w ≡ compare_versions v w
unfolding compare_versions
compare_versions_suffix v suffix w h =
    let e : parse_version (v ++ (b'-' ∷ suffix)) ≡ parse_version v =
      unfold parse_version in
      ap (λ s. pad (map component (split b'.' s))) (stripped_suffix v suffix h) in
    rw e
