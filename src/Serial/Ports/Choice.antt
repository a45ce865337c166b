-- ===== src/Serial/Ports/Choice.antt =====
-- Which port `find_pico_port` of pc/src/pywinhello/serial/device.py chooses.
use pywinhello.Prelude.{
  Bool, Bool-cases, Elem, List, Option, [], ap, arith, false, if◌then◌else◌, inl, inr, keep, none,
  refl, some, some-injective, subst, sym, true, ◌↔◌, ◌∙◌, ◌∷◌, ◌≡◌, ◌≤◌, ◌⊎◌,
}
use pywinhello.Prelude.Text.{Text}
use pywinhello.Serial.Port.{ComPort}
use pywinhello.Serial.Ports.{
  better, find_pico_port, first_by_vid, has_vid, is_candidate, max_port, pick, port_number,
}

module _ (t : ComPort → Bool) (q p : ComPort) (rest kept : List ComPort) where
  Elem-kept :
      (Elem p kept → Elem p rest × (t p ≡ true))
      → Elem p (if t q then q ∷ kept else kept)
      → Elem p (q ∷ rest) × (t p ≡ true)
  Elem-kept ih h = elim (Bool-cases (t q)) [
    | inl e ↦ first_or_later e (rw e at h)
    | inr e ↦ let (m, k) = ih (rw e at h) in (inr m, k)
  ]
    where
      first_or_later : t q ≡ true → Elem p (q ∷ kept) → Elem p (q ∷ rest) × (t p ≡ true)
      first_or_later e (inl same) = (inl same, rw same e)
      first_or_later e (inr later) = let (m, k) = ih later in (inr m, k)

Elem-keep :
    (t : ComPort → Bool) (ports : List ComPort) (p : ComPort)
    → Elem p (keep t ports)
    → Elem p ports × (t p ≡ true)
Elem-keep t [] p h = absurd h
Elem-keep t (q ∷ ports) p h = Elem-kept t q p ports (keep t ports) (Elem-keep t ports p) h

keep-Elem :
    (t : ComPort → Bool) (ports : List ComPort) (p : ComPort)
    → Elem p ports
    → t p ≡ true
    → Elem p (keep t ports)
keep-Elem t [] p h k = absurd h
keep-Elem t (q ∷ ports) p (inl e) k = let e' : t q ≡ true = ap t (sym e) ∙ k in rw e' (inl e)
keep-Elem t (q ∷ ports) p (inr h) k = elim (Bool-cases (t q)) [
  | inl e ↦ rw e (inr (keep-Elem t ports p h k))
  | inr e ↦ rw e (keep-Elem t ports p h k)
]

better-cases : (best p : ComPort) → (better best p ≡ best) ⊎ (better best p ≡ p)
unfolding better
better-cases best p = ground arith

better_greater :
    (best p : ComPort)
    → (port_number best ≤ port_number (better best p))
      × (port_number p ≤ port_number (better best p))
unfolding better
better_greater best p = ground arith

max_port-Elem : (best : ComPort) (ports : List ComPort) → Elem (max_port best ports) (best ∷ ports)
max_port-Elem best [] = unfold max_port in inl refl
max_port-Elem best (p ∷ ports) = go (better-cases best p) (max_port-Elem (better best p) ports)
  where
    go :
        (better best p ≡ best) ⊎ (better best p ≡ p)
        → Elem (max_port (better best p) ports) (better best p ∷ ports)
        → Elem (max_port best (p ∷ ports)) (best ∷ p ∷ ports)
    go (inl c) (inl e) = inl (unfold max_port in e ∙ c)
    go (inr c) (inl e) = inr (inl (unfold max_port in e ∙ c))
    go c (inr m) = inr (inr (unfold max_port in m))

max_port_greatest :
    (best : ComPort) (ports : List ComPort) (q : ComPort)
    → Elem q (best ∷ ports)
    → port_number q ≤ port_number (max_port best ports)
unfolding max_port
max_port_greatest best [] q (inl e) = omega (arith, ap port_number e)
max_port_greatest best [] q (inr h) = absurd h
max_port_greatest best (p ∷ ports) q (inl e) = omega (
  arith,
  ap port_number e,
  better_greater best p,
  max_port_greatest (better best p) ports (better best p) (inl refl),
)
max_port_greatest best (p ∷ ports) q (inr (inl e)) = omega (
  arith,
  ap port_number e,
  better_greater best p,
  max_port_greatest (better best p) ports (better best p) (inl refl),
)
max_port_greatest best (p ∷ ports) q (inr (inr m)) =
    max_port_greatest (better best p) ports q (inr m)

first_by_vid-Elem :
    (ports : List ComPort) (name : Text)
    → first_by_vid ports ≡ some name
    → (p : ComPort) × Elem p ports × (has_vid p ≡ true) × (p.device ≡ name)
unfolding first_by_vid
first_by_vid-Elem [] name h = cc
first_by_vid-Elem (p ∷ ports) name h = elim (Bool-cases (has_vid p)) [
  | inl e ↦ (p, inl refl, e, ground arith)
  | inr e ↦ let (q, m, v, d) = first_by_vid-Elem ports name (ground arith) in (q, inr m, v, d)
]

first_by_vid-none :
    (ports : List ComPort) (q : ComPort)
    → first_by_vid ports ≡ none
    → Elem q ports
    → has_vid q ≡ false
unfolding first_by_vid
first_by_vid-none [] q h m = absurd m
first_by_vid-none (p ∷ ports) q h (inl e) = ground (arith, ap has_vid e)
first_by_vid-none (p ∷ ports) q h (inr m) = first_by_vid-none ports q (ground arith) m

-- `p` is a port of the list with the vendor id, and if any port has a known product id too, then
-- `p` has one and no such port has a greater number.
pub record IsBest (ports : List ComPort) (p : ComPort) : Type 0 where
  pub listed : Elem p ports
  pub vendor : has_vid p ≡ true
  pub greatest :
      (q : ComPort)
      → Elem q ports
      → is_candidate q ≡ true
      → (is_candidate p ≡ true) × (port_number q ≤ port_number p)

is_candidate-has_vid : (p : ComPort) → is_candidate p ≡ true → has_vid p ≡ true
unfolding is_candidate
is_candidate-has_vid p h = ground arith

pick-IsBest :
    (candidates ports : List ComPort) (name : Text)
    → keep is_candidate ports ≡ candidates
    → pick candidates ports ≡ some name
    → (p : ComPort) × IsBest ports p × (p.device ≡ name)
unfolding pick
pick-IsBest [] ports name e h =
    let (p, m, v, d) = first_by_vid-Elem ports name h in
    (
      p,
      record {
        listed = m;
        vendor = v;
        greatest = λ q mq cq. absurd (subst (Elem q) e (keep-Elem is_candidate ports q mq cq));
      },
      d,
    )
pick-IsBest (c ∷ cs) ports name e h =
    let best : ComPort = max_port c cs in
    let (m, k) =
      Elem-keep is_candidate ports best (subst (Elem best) (sym e) (max_port-Elem c cs)) in
    (
      best,
      record {
        listed = m;
        vendor = is_candidate-has_vid best k;
        greatest = λ q mq cq.
            (k, max_port_greatest c cs q (subst (Elem q) e (keep-Elem is_candidate ports q mq cq)));
      },
      some-injective _ _ h,
    )

-- A port that is found is the best one of the list.
pub find_pico_port-IsBest :
    (ports : List ComPort) (name : Text)
    → find_pico_port ports ≡ some name
    → (p : ComPort) × IsBest ports p × (p.device ≡ name)
unfolding find_pico_port
find_pico_port-IsBest ports name h = pick-IsBest (keep is_candidate ports) ports name refl h

pick-none :
    (candidates ports : List ComPort) → pick candidates ports ≡ none → first_by_vid ports ≡ none
unfolding pick
pick-none [] ports h = h
pick-none (c ∷ cs) ports h = cc

-- No port is found exactly when no port of the list has the vendor id.
pub find_pico_port-none_iff :
    (ports : List ComPort)
    → (find_pico_port ports ≡ none) ↔ ((q : ComPort) → Elem q ports → has_vid q ≡ false)
find_pico_port-none_iff ports = (
  λ h q m.
      first_by_vid-none ports q
        (pick-none (keep is_candidate ports) ports (unfold find_pico_port in h)) m,
  λ all. go all (find_pico_port ports) refl,
)
  where
    go :
        ((q : ComPort) → Elem q ports → has_vid q ≡ false)
        → (found : Option Text) → find_pico_port ports ≡ found
        → found ≡ none
    go all none e = refl
    go all (some name) e =
        let (p, b, d) = find_pico_port-IsBest ports name e in
        absurd (ground (arith, all p b.listed, b.vendor))
