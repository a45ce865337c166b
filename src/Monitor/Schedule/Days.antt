-- ===== src/Monitor/Schedule/Days.antt =====
-- The days of the wake task of pc/src/pywinhello/monitor/scheduler_sync.py.
use pywinhello.Monitor.Schedule.{add_code, day_code, day_codes, insert_day, sort_days, wake_days}
use pywinhello.Prelude.{
  Elem, List, Option, [], arith, inl, inr, none, refl, some, subst, ◌↔◌, ◌∷◌, ◌≡◌, ◌⊎◌,
}
use pywinhello.Prelude.Int.{ℤ}
use pywinhello.Prelude.Text.{Text}

insert-Elem : (a d : ℤ) (days : List ℤ) → Elem a (insert_day d days) ↔ ((a ≡ d) ⊎ Elem a days)
unfolding insert_day
insert-Elem a d [] = ground arith
insert-Elem a d (e ∷ days) = ground (arith, insert-Elem a d days)

sort-Elem : (a : ℤ) (days : List ℤ) → Elem a (sort_days days) ↔ Elem a days
unfolding sort_days
sort-Elem a [] = ground arith
sort-Elem a (d ∷ days) = ground (arith, sort-Elem a days, insert-Elem a d (sort_days days))

add-Elem :
    (c : Text) (o : Option Text) (later : List Text)
    → Elem c (add_code o later) ↔ ((o ≡ some c) ⊎ Elem c later)
unfolding add_code
add-Elem c none later = ground arith
add-Elem c (some d) later = ground arith

codes-Elem :
    (c : Text) (days : List ℤ)
    → Elem c (day_codes days) ↔ ((d : ℤ) × Elem d days × (day_code d ≡ some c))
unfolding day_codes
codes-Elem c [] = (λ e. absurd e, λ (d, e, q). absurd e)
codes-Elem c (d ∷ days) = (
  λ h. elim ((add-Elem c (day_code d) (day_codes days)).0 h) [
    | inl q ↦ (d, inl refl, q)
    | inr e ↦ let (x, f, q) = (codes-Elem c days).0 e in (x, inr f, q)
  ],
  λ (x, e, q). (add-Elem c (day_code d) (day_codes days)).1 (elim e [
    | inl p ↦ inl (subst (λ y. day_code y ≡ some c) p q)
    | inr f ↦ inr ((codes-Elem c days).1 (x, f, q))
  ]),
)

-- The days of the wake task are exactly the days of the schedule that are a day of the week.
pub wake_days-Elem :
    (c : Text) (days : List ℤ)
    → Elem c (wake_days days) ↔ ((d : ℤ) × Elem d days × (day_code d ≡ some c))
unfolding wake_days
wake_days-Elem c days =
    let h = codes-Elem c (sort_days days) in
    (
      λ e. let (d, f, q) = h.0 e in (d, (sort-Elem d days).0 f, q),
      λ (d, f, q). h.1 (d, (sort-Elem d days).1 f, q),
    )
