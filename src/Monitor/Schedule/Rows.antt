-- ===== src/Monitor/Schedule/Rows.antt =====
-- The rows of `schtasks /Query /FO CSV /NH`, which pc/src/pywinhello/monitor/scheduler_sync.py reads.
use mathlib.Core.List.{reverse-append, reverse-reverse}
use pywinhello.Monitor.Schedule.{before_comma, row_task, strip_quotes}
use pywinhello.Prelude.{
  Bool, List, [], ap, append_assoc, arith, drop_while, false, refl, reverse, sym, true, ℕ, ◌++◌,
  ◌==◌, ◌∙◌, ◌∷◌, ◌≡◌, ◌≢◌, ◌⊎◌,
}
use pywinhello.Prelude.Text.{Text, codes, is_space, starts_with, strip}
use pywinhello.Prelude.Text.Split.{Lacks, Lacks-append}

-- A row of the table without a head: the path of the task, and the other columns, all in quotes.
abbrev pub csv_row : Text → Text → Text
csv_row name rest = codes "\"\\" ++ (name ++ (codes "\",\"" ++ (rest ++ codes "\"")))

-- A row of the list is one of this task; the last column is not empty and holds no quote at its end.
abbrev pub IsListed : Text → List Text → Type 0
IsListed name [] = ⊥
IsListed name (row ∷ rows) =
    ((rest : Text) × (c : ℕ) × (c ≢ 34) × (row ≡ csv_row name (rest ++ (c ∷ []))))
    ⊎ IsListed name rows

-- What the right end keeps where its last character stays.
right_kept :
    (p : ℕ → Bool) (s : Text) (c : ℕ)
    → p c ≡ false
    → reverse (drop_while p (reverse (s ++ (c ∷ [])))) ≡ s ++ (c ∷ [])
right_kept p s c h =
    rw (reverse-append s (c ∷ []), h)
      (ap reverse (sym (reverse-append s (c ∷ []))) ∙ reverse-reverse (s ++ (c ∷ [])))

-- One character at the right end goes.
right_dropped :
    (p : ℕ → Bool) (s : Text) (c d : ℕ)
    → p c ≡ false
    → p d ≡ true
    → reverse (drop_while p (reverse ((s ++ (c ∷ [])) ++ (d ∷ [])))) ≡ s ++ (c ∷ [])
right_dropped p s c d h k = rw (reverse-append (s ++ (c ∷ [])) (d ∷ []), k) (right_kept p s c h)

Lacks-reverse : (sep : ℕ) (s : Text) → Lacks sep s → Lacks sep (reverse s)
Lacks-reverse sep [] h = tt
Lacks-reverse sep (c ∷ s) (hc, h) =
    rw (reverse-append (c ∷ []) s)
      (Lacks-append sep (reverse s) (c ∷ []) (Lacks-reverse sep s h) (hc, tt))

drop_while-Lacks : (sep : ℕ) (s : Text) → Lacks sep s → drop_while (λ d. d == sep) s ≡ s
drop_while-Lacks sep [] h = refl
drop_while-Lacks sep (c ∷ s) (hc, h) = ground arith

-- A text that holds no quote keeps both its ends.
strip_quotes-Lacks : (s : Text) → Lacks 34 s → strip_quotes s ≡ s
unfolding strip_quotes
strip_quotes-Lacks s h =
    rw (drop_while-Lacks 34 s h, drop_while-Lacks 34 (reverse s) (Lacks-reverse 34 s h))
      (reverse-reverse s)

before_comma-columns :
    (name rest : Text) → Lacks 34 name → before_comma (name ++ (34 ∷ 44 ∷ 34 ∷ rest)) ≡ name
unfolding before_comma starts_with
before_comma-columns [] rest h = refl
before_comma-columns (c ∷ name) rest (hc, h) = ground (arith, before_comma-columns name rest h)

-- A row, with the parts of its text put together from the left.
csv_row_left :
    (name rest : Text) (d : ℕ)
    → csv_row name (rest ++ (d ∷ []))
      ≡ ((34 ∷ 92 ∷ (name ++ (34 ∷ 44 ∷ 34 ∷ rest))) ++ (d ∷ [])) ++ (34 ∷ [])
csv_row_left name rest d =
    rw
      (
        append_assoc name (34 ∷ 44 ∷ 34 ∷ rest) (d ∷ []),
        append_assoc name ((34 ∷ 44 ∷ 34 ∷ rest) ++ (d ∷ [])) (34 ∷ []),
      )
      refl

-- The quotes around a row go.
strip_quotes-row :
    (s : Text) (d : ℕ)
    → d ≢ 34
    → strip_quotes (((34 ∷ 92 ∷ s) ++ (d ∷ [])) ++ (34 ∷ [])) ≡ (92 ∷ s) ++ (d ∷ [])
unfolding strip_quotes
strip_quotes-row s d h = right_dropped (λ c. c == 34) (92 ∷ s) d 34 (ground arith) refl

strip-row : (s : Text) → strip ((34 ∷ s) ++ (34 ∷ [])) ≡ (34 ∷ s) ++ (34 ∷ [])
unfolding strip is_space
strip-row s = right_kept is_space (34 ∷ s) 34 refl

before_comma-row :
    (name rest : Text) (d : ℕ)
    → Lacks 34 name
    → before_comma ((92 ∷ (name ++ (34 ∷ 44 ∷ 34 ∷ rest))) ++ (d ∷ [])) ≡ 92 ∷ name
unfolding before_comma starts_with
before_comma-row name rest d h =
    ap (λ s. 92 ∷ s)
      (ap before_comma (append_assoc name (34 ∷ 44 ∷ 34 ∷ rest) (d ∷ []))
        ∙ before_comma-columns name (rest ++ (d ∷ [])) h)

-- The program reads the name of the task off its row.
pub row_task-csv_row :
    (c : ℕ) (name rest : Text) (d : ℕ)
    → c ≢ 92
    → Lacks 34 (c ∷ name)
    → d ≢ 34
    → row_task (csv_row (c ∷ name) (rest ++ (d ∷ []))) ≡ c ∷ name
unfolding row_task
row_task-csv_row c name rest d hc h hd =
    rw
      (
        csv_row_left (c ∷ name) rest d,
        strip-row ((92 ∷ ((c ∷ name) ++ (34 ∷ 44 ∷ 34 ∷ rest))) ++ (d ∷ [])),
        strip_quotes-row ((c ∷ name) ++ (34 ∷ 44 ∷ 34 ∷ rest)) d hd,
        before_comma-row (c ∷ name) rest d h,
        strip_quotes-Lacks (92 ∷ c ∷ name) (ground arith, h),
      )
      (ground arith)

-- The name of a task of the program is read off each of its rows.
pub row_task-listed :
    (name rest : Text) (d : ℕ)
    → starts_with name (codes "pywinhello-") ≡ true
    → Lacks 34 name
    → d ≢ 34
    → row_task (csv_row name (rest ++ (d ∷ []))) ≡ name
unfolding starts_with
row_task-listed [] rest d p h hd = absurd (ground (arith, p))
row_task-listed (c ∷ name) rest d p h hd =
    row_task-csv_row c name rest d (λ e. ground (arith, p, e)) h hd
