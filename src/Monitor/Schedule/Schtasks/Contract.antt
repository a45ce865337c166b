-- ===== src/Monitor/Schedule/Schtasks/Contract.antt =====
-- What schtasks.exe does with the tasks that it keeps, as pc/src/pywinhello/monitor/scheduler_sync.py relies on it,
-- and what the commands make of them.
use pywinhello.Monitor.Schedule.Schtasks
use pywinhello.Monitor.Schedule.{Scheduler, Task}
use pywinhello.Monitor.Schedule.Schtasks.{
  Windows, create_args, delete_args, list_args, query_args, run_checked, run_schtasks, task_exists,
}
use pywinhello.Prelude.{
  Bool, List, Option, ap, false, if◌then◌else◌, none, not, refl, some, true, ℕ, ◌&&◌, ◌==◌, ◌∙◌,
  ◌∷◌, ◌≡◌,
}
use pywinhello.Prelude.Dict.{Dict, insert, is_some, lookup, remove}
use pywinhello.Prelude.Exec.{Exec, attempt, ◌>>=◌}
use pywinhello.Prelude.Result.{Error, ok}
use pywinhello.Prelude.Text.{Text, codes}

-- A command that ends, with its return code and its lines.
abbrev pub Ends : (X : Windows) → List Text → X.State → ℕ → List Text → X.State → Type 0
Ends X args s code out t = X.run (codes "schtasks.exe" ∷ args) s ≡ (ok (code, out), t)

-- schtasks.exe keeps these tasks and answers for them, and the temporary files hold what is written to them.
pub record IsScheduler (X : Windows) (w : Scheduler) (tasks : X.State → Dict Task)
    (file : X.State → Text → Option Task) : Type 0 where
  pub queries :
      (name : Text) (s : X.State)
      → (code : ℕ) × (out : List Text) × (t : X.State) × Ends X (query_args name) s code out t
        × ((code == 0) ≡ is_some (lookup name (tasks s)))
        × (tasks t ≡ tasks s)
  pub deletes :
      (name : Text) (s : X.State)
      → (code : ℕ) × (out : List Text) × (t : X.State) × Ends X (delete_args name) s code out t
        × ((code == 0) ≡ (is_some (lookup name (tasks s)) && not (w.refuses_delete name)))
        × (tasks t ≡ (if code == 0 then remove name (tasks s) else tasks s))
  pub lists :
      (rows : List Text) (s : X.State)
      → w.rows (tasks s) ≡ some rows
      → (t : X.State) × Ends X list_args s 0 rows t × (tasks t ≡ tasks s)
  pub lists_not :
      (s : X.State)
      → w.rows (tasks s) ≡ none
      → (code : ℕ) × (out : List Text) × (t : X.State) × Ends X list_args s code out t
        × ((code == 0) ≡ false)
        × (tasks t ≡ tasks s)
  pub creates :
      (name path : Text) (task : Task) (s : X.State)
      → file s path ≡ some task
      → (code : ℕ) × (out : List Text) × (t : X.State) × Ends X (create_args name path) s code out t
        × ((code == 0) ≡ not w.refuses_create)
        × (tasks t ≡ (if code == 0 then insert name task (tasks s) else tasks s))
  pub opens :
      (s : X.State)
      → (path : Text) × (t : X.State) × (X.new_file s ≡ (ok path, t)) × (tasks t ≡ tasks s)
  pub writes :
      (path : Text) (task : Task) (s : X.State)
      → (t : X.State) × (X.write path task s ≡ (ok tt, t))
        × (file t path ≡ some task)
        × (tasks t ≡ tasks s)
  pub unlinks :
      (path : Text) (s : X.State)
      → (t : X.State) × (X.unlink path s ≡ (ok tt, t)) × (tasks t ≡ tasks s)

module _ (X : Windows) (w : Scheduler) (tasks : X.State → Dict Task)
    (file : X.State → Text → Option Task) (H : IsScheduler X w tasks file) where
  -- The method returns this, and leaves these tasks.
  abbrev pub Gives : {A : Type 0} → Exec X.State A → X.State → A → Dict Task → Type 0
  Gives m s a d = (t : X.State) × (m s ≡ (ok a, t)) × (tasks t ≡ d)

  pub Gives-then :
      {A B : Type 0} (m : Exec X.State A) (f : A → Exec X.State B) (s : X.State) (a : A)
      (d : Dict Task) (b : B) (d' : Dict Task)
      → Gives m s a d
      → ((t : X.State) → tasks t ≡ d → Gives (f a) t b d')
      → Gives (m >>= f) s b d'
  Gives-then m f s a d b d' (t, e, h) k = let (u, e', h') = k t h in (u, rw (e) e', h')

  pub Gives-is :
      {A : Type 0} (m : Exec X.State A) (s : X.State) {a a' : A} {d d' : Dict Task}
      → Gives m s a d
      → a ≡ a'
      → d ≡ d'
      → Gives m s a' d'
  Gives-is m s (t, e, h) p q = (t, e ∙ ap (λ x. (ok x, t)) p, h ∙ q)

  pub Gives-if :
      {A : Type 0} (b : Bool) (m n : Exec X.State A) (s : X.State) {a : A} {d : Dict Task}
      → (b ≡ true → Gives m s a d)
      → (b ≡ false → Gives n s a d)
      → Gives (if b then m else n) s a d
  Gives-if true m n s h k = h refl
  Gives-if false m n s h k = k refl

  pub exists-Gives :
      (name : Text) (s : X.State) (d : Dict Task)
      → tasks s ≡ d
      → Gives (Schtasks.task_exists X name) s (is_some (lookup name d)) d
  unfolding Schtasks.task_exists Schtasks.run_schtasks
  exists-Gives name s d p =
      let (code, out, t, e, c, h) = H.queries name s in
      (t, rw (e) (ap (λ b. (ok b, t)) (c ∙ ap (λ q. is_some (lookup name q)) p)), h ∙ p)

  -- What the deletion of one task makes.
  abbrev pub can_delete : Text → Dict Task → Bool
  can_delete name d = is_some (lookup name d) && not (w.refuses_delete name)

  pub delete-Gives :
      (name : Text) (s : X.State) (d : Dict Task)
      → tasks s ≡ d
      → Gives
          (Schtasks.run_checked X (delete_args name))
          s
          (can_delete name d)
          (if can_delete name d then remove name d else d)
  unfolding Schtasks.run_checked Schtasks.run_schtasks
  delete-Gives name s d p =
      let (code, out, t, e, c, h) = H.deletes name s in
      (
        t,
        rw (e) (ap (λ b. (ok b, t)) (c ∙ ap (can_delete name) p)),
        h
            ∙ ap (λ b. if b then remove name (tasks s) else tasks s) c
            ∙ ap (λ q. if can_delete name q then remove name q else q) p,
      )

  -- A `try` whose body returns.
  pub Gives-attempt :
      {A : Type 0} (m : Exec X.State A) (f : Error → Exec X.State A) (s : X.State) {a : A}
      {d : Dict Task}
      → Gives m s a d
      → Gives (attempt m f) s a d
  Gives-attempt m f s (t, e, h) = (t, rw (e) refl, h)
