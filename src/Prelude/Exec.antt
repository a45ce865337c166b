-- ===== src/Prelude/Exec.antt =====
-- Methods that change a state and may raise: what was changed before a raise stays changed.
use mathlib.Core.Logic.{inl, inr, ◌⊎◌}
use mathlib.Core.Path.{refl, ◌≡◌}
use pywinhello.Prelude.Result.{Error, Result, err, ok}

abbrev pub Exec {ℓ} : Type ℓ → Type ℓ → Type ℓ
Exec S A = S → Result A × S

module _ {ℓ} {S A : Type ℓ} where
  abbrev pub pure : A → Exec S A
  pure a s = (ok a, s)

  abbrev pub raise : Error → Exec S A
  raise e s = (err e, s)

  abbrev pub lift : Result A → Exec S A
  lift r s = (r, s)

  -- The handler of a `try`, from the state in which the body raised.
  abbrev handle : Result A → (Error → Exec S A) → Exec S A
  handle (ok a) h s = (ok a, s)
  handle (err e) h s = h e s

  -- try: m except e: h(e)
  abbrev pub attempt : Exec S A → (Error → Exec S A) → Exec S A
  attempt m h s = handle (m s).0 h (m s).1

module _ {ℓ} {S A B : Type ℓ} where
  abbrev pub continue : Result A → (A → Exec S B) → Exec S B
  continue (ok a) f s = f a s
  continue (err e) f s = (err e, s)

  infixl 5 ◌>>=◌ ◌>>◌
  abbrev pub ◌>>=◌ : Exec S A → (A → Exec S B) → Exec S B
  ◌>>=◌ m f s = continue (m s).0 f (m s).1

  abbrev pub ◌>>◌ : Exec S A → Exec S B → Exec S B
  m >> n = m >>= λ _. n

module _ {ℓ} {S A : Type ℓ} where
  handle-total :
      (r : Result A) (h : Error → Exec S A) (s : S)
      → ((e : Error) (t : S) → (a : A) × ((h e t).0 ≡ ok a))
      → (a : A) × ((handle r h s).0 ≡ ok a)
  handle-total (ok a) h s k = (a, refl)
  handle-total (err e) h s k = k e s

  -- A `try` whose handler does not raise does not raise.
  pub attempt-total :
      (m : Exec S A) (h : Error → Exec S A) (s : S)
      → ((e : Error) (t : S) → (a : A) × ((h e t).0 ≡ ok a))
      → (a : A) × ((attempt m h s).0 ≡ ok a)
  attempt-total m h s k = handle-total (m s).0 h (m s).1 k

  handle-cases :
      (r : Result A) (h : Error → Exec S A) (s : S)
      → ((a : A) × (r ≡ ok a) × (handle r h s ≡ (ok a, s)))
        ⊎ ((e : Error) × (r ≡ err e) × (handle r h s ≡ h e s))
  handle-cases (ok a) h s = inl (a, refl, refl)
  handle-cases (err e) h s = inr (e, refl, refl)

  -- A `try` is its body where that returns, and its handler where it raises.
  pub attempt-cases :
      (m : Exec S A) (h : Error → Exec S A) (s : S)
      → ((a : A) × ((m s).0 ≡ ok a) × (attempt m h s ≡ (ok a, (m s).1)))
        ⊎ ((e : Error) × ((m s).0 ≡ err e) × (attempt m h s ≡ h e (m s).1))
  attempt-cases m h s = handle-cases (m s).0 h (m s).1

module _ {ℓ} {S A B : Type ℓ} where
  continue-cases :
      (r : Result A) (f : A → Exec S B) (s : S)
      → ((a : A) × (r ≡ ok a) × (continue r f s ≡ f a s))
        ⊎ ((e : Error) × (r ≡ err e) × (continue r f s ≡ (err e, s)))
  continue-cases (ok a) f s = inl (a, refl, refl)
  continue-cases (err e) f s = inr (e, refl, refl)

  -- A block goes on where its first step returns, and ends where that raises.
  pub >>=-cases :
      (m : Exec S A) (f : A → Exec S B) (s : S)
      → ((a : A) × ((m s).0 ≡ ok a) × ((m >>= f) s ≡ f a (m s).1))
        ⊎ ((e : Error) × ((m s).0 ≡ err e) × ((m >>= f) s ≡ (err e, (m s).1)))
  >>=-cases m f s = continue-cases (m s).0 f (m s).1
