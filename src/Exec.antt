-- ===== src/Exec.antt =====
-- Code that reads and writes a state and may return an error: what was written before the error
-- stays written, so the state comes back beside it.
pub mod Keeps
pub mod Success
pub mod Ends
use payments_engine.Base.{Text}
use payments_engine.Error.{Error, Result, ok, err, explained}

abbrev pub Exec {ℓ} : Type ℓ → Type ℓ → Type ℓ
Exec S A = S → Result A × S

module _ {ℓ} {S A : Type ℓ} where
  unfoldable pub pure : A → Exec S A
  pure a s = (ok a, s)

  unfoldable pub raise : Error → Exec S A
  raise e s = (err e, s)

  unfoldable pub lift : Result A → Exec S A
  lift r s = (r, s)

  -- The result of an action as a value: the code goes on after an error.
  unfoldable pub try : Exec S A → Exec S (Result A)
  try m s = let (r, s') = m s in (ok r, s')

  -- An error is passed on inside another.
  unfoldable pub within : Text → Exec S A → Exec S A
  within context m s = let (r, s') = m s in (explained context r, s')

module _ {ℓ} {S A B : Type ℓ} where
  abbrev pub resume : Result A → (A → Exec S B) → Exec S B
  resume (ok a) f s = f a s
  resume (err e) f s = (err e, s)

  infixl 5 ◌>>=◌ ◌>>◌
  unfoldable pub ◌>>=◌ : Exec S A → (A → Exec S B) → Exec S B
  unfolding pure raise lift try
  ◌>>=◌ m f s = let (r, s') = m s in resume r f s'

  abbrev pub ◌>>◌ : Exec S A → Exec S B → Exec S B
  m >> n = m >>= λ _. n
