-- ===== src/Exec/Success.antt =====
-- Successful runs: a postcondition of the value and the state that an action leaves when it returns
-- no error, and one rule for each way of building an action.
use payments_engine.Base.{◌≡◌, refl, subst, Text}
use payments_engine.Error.{Error, Result, ok, err, explained}
use payments_engine.Exec.Keeps.{Keeps}
use payments_engine.Exec.{Exec, pure, raise, lift, within, ◌>>=◌}

abbrev OnValue {ℓ κ} : {S A : Type ℓ} → (A → S → Type κ) → Result A × S → Type κ
OnValue Q (ok a, s) = Q a s
OnValue Q (err e, s) = Unit

-- If the outcome is a value, `Q` holds of it and of the state.
pub record After {ℓ κ} {S A : Type ℓ} (Q : A → S → Type κ) (x : Result A × S) : Type κ where
  holds : OnValue Q x

module _ {ℓ κ} {S A : Type ℓ} {Q : A → S → Type κ} where
  pub After_at : {x : Result A × S} {a : A} {s : S} → After Q x → x ≡ (ok a, s) → Q a s
  After_at h e = subst (OnValue Q) e h.holds

  pub After-ok : (a : A) (s : S) → Q a s → After Q (ok a, s)
  After-ok a s h = record { holds = h }

  pub After-err : (e : Error) (s : S) → After Q (err e, s)
  After-err e s = record { holds = tt }

  pub After-pure : (a : A) (s : S) → Q a s → After Q (pure a s)
  unfolding pure
  After-pure a s h = record { holds = h }

  pub After-raise : (e : Error) (s : S) → After Q (raise e s)
  unfolding raise
  After-raise e s = record { holds = tt }

  weaken :
      (P : A → S → Type κ) (x : Result A × S)
      → OnValue P x
      → ((a : A) (s : S) → P a s → Q a s)
      → OnValue Q x
  weaken P (ok a, s) h k = k a s h
  weaken P (err e, s) h k = tt

  pub After-last :
      {P : A → S → Type κ} {x : Result A × S}
      → After P x
      → ((a : A) (s : S) → P a s → Q a s)
      → After Q x
  After-last {P} {x} h k = record { holds = weaken P x h.holds k }

module _ {ℓ κ} {S A : Type ℓ} where
  inside :
      (P : A → S → Type κ) (context : Text) (x : Result A × S)
      → OnValue P x
      → OnValue P (explained context x.0, x.1)
  inside P context (ok a, s) h = h
  inside P context (err e, s) h = h

module _ {ℓ κ} {S A : Type ℓ} {Q : A → S → Type κ} where
  pub After-within :
      (context : Text) (m : Exec S A) (s : S) → After Q (m s) → After Q (within context m s)
  unfolding within
  After-within context m s h = record { holds = inside Q context (m s) h.holds }

module _ {ℓ} {S A : Type ℓ} {P : S → Type ℓ} where
  kept_After : (r : Result A) (s : S) → P s → After (λ _. P) (r, s)
  kept_After (ok a) s h = After-ok a s h
  kept_After (err e) s h = After-err e s

  pub After-Keeps : (m : Exec S A) (s : S) → Keeps P m → P s → After (λ _. P) (m s)
  After-Keeps m s k h = kept_After (m s).0 (m s).1 (k.kept s h)

module _ {ℓ κ} {S A B : Type ℓ} {Q : B → S → Type κ} where
  pub After-lift :
      (r : Result A) (f : A → Exec S B) (s : S)
      → ((a : A) → r ≡ ok a → After Q (f a s))
      → After Q ((lift r >>= f) s)
  unfolding ◌>>=◌
  After-lift (ok a) f s k = k a refl
  After-lift (err e) f s k = record { holds = tt }

  After-resume :
      (P : A → S → Type κ) (x : Result A × S) (f : A → Exec S B)
      → OnValue P x
      → ((a : A) (t : S) → P a t → After Q (f a t))
      → After Q ((lift x.0 >>= f) x.1)
  unfolding ◌>>=◌
  After-resume P (ok a, t) f h k = k a t h
  After-resume P (err e, t) f h k = record { holds = tt }

  pub After-bind :
      {P : A → S → Type κ} (m : Exec S A) (f : A → Exec S B) (s : S)
      → After P (m s)
      → ((a : A) (t : S) → P a t → After Q (f a t))
      → After Q ((m >>= f) s)
  unfolding ◌>>=◌
  After-bind {P} m f s h k = After-resume P (m s) f h.holds k
