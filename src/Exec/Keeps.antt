-- ===== src/Exec/Keeps.antt =====
-- Invariants of actions: one rule for each way of building an action, for `search` to apply.
use payments_engine.Base.{Bool, true, false, Text, if◌then◌else◌}
use payments_engine.Error.{Error, Result, ok, err}
use payments_engine.Exec.{Exec, pure, raise, lift, within, try, ◌>>=◌}

-- What holds of the state before the action holds of it afterwards, whatever the action returns.
pub record Keeps {ℓ} {S A : Type ℓ} (I : S → Type ℓ) (act : Exec S A) : Type ℓ where
  pub kept : (before : S) → I before → I (act before).1

module _ {ℓ} {S A B : Type ℓ} {I : S → Type ℓ} where
  goes_on :
      (r : Result A) (rest : A → Exec S B) (now : S)
      → ((a : A) → Keeps I (rest a))
      → I now
      → I ((lift r >>= rest) now).1
  unfolding ◌>>=◌
  goes_on (err e) rest now k h = h
  goes_on (ok a) rest now k h = (k a).kept now h

  pub Keeps-bind :
      (act : Exec S A) (rest : A → Exec S B)
      → Keeps I act
      → ((a : A) → Keeps I (rest a))
      → Keeps I (act >>= rest)
  unfolding ◌>>=◌
  Keeps-bind act rest first k = record {
    kept = λ before h. goes_on (act before).0 rest (act before).1 k (first.kept before h);
  }

  -- code that goes on in both cases
  pub Keeps-elim :
      (f : A → Exec S B) (g : Error → Exec S B) (r : Result A)
      → ((a : A) → Keeps I (f a))
      → ((e : Error) → Keeps I (g e))
      → Keeps I (elim r [ ok a ↦ f a | err e ↦ g e ])
  Keeps-elim f g (ok a) on_value on_error = on_value a
  Keeps-elim f g (err e) on_value on_error = on_error e

module _ {ℓ} {S A : Type ℓ} {I : S → Type ℓ} where
  pub Keeps-try : (act : Exec S A) → Keeps I act → Keeps I (try act)
  unfolding try
  Keeps-try act inner = record { kept = inner.kept }

  pub Keeps-within : (context : Text) (act : Exec S A) → Keeps I act → Keeps I (within context act)
  unfolding within
  Keeps-within context act inner = record { kept = inner.kept }

  pub Keeps-if :
      (b : Bool) (one other : Exec S A)
      → Keeps I one
      → Keeps I other
      → Keeps I (if b then one else other)
  Keeps-if false one other on_true on_false = on_false
  Keeps-if true one other on_true on_false = on_true

  pub Keeps-lift : (r : Result A) → Keeps I (lift r)
  unfolding lift
  Keeps-lift r = record { kept = λ _ same. same }

  pub Keeps-pure : (a : A) → Keeps I (pure a)
  unfolding pure
  Keeps-pure a = record { kept = λ _ same. same }

  pub Keeps-raise : (e : Error) → Keeps I (raise {A = A} e)
  unfolding raise
  Keeps-raise e = record { kept = λ _ same. same }

pub ruleset keeps_rules =
    (Keeps-bind, Keeps-elim, Keeps-if, Keeps-try, Keeps-within, Keeps-pure, Keeps-lift, Keeps-raise)
