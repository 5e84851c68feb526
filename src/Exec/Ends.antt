-- ===== src/Exec/Ends.antt =====
-- Runs that may fail: a postcondition for a value and one for an error, and one rule for each way of
-- building an action.
use payments_engine.Base.{Bool, true, false, not, if◌then◌else◌, ◌≡◌, refl, sym, subst, Text}
use payments_engine.Error.{Error, Result, ok, err, explained}
use payments_engine.Exec.{Exec, pure, raise, lift, within, try, ◌>>=◌}
use payments_engine.Exec.Keeps.{Keeps}

abbrev OnEither {ℓ κ} : {S A : Type ℓ} → (A → S → Type κ) → (S → Type κ) → Result A × S → Type κ
OnEither Q E (ok a, s) = Q a s
OnEither Q E (err e, s) = E s

-- A value leaves `Q`, an error leaves `E`.
pub record Ends {ℓ κ} {S A : Type ℓ} (Q : A → S → Type κ) (E : S → Type κ) (x : Result A × S)
    : Type κ where
  holds : OnEither Q E x

module _ {ℓ κ} {S A : Type ℓ} {Q : A → S → Type κ} {E : S → Type κ} where
  pub Ends_ok : {x : Result A × S} (a : A) (s : S) → Ends Q E x → x ≡ (ok a, s) → Q a s
  Ends_ok a s h e = subst (OnEither Q E) e h.holds

  pub Ends_err : {x : Result A × S} (f : Error) (s : S) → Ends Q E x → x ≡ (err f, s) → E s
  Ends_err f s h e = subst (OnEither Q E) e h.holds

  pub Ends-ok : (a : A) (s : S) → Q a s → Ends Q E (ok a, s)
  Ends-ok a s h = record { holds = h }

  pub Ends-err : (e : Error) (s : S) → E s → Ends Q E (err e, s)
  Ends-err e s h = record { holds = h }

  pub Ends-pure : (a : A) (s : S) → Q a s → Ends Q E (pure a s)
  unfolding pure
  Ends-pure a s h = record { holds = h }

  pub Ends-raise : (e : Error) (s : S) → E s → Ends Q E (raise e s)
  unfolding raise
  Ends-raise e s h = record { holds = h }

  pub Ends-lift_last : (r : Result A) (s : S) → ((a : A) → Q a s) → E s → Ends Q E (lift r s)
  unfolding lift
  Ends-lift_last (ok a) s k h = record { holds = k a }
  Ends-lift_last (err e) s k h = record { holds = h }

  weaken :
      (P : A → S → Type κ) (F : S → Type κ) (x : Result A × S)
      → OnEither P F x
      → ((a : A) (s : S) → P a s → Q a s)
      → ((s : S) → F s → E s)
      → OnEither Q E x
  weaken P F (ok a, s) h k l = k a s h
  weaken P F (err e, s) h k l = l s h

  pub Ends-weaken :
      {P : A → S → Type κ} {F : S → Type κ} {x : Result A × S}
      → Ends P F x
      → ((a : A) (s : S) → P a s → Q a s)
      → ((s : S) → F s → E s)
      → Ends Q E x
  Ends-weaken {P} {F} {x} h k l = record { holds = weaken P F x h.holds k l }

  wrapped : (context : Text) (x : Result A × S) → Ends Q E x → Ends Q E (explained context x.0, x.1)
  wrapped context (ok a, s) h = Ends-ok a s (Ends_ok a s h refl)
  wrapped context (err e, s) h = Ends-err _ s (Ends_err e s h refl)

  pub Ends-within :
      (context : Text) (m : Exec S A) (s : S) → Ends Q E (m s) → Ends Q E (within context m s)
  unfolding within
  Ends-within context m s h = wrapped context (m s) h

-- an invariant, as a postcondition of both kinds
module _ {ℓ} {S A : Type ℓ} (P : S → Type ℓ) where
  both : (r : Result A) (s : S) → P s → OnEither (λ _. P) P (r, s)
  both (ok a) s h = h
  both (err e) s h = h

  pub Ends-both : (x : Result A × S) → P x.1 → Ends (λ _. P) P x
  Ends-both x h = record { holds = both x.0 x.1 h }

  pub Ends-Keeps : (m : Exec S A) (s : S) → Keeps P m → P s → Ends (λ _. P) P (m s)
  Ends-Keeps m s k h = Ends-both (m s) (k.kept s h)

  either_way : (y : Result A × S) → OnEither (λ _. P) P y → P y.1
  either_way (ok a, s) k = k
  either_way (err e, s) k = k

  pub either : {x : Result A × S} → Ends (λ _. P) P x → P x.1
  either {x} h = either_way x h.holds

module _ {ℓ κ} {S A B : Type ℓ} {Q : B → S → Type κ} {E : S → Type κ} where
  pub Ends-lift :
      (r : Result A) (f : A → Exec S B) (s : S)
      → ((a : A) → r ≡ ok a → Ends Q E (f a s))
      → E s
      → Ends Q E ((lift r >>= f) s)
  unfolding ◌>>=◌
  Ends-lift (ok a) f s k h = k a refl
  Ends-lift (err e) f s k h = record { holds = h }

  -- a result that is known
  pub Ends-lift_ok :
      (r : Result A) (f : A → Exec S B) (s : S) (a : A)
      → r ≡ ok a
      → Ends Q E (f a s)
      → Ends Q E ((lift r >>= f) s)
  unfolding ◌>>=◌
  Ends-lift_ok r f s a e h = subst (λ (x : Result A). Ends Q E ((lift x >>= f) s)) (sym e) h

  resume-Ends :
      (P : A → S → Type κ) (x : Result A × S) (f : A → Exec S B)
      → OnEither P E x
      → ((a : A) (t : S) → P a t → Ends Q E (f a t))
      → Ends Q E ((lift x.0 >>= f) x.1)
  unfolding ◌>>=◌
  resume-Ends P (ok a, t) f h k = k a t h
  resume-Ends P (err e, t) f h k = record { holds = h }

  pub Ends-bind :
      {P : A → S → Type κ} (m : Exec S A) (f : A → Exec S B) (s : S)
      → Ends P E (m s)
      → ((a : A) (t : S) → P a t → Ends Q E (f a t))
      → Ends Q E ((m >>= f) s)
  unfolding ◌>>=◌
  Ends-bind {P} m f s h k = resume-Ends P (m s) f h.holds k

  caught :
      (P : A → S → Type κ) (F : S → Type κ) (x : Result A × S) (f : Result A → Exec S B)
      → OnEither P F x
      → ((a : A) (t : S) → P a t → Ends Q E (f (ok a) t))
      → ((e : Error) (t : S) → F t → Ends Q E (f (err e) t))
      → Ends Q E (f x.0 x.1)
  caught P F (ok a, t) f h k l = k a t h
  caught P F (err e, t) f h k l = l e t h

  -- after `try` the code goes on in both cases
  pub Ends-try :
      {P : A → S → Type κ} {F : S → Type κ} (m : Exec S A) (f : Result A → Exec S B) (s : S)
      → Ends P F (m s)
      → ((a : A) (t : S) → P a t → Ends Q E (f (ok a) t))
      → ((e : Error) (t : S) → F t → Ends Q E (f (err e) t))
      → Ends Q E ((try m >>= f) s)
  unfolding ◌>>=◌
  Ends-try {P} {F} m f s h k l = caught P F (m s) f h.holds k l

  caught_at :
      (K : Result A × S → Type κ) (x : Result A × S) (f : Result A → Exec S B)
      → K x
      → ((a : A) (t : S) → K (ok a, t) → Ends Q E (f (ok a) t))
      → ((e : Error) (t : S) → K (err e, t) → Ends Q E (f (err e) t))
      → Ends Q E (f x.0 x.1)
  caught_at K (ok a, t) f h k l = k a t h
  caught_at K (err e, t) f h k l = l e t h

  -- after `try`, with what is known of each outcome, its error included
  pub Ends-try_at :
      (K : Result A × S → Type κ) (m : Exec S A) (f : Result A → Exec S B) (s : S)
      → K (m s)
      → ((a : A) (t : S) → K (ok a, t) → Ends Q E (f (ok a) t))
      → ((e : Error) (t : S) → K (err e, t) → Ends Q E (f (err e) t))
      → Ends Q E ((try m >>= f) s)
  unfolding ◌>>=◌
  Ends-try_at K m f s h k l = caught_at K (m s) f h k l

module _ {ℓ κ} {S B : Type ℓ} {Q : B → S → Type κ} {E : S → Type κ} where
  -- a guard
  pub Ends-require :
      (b : Bool) (e : Error) (f : Unit {ℓ} → Exec S B) (s : S)
      → (b ≡ true → Ends Q E (f tt s))
      → (b ≡ false → E s)
      → Ends Q E ((lift (if not b then err e else ok tt) >>= f) s)
  unfolding ◌>>=◌
  Ends-require true e f s k h = k refl
  Ends-require false e f s k h = Ends-err e s (h refl)
