-- ===== src/Ledger/Balances.antt =====
-- applyBalanceUpdates against its specification: every account moves by its delta, exactly, and
-- nothing else of the table `accounts` changes but the versions.
use payments_engine.Base.{
  ℕ, false, Bool-cases, inl, inr, List, [], ◌∷◌, ◌≡◌, refl, arith, ◌==◌, nat_eq, subst,
  if◌then◌else◌, ◌∙◌, sym, All,
}
use payments_engine.Base.Int.{ℤ, pos, ◌+ℤ◌, int_laws, +ℤ_zero, zero_+ℤ}
use payments_engine.Decimal.{Decimals}
use payments_engine.Account.{Account}
use payments_engine.Ledger.Posting.{DeltaMap, delta_at, has_key}
use payments_engine.Ledger.Repository.{shift, shift_all}
use payments_engine.Ledger.Effect.{apply_all}
use payments_engine.Ledger.Deltas.{IsMap, delta_at_missing}

module _ {D : Type 0} ⦃o : Decimals D⦄ where
  -- a value that a column holds as it is
  abbrev pub OnScale : D → Type 0
  OnScale d = o.units (o.column d) ≡ o.units d

  abbrev pub AllOnScale : List (Account D) → Type 0
  AllOnScale accounts = All (λ a. OnScale a.balance) accounts

  abbrev pub DeltasOnScale : DeltaMap D → Type 0
  DeltasOnScale m = All (λ e. OnScale e.1) m

  -- `b` is the account `a` after its balance has moved by `z`; only its version may differ besides
  pub record IsMoved (z : ℤ) (a b : Account D) : Type 0 where
    pub id_eq : b.id ≡ a.id
    pub code_eq : b.code ≡ a.code
    pub name_eq : b.name ≡ a.name
    pub parent_id_eq : b.parent_id ≡ a.parent_id
    pub is_posting_eq : b.is_posting ≡ a.is_posting
    pub type_eq : b.type ≡ a.type
    pub currency_eq : b.currency ≡ a.currency
    pub status_eq : b.status ≡ a.status
    pub balance_eq : o.units b.balance ≡ o.units a.balance +ℤ z

  abbrev pub AreMoved : (ℕ → ℤ) → List (Account D) → List (Account D) → Type 0
  AreMoved f [] [] = Unit
  AreMoved f (a ∷ as') (b ∷ bs) = IsMoved (f a.id) a b × AreMoved f as' bs
  AreMoved f _ _ = ⊥

  abbrev pub shift_by : ℕ → D → ℕ → ℤ
  shift_by k d id = if id == k then o.units d else pos 0

  shift-IsMoved :
      (k : ℕ) (d : D) (a : Account D)
      → OnScale d
      → OnScale a.balance
      → IsMoved (shift_by k d a.id) a (shift k d a)
  shift-IsMoved k d a h g = elim (Bool-cases (a.id == k)) [
    | inl here ↦ rw here (record {
      id_eq = refl;
      code_eq = refl;
      name_eq = refl;
      parent_id_eq = refl;
      is_posting_eq = refl;
      type_eq = refl;
      currency_eq = refl;
      status_eq = refl;
      balance_eq = o.column_add a.balance d g h ∙ o.units_add a.balance d;
    })
    | inr elsewhere ↦ rw elsewhere (record {
      id_eq = refl;
      code_eq = refl;
      name_eq = refl;
      parent_id_eq = refl;
      is_posting_eq = refl;
      type_eq = refl;
      currency_eq = refl;
      status_eq = refl;
      balance_eq = sym (+ℤ_zero _);
    })
  ]

  shift-OnScale :
      (k : ℕ) (d : D) (a : Account D) → OnScale a.balance → OnScale (shift k d a).balance
  shift-OnScale k d a g = ground (arith, o.column_column (o.add a.balance d))

  shift_all-AreMoved :
      (k : ℕ) (d : D) (accounts : List (Account D))
      → OnScale d
      → AllOnScale accounts
      → AreMoved (shift_by k d) accounts (shift_all k d accounts)
  shift_all-AreMoved k d [] h g = tt
  shift_all-AreMoved k d (a ∷ rest) h g =
      (shift-IsMoved k d a h g.0, shift_all-AreMoved k d rest h g.1)

  shift_all-OnScale :
      (k : ℕ) (d : D) (accounts : List (Account D))
      → AllOnScale accounts
      → AllOnScale (shift_all k d accounts)
  shift_all-OnScale k d [] g = tt
  shift_all-OnScale k d (a ∷ rest) g = (shift-OnScale k d a g.0, shift_all-OnScale k d rest g.1)

  IsMoved-trans :
      {y z : ℤ} {a b c : Account D} → IsMoved y a b → IsMoved z b c → IsMoved (y +ℤ z) a c
  IsMoved-trans p q = record {
    id_eq = q.id_eq ∙ p.id_eq;
    code_eq = q.code_eq ∙ p.code_eq;
    name_eq = q.name_eq ∙ p.name_eq;
    parent_id_eq = q.parent_id_eq ∙ p.parent_id_eq;
    is_posting_eq = q.is_posting_eq ∙ p.is_posting_eq;
    type_eq = q.type_eq ∙ p.type_eq;
    currency_eq = q.currency_eq ∙ p.currency_eq;
    status_eq = q.status_eq ∙ p.status_eq;
    balance_eq = q.balance_eq ∙ rw p.balance_eq (omega int_laws);
  }

  IsMoved-along : {y z : ℤ} {a b : Account D} → y ≡ z → IsMoved y a b → IsMoved z a b
  IsMoved-along {a = a} {b = b} e p = subst (λ (x : ℤ). IsMoved x a b) e p

  -- composing two passes over the table
  AreMoved-trans :
      (f g h : ℕ → ℤ) (as' bs cs : List (Account D))
      → ((id : ℕ) → f id +ℤ g id ≡ h id)
      → AreMoved f as' bs
      → AreMoved g bs cs
      → AreMoved h as' cs
  AreMoved-trans f g h [] [] [] e p q = tt
  AreMoved-trans f g h (a ∷ as') (b ∷ bs) (c ∷ cs) e p q = (
    IsMoved-along (rw p.0.id_eq (e a.id)) (IsMoved-trans p.0 q.0),
    AreMoved-trans f g h as' bs cs e p.1 q.1,
  )
  AreMoved-trans f g h [] [] (c ∷ cs) e p q = q
  AreMoved-trans f g h [] (b ∷ bs) cs e p q = absurd p
  AreMoved-trans f g h (a ∷ as') [] cs e p q = absurd p
  AreMoved-trans f g h (a ∷ as') (b ∷ bs) [] e p q = q

  AreMoved-still :
      (f : ℕ → ℤ) (accounts : List (Account D))
      → ((id : ℕ) → f id ≡ pos 0)
      → AreMoved f accounts accounts
  AreMoved-still f [] e = tt
  AreMoved-still f (a ∷ rest) e = (
    record {
      id_eq = refl;
      code_eq = refl;
      name_eq = refl;
      parent_id_eq = refl;
      is_posting_eq = refl;
      type_eq = refl;
      currency_eq = refl;
      status_eq = refl;
      balance_eq = rw (e a.id) (omega int_laws);
    },
    AreMoved-still f rest e,
  )

  abbrev pub delta_units : DeltaMap D → ℕ → ℤ
  delta_units m id = o.units (delta_at id m)

  split_delta :
      (k : ℕ) (d : D) (m : DeltaMap D) (id : ℕ)
      → has_key k m ≡ false
      → shift_by k d id +ℤ delta_units m id ≡ delta_units ((k, d) ∷ m) id
  split_delta k d m id h = ground (
    arith,
    delta_at_missing k m h,
    o.units_zero_value,
    +ℤ_zero (o.units d),
    zero_+ℤ (o.units (delta_at id m)),
  )

  -- every account moves by its delta; the order of the updates does not show
  pub apply_all-AreMoved :
      (m : DeltaMap D) (accounts : List (Account D))
      → IsMap m
      → DeltasOnScale m
      → AllOnScale accounts
      → AreMoved (delta_units m) accounts (apply_all m accounts) × AllOnScale (apply_all m accounts)
  apply_all-AreMoved [] accounts u h g =
      (AreMoved-still (delta_units []) accounts (λ id. o.units_zero_value), g)
  apply_all-AreMoved ((k, d) ∷ m) accounts u h g =
      let moved = shift_all k d accounts in
      let (rest, on) = apply_all-AreMoved m moved u.1 h.1 (shift_all-OnScale k d accounts g) in
      (
        AreMoved-trans (shift_by k d) (delta_units m) (delta_units ((k, d) ∷ m)) accounts moved _
            (λ id. split_delta k d m id u.0) (shift_all-AreMoved k d accounts h.0 g) rest,
        on,
      )
