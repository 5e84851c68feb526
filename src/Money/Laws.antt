-- ===== src/Money/Laws.antt =====
-- The operations of pkg/money/money.go against one another: they agree on the order of the
-- numbers, and differ from it exactly where the currencies differ.
use payments_engine.Base.{◌≡◌, ◌==◌, ==→eq, inl, inr, arith, Bool-cases, text_beq_iff, text_eq}
use payments_engine.Base.Int.{int_laws, ltb_ℤ}
use payments_engine.Error.{ok}
use payments_engine.Decimal.{Decimals}
use payments_engine.Money.{Money, add, sub, less_than, greater_than, same_currency}

module _ {D : Type 0} ⦃o : Decimals D⦄ where
  amount-add : (m n s : Money D) → add m n ≡ ok s → s.amount ≡ o.add m.amount n.amount
  unfolding add
  amount-add m n s h = ground arith

  units-sub-add :
      (m n s : Money D) → add m n ≡ ok s → o.units (o.sub s.amount n.amount) ≡ o.units m.amount
  units-sub-add m n s h = rw (amount-add m n s h) (simp (o.units_sub, o.units_add) (omega int_laws))

  -- Taking away what was added gives an amount of the same value, in the same currency, and no
  -- error, whenever the addition gave none.
  pub sub-add :
      (m n s : Money D)
      → add m n ≡ ok s
      → (d : Money D) × (sub s n ≡ ok d)
        × (d.currency ≡ m.currency)
        × (o.units d.amount ≡ o.units m.amount)
  unfolding add sub
  sub-add m n s h = elim (Bool-cases (m.currency == n.currency)) [
    | inl same ↦ (
      record { amount = o.sub s.amount n.amount; currency = s.currency },
      ground (arith, ==→eq m.currency n.currency),
      ground arith,
      units-sub-add m n s h,
    )
    | inr other ↦ absurd (ground arith)
  ]

  -- In one currency `less_than` is the order of the two numbers, and `greater_than` is `less_than`
  -- of the exchanged arguments.
  pub less_than-order :
      (m n : Money D)
      → m.currency ≡ n.currency
      → (less_than m n ≡ ok (ltb_ℤ (o.units m.amount) (o.units n.amount)))
        × (greater_than m n ≡ less_than n m)
  unfolding less_than greater_than same_currency
  less_than-order m n h = ground (
    arith,
    text_beq_iff m.currency n.currency,
    text_beq_iff n.currency m.currency,
    o.cmp_units m.amount n.amount,
    o.cmp_units n.amount m.amount,
  )
