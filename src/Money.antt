-- ===== src/Money.antt =====
-- pkg/money/money.go: amounts with a currency. An operation on two currencies is an error.
pub mod Laws
mod Tests
use Prim.Native.Nat.{Ordering}
use payments_engine.Base.{Bool, true, false, not, ◌&&◌, Text, text, ◌==◌, text_eq, if◌then◌else◌}
use payments_engine.Error.{Error, message, Result, ok, err}
use payments_engine.Decimal.{Decimals}

pub record Money (D : Type 0) : Type 0 where
  pub amount : D
  pub currency : Text

abbrev pub mismatch : Error
mismatch = message (text "currency mismatch")

abbrev pub is_lt : Ordering → Bool
is_lt Ordering.lt = true
is_lt Ordering.eq = false
is_lt Ordering.gt = false

abbrev pub is_gt : Ordering → Bool
is_gt Ordering.lt = false
is_gt Ordering.eq = false
is_gt Ordering.gt = true

module _ {D : Type 0} where
  abbrev pub from_decimal : D → Text → Money D
  from_decimal amount currency = record { amount = amount; currency = currency }

  unfoldable pub same_currency : Money D → Money D → Bool
  same_currency m other = m.currency == other.currency

module _ {D : Type 0} ⦃o : Decimals D⦄ where
  pub add : Money D → Money D → Result (Money D)
  add m other =
      if not (m.currency == other.currency)
      then err mismatch
      else ok (record { amount = o.add m.amount other.amount; currency = m.currency })

  pub sub : Money D → Money D → Result (Money D)
  sub m other =
      if not (m.currency == other.currency)
      then err mismatch
      else ok (record { amount = o.sub m.amount other.amount; currency = m.currency })

  abbrev pub is_zero : Money D → Bool
  is_zero m = o.is_zero m.amount

  abbrev pub is_positive : Money D → Bool
  is_positive m = o.is_positive m.amount

  abbrev pub is_negative : Money D → Bool
  is_negative m = o.is_negative m.amount

  unfoldable pub cmp : Money D → Money D → Result Ordering
  unfolding same_currency
  cmp m other =
      if not (same_currency m other) then err mismatch else ok (o.cmp m.amount other.amount)

  unfoldable pub less_than : Money D → Money D → Result Bool
  unfolding cmp
  less_than m other = elim (cmp m other) [ ok c ↦ ok (is_lt c) | err e ↦ err e ]

  pub greater_than : Money D → Money D → Result Bool
  unfolding cmp
  greater_than m other = elim (cmp m other) [ ok c ↦ ok (is_gt c) | err e ↦ err e ]

  pub equal : Money D → Money D → Bool
  equal m other = (m.currency == other.currency) && o.equal m.amount other.amount
