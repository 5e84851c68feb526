-- ===== src/Money/Tests.antt =====
-- Amounts on which the laws of money are tried.
use payments_engine.Base.{true, ◌≡◌, refl, text}
use payments_engine.Base.Int.{ℤ, pos, ◌+ℤ◌}
use payments_engine.Error.{ok}
use payments_engine.Decimal.Scaled.{scaled}
use payments_engine.Money.{Money, from_decimal, add, sub, less_than, greater_than}
use payments_engine.Money.Laws.{sub-add, less_than-order}

abbrev five_cedis : Money ℤ
five_cedis = from_decimal (pos 500000) (text "GHS")

abbrev two_cedis : Money ℤ
two_cedis = from_decimal (pos 200000) (text "GHS")

abbrev seven_cedis : Money ℤ
seven_cedis = from_decimal (pos 700000) (text "GHS")

five_and_two : add five_cedis two_cedis ≡ ok seven_cedis
unfolding add ◌+ℤ◌
five_and_two = refl

sub-add_example :
    (d : Money ℤ) × (sub seven_cedis two_cedis ≡ ok d)
    × (d.currency ≡ five_cedis.currency)
    × (d.amount ≡ five_cedis.amount)
sub-add_example = sub-add five_cedis two_cedis seven_cedis five_and_two

less_than-order_example :
    (less_than two_cedis five_cedis ≡ ok true)
    × (greater_than two_cedis five_cedis ≡ less_than five_cedis two_cedis)
less_than-order_example = less_than-order two_cedis five_cedis refl
