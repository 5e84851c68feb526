-- ===== src/Decimal/Scaled.antt =====
-- A concrete reading of the interface: numbers with at most five fractional digits, as whole
-- multiples of 0.00001, in columns that keep four of them. A tie is rounded away from zero.
use payments_engine.Base.{
  ℕ, ◌+◌, ◌*◌, ◌/◌, ◌≡◌, refl, arith, Text, [], ◌∷◌, Option, none, some, ◌==◌, nat_eq,
  if◌then◌else◌,
}
use payments_engine.Base.Int.{
  ℤ, pos, negsuc, ◌+ℤ◌, ◌-ℤ◌, abs_ℤ, compare_ℤ, eqb_ℤ, ltb_ℤ, pos_part, neg_part, sub_ℕ,
}
use payments_engine.Decimal.{Decimals}

abbrev pub round_four : ℕ → ℕ
round_four n = (n + 5) / 10 * 10

abbrev pub to_column : ℤ → ℤ
to_column a = sub_ℕ (round_four (pos_part a)) (round_four (neg_part a))

pub to_column_twice : (a : ℤ) → to_column (to_column a) ≡ to_column a
to_column_twice a = ground arith

pub to_column-add : (a b : ℤ) → to_column a ≡ a → to_column b ≡ b → to_column (a +ℤ b) ≡ a +ℤ b
unfolding ◌+ℤ◌
to_column-add (pos a) (pos b) h k = ground arith
to_column-add (pos a) (negsuc b) h k = ground arith
to_column-add (negsuc a) (pos b) h k = ground arith
to_column-add (negsuc a) (negsuc b) h k = ground arith

pub to_column-neg : (a : ℤ) → to_column a ≡ a → to_column (pos 0 -ℤ a) ≡ pos 0 -ℤ a
unfolding ◌-ℤ◌
to_column-neg a h = ground arith

-- A sign and the number of units: any notation that can be read back serves.
abbrev pub print_units : ℤ → Text
print_units (pos n) = 43 ∷ n ∷ []
print_units (negsuc n) = 45 ∷ n ∷ []

abbrev pub read_units : Text → Option ℤ
read_units (sign ∷ n ∷ []) = some (if sign == 43 then pos n else negsuc n)
read_units _ = none

pub read_units-print : (a : ℤ) → (d : ℤ) × (read_units (print_units a) ≡ some d) × (d ≡ a)
read_units-print (pos n) = (pos n, refl, refl)
read_units-print (negsuc n) = (negsuc n, refl, refl)

instance abbrev pub scaled : Decimals ℤ
scaled = record {
  units = λ a. a;
  zero_value = pos 0;
  add = ◌+ℤ◌;
  sub = ◌-ℤ◌;
  neg = λ a. pos 0 -ℤ a;
  abs = abs_ℤ;
  cmp = compare_ℤ;
  equal = eqb_ℤ;
  less_than = ltb_ℤ;
  greater_than = λ a b. ltb_ℤ b a;
  is_zero = λ a. eqb_ℤ a (pos 0);
  is_positive = λ a. ltb_ℤ (pos 0) a;
  is_negative = λ a. ltb_ℤ a (pos 0);
  column = to_column;
  string = print_units;
  string_fixed = λ a. print_units (to_column a);
  from_string = read_units;
  units_zero_value = refl;
  units_add = λ a b. refl;
  units_sub = λ a b. refl;
  units_neg = λ a. refl;
  units_abs = λ a. refl;
  cmp_units = λ a b. refl;
  equal_units = λ a b. refl;
  less_than_units = λ a b. refl;
  greater_than_units = λ a b. refl;
  is_zero_units = λ a. refl;
  is_positive_units = λ a. refl;
  is_negative_units = λ a. refl;
  column_column = to_column_twice;
  column_add = to_column-add;
  column_neg = to_column-neg;
  column_zero = refl;
  from_string_string = read_units-print;
  from_string_string_fixed = λ a. read_units-print (to_column a);
}
