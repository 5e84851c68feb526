-- ===== src/Decimal.antt =====
-- The decimal numbers that pkg/money and the repositories compute with. The package
-- github.com/shopspring/decimal and the NUMERIC(18, 4) columns of the migrations are not part of
-- the repository, so they are an interface: the operations that the code calls, and what their
-- documentation says of them.
pub mod Scaled
use Prim.Native.Nat.{Ordering}
use payments_engine.Base.{◌≡◌, Bool, Text, Option, some}
use payments_engine.Base.Int.{ℤ, pos, ◌+ℤ◌, ◌-ℤ◌, abs_ℤ, compare_ℤ, eqb_ℤ, ltb_ℤ}

-- `D` holds the values of decimal.Decimal that occur in a run; several of them may stand for one
-- number (1.0 and 1.00). `units` reads a value as a whole number of the smallest unit that occurs;
-- sums, differences and negations of such values need no smaller unit, and are exact.
-- `column` is the value that a NUMERIC(18, 4) column holds after it has been assigned a value.
pub record Decimals (D : Type 0) : Type 0 where
  pub units : D → ℤ
  pub zero_value : D
  pub add : D → D → D
  pub sub : D → D → D
  pub neg : D → D
  pub abs : D → D
  pub cmp : D → D → Ordering
  pub equal : D → D → Bool
  pub less_than : D → D → Bool
  pub greater_than : D → D → Bool
  pub is_zero : D → Bool
  pub is_positive : D → Bool
  pub is_negative : D → Bool
  pub column : D → D
  pub string : D → Text
  -- StringFixed(4)
  pub string_fixed : D → Text
  pub from_string : Text → Option D
  pub units_zero_value : units zero_value ≡ pos 0
  pub units_add : (a b : D) → units (add a b) ≡ units a +ℤ units b
  pub units_sub : (a b : D) → units (sub a b) ≡ units a -ℤ units b
  pub units_neg : (a : D) → units (neg a) ≡ pos 0 -ℤ units a
  pub units_abs : (a : D) → units (abs a) ≡ abs_ℤ (units a)
  pub cmp_units : (a b : D) → cmp a b ≡ compare_ℤ (units a) (units b)
  pub equal_units : (a b : D) → equal a b ≡ eqb_ℤ (units a) (units b)
  pub less_than_units : (a b : D) → less_than a b ≡ ltb_ℤ (units a) (units b)
  pub greater_than_units : (a b : D) → greater_than a b ≡ ltb_ℤ (units b) (units a)
  pub is_zero_units : (a : D) → is_zero a ≡ eqb_ℤ (units a) (pos 0)
  pub is_positive_units : (a : D) → is_positive a ≡ ltb_ℤ (pos 0) (units a)
  pub is_negative_units : (a : D) → is_negative a ≡ ltb_ℤ (units a) (pos 0)
  -- a stored value is stored again unchanged, and so are sums and negations of stored values
  pub column_column : (a : D) → units (column (column a)) ≡ units (column a)
  pub column_add :
      (a b : D)
      → units (column a) ≡ units a
      → units (column b) ≡ units b
      → units (column (add a b)) ≡ units (add a b)
  pub column_neg : (a : D) → units (column a) ≡ units a → units (column (neg a)) ≡ units (neg a)
  pub column_zero : units (column zero_value) ≡ units zero_value
  -- a printed number is read back as a value of the same number
  pub from_string_string :
      (a : D) → (d : D) × (from_string (string a) ≡ some d) × (units d ≡ units a)
  -- with four places it is read back as the value that a column keeps
  pub from_string_string_fixed :
      (a : D) → (d : D) × (from_string (string_fixed a) ≡ some d) × (units d ≡ units (column a))
