-- ===== src/Ledger/Reports/Totals.antt =====
-- The rows of a trial balance and their sum.
use mathlib.Core.Path.{ap₂}
use payments_engine.Base.{
  ℕ, Bool, List, [], ◌∷◌, Text, ◌≡◌, refl, sym, ap, ◌∙◌, nat_eq, select, if◌then◌else◌, Bool-cases,
  inl, inr,
}
use payments_engine.Base.Int.{ℤ, pos, ◌+ℤ◌, ◌-ℤ◌, int_laws, zero_+ℤ}
use payments_engine.Decimal.{Decimals}
use payments_engine.Account.{Account}
use payments_engine.Ledger.Entry.{JournalEntryLine, LineType, debit, credit, invalid}
use payments_engine.Ledger.Equation.{signed}
use payments_engine.Ledger.Reports.{counted_for}
use payments_engine.Ledger.TrialBalance.{
  TrialBalanceLine, on_side, side_total, grouped, groups, insert_by_code, by_code,
}
use payments_engine.Netting.{text_ltb}
use payments_engine.Store.Tables.{EntryRow}

sub_pairs : (a b c d : ℤ) → a +ℤ b -ℤ (c +ℤ d) ≡ a -ℤ c +ℤ (b -ℤ d)
sub_pairs a b c d = omega int_laws

pub swap_first : (a b c : ℤ) → a +ℤ (b +ℤ c) ≡ b +ℤ (a +ℤ c)
swap_first a b c = omega int_laws

module _ {D : Type 0} ⦃o : Decimals D⦄ where
  -- a sum over the lines that are picked, debits less credits
  abbrev pub picked_sum : (JournalEntryLine D → Bool) → List (JournalEntryLine D) → ℤ
  picked_sum p [] = pos 0
  picked_sum p (l ∷ ls) = (if p l then signed l l.type else pos 0) +ℤ picked_sum p ls

  abbrev pub row_net : TrialBalanceLine D → ℤ
  row_net r = o.units r.total_debits -ℤ o.units r.total_credits

  abbrev pub rows_net : List (TrialBalanceLine D) → ℤ
  rows_net [] = pos 0
  rows_net (r ∷ rs) = row_net r +ℤ rows_net rs

  on_side-signed :
      (l : JournalEntryLine D) (t : LineType)
      → o.units (on_side debit t l.amount) -ℤ o.units (on_side credit t l.amount) ≡ signed l t
  on_side-signed l debit = rw o.units_zero_value (omega int_laws)
  on_side-signed l credit = rw o.units_zero_value refl
  on_side-signed l (invalid _) = rw o.units_zero_value (omega int_laws)

  -- the two totals of the lines that are picked
  pub totals_signed :
      (p : JournalEntryLine D → Bool) (ls : List (JournalEntryLine D))
      → o.units (side_total debit (select p ls)) -ℤ o.units (side_total credit (select p ls))
        ≡ picked_sum p ls
  totals_signed p [] = omega int_laws
  totals_signed p (l ∷ ls) = elim (Bool-cases (p l)) [
    | inl here ↦
        rw (here, o.units_add, o.units_add)
          (sub_pairs _ _ _ _ ∙ ap₂ ◌+ℤ◌ (on_side-signed l l.type) (totals_signed p ls))
    | inr absent ↦ rw absent (totals_signed p ls ∙ sym (zero_+ℤ _))
  ]

  rows_net-insert_by_code :
      (r : TrialBalanceLine D) (rs : List (TrialBalanceLine D))
      → rows_net (insert_by_code r rs) ≡ row_net r +ℤ rows_net rs
  rows_net-insert_by_code r [] = refl
  rows_net-insert_by_code r (x ∷ xs) = elim (Bool-cases (text_ltb x.code r.code)) [
    | inl after ↦ rw after (ap (◌+ℤ◌ (row_net x)) (rows_net-insert_by_code r xs) ∙ swap_first _ _ _)
    | inr before ↦ rw before refl
  ]

  pub rows_net-by_code : (rs : List (TrialBalanceLine D)) → rows_net (by_code rs) ≡ rows_net rs
  rows_net-by_code [] = refl
  rows_net-by_code (r ∷ rs) =
      rows_net-insert_by_code r (by_code rs) ∙ ap (◌+ℤ◌ (row_net r)) (rows_net-by_code rs)

  -- the sum over accounts of the lines that count for each
  abbrev pub accounts_sum :
      (ℕ → JournalEntryLine D → Bool) → List (JournalEntryLine D) → List (Account D) → ℤ
  accounts_sum p ls [] = pos 0
  accounts_sum p ls (a ∷ rest) = picked_sum (p a.id) ls +ℤ accounts_sum p ls rest

  rows_net-grouped :
      (a : Account D) (ls : List (JournalEntryLine D)) (rest : List (TrialBalanceLine D))
      → rows_net (grouped a ls rest)
        ≡ o.units (side_total debit ls) -ℤ o.units (side_total credit ls) +ℤ rows_net rest
  rows_net-grouped a [] rest = omega int_laws
  rows_net-grouped a (l ∷ ls) rest = refl

  pub rows_net-groups :
      (currency : Text) (entries : List EntryRow) (lines : List (JournalEntryLine D))
      (accounts : List (Account D))
      → rows_net (groups currency entries lines accounts)
        ≡ accounts_sum (counted_for currency entries) lines accounts
  rows_net-groups currency entries lines [] = refl
  rows_net-groups currency entries lines (a ∷ rest) =
      rows_net-grouped a (select (counted_for currency entries a.id) lines) _
      ∙ rw
          (
            totals_signed (counted_for currency entries a.id) lines,
            rows_net-groups currency entries lines rest,
          )
          refl
