-- ===== src/Ledger/Reports/Books.antt =====
-- Journals whose entries are balanced: what the trial balance of such a journal is, and that a
-- posting keeps the journal so.
use mathlib.Core.Path.{ap₂}
use payments_engine.Base.{
  ℕ, Bool, ◌&&◌, List, [], ◌∷◌, Text, some, none, ◌≡◌, refl, ap, ◌∙◌, arith, ◌==◌, nat_eq, text_eq,
  All, Bool-cases, inl, inr, if◌then◌else◌, subst,
}
use payments_engine.Base.Int.{ℤ, pos, ◌+ℤ◌, int_laws, +ℤ_zero, zero_+ℤ, +ℤ_swap}
use payments_engine.Decimal.{Decimals}
use payments_engine.Account.{Account}
use payments_engine.Ledger.Entry.{JournalEntryLine}
use payments_engine.Ledger.Equation.{signed, IsUnique}
use payments_engine.Ledger.Reports.{counted_for, is_counted, find_entry}
use payments_engine.Ledger.Reports.Totals.{picked_sum, accounts_sum}
use payments_engine.Ledger.Repository.{find_account}
use payments_engine.Store.Tables.{EntryRow}

module _ {D : Type 0} ⦃o : Decimals D⦄ where
  -- the debits less the credits of the journal in one currency
  abbrev pub posted_sum : Text → List EntryRow → List (JournalEntryLine D) → ℤ
  posted_sum currency entries lines =
      picked_sum (λ l. is_counted currency (find_entry l.entry_id entries)) lines

  -- each line is of an account of the table
  abbrev pub Known : List (Account D) → JournalEntryLine D → Type 0
  Known accounts l = (a : Account D) × (find_account l.account_id accounts ≡ some a)

  line_over : (c : Bool) (l : JournalEntryLine D) (accounts : List (Account D)) → ℤ
  line_over c l [] = pos 0
  line_over c l (a ∷ rest) =
      (if (l.account_id == a.id) && c then signed l l.type else pos 0) +ℤ line_over c l rest

  line_over_absent :
      (c : Bool) (l : JournalEntryLine D) (accounts : List (Account D))
      → find_account l.account_id accounts ≡ none
      → line_over c l accounts ≡ pos 0
  unfolding line_over
  line_over_absent c l [] h = refl
  line_over_absent c l (a ∷ rest) h = ground (arith, line_over_absent c l rest, zero_+ℤ (pos 0))

  line_over_found :
      (c : Bool) (l : JournalEntryLine D) (accounts : List (Account D))
      → IsUnique accounts
      → Known accounts l
      → line_over c l accounts ≡ (if c then signed l l.type else pos 0)
  unfolding line_over
  line_over_found c l [] u (b, e) = absurd (cc)
  line_over_found c l (a ∷ rest) u (b, e) = elim (Bool-cases (l.account_id == a.id)) [
    | inl here ↦
        rw
          (
            here,
            line_over_absent c l rest
                (subst (λ (k : ℕ). find_account k rest ≡ none) (ground arith) u.0),
          )
          (+ℤ_zero _)
    | inr later ↦ rw later (zero_+ℤ _ ∙ line_over_found c l rest u.1 (b, ground arith))
  ]

  over_lines :
      (currency : Text) (entries : List EntryRow) (l : JournalEntryLine D)
      (ls : List (JournalEntryLine D)) (accounts : List (Account D))
      → accounts_sum (counted_for currency entries) (l ∷ ls) accounts
        ≡ line_over (is_counted currency (find_entry l.entry_id entries)) l accounts
          +ℤ accounts_sum (counted_for currency entries) ls accounts
  unfolding line_over
  over_lines currency entries l ls [] = omega int_laws
  over_lines currency entries l ls (a ∷ rest) =
      ap (◌+ℤ◌ (picked_sum (counted_for currency entries a.id) (l ∷ ls)))
        (over_lines currency entries l ls rest)
      ∙ +ℤ_swap _ _ _ _

  no_lines :
      (p : ℕ → JournalEntryLine D → Bool) (accounts : List (Account D))
      → accounts_sum p [] accounts ≡ pos 0
  no_lines p [] = refl
  no_lines p (a ∷ rest) = zero_+ℤ _ ∙ no_lines p rest

  -- summed by account or by line, the journal is the same
  pub accounts_sum-posted_sum :
      (currency : Text) (entries : List EntryRow) (lines : List (JournalEntryLine D))
      (accounts : List (Account D))
      → IsUnique accounts
      → All (Known accounts) lines
      → accounts_sum (counted_for currency entries) lines accounts
        ≡ posted_sum currency entries lines
  accounts_sum-posted_sum currency entries [] accounts u h =
      no_lines (counted_for currency entries) accounts
  accounts_sum-posted_sum currency entries (l ∷ ls) accounts u h =
      over_lines currency entries l ls accounts
      ∙ ap₂ ◌+ℤ◌ (line_over_found _ l accounts u h.0)
          (accounts_sum-posted_sum currency entries ls accounts u h.1)
