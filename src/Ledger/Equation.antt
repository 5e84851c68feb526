-- ===== src/Ledger/Equation.antt =====
-- The accounting equation: posting a balanced entry leaves the sum of the debit balances less the
-- sum of the credit balances as it was.
use mathlib.Core.Path.{ap₂}
use payments_engine.Base.{
  ℕ, List, [], ◌∷◌, ◌≡◌, refl, arith, ◌==◌, nat_eq, if◌then◌else◌, ◌∙◌, All, none, some,
}
use payments_engine.Base.Int.{ℤ, pos, ◌+ℤ◌, ◌-ℤ◌, int_laws, +ℤ_zero, zero_+ℤ, eqb→eq, cancel_same}
use payments_engine.Error.{Result, ok, err}
use payments_engine.Decimal.{Decimals}
use payments_engine.Account.{Account, AccountType, asset, liability, equity, income, expense, other}
use payments_engine.Ledger.Entry.{JournalEntry, JournalEntryLine, LineType, debit, credit, invalid}
use payments_engine.Ledger.Posting.{line_delta, sum_lines, check_balanced, require_equal}
use payments_engine.Ledger.Repository.{find_account}
use payments_engine.Ledger.Deltas.{line_units, lines_units}
use payments_engine.Ledger.Balances.{AreMoved}

-- A balance as a debit: that of a credit account counts as negative.
abbrev pub as_debit : AccountType → ℤ → ℤ
as_debit asset z = z
as_debit expense z = z
as_debit _ z = pos 0 -ℤ z

abbrev pub IsClass : AccountType → Type 0
IsClass (other _) = ⊥
IsClass _ = Unit

pub as_debit-add : (t : AccountType) (y z : ℤ) → as_debit t (y +ℤ z) ≡ as_debit t y +ℤ as_debit t z
as_debit-add asset y z = refl
as_debit-add expense y z = refl
as_debit-add liability y z = omega int_laws
as_debit-add equity y z = omega int_laws
as_debit-add income y z = omega int_laws
as_debit-add (other _) y z = omega int_laws

pub as_debit_zero : (t : AccountType) → as_debit t (pos 0) ≡ pos 0
as_debit_zero asset = refl
as_debit_zero expense = refl
as_debit_zero liability = omega int_laws
as_debit_zero equity = omega int_laws
as_debit_zero income = omega int_laws
as_debit_zero (other _) = omega int_laws

abbrev pub at_id : ℕ → ℤ → ℕ → ℤ
at_id k z id = if id == k then z else pos 0

module _ {D : Type 0} where
  -- the sum over the accounts of what `f` says of each, as debits
  abbrev pub debit_sum : (ℕ → ℤ) → List (Account D) → ℤ
  debit_sum f [] = pos 0
  debit_sum f (a ∷ rest) = as_debit a.type (f a.id) +ℤ debit_sum f rest

  debit_sum-add :
      (f g : ℕ → ℤ) (accounts : List (Account D))
      → debit_sum (λ id. f id +ℤ g id) accounts ≡ debit_sum f accounts +ℤ debit_sum g accounts
  debit_sum-add f g [] = omega int_laws
  debit_sum-add f g (a ∷ rest) =
      rw (as_debit-add a.type (f a.id) (g a.id), debit_sum-add f g rest) (omega int_laws)

  debit_sum_zero : (accounts : List (Account D)) → debit_sum (λ id. pos 0) accounts ≡ pos 0
  debit_sum_zero [] = refl
  debit_sum_zero (a ∷ rest) = rw (as_debit_zero a.type, debit_sum_zero rest) (zero_+ℤ (pos 0))

  -- the primary key: no two accounts have one id
  abbrev pub IsUnique : List (Account D) → Type 0
  IsUnique [] = Unit
  IsUnique (a ∷ rest) = (find_account a.id rest ≡ none) × IsUnique rest

  debit_sum_absent :
      (k : ℕ) (z : ℤ) (accounts : List (Account D))
      → find_account k accounts ≡ none
      → debit_sum (at_id k z) accounts ≡ pos 0
  debit_sum_absent k z [] h = refl
  debit_sum_absent k z (a ∷ rest) h =
      ground (arith, debit_sum_absent k z rest, as_debit_zero a.type, zero_+ℤ (pos 0))

  debit_sum_single :
      (k : ℕ) (z : ℤ) (a : Account D) (accounts : List (Account D))
      → IsUnique accounts
      → find_account k accounts ≡ some a
      → debit_sum (at_id k z) accounts ≡ as_debit a.type z
  debit_sum_single k z a [] u h = cc
  debit_sum_single k z a (b ∷ rest) u h = ground (
    arith,
    debit_sum_absent k z rest,
    debit_sum_single k z a rest u.1,
    as_debit_zero b.type,
    +ℤ_zero (as_debit b.type z),
    zero_+ℤ (debit_sum (at_id k z) rest),
  )

module _ {D : Type 0} ⦃o : Decimals D⦄ where
  -- the balances of all accounts, as debits
  abbrev pub net_debit : List (Account D) → ℤ
  net_debit [] = pos 0
  net_debit (a ∷ rest) = as_debit a.type (o.units a.balance) +ℤ net_debit rest

  pub net_debit-AreMoved :
      (f : ℕ → ℤ) (as' bs : List (Account D))
      → AreMoved f as' bs
      → net_debit bs ≡ net_debit as' +ℤ debit_sum f as'
  net_debit-AreMoved f [] [] p = omega int_laws
  net_debit-AreMoved f (a ∷ as') (b ∷ bs) p =
      rw
        (
          p.0.type_eq,
          p.0.balance_eq,
          as_debit-add a.type (o.units a.balance) (f a.id),
          net_debit-AreMoved f as' bs p.1,
        )
        (omega int_laws)
  net_debit-AreMoved f [] (b ∷ bs) p = absurd p
  net_debit-AreMoved f (a ∷ as') [] p = absurd p

  -- a line as a debit
  abbrev pub signed : JournalEntryLine D → LineType → ℤ
  signed line debit = o.units line.amount
  signed line credit = pos 0 -ℤ o.units line.amount
  signed line (invalid _) = pos 0

  abbrev pub signed_sum : List (JournalEntryLine D) → ℤ
  signed_sum [] = pos 0
  signed_sum (line ∷ rest) = signed line line.type +ℤ signed_sum rest

  neg_debit : (a : D) → pos 0 -ℤ o.units (o.neg a) ≡ o.units a
  neg_debit a = rw o.units_neg (omega int_laws)

  pub as_debit_line :
      (t : AccountType) (line : JournalEntryLine D) (l : LineType)
      → IsClass t
      → as_debit t (o.units (line_delta t l line.amount)) ≡ signed line l
  as_debit_line (other _) line l c = absurd c
  as_debit_line asset line debit c = refl
  as_debit_line asset line credit c = o.units_neg line.amount
  as_debit_line asset line (invalid _) c = o.units_zero_value
  as_debit_line expense line debit c = refl
  as_debit_line expense line credit c = o.units_neg line.amount
  as_debit_line expense line (invalid _) c = o.units_zero_value
  as_debit_line liability line debit c = neg_debit line.amount
  as_debit_line liability line credit c = refl
  as_debit_line liability line (invalid _) c = rw o.units_zero_value (omega int_laws)
  as_debit_line equity line debit c = neg_debit line.amount
  as_debit_line equity line credit c = refl
  as_debit_line equity line (invalid _) c = rw o.units_zero_value (omega int_laws)
  as_debit_line income line debit c = neg_debit line.amount
  as_debit_line income line credit c = refl
  as_debit_line income line (invalid _) c = rw o.units_zero_value (omega int_laws)

  debit_step :
      (d c a : D) (z : ℤ)
      → o.units (o.add d a) -ℤ o.units c +ℤ z ≡ o.units d -ℤ o.units c +ℤ (o.units a +ℤ z)
  debit_step d c a z = rw o.units_add (omega int_laws)

  credit_step :
      (d c a : D) (z : ℤ)
      → o.units d -ℤ o.units (o.add c a) +ℤ z ≡ o.units d -ℤ o.units c +ℤ (pos 0 -ℤ o.units a +ℤ z)
  credit_step d c a z = rw o.units_add (omega int_laws)

  sum_lines_signed :
      (lines : List (JournalEntryLine D)) (d c d' c' : D)
      → sum_lines lines d c ≡ ok (d', c')
      → o.units d' -ℤ o.units c' ≡ o.units d -ℤ o.units c +ℤ signed_sum lines
  unfolding sum_lines
  sum_lines_signed [] d c d' c' h = ground (arith, +ℤ_zero (o.units d -ℤ o.units c))
  sum_lines_signed (line ∷ rest) d c d' c' h = ground (
    arith,
    sum_lines_signed rest (o.add d line.amount) c d' c',
    sum_lines_signed rest d (o.add c line.amount) d' c',
    debit_step d c line.amount (signed_sum rest),
    credit_step d c line.amount (signed_sum rest),
  )

  balanced_result :
      (r : Result (D × D))
      → require_equal r ≡ ok tt
      → (d c : D) × (r ≡ ok (d, c)) × (o.units d ≡ o.units c)
  balanced_result (ok (d, c)) h = (d, c, refl, eqb→eq _ _ (ground (arith, o.equal_units d c)))
  balanced_result (err e) h = cc

  -- what the double-entry check decides
  pub check_balanced_signed :
      (entry : JournalEntry D) → check_balanced entry ≡ ok tt → signed_sum entry.lines ≡ pos 0
  unfolding check_balanced
  check_balanced_signed entry h =
      let (d, c, e, q) = balanced_result (sum_lines entry.lines o.zero_value o.zero_value) h in
      cancel_same (o.units c) (o.units o.zero_value) (signed_sum entry.lines)
        (rw q at (sum_lines_signed entry.lines o.zero_value o.zero_value d c e))

  -- the line names an account of the table, and `type_of` is right about it
  pub record IsPlaced (accounts : List (Account D)) (type_of : ℕ → AccountType)
      (line : JournalEntryLine D) : Type 0 where
    pub account : Account D
    pub found : find_account line.account_id accounts ≡ some account
    pub class : IsClass account.type
    pub type_eq : type_of line.account_id ≡ account.type

  line_sum :
      (accounts : List (Account D)) (type_of : ℕ → AccountType) (line : JournalEntryLine D)
      → IsUnique accounts
      → IsPlaced accounts type_of line
      → debit_sum (λ id. line_units type_of id line) accounts ≡ signed line line.type
  line_sum accounts type_of line u p =
      debit_sum_single line.account_id
        (o.units (line_delta (type_of line.account_id) line.type line.amount)) p.account accounts u
        p.found
      ∙ rw p.type_eq (as_debit_line p.account.type line line.type p.class)

  pub debit_sum_lines :
      (accounts : List (Account D)) (type_of : ℕ → AccountType) (lines : List (JournalEntryLine D))
      → IsUnique accounts
      → All (IsPlaced accounts type_of) lines
      → debit_sum (λ id. lines_units type_of id lines) accounts ≡ signed_sum lines
  debit_sum_lines accounts type_of [] u h = debit_sum_zero accounts
  debit_sum_lines accounts type_of (line ∷ rest) u h =
      debit_sum-add (λ id. line_units type_of id line) (λ id. lines_units type_of id rest) accounts
      ∙ ap₂ ◌+ℤ◌ (line_sum accounts type_of line u h.0)
          (debit_sum_lines accounts type_of rest u h.1)
