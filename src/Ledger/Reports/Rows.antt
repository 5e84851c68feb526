-- ===== src/Ledger/Reports/Rows.antt =====
-- Which accounts have a row in the trial balance.
use mathlib.Core.List.{Perm}
use mathlib.Core.List.Perm
use payments_engine.Base.{
  ℕ, Bool, true, false, ◌||◌, List, [], ◌∷◌, Text, some, none, Option, ◌≡◌, refl, ◌∙◌, arith,
  nat_eq, text_eq, select, if◌then◌else◌, ◌↔◌, Bool-cases, inl, inr, ==→eq, ==_refl,
}
use payments_engine.Account.{Account}
use payments_engine.Decimal.{Decimals}
use payments_engine.Ledger.Entry.{JournalEntryLine, EntryStatus, posted, reversed, unset}
use payments_engine.Ledger.Reports.{counted_for, find_entry, is_counted, is_posted}
use payments_engine.Ledger.TrialBalance.{TrialBalanceLine, grouped, groups, insert_by_code, by_code}
use payments_engine.Netting.{text_ltb}
use payments_engine.Store.Tables.{EntryRow}

-- the id, the code and the name of an account
abbrev pub Label : Type 0
Label = ℕ × Text × Text

is_posted_eq : (s : EntryStatus) → is_posted s ≡ true → s ≡ posted
is_posted_eq posted h = refl
is_posted_eq reversed h = cc
is_posted_eq unset h = cc

module _ {D : Type 0} where
  -- some line is picked
  abbrev pub has_line : (JournalEntryLine D → Bool) → List (JournalEntryLine D) → Bool
  has_line p [] = false
  has_line p (l ∷ ls) = p l || has_line p ls

  -- a line of the account in a posted entry of the currency
  pub record IsCounted (currency : Text) (entries : List EntryRow) (id : ℕ) (l : JournalEntryLine D)
      : Type 0 where
    pub account_eq : l.account_id ≡ id
    pub entry : EntryRow
    pub found : find_entry l.entry_id entries ≡ some entry
    pub currency_eq : entry.currency ≡ currency
    pub status_eq : entry.status ≡ posted

  IsCounted-row :
      (currency : Text) (entries : List EntryRow) (id : ℕ) (l : JournalEntryLine D)
      (row : Option EntryRow)
      → find_entry l.entry_id entries ≡ row
      → l.account_id ≡ id
      → is_counted currency row ≡ true
      → IsCounted currency entries id l
  IsCounted-row currency entries id l none found a h = cc
  IsCounted-row currency entries id l (some e) found a h = record {
    account_eq = a;
    entry = e;
    found = found;
    currency_eq = ==→eq e.currency currency (ground arith);
    status_eq = is_posted_eq e.status (ground arith);
  }

  IsCounted-counted_for :
      (currency : Text) (entries : List EntryRow) (id : ℕ) (l : JournalEntryLine D)
      → IsCounted currency entries id l
      → counted_for currency entries id l ≡ true
  IsCounted-counted_for currency entries id l h =
      rw (h.account_eq, h.found, h.currency_eq, h.status_eq)
        (ground (arith, ==_refl ⦃c = text_eq⦄ currency, ==_refl ⦃c = nat_eq⦄ id))

  -- the filter of the query picks the lines of the account in the posted entries of the currency
  pub counted_for_lem :
      (currency : Text) (entries : List EntryRow) (id : ℕ) (l : JournalEntryLine D)
      → (counted_for currency entries id l ≡ true) ↔ IsCounted currency entries id l
  counted_for_lem currency entries id l = (
    λ h.
        IsCounted-row currency entries id l (find_entry l.entry_id entries) refl (ground arith)
          (ground arith),
    IsCounted-counted_for currency entries id l,
  )

  abbrev pub row_label : TrialBalanceLine D → Label
  row_label r = (r.account_id, r.code, r.name)

  abbrev pub account_label : Account D → Label
  account_label a = (a.id, a.code, a.name)

  abbrev pub row_labels : List (TrialBalanceLine D) → List Label
  row_labels [] = []
  row_labels (r ∷ rs) = row_label r ∷ row_labels rs

  -- the accounts that some line in the currency is of
  abbrev pub used_labels :
      Text → List EntryRow → List (JournalEntryLine D) → List (Account D) → List Label
  used_labels currency entries lines [] = []
  used_labels currency entries lines (a ∷ rest) =
      if has_line (counted_for currency entries a.id) lines
      then account_label a ∷ used_labels currency entries lines rest
      else used_labels currency entries lines rest

module _ {D : Type 0} ⦃o : Decimals D⦄ where
  labels-insert_by_code :
      (r : TrialBalanceLine D) (rs : List (TrialBalanceLine D))
      → Perm (row_labels (insert_by_code r rs)) (row_label r ∷ row_labels rs)
  labels-insert_by_code r [] = Perm.rfl
  labels-insert_by_code r (x ∷ xs) = elim (Bool-cases (text_ltb x.code r.code)) [
    | inl after ↦ rw after (
        Perm.trans (Perm.cons (row_label x) (labels-insert_by_code r xs))
          (Perm.swap (row_label r) (row_label x) (row_labels xs)))
    | inr before ↦ rw before Perm.rfl
  ]

  pub labels-by_code :
      (rs : List (TrialBalanceLine D)) → Perm (row_labels (by_code rs)) (row_labels rs)
  labels-by_code [] = Perm.rfl
  labels-by_code (r ∷ rs) =
      Perm.trans (labels-insert_by_code r (by_code rs))
        (Perm.cons (row_label r) (labels-by_code rs))

  labels-grouped :
      (a : Account D) (p : JournalEntryLine D → Bool) (ls : List (JournalEntryLine D))
      (rest : List (TrialBalanceLine D))
      → row_labels (grouped a (select p ls) rest)
        ≡ (if has_line p ls then account_label a ∷ row_labels rest else row_labels rest)
  labels-grouped a p [] rest = refl
  labels-grouped a p (l ∷ ls) rest = elim (Bool-cases (p l)) [
    | inl here ↦ rw here refl
    | inr absent ↦ rw absent (labels-grouped a p ls rest)
  ]

  pub labels-groups :
      (currency : Text) (entries : List EntryRow) (lines : List (JournalEntryLine D))
      (accounts : List (Account D))
      → row_labels (groups currency entries lines accounts)
        ≡ used_labels currency entries lines accounts
  labels-groups currency entries lines [] = refl
  labels-groups currency entries lines (a ∷ rest) =
      labels-grouped a (counted_for currency entries a.id) lines _
      ∙ rw (labels-groups currency entries lines rest) refl
