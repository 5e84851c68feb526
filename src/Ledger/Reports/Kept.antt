-- ===== src/Ledger/Reports/Kept.antt =====
-- A posting keeps the journal balanced.
use payments_engine.Base.{
  ℕ, Bool, true, false, List, [], ◌∷◌, Text, Option, some, none, ◌≡◌, refl, sym, ap, ◌∙◌, arith,
  ◌==◌, nat_eq, text_eq, All, Bool-cases, inl, inr, if◌then◌else◌, subst, contains,
}
use mathlib.Core.Path.{ap₂}
use payments_engine.Base.Int.{ℤ, pos, ◌+ℤ◌, ◌-ℤ◌, int_laws, zero_+ℤ}
use payments_engine.Error.{ok}
use payments_engine.Decimal.{Decimals}
use payments_engine.Account.{Account}
use payments_engine.Ledger.Entry.{JournalEntry, JournalEntryLine, LineType, debit, credit, invalid}
use payments_engine.Ledger.Balances.{OnScale}
use payments_engine.Ledger.Effect.{IsPosted, IsStored, IsExtended, post_journal_entry_tx-IsPosted}
use payments_engine.Ledger.Equation.{signed, signed_sum, IsUnique, check_balanced_signed}
use payments_engine.Ledger.Loaded.{checked_IsLoaded, collect_account_ids-All, find_account-select}
use payments_engine.Ledger.Posting.{DeltaMap, compute_net_deltas, collect_account_ids}
use payments_engine.Ledger.Reports.{is_counted, find_entry}
use payments_engine.Ledger.Reports.Books.{posted_sum, Known}
use payments_engine.Ledger.Reports.Stays.{apply_all-IsUnique, still-Known}
use payments_engine.Ledger.Reports.Trial.{IsBook}
use payments_engine.Ledger.Repository.{find_account, entry_row, type_in, post_journal_entry_tx}
use payments_engine.Ledger.Sound.{AmountsOnScale}
use payments_engine.Settlement.Rows.{All-map}
use payments_engine.Store.{Env, Session}
use payments_engine.Store.Tables.{EntryRow}

abbrev pub Placed : {D : Type 0} → List EntryRow → JournalEntryLine D → Type 0
Placed entries l = (e : EntryRow) × (find_entry l.entry_id entries ≡ some e)

own_entry :
    (row : EntryRow) (entries : List EntryRow) (id : ℕ)
    → id ≡ row.id
    → find_entry id (row ∷ entries) ≡ some row
own_entry row entries id e = ground arith

same_zero : (b : Bool) (z : ℤ) → z ≡ (if b then pos 0 else pos 0) +ℤ z
same_zero true z = sym (zero_+ℤ z)
same_zero false z = sym (zero_+ℤ z)

add_first :
    (b : Bool) (r s s' p : ℤ)
    → s ≡ s'
    → (if b then r else pos 0) +ℤ ((if b then s else pos 0) +ℤ p)
      ≡ (if b then s' +ℤ r else pos 0) +ℤ p
add_first true r s s' p e = rw e (omega int_laws)
add_first false r s s' p e = zero_+ℤ _

module _ {D : Type 0} ⦃o : Decimals D⦄ where
  -- an entry with a new id changes nothing for the lines that have an entry
  old_lines :
      (currency : Text) (row : EntryRow) (entries : List EntryRow)
      (lines : List (JournalEntryLine D))
      → find_entry row.id entries ≡ none
      → All (Placed entries) lines
      → posted_sum currency (row ∷ entries) lines ≡ posted_sum currency entries lines
  old_lines currency row entries [] new h = refl
  old_lines currency row entries (l ∷ ls) new h = elim (Bool-cases (l.entry_id == row.id)) [
    | inl same ↦ absurd (ground (arith, h.0.1))
    | inr differs ↦ rw (differs, old_lines currency row entries ls new h.1) refl
  ]

  signed_eq :
      (a b : JournalEntryLine D) (t : LineType)
      → o.units a.amount ≡ o.units b.amount
      → signed a t ≡ signed b t
  signed_eq a b debit e = e
  signed_eq a b credit e = ap (◌-ℤ◌ (pos 0)) e
  signed_eq a b (invalid _) e = refl

  stored_signed :
      (id : ℕ) (line row : JournalEntryLine D)
      → IsStored id line row
      → OnScale line.amount
      → signed row row.type ≡ signed line line.type
  stored_signed id line row s exact =
      ap (signed row) s.type_eq ∙ signed_eq row line line.type (ap o.units s.amount_eq ∙ exact)

  -- the lines of the entry itself
  new_lines :
      (currency : Text) (row : EntryRow) (entries : List EntryRow)
      (lines before after : List (JournalEntryLine D))
      → IsExtended row.id lines before after
      → AmountsOnScale lines
      → posted_sum currency (row ∷ entries) after
        ≡ (if is_counted currency (some row) then signed_sum lines else pos 0)
          +ℤ posted_sum currency (row ∷ entries) before
  new_lines currency row entries [] before after x exact =
      ap (posted_sum currency (row ∷ entries)) x ∙ same_zero (is_counted currency (some row)) _
  new_lines currency row entries (line ∷ rest) before after (new, stored, x) exact =
      new_lines currency row entries rest (new ∷ before) after x exact.1
      ∙ ap
          (λ (e : Option EntryRow).
            (if is_counted currency (some row) then signed_sum rest else pos 0)
            +ℤ ((if is_counted currency e then signed new new.type else pos 0)
                +ℤ posted_sum currency (row ∷ entries) before))
          (own_entry row entries new.entry_id stored.entry_eq)
      ∙ add_first (is_counted currency (some row)) (signed_sum rest) (signed new new.type)
          (signed line line.type) _ (stored_signed row.id line new stored exact.0)

  -- the rows of the entry's lines are of accounts and of the entry
  new-Known :
      (accounts : List (Account D)) (id : ℕ) (lines before after : List (JournalEntryLine D))
      → IsExtended id lines before after
      → All (Known accounts) lines
      → All (Known accounts) before
      → All (Known accounts) after
  new-Known accounts id [] before after x k h = subst (All (Known accounts)) (sym x) h
  new-Known accounts id (line ∷ rest) before after (new, stored, x) k h =
      new-Known accounts id rest (new ∷ before) after x k.1
        ((k.0.0, ap (λ (j : ℕ). find_account j accounts) stored.account_eq ∙ k.0.1), h)

  new-Placed :
      (entries : List EntryRow) (row : EntryRow) (lines before after : List (JournalEntryLine D))
      → IsExtended row.id lines before after
      → All (Placed (row ∷ entries)) before
      → All (Placed (row ∷ entries)) after
  new-Placed entries row [] before after x h = subst (All (Placed (row ∷ entries))) (sym x) h
  new-Placed entries row (line ∷ rest) before after (new, stored, x) h =
      new-Placed entries row rest (new ∷ before) after x
        ((row, own_entry row entries new.entry_id stored.entry_eq), h)

  still-Placed :
      (entries : List EntryRow) (row : EntryRow) (l : JournalEntryLine D)
      → Placed entries l
      → Placed (row ∷ entries) l
  still-Placed entries row l (e, found) = elim (Bool-cases (l.entry_id == row.id)) [
    | inl same ↦ (row, rw same refl)
    | inr differs ↦ (e, rw differs found)
  ]

  module _ (env : Env) (entry : JournalEntry D) (s : Session D) (id : ℕ) (t : Session D)
      (p : IsPosted env entry s id t) (book : IsBook s.db) (exact : AmountsOnScale entry.lines)
      (new : find_entry id s.db.entries ≡ none) where
    abbrev row : EntryRow
    row = entry_row env p.call entry

    abbrev deltas : DeltaMap D
    deltas = compute_net_deltas entry.lines (type_in p.rows)

    locked :
        (line : JournalEntryLine D)
        → contains line.account_id (collect_account_ids entry) ≡ true
        → Known s.db.accounts line
    locked line c =
        let l =
          checked_IsLoaded p.rows entry.currency (collect_account_ids entry) line.account_id
            p.checked c in
        (
          l.account,
          sym (find_account-select (collect_account_ids entry) line.account_id s.db.accounts c)
              ∙ ap (find_account line.account_id) (sym p.rows_eq)
              ∙ l.found,
        )

    extended : IsExtended row.id entry.lines s.db.lines t.db.lines
    extended = subst (λ (k : ℕ). IsExtended k entry.lines s.db.lines t.db.lines) p.id_eq p.lines_eq

    Known-after : All (Known t.db.accounts) t.db.lines
    Known-after =
        subst (λ (a : List (Account D)). All (Known a) t.db.lines) (sym p.accounts_eq)
          (All-map _ _ t.db.lines (λ l k. still-Known deltas s.db.accounts l k)
            (new-Known s.db.accounts row.id entry.lines s.db.lines t.db.lines extended
              (All-map _ _ entry.lines locked (collect_account_ids-All entry)) book.known))

    Placed-after : All (Placed t.db.entries) t.db.lines
    Placed-after =
        subst (λ (e : List EntryRow). All (Placed e) t.db.lines) (sym p.entries_eq)
          (new-Placed s.db.entries row entry.lines s.db.lines t.db.lines extended
            (All-map _ _ s.db.lines (still-Placed s.db.entries row) book.placed))

    if_zero : (b : Bool) (z : ℤ) → z ≡ pos 0 → (if b then z else pos 0) ≡ pos 0
    if_zero true z e = e
    if_zero false z e = refl

    sums_after : (currency : Text) → posted_sum currency t.db.entries t.db.lines ≡ pos 0
    sums_after currency =
        ap (λ (e : List EntryRow). posted_sum currency e t.db.lines) p.entries_eq
        ∙ new_lines currency row s.db.entries entry.lines s.db.lines t.db.lines extended exact
        ∙ ap₂ ◌+ℤ◌
            (if_zero (is_counted currency (some row)) _ (check_balanced_signed entry p.balanced))
            (old_lines currency row s.db.entries s.db.lines
                (subst (λ (k : ℕ). find_entry k s.db.entries ≡ none) p.id_eq new) book.placed
              ∙ book.sums currency)
        ∙ zero_+ℤ (pos 0)

    pub IsPosted-IsBook : IsBook t.db
    IsPosted-IsBook = record {
      unique =
          subst IsUnique (sym p.accounts_eq) (apply_all-IsUnique deltas s.db.accounts book.unique);
      known = Known-after;
      placed = Placed-after;
      sums = sums_after;
    }

  -- A posting keeps the journal balanced: when PostJournalEntryTx returns an id that no entry of the
  -- journal has, and the amounts of the entry are values that a NUMERIC(18, 4) column holds exactly, a
  -- journal whose lines are of its accounts and entries and whose posted debits equal its posted
  -- credits in each currency has become such a journal.
  pub post_journal_entry_tx-IsBook :
      (env : Env) (entry : JournalEntry D) (s t : Session D) (id : ℕ)
      → IsBook s.db
      → AmountsOnScale entry.lines
      → find_entry id s.db.entries ≡ none
      → post_journal_entry_tx env entry s ≡ (ok id, t)
      → IsBook t.db
  post_journal_entry_tx-IsBook env entry s t id book exact new e =
      IsPosted-IsBook env entry s id t (post_journal_entry_tx-IsPosted env entry s t id e) book
        exact new
