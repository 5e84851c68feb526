-- ===== src/Ledger/Reports.antt =====
-- What internal/ledger reads from the journal: the history of an account (GetAccountEntryRows) and
-- the trial balance (GetTrialBalance) of internal/ledger/repository.go, behind GetAccountEntries and
-- GetTrialBalance of internal/ledger/ledger.go.
pub mod Totals
pub mod Books
pub mod Rows
pub mod Trial
pub mod Stays
pub mod Kept
pub mod History
pub mod Tests
use payments_engine.Base.{
  ℕ, Bool, true, false, not, ◌&&◌, List, [], ◌∷◌, ◌++◌, Option, none, some, Text, text, ◌==◌,
  nat_eq, text_eq, leb, ltb, select, if◌then◌else◌,
}
use payments_engine.Error.{
  sentinel, message, ledger_account_not_found, entries_query_not_supported,
  trial_balance_query_not_supported, Result, ok, err,
}
use payments_engine.Decimal.{Decimals}
use payments_engine.Exec.{Exec, pure, raise, lift, within, try, ◌>>=◌, ◌>>◌}
use payments_engine.Account.{Account}
use payments_engine.Ledger.Entry.{
  EntryStatus, posted, JournalEntryLine, LineType, debit, credit, invalid,
}
use payments_engine.Ledger.Repository.{find_account}
use payments_engine.Netting.{text_ltb}
use payments_engine.Store.{Env, Session, query}
use payments_engine.Store.Tables.{Db, EntryRow}
use payments_engine.Transaction.Repository.{or_no_rows, explain}

pub record AccountEntryRow (D : Type 0) : Type 0 where
  pub entry_id : ℕ
  pub posted_at : ℕ
  pub entry_description : Text
  pub reference : Text
  pub entry_status : EntryStatus
  pub line_id : ℕ
  pub line_type : LineType
  pub amount : D
  pub line_description : Text
  pub sequence : ℕ

abbrev pub is_posted : EntryStatus → Bool
is_posted posted = true
is_posted _ = false

-- JOIN journal_entries e ON e.id = l.entry_id
abbrev pub find_entry : ℕ → List EntryRow → Option EntryRow
find_entry id [] = none
find_entry id (e ∷ rest) = if id == e.id then some e else find_entry id rest

-- WHERE e.currency = $1 AND e.status = 'POSTED'
abbrev pub is_counted : Text → Option EntryRow → Bool
is_counted currency none = false
is_counted currency (some e) = (e.currency == currency) && is_posted e.status

abbrev pub and_row {ℓ} : {R : Type ℓ} → Result R → Result (List R) → Result (List R)
and_row (err e) rest = err e
and_row (ok r) (err e) = err e
and_row (ok r) (ok rs) = ok (r ∷ rs)

module _ {D : Type 0} where
  abbrev pub entry_row_of : EntryRow → JournalEntryLine D → AccountEntryRow D
  entry_row_of e l = record {
    entry_id = e.id;
    posted_at = e.posted_at;
    entry_description = e.description;
    reference = e.reference;
    entry_status = e.status;
    line_id = l.id;
    line_type = l.type;
    amount = l.amount;
    line_description = l.description;
    sequence = l.sequence;
  }

  abbrev pub with_entry :
      JournalEntryLine D → Option EntryRow → List (AccountEntryRow D) → List (AccountEntryRow D)
  with_entry l none rest = rest
  with_entry l (some e) rest = entry_row_of e l ∷ rest

  -- the lines of an account, each with its entry
  abbrev pub joined : ℕ → List EntryRow → List (JournalEntryLine D) → List (AccountEntryRow D)
  joined id entries [] = []
  joined id entries (l ∷ ls) =
      let rest = joined id entries ls in
      if l.account_id == id then with_entry l (find_entry l.entry_id entries) rest else rest

  -- ORDER BY e.posted_at DESC, l.sequence ASC
  abbrev pub shown_before : AccountEntryRow D → AccountEntryRow D → Bool
  shown_before a b =
      if a.posted_at == b.posted_at then leb a.sequence b.sequence else ltb b.posted_at a.posted_at

  abbrev pub insert_shown : AccountEntryRow D → List (AccountEntryRow D) → List (AccountEntryRow D)
  insert_shown r [] = r ∷ []
  insert_shown r (x ∷ xs) = if shown_before r x then r ∷ x ∷ xs else x ∷ insert_shown r xs

  abbrev pub in_shown_order : List (AccountEntryRow D) → List (AccountEntryRow D)
  in_shown_order [] = []
  in_shown_order (r ∷ rs) = insert_shown r (in_shown_order rs)

  abbrev pub counted_for : Text → List EntryRow → ℕ → JournalEntryLine D → Bool
  counted_for currency entries id l =
      (l.account_id == id) && is_counted currency (find_entry l.entry_id entries)

module _ {D : Type 0} ⦃o : Decimals D⦄ where
  -- amount::text, read by decimal.NewFromString
  unfoldable pub scanned : Text → D → Result D
  scanned context d = elim (o.from_string (o.string d)) [
    | none ↦ err (message context)
    | some amount ↦ ok amount
  ]

  abbrev pub with_amount : AccountEntryRow D → Result D → Result (AccountEntryRow D)
  with_amount row (err e) = err e
  with_amount row (ok amount) = ok (record row { amount = amount })

  -- the loop over the rows
  abbrev pub scan_rows : List (AccountEntryRow D) → Result (List (AccountEntryRow D))
  scan_rows [] = ok []
  scan_rows (r ∷ rs) =
      and_row (with_amount r (scanned (text "parse row amount") r.amount)) (scan_rows rs)

  -- An account without lines has to exist.
  abbrev pub or_existing :
      Env → ℕ → List (AccountEntryRow D) → Exec (Session D) (List (AccountEntryRow D))
  or_existing env id (r ∷ rs) = pure (r ∷ rs)
  or_existing env id [] = do
    found ← try (query env (λ db. or_no_rows (find_account id db.accounts)))
    lift (explain (sentinel ledger_account_not_found) (text "check account existence") found)
    pure []

  unfoldable pub get_account_entry_rows : Env → ℕ → Exec (Session D) (List (AccountEntryRow D))
  unfolding scanned
  get_account_entry_rows env id = do
    rows ←
        within (text "query account entry rows")
          (query env (λ db. ok (in_shown_order (joined id db.entries db.lines))))
    out ← lift (scan_rows rows)
    or_existing env id out

  -- `reads` is whether the repository has the query
  unfoldable pub get_account_entries : Env → Bool → ℕ → Exec (Session D) (List (AccountEntryRow D))
  get_account_entries env reads id =
      if not reads
      then raise (sentinel entries_query_not_supported)
      else get_account_entry_rows env id
