-- ===== src/Ledger/Repository.antt =====
-- internal/ledger/repository.go: posting an entry inside a transaction, statement by statement, and
-- the entry points of internal/ledger/ledger.go that check it first.
use payments_engine.Base.{
  ℕ, suc, Bool, leb, true, false, not, ◌||◌, ◌&&◌, List, [], ◌∷◌, Option, none, some, Text, text,
  ◌==◌, nat_eq, text_eq, contains, select, length, if◌then◌else◌,
}
use payments_engine.Error.{
  sentinel, message, driver, ledger_account_not_found, account_not_active, ledger_currency_mismatch,
  Result, ok, err,
}
use payments_engine.Decimal.{Decimals}
use payments_engine.Exec.{Exec, pure, raise, lift, within, ◌>>=◌, ◌>>◌}
use payments_engine.Account.{Account, AccountType, AccountStatus, active, status_beq}
use payments_engine.Ledger.Entry.{
  EntryStatus, posted, reversed, unset, JournalEntry, JournalEntryLine, debit, credit, invalid,
}
use payments_engine.Ledger.Posting.{
  DeltaMap, check_balanced, compute_net_deltas, check_sufficient_balances, validate_entry_header,
  collect_account_ids,
}
use payments_engine.Transaction.Status.{Transaction}
use payments_engine.Store.{Env, Session, statement, query}
use payments_engine.Store.Tables.{Db, EntryRow}

abbrev pub Action : Type 0 → Type 0 → Type 0
Action D A = Exec (Session D) A

abbrev pub null_if_nil : ℕ → Option ℕ
null_if_nil id = if id == 0 then none else some id

abbrev pub default_status : EntryStatus → EntryStatus
default_status unset = posted
default_status posted = posted
default_status reversed = reversed

abbrev pub default_time : Option ℕ → ℕ → ℕ
default_time none now = now
default_time (some t) now = t

abbrev pub has_entry : ℕ → List EntryRow → Bool
has_entry id [] = false
has_entry id (e ∷ rest) = id == e.id || has_entry id rest

module _ {D : Type 0} where
  -- the row of an account, where the code keeps one map for each column
  abbrev pub find_account : ℕ → List (Account D) → Option (Account D)
  find_account id [] = none
  find_account id (a ∷ rest) = if id == a.id then some a else find_account id rest

  abbrev pub type_in : List (Account D) → ℕ → AccountType
  type_in rows id = elim (find_account id rows) [ none ↦ AccountType.other [] | some a ↦ a.type ]

  abbrev pub status_in : List (Account D) → ℕ → AccountStatus
  status_in rows id = elim (find_account id rows) [
    | none ↦ AccountStatus.other []
    | some a ↦ a.status
  ]

  abbrev pub currency_in : List (Account D) → ℕ → Text
  currency_in rows id = elim (find_account id rows) [ none ↦ [] | some a ↦ a.currency ]

  -- the loop over the ids after the rows have been read
  unfoldable pub check_accounts : List (Account D) → Text → List ℕ → Result (Unit {0})
  check_accounts rows expected [] = ok tt
  check_accounts rows expected (id ∷ ids) =
      if not (status_beq (status_in rows id) active)
      then err (sentinel account_not_active)
      else if not (currency_in rows id == expected)
      then err (sentinel ledger_currency_mismatch)
      else check_accounts rows expected ids

  unfoldable pub load_and_lock_accounts : Env → List ℕ → Text → Action D (List (Account D))
  load_and_lock_accounts env [] expected = raise (message (text "no accounts to load"))
  load_and_lock_accounts env (i ∷ is) expected = do
    let ids = i ∷ is
    rows ←
        within (text "select accounts")
          (query env (λ db. ok (select (λ a. contains a.id ids) db.accounts)))
    lift
        (if not (length rows == length ids) then err (sentinel ledger_account_not_found) else ok tt)
    lift (check_accounts rows expected ids)
    pure rows

  abbrev pub entry_row : Env → ℕ → JournalEntry D → EntryRow
  entry_row env n entry = record {
    id = env.fresh n;
    transaction_id = null_if_nil entry.transaction_id;
    reference = entry.reference;
    description = entry.description;
    currency = entry.currency;
    status = default_status entry.status;
    posted_at = default_time entry.posted_at (env.now n);
    posted_by = entry.posted_by;
  }

  -- whether a row of `transactions` has the id that a column refers to, if it refers to one
  abbrev pub refers : Option ℕ → List (Transaction D) → Bool
  refers none rows = true
  refers (some id) [] = false
  refers (some id) (tx ∷ rest) = id == tx.id || refers (some id) rest

  -- the currency's CHAR(3), the primary key of journal_entries and its reference to transactions
  abbrev pub header_fits : (ℕ → ℕ) → ℕ → JournalEntry D → Db D → Bool
  header_fits fresh n entry db =
      leb (length entry.currency) 3
      && not (has_entry (fresh n) db.entries)
      && refers (null_if_nil entry.transaction_id) db.transactions

  -- INSERT INTO journal_entries
  abbrev pub store_header : Env → JournalEntry D → ℕ → Db D → Result ℕ × Db D
  store_header env entry n db =
      if header_fits env.fresh n entry db
      then (ok (env.fresh n), record db { entries = entry_row env n entry ∷ db.entries })
      else (err (driver n), db)

  unfoldable pub insert_entry_header : Env → JournalEntry D → Action D ℕ
  unfolding statement
  insert_entry_header env entry =
      within (text "insert journal entry") (statement env (store_header env entry))

module _ {D : Type 0} ⦃o : Decimals D⦄ where
  abbrev pub balance_in : List (Account D) → ℕ → D
  balance_in rows id = elim (find_account id rows) [ none ↦ o.zero_value | some a ↦ a.balance ]

  -- CHECK (amount > 0) on the stored value, and the range of a SMALLINT
  abbrev pub line_fits : JournalEntryLine D → Bool
  line_fits line = o.is_positive (o.column line.amount) && leb line.sequence 32767

  -- INSERT INTO journal_entry_lines, with the table's constraints on the values of the row
  abbrev pub store_line : Env → ℕ → JournalEntryLine D → ℕ → Db D → Result (Unit {0}) × Db D
  store_line env entry_id line n db =
      let stored = record line {
        id = env.fresh n;
        entry_id = entry_id;
        amount = o.column line.amount;
      } in
      if line_fits line
      then (ok tt, record db { lines = stored ∷ db.lines })
      else (err (driver n), db)

  abbrev pub check_line : JournalEntryLine D → Result (Unit {0})
  check_line line =
      if not (o.greater_than line.amount o.zero_value)
      then err (message (text "line amount must be > 0"))
      else elim line.type [
        | debit ↦ ok tt
        | credit ↦ ok tt
        | invalid _ ↦ err (message (text "invalid line type"))
      ]

  unfoldable pub insert_entry_lines : Env → ℕ → List (JournalEntryLine D) → Action D (Unit {0})
  unfolding statement
  insert_entry_lines env entry_id [] = pure tt
  insert_entry_lines env entry_id (line ∷ rest) = do
    lift (check_line line)
    within (text "insert journal_entry_lines") (statement env (store_line env entry_id line))
    insert_entry_lines env entry_id rest

  -- SET balance = balance + $1, version = version + 1 WHERE id = $2
  abbrev pub shift : ℕ → D → Account D → Account D
  shift id delta a =
      if a.id == id
      then record a { balance = o.column (o.add a.balance delta); version = suc a.version }
      else a

  abbrev pub shift_all : ℕ → D → List (Account D) → List (Account D)
  shift_all id delta [] = []
  shift_all id delta (a ∷ rest) = shift id delta a ∷ shift_all id delta rest

  abbrev pub store_shift : ℕ → D → ℕ → Db D → Result (Unit {0}) × Db D
  store_shift id delta n db = (ok tt, record db { accounts = shift_all id delta db.accounts })

  unfoldable pub apply_balance_updates : Env → DeltaMap D → Action D (Unit {0})
  unfolding statement
  apply_balance_updates env [] = pure tt
  apply_balance_updates env ((id, delta) ∷ rest) = do
    within (text "update balance") (statement env (store_shift id delta))
    apply_balance_updates env rest

  unfoldable pub insert_journal_entry_tx : Env → JournalEntry D → Action D ℕ
  insert_journal_entry_tx env entry = do
    lift (validate_entry_header entry)
    rows ← load_and_lock_accounts env (collect_account_ids entry) entry.currency
    let deltas = compute_net_deltas entry.lines (type_in rows)
    lift (check_sufficient_balances (balance_in rows) deltas)
    entry_id ← insert_entry_header env entry
    insert_entry_lines env entry_id entry.lines
    apply_balance_updates env deltas
    pure entry_id

  unfoldable pub post_journal_entry_tx : Env → JournalEntry D → Action D ℕ
  unfolding insert_journal_entry_tx
  post_journal_entry_tx env entry = do
    lift (check_balanced entry)
    insert_journal_entry_tx env entry
