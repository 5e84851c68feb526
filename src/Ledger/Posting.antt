-- ===== src/Ledger/Posting.antt =====
-- internal/ledger/ledger.go: the double-entry check, and the pure steps of
-- internal/ledger/repository.go that compute what an entry does to the balances. A Go map from
-- account ids is an association list in the order in which the keys were first written.
use payments_engine.Base.{
  ℕ, Bool, false, not, ◌||◌, List, [], ◌∷◌, text, ◌==◌, nat_eq, text_eq, if◌then◌else◌,
}
use payments_engine.Error.{
  sentinel, message, wrap, unbalanced_entry, ledger_insufficient_funds, Result, ok, err,
}
use payments_engine.Decimal.{Decimals}
use payments_engine.Account.{AccountType, asset, liability, equity, income, expense}
use payments_engine.Ledger.Entry.{JournalEntry, JournalEntryLine, LineType, debit, credit, invalid}

-- the keys of a set, in the order in which they were first added
abbrev pub add_id : ℕ → List ℕ → List ℕ
add_id id [] = id ∷ []
add_id id (k ∷ ks) = if id == k then k ∷ ks else k ∷ add_id id ks

abbrev pub DeltaMap : Type 0 → Type 0
DeltaMap D = List (ℕ × D)

module _ {D : Type 0} ⦃o : Decimals D⦄ where
  -- the loop of PostJournalEntry over the running totals of debits and credits
  unfoldable pub sum_lines : List (JournalEntryLine D) → D → D → Result (D × D)
  sum_lines [] debits credits = ok (debits, credits)
  sum_lines (line ∷ rest) debits credits = elim line.type [
    | debit ↦ sum_lines rest (o.add debits line.amount) credits
    | credit ↦ sum_lines rest debits (o.add credits line.amount)
    | invalid _ ↦ err (message (text "invalid line type"))
  ]

  abbrev pub require_equal : Result (D × D) → Result (Unit {0})
  require_equal (err e) = err e
  require_equal (ok (debits, credits)) =
      if not (o.equal debits credits) then err (sentinel unbalanced_entry) else ok tt

  unfoldable pub check_balanced : JournalEntry D → Result (Unit {0})
  unfolding sum_lines
  check_balanced entry = require_equal (sum_lines entry.lines o.zero_value o.zero_value)

  -- `netDelta[id]`, with Go's zero value for a key that is missing.
  abbrev pub delta_at : ℕ → DeltaMap D → D
  delta_at id [] = o.zero_value
  delta_at id ((k, d) ∷ m) = if id == k then d else delta_at id m

  abbrev pub has_key : ℕ → DeltaMap D → Bool
  has_key id [] = false
  has_key id ((k, d) ∷ m) = (id == k) || has_key id m

  abbrev pub put_delta : ℕ → D → DeltaMap D → DeltaMap D
  put_delta id v [] = (id, v) ∷ []
  put_delta id v ((k, d) ∷ m) = if id == k then (k, v) ∷ m else (k, d) ∷ put_delta id v m

  -- How a line moves the balance of an account of this class.
  abbrev pub line_delta : AccountType → LineType → D → D
  line_delta asset debit amount = amount
  line_delta expense debit amount = amount
  line_delta _ debit amount = o.neg amount
  line_delta liability credit amount = amount
  line_delta equity credit amount = amount
  line_delta income credit amount = amount
  line_delta _ credit amount = o.neg amount
  line_delta _ (invalid _) amount = o.zero_value

  unfoldable pub net_deltas :
      (ℕ → AccountType) → List (JournalEntryLine D) → DeltaMap D → DeltaMap D
  net_deltas type_of [] m = m
  net_deltas type_of (line ∷ rest) m =
      let delta = line_delta (type_of line.account_id) line.type line.amount in
      net_deltas type_of rest
        (put_delta line.account_id (o.add (delta_at line.account_id m) delta) m)

  unfoldable pub compute_net_deltas : List (JournalEntryLine D) → (ℕ → AccountType) → DeltaMap D
  unfolding net_deltas
  compute_net_deltas lines type_of = net_deltas type_of lines []

  -- the loop over `netDelta`; `balance_of` is the map of the balances that were read
  unfoldable pub check_sufficient_balances : (ℕ → D) → DeltaMap D → Result (Unit {0})
  check_sufficient_balances balance_of [] = ok tt
  check_sufficient_balances balance_of ((id, delta) ∷ rest) =
      if o.less_than (o.add (balance_of id) delta) o.zero_value
      then err (wrap (text "account") (sentinel ledger_insufficient_funds))
      else check_sufficient_balances balance_of rest

module _ {D : Type 0} where
  unfoldable pub validate_entry_header : JournalEntry D → Result (Unit {0})
  validate_entry_header entry =
      if entry.description == []
      then err (message (text "description is required"))
      else if entry.currency == []
      then err (message (text "currency is required"))
      else if entry.posted_by == []
      then err (message (text "posted_by is required"))
      else elim entry.lines [
        | [] ↦ err (message (text "journal entry must have at least one line"))
        | _ ∷ _ ↦ ok tt
      ]

  unfoldable pub add_account_ids : List (JournalEntryLine D) → List ℕ → List ℕ
  add_account_ids [] ids = ids
  add_account_ids (line ∷ rest) ids = add_account_ids rest (add_id line.account_id ids)

  unfoldable pub collect_account_ids : JournalEntry D → List ℕ
  unfolding add_account_ids
  collect_account_ids entry = add_account_ids entry.lines []
