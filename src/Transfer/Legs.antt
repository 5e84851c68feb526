-- ===== src/Transfer/Legs.antt =====
-- The two journal entries of a transfer, and Go's zero transaction.
use payments_engine.Base.{ℕ, none, [], ◌∷◌, Text, text, text_eq}
use payments_engine.Error.{Result, ok, err}
use payments_engine.Decimal.{Decimals}
use payments_engine.Ledger.Entry.{JournalEntry, JournalEntryLine, LineType, debit, credit, unset}
use payments_engine.Transaction.Status.{Transaction, TxStatus}
use payments_engine.Transfer.Request.{TransferRequest, Config}

module _ {D : Type 0} where
  abbrev pub leg : ℕ → LineType → D → ℕ → JournalEntryLine D
  leg account_id type amount sequence = record {
    id = 0;
    entry_id = 0;
    account_id = account_id;
    type = type;
    amount = amount;
    description = [];
    sequence = sequence;
  }

  -- an entry of two lines: `amount` out of one account and into another
  abbrev pub two_legs : Config → ℕ → Text → Text → ℕ → ℕ → D → JournalEntry D
  two_legs cfg transaction_id description currency debited credited amount = record {
    id = 0;
    transaction_id = transaction_id;
    reference = [];
    description = description;
    currency = currency;
    status = unset;
    lines = leg debited debit amount 1 ∷ leg credited credit amount 2 ∷ [];
    posted_at = none;
    posted_by = cfg.posted_by;
  }

  abbrev pub clearing_entry : Config → TransferRequest D → ℕ → ℕ → JournalEntry D
  clearing_entry cfg req tx_id clearing_id =
      two_legs cfg tx_id (text "transfer clearing") req.currency req.from_account_id clearing_id
        req.amount

  abbrev pub settlement_entry : Config → TransferRequest D → ℕ → ℕ → JournalEntry D
  settlement_entry cfg req tx_id clearing_id =
      two_legs cfg tx_id (text "transfer settlement") req.currency clearing_id req.to_account_id
        req.amount

module _ {D : Type 0} ⦃o : Decimals D⦄ where
  -- Transaction{}
  abbrev pub zero_transaction : Transaction D
  zero_transaction = record {
    id = 0;
    idempotency_key = [];
    from_account_id = 0;
    to_account_id = 0;
    amount = o.zero_value;
    currency = [];
    status = TxStatus.other [];
    description = none;
    metadata = none;
    rail = none;
    external_ref = none;
    failure_reason = none;
    journal_entry_id = none;
    created_at = 0;
    updated_at = 0;
    settled_at = none;
    expires_at = none;
  }

  abbrev pub or_zero : Result (Transaction D) → Transaction D
  or_zero (ok tx) = tx
  or_zero (err _) = zero_transaction
