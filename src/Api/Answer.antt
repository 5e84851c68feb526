-- ===== src/Api/Answer.antt =====
-- What a handler answers: the records of api/dto, writeJSON and setRequestError of
-- api/handler/account_handler.go, and how ids, times and amounts are written.
use payments_engine.Base.{ℕ, Bool, List, Option, none, some, Text, ◌≡◌}
use payments_engine.Error.{Error, Result}
use payments_engine.Decimal.{Decimals}
use payments_engine.Exec.{Exec}
use payments_engine.Account.{Account, AccountType, AccountStatus}
use payments_engine.Audit.{AuditEvent, EntityType, EventType, EventPayload}
use payments_engine.Ledger.Entry.{EntryStatus, LineType}
use payments_engine.Ledger.Reports.{AccountEntryRow}
use payments_engine.Ledger.TrialBalance.{TrialBalanceLine}
use payments_engine.Transaction.Status.{Transaction, TxStatus}
use payments_engine.World.{World}

-- The notations of google/uuid and of Go's package time: what is written is read back.
pub record Formats : Type 0 where
  pub parse_uuid : Text → Option ℕ
  pub show_uuid : ℕ → Text
  pub parse_rfc3339 : Text → Option ℕ
  pub parse_rfc3339_nano : Text → Option ℕ
  pub show_time : ℕ → Text
  -- without the fraction of the second
  pub show_seconds : ℕ → Text
  pub parse_uuid-show : (id : ℕ) → parse_uuid (show_uuid id) ≡ some id
  pub parse_rfc3339_nano-show : (t : ℕ) → parse_rfc3339_nano (show_time t) ≡ some t

-- a text of the code, or the message of an error
pub data Message : Type 0 where
  said : Text → Message
  message_of : Error → Message

pub record AccountResponse : Type 0 where
  pub id : Text
  pub name : Text
  pub type : AccountType
  pub currency : Text
  pub balance : Text
  pub status : AccountStatus
  pub version : ℕ

pub record AccountEntryResponse : Type 0 where
  pub entry_id : Text
  pub posted_at : Text
  pub entry_description : Text
  pub reference : Text
  pub entry_status : EntryStatus
  pub line_id : Text
  pub line_type : LineType
  pub amount : Text
  pub line_description : Text
  pub sequence : ℕ

pub record TransactionResponse : Type 0 where
  pub id : Text
  pub idempotency_key : Text
  pub from_account_id : Text
  pub to_account_id : Text
  pub amount : Text
  pub currency : Text
  pub status : TxStatus
  pub description : Option Text
  pub rail : Option Text
  pub external_ref : Option Text
  pub failure_reason : Option Error
  pub journal_entry_id : Option Text
  pub created_at : Text
  pub updated_at : Text
  pub settled_at : Option Text
  pub expires_at : Option Text

pub record TrialBalanceRow : Type 0 where
  pub account_id : Text
  pub code : Text
  pub name : Text
  pub total_debits : Text
  pub total_credits : Text
  pub net : Text

pub record TrialBalanceResponse : Type 0 where
  pub currency : Text
  pub rows : List TrialBalanceRow
  pub balanced : Bool
  pub net_total : Text

pub record AuditEventResponse (D : Type 0) : Type 0 where
  pub id : ℕ
  pub entity_type : EntityType
  pub entity_id : Text
  pub event_type : EventType
  pub actor : Text
  pub payload : EventPayload D
  pub occurred_at : Text

pub data HealthStatus : Type 0 where
  healthy alert : HealthStatus

pub record ClearingHealthResponse : Type 0 where
  pub status : HealthStatus
  pub clearing_account_code : Text
  pub currency : Text
  pub balance : Text
  pub reason : Text

pub data Body (D : Type 0) : Type 0 where
  error_body : Message → Body D
  account_body : AccountResponse → Body D
  entries_body : List AccountEntryResponse → Body D
  audit_body : List (AuditEventResponse D) → Body D
  transaction_body : TransactionResponse → Body D
  trial_body : TrialBalanceResponse → Body D
  health_body : ClearingHealthResponse → Body D

-- The status and the body that are written, and the error code that was left for the request log.
pub record Answer (D : Type 0) : Type 0 where
  pub status : ℕ
  pub body : Body D
  pub logged : Option (Text × Message)

abbrev pub Handler : Type 0 → Type 0
Handler D = World D → Answer D × World D

abbrev pub shown : (ℕ → Text) → Option ℕ → Option Text
shown show none = none
shown show (some n) = some (show n)

module _ {D : Type 0} where
  -- writeJSON
  abbrev pub write : ℕ → Body D → Answer D
  write status body = record { status = status; body = body; logged = none }

  -- setRequestError and writeJSON
  abbrev pub failing : ℕ → Text → Message → Body D → Answer D
  failing status code detail body = record {
    status = status;
    body = body;
    logged = some (code, detail);
  }

  -- with an ErrorResponse
  abbrev pub refuse : ℕ → Text → Message → Message → Answer D
  refuse status code detail shown = failing status code detail (error_body shown)

  abbrev pub reply : Answer D → Handler D
  reply a w = (a, w)

  -- a call of a service, and what the handler does with its result
  abbrev pub calling : {A : Type 0} → Exec (World D) A → (Result A → Handler D) → Handler D
  calling m f w = f (m w).0 (m w).1

module _ {D : Type 0} ⦃o : Decimals D⦄ (form : Formats) where
  abbrev pub account_response : Account D → AccountResponse
  account_response acc = record {
    id = form.show_uuid acc.id;
    name = acc.name;
    type = acc.type;
    currency = acc.currency;
    balance = o.string_fixed acc.balance;
    status = acc.status;
    version = acc.version;
  }

  abbrev pub entry_response : AccountEntryRow D → AccountEntryResponse
  entry_response row = record {
    entry_id = form.show_uuid row.entry_id;
    posted_at = form.show_seconds row.posted_at;
    entry_description = row.entry_description;
    reference = row.reference;
    entry_status = row.entry_status;
    line_id = form.show_uuid row.line_id;
    line_type = row.line_type;
    amount = o.string_fixed row.amount;
    line_description = row.line_description;
    sequence = row.sequence;
  }

  -- NewTransactionResponse
  abbrev pub transaction_response : Transaction D → TransactionResponse
  transaction_response tx = record {
    id = form.show_uuid tx.id;
    idempotency_key = tx.idempotency_key;
    from_account_id = form.show_uuid tx.from_account_id;
    to_account_id = form.show_uuid tx.to_account_id;
    amount = o.string_fixed tx.amount;
    currency = tx.currency;
    status = tx.status;
    description = tx.description;
    rail = tx.rail;
    external_ref = tx.external_ref;
    failure_reason = tx.failure_reason;
    journal_entry_id = shown form.show_uuid tx.journal_entry_id;
    created_at = form.show_time tx.created_at;
    updated_at = form.show_time tx.updated_at;
    settled_at = shown form.show_time tx.settled_at;
    expires_at = shown form.show_time tx.expires_at;
  }

  abbrev pub trial_row : TrialBalanceLine D → TrialBalanceRow
  trial_row line = record {
    account_id = form.show_uuid line.account_id;
    code = line.code;
    name = line.name;
    total_debits = o.string_fixed line.total_debits;
    total_credits = o.string_fixed line.total_credits;
    net = o.string_fixed line.net;
  }

  abbrev pub audit_response : AuditEvent D → AuditEventResponse D
  audit_response e = record {
    id = e.id;
    entity_type = e.entity_type;
    entity_id = form.show_uuid e.entity_id;
    event_type = e.event_type;
    actor = e.actor;
    payload = e.payload;
    occurred_at = form.show_time e.occurred_at;
  }
