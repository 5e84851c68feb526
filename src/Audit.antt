-- ===== src/Audit.antt =====
-- internal/audit: the events of the audit trail, and the payload that
-- internal/transaction/audit_payload.go builds for a transfer.
use payments_engine.Base.{ℕ, ltb, Option, none, some, Text, text_eq, if◌then◌else◌}
use payments_engine.Error.{Error}
use payments_engine.Account.{Account, AccountStatus}
use payments_engine.Transaction.Status.{Transaction}

pub data EventType : Type 0 where
  account_created account_frozen account_unfrozen account_closed : EventType
  transfer_initiated hold_placed journal_entry_posted transfer_settled transfer_failed : EventType

pub data EntityType : Type 0 where
  account transaction : EntityType

pub data Phase : Type 0 where
  clearing settlement : Phase

pub record JournalAuditPart : Type 0 where
  pub entry_id : ℕ
  pub phase : Phase
  pub description : Text

pub data Role : Type 0 where
  from to : Role

-- The JSON object as a record; a key that is left out is `none`.
pub record AuditPayload (D : Type 0) : Type 0 where
  pub schema_version : ℕ
  pub event : EventType
  pub trace_id : Text
  pub transaction : Transaction D
  pub from_account : Account D
  pub to_account : Account D
  pub clearing_account : Account D
  pub journal : Option JournalAuditPart
  pub failure : Option (Text × Error)
  pub duration_ms : Option ℕ
  pub audit_scope : Option EntityType
  pub account_role : Option Role

-- What an event carries: a transfer's payload, or what the account service logs.
pub data EventPayload (D : Type 0) : Type 0 where
  transfer_payload : AuditPayload D → EventPayload D
  account_opened : Account D → EventPayload D
  status_changed : AccountStatus → AccountStatus → EventPayload D

pub record AuditEvent (D : Type 0) : Type 0 where
  pub id : ℕ
  pub entity_type : EntityType
  pub entity_id : ℕ
  pub event_type : EventType
  pub actor : Text
  pub payload : EventPayload D
  pub occurred_at : ℕ

module _ {D : Type 0} where
  abbrev pub build_transfer_audit_payload :
      Text
      → EventType
      → Transaction D
      → Account D
      → Account D
      → Account D
      → Option JournalAuditPart
      → Option (Text × Error)
      → ℕ
      → AuditPayload D
  build_transfer_audit_payload trace_id event tx from_acc to_acc clearing_acc journal failure
        duration =
      record {
        schema_version = 1;
        event = event;
        trace_id = trace_id;
        transaction = tx;
        from_account = from_acc;
        to_account = to_acc;
        clearing_account = clearing_acc;
        journal = journal;
        failure = failure;
        duration_ms = if ltb 0 duration then some duration else none;
        audit_scope = none;
        account_role = none;
      }

  abbrev pub clone_payload_with_audit_meta :
      AuditPayload D → EntityType → Option Role → AuditPayload D
  clone_payload_with_audit_meta base scope role = record base {
    audit_scope = some scope;
    account_role = role;
  }
