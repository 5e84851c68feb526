-- ===== src/Idempotency.antt =====
-- pkg/idempotency: a store of keys with a time to live, and what internal/transaction/service.go
-- puts into it. The Redis client is not part of the repository: each of its calls may fail, and a
-- key may have lapsed.
mod Tests
use payments_engine.Base.{
  ℕ, Bool, true, false, Option, none, some, Text, text, ◌==◌, text_eq, ◌≡◌, refl, if◌then◌else◌,
}
use payments_engine.Error.{Error, message, sentinel, key_not_found, Result, ok, err}
use payments_engine.Decimal.{Decimals}
use payments_engine.Transaction.Status.{TxStatus, Transaction}

-- idemTransactionPayload: a transfer as the JSON that is stored, its amount in text.
pub record Payload : Type 0 where
  pub id : ℕ
  pub idempotency_key : Text
  pub from_account_id : ℕ
  pub to_account_id : ℕ
  pub amount : Text
  pub currency : Text
  pub status : TxStatus
  pub description : Option Text
  pub rail : Option Text
  pub external_ref : Option Text
  pub failure_reason : Option Error
  pub journal_entry_id : Option ℕ
  pub created_at : ℕ
  pub updated_at : ℕ
  pub settled_at : Option ℕ
  pub expires_at : Option ℕ

-- A stored string: the marker, the JSON of a payload, or one that is neither.
pub data Stored : Type 0 where
  in_progress : Stored
  encoded : Payload → Stored
  unreadable : Text → Stored

-- What the store holds under each key, whether or not it has lapsed.
abbrev pub Keys : Type 0
Keys = Text → Option Stored

abbrev pub put_key : Text → Option Stored → Keys → Keys
put_key key v keys k = if k == key then v else keys k

module _ {D : Type 0} ⦃o : Decimals D⦄ where
  unfoldable pub encode_transaction : Transaction D → Stored
  encode_transaction tx = encoded (record {
    id = tx.id;
    idempotency_key = tx.idempotency_key;
    from_account_id = tx.from_account_id;
    to_account_id = tx.to_account_id;
    amount = o.string tx.amount;
    currency = tx.currency;
    status = tx.status;
    description = tx.description;
    rail = tx.rail;
    external_ref = tx.external_ref;
    failure_reason = tx.failure_reason;
    journal_entry_id = tx.journal_entry_id;
    created_at = tx.created_at;
    updated_at = tx.updated_at;
    settled_at = tx.settled_at;
    expires_at = tx.expires_at;
  })

  abbrev pub with_amount : Payload → Option D → Result (Transaction D)
  with_amount p none = err (message (text "can't convert to decimal"))
  with_amount p (some amount) = ok (record {
    id = p.id;
    idempotency_key = p.idempotency_key;
    from_account_id = p.from_account_id;
    to_account_id = p.to_account_id;
    amount = amount;
    currency = p.currency;
    status = p.status;
    description = p.description;
    metadata = none;
    rail = p.rail;
    external_ref = p.external_ref;
    failure_reason = p.failure_reason;
    journal_entry_id = p.journal_entry_id;
    created_at = p.created_at;
    updated_at = p.updated_at;
    settled_at = p.settled_at;
    expires_at = p.expires_at;
  })

  unfoldable pub decode_transaction : Stored → Result (Transaction D)
  decode_transaction in_progress = err (message (text "invalid character"))
  decode_transaction (unreadable _) = err (message (text "invalid character"))
  decode_transaction (encoded p) = with_amount p (o.from_string p.amount)

  -- What is stored is read back: the same transfer but for its metadata, which is not stored, with
  -- an amount of the same value.
  pub decode-encode_transaction :
      (tx : Transaction D)
      → (d : D) × (decode_transaction (encode_transaction tx)
          ≡ ok (record tx { amount = d; metadata = none }))
        × (o.units d ≡ o.units tx.amount)
  unfolding decode_transaction encode_transaction
  decode-encode_transaction tx = let (d, e, v) = o.from_string_string tx.amount in (d, rw e refl, v)
