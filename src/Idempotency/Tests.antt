-- ===== src/Idempotency/Tests.antt =====
-- A transfer that is stored and read back.
use payments_engine.Base.{◌≡◌, none, some, text}
use payments_engine.Base.Int.{ℤ, pos}
use payments_engine.Error.{ok}
use payments_engine.Decimal.Scaled.{scaled}
use payments_engine.Idempotency.{encode_transaction, decode_transaction, decode-encode_transaction}
use payments_engine.Transaction.Status.{Transaction}
use payments_engine.Transaction.Status.Tests.{fresh_tx}

abbrev annotated_tx : Transaction ℤ
annotated_tx = record fresh_tx { metadata = some (text "note") }

decode-encode_transaction_example :
    (d : ℤ) × (decode_transaction (encode_transaction annotated_tx)
      ≡ ok (record annotated_tx { amount = d; metadata = none }))
    × (d ≡ pos 500000)
decode-encode_transaction_example = decode-encode_transaction annotated_tx
