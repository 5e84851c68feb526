-- ===== src/Transaction/Status/Tests.antt =====
-- Transfers on which the laws of the states are tried.
use payments_engine.Base.{◌≡◌, ◌↔◌, none, text}
use payments_engine.Base.Int.{ℤ, pos}
use payments_engine.Error.{ok}
use payments_engine.Decimal.Scaled.{scaled}
use payments_engine.Transaction.Status.{pending, processing, Transaction, transition_to}
use payments_engine.Transaction.Status.Laws.{◌⟶◌, transition_to-⟶}

abbrev pub fresh_tx : Transaction ℤ
fresh_tx = record {
  id = 7;
  idempotency_key = text "k";
  from_account_id = 1;
  to_account_id = 2;
  amount = pos 500000;
  currency = text "GHS";
  status = pending;
  description = none;
  metadata = none;
  rail = none;
  external_ref = none;
  failure_reason = none;
  journal_entry_id = none;
  created_at = 1;
  updated_at = 1;
  settled_at = none;
  expires_at = none;
}

abbrev working_tx : Transaction ℤ
working_tx = record fresh_tx { status = processing; updated_at = 2 }

transition_to-⟶_example : (transition_to 2 processing fresh_tx ≡ ok working_tx) ↔ (
    (fresh_tx.status ⟶ processing)
    × (working_tx ≡ record fresh_tx { status = processing; updated_at = 2 }))
transition_to-⟶_example = transition_to-⟶ 2 processing fresh_tx working_tx
