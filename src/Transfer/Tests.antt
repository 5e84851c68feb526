-- ===== src/Transfer/Tests.antt =====
-- Transfers on the chart of accounts of the ledger's tests.
use payments_engine.Base.{true, false, ◌≡◌, refl, none, [], ◌∷◌, text, ◌⊎◌}
use payments_engine.Base.Int.{ℤ, pos}
use payments_engine.Decimal.Scaled.{scaled}
use payments_engine.Ledger.Tests.{calm, chart, chart-IsSound}
use payments_engine.Transfer.Atomic.{NoneOrBoth, transfer-NoneOrBoth}
use payments_engine.Transfer.Moves.{ledger_of}
use payments_engine.Transfer.Prepare.{pending_transaction}
use payments_engine.Transfer.Replay.{transfer_again_unchanged}
use payments_engine.Transfer.Request.{TransferRequest, Config}
use payments_engine.Transfer.Service.{transfer}
use payments_engine.Transfer.Sound.{HasMoved, transfer-HasMoved}
use payments_engine.Exec.{◌>>=◌, pure, raise, lift, within, try}
use payments_engine.Money.{same_currency, cmp, less_than}
use payments_engine.Error.{ok}
use payments_engine.Idempotency.{encode_transaction, decode_transaction}
use payments_engine.Ledger.Posting.{
  check_balanced, sum_lines, compute_net_deltas, net_deltas, check_sufficient_balances,
  validate_entry_header, collect_account_ids, add_account_ids,
}
use payments_engine.Ledger.Repository.{
  post_journal_entry_tx, insert_journal_entry_tx, load_and_lock_accounts, check_accounts,
  insert_entry_header, insert_entry_lines, apply_balance_updates,
}
use payments_engine.Store.{statement, query}
use payments_engine.Transaction.Status.{Transaction, settled}
use payments_engine.Base.Strings.{trim_space, to_upper}
use payments_engine.Base.{some}
use payments_engine.Transfer.Moves.{IsTransferred}
use payments_engine.Transaction.Repository.{
  update_status, fail_transaction, get_transaction_by_id, get_transaction_by_idempotency_key,
  get_account_snapshot, get_account_by_code, create_transaction,
}
use payments_engine.Transfer.Claim.{try_return_cached, acquire_exclusive, store_result, unlock}
use payments_engine.Transfer.Fresh.{transfer-IsTransferred}
use payments_engine.Transfer.Prepare.{
  prepare, load_clearing, create_or_find, check_parties, check_clearing,
}
use payments_engine.Transfer.Request.{validate_transfer_request}
use payments_engine.Transfer.Service.{
  run_created, run_claimed, run_unless_cached, settle_in_tx, post_clearing, post_settlement,
  or_fail, fail_tx,
}
use payments_engine.Transfer.Trail.{
  emit_transfer_audit, load_snapshot, load_three_account_snapshots, log_audit, log_three,
}
use payments_engine.World.{
  on_pool, on_tx, begin_tx, commit, rollback, set_locked, clock, store_get, store_set, store_set_nx,
  store_del, deferred, log_event,
}
use payments_engine.Base.Int.{◌+ℤ◌, ◌-ℤ◌}
use payments_engine.World.{World}

abbrev pub settings : Config
settings = record {
  clearing_code = text "GL_LIAB_CLEARING";
  posted_by = text "system";
  has_store = true;
  has_ledger = true;
  has_audit = true;
}

abbrev pub five : TransferRequest ℤ
five = record {
  idempotency_key = text "k1";
  from_account_id = 11;
  to_account_id = 12;
  amount = pos 500000;
  currency = text "GHS";
  rail = none;
  description = none;
}

abbrev pub world : World ℤ
world = record {
  db = record { accounts = chart; entries = []; lines = []; transactions = [] };
  calls = 0;
  open_tx = none;
  keys = λ k. none;
  audit = [];
  idem_locked = false;
}

-- a world in which the request has a row
abbrev world_with_row : World ℤ
world_with_row = record world {
  db = record world.db { transactions = pending_transaction five ∷ [] };
}

transfer-NoneOrBoth_example :
    NoneOrBoth calm settings five
      (ledger_of world.db)
      (ledger_of (transfer calm settings (text "t") five world).1.db)
transfer-NoneOrBoth_example = transfer-NoneOrBoth calm settings (text "t") five world

transfer-HasMoved_example :
    ((transfer calm settings (text "t") five world).1.db.accounts ≡ chart)
    ⊎ HasMoved five chart (transfer calm settings (text "t") five world).1.db.accounts
transfer-HasMoved_example = transfer-HasMoved calm settings (text "t") five world chart-IsSound refl

transfer_again_unchanged_example :
    (transfer calm settings (text "t") five world_with_row).1.db ≡ world_with_row.db
transfer_again_unchanged_example =
    transfer_again_unchanged calm settings (text "t") five (pending_transaction five) world_with_row
      refl

abbrev world_after : World ℤ
world_after = (transfer calm settings (text "t") five world).1

abbrev settled_five : Transaction ℤ
settled_five = record (pending_transaction five) {
  id = 5;
  status = settled;
  created_at = 100;
  updated_at = 100;
  settled_at = some 100;
}

-- the whole of a transfer, run
five_settles : transfer calm settings (text "t") five world ≡ (ok settled_five, world_after)
unfolding transfer pure raise lift within try ◌>>=◌ ◌+ℤ◌ ◌-ℤ◌ validate_transfer_request
    try_return_cached acquire_exclusive store_result unlock prepare load_clearing create_or_find
    check_parties check_clearing run_created run_claimed run_unless_cached settle_in_tx
    post_clearing post_settlement or_fail fail_tx emit_transfer_audit load_snapshot
    load_three_account_snapshots log_audit log_three on_pool on_tx begin_tx commit rollback
    set_locked clock store_get store_set store_set_nx store_del deferred log_event
    encode_transaction decode_transaction post_journal_entry_tx check_balanced sum_lines
    insert_journal_entry_tx load_and_lock_accounts check_accounts query statement
    insert_entry_header insert_entry_lines apply_balance_updates compute_net_deltas net_deltas
    check_sufficient_balances validate_entry_header collect_account_ids add_account_ids
    update_status fail_transaction get_transaction_by_id get_transaction_by_idempotency_key
    get_account_snapshot get_account_by_code create_transaction same_currency cmp less_than
    trim_space to_upper
five_settles = refl

transfer-IsTransferred_example :
    IsTransferred calm settings five (ledger_of world.db) (ledger_of world_after.db)
transfer-IsTransferred_example =
    transfer-IsTransferred calm settings (text "t") five world world_after settled_five refl refl
      five_settles
