-- ===== src/Api/Tests/Posts.antt =====
-- Transfers that are posted to the server, and the health of the clearing account after them.
use payments_engine.Base.{
  ℕ, [], ◌∷◌, Option, none, some, text, ◌≡◌, refl, sym, ap, subst, ◌∙◌, arith,
}
use payments_engine.Base.Int.{ℤ, pos, ◌+ℤ◌, ◌-ℤ◌}
use payments_engine.World.{
  World, on_pool, on_tx, begin_tx, commit, rollback, set_locked, clock, store_get, store_set,
  store_set_nx, store_del, deferred, log_event,
}
use payments_engine.Ledger.Balances.{OnScale}
use payments_engine.Decimal.Scaled.{scaled}
use payments_engine.Api.Routes.{serve, get_clearing_health}
use payments_engine.Api.Transfers.{CreateTransferRequest, create_transfer_handler}
use payments_engine.Ledger.Tests.{calm, clearing_row, chart-IsSound}
use payments_engine.Transfer.Tests.{world, five}
use payments_engine.Transfer.Prepare.{
  pending_transaction, prepare, load_clearing, create_or_find, check_parties, check_clearing,
}
use payments_engine.Transfer.Service.{
  transfer, run_created, run_claimed, run_unless_cached, settle_in_tx, post_clearing,
  post_settlement, or_fail, fail_tx,
}
use payments_engine.Exec.{◌>>=◌, pure, raise, lift, within, try}
use payments_engine.Money.{same_currency, cmp, less_than}
use payments_engine.Idempotency.{encode_transaction, decode_transaction}
use payments_engine.Ledger.Posting.{
  check_balanced, sum_lines, compute_net_deltas, net_deltas, check_sufficient_balances,
  validate_entry_header, collect_account_ids, add_account_ids,
}
use payments_engine.Ledger.Repository.{
  post_journal_entry_tx, insert_journal_entry_tx, load_and_lock_accounts, check_accounts,
  insert_entry_header, insert_entry_lines, apply_balance_updates,
}
use payments_engine.Store.{statement, query}
use payments_engine.Base.Strings.{trim_space, to_upper, trim_left}
use payments_engine.Transaction.Repository.{
  update_status, fail_transaction, get_transaction_by_id, get_transaction_by_idempotency_key,
  get_account_snapshot, get_account_by_code, create_transaction, find_by_code, find_by_key,
}
use payments_engine.Transfer.Claim.{try_return_cached, acquire_exclusive, store_result, unlock}
use payments_engine.Transfer.Request.{validate_transfer_request}
use payments_engine.Transfer.Trail.{
  emit_transfer_audit, load_snapshot, load_three_account_snapshots, log_audit, log_three,
}
use payments_engine.Api.Health.{IsBetweenOthers, post_transfer-healthy}
use payments_engine.Api.Reports.{health_code}
use payments_engine.Api.Once.{
  posted, post_transfer_again, MovedOrNot, post_transfer-HasMoved, Created, post_transfer-Created,
}
use payments_engine.Api.Tests.{five_body, plain, server}

-- a world in which the key has a row
abbrev pub used : World ℤ
used = record world { db = record world.db { transactions = pending_transaction five ∷ [] } }

key_used :
    find_by_key (trim_space (text " k1 ")) used.db.transactions ≡ some (pending_transaction five)
unfolding trim_space trim_left
key_used = refl

post_transfer_again_example :
    (posted plain calm server (text " k1 ") (some five_body) used).1.db ≡ used.db
post_transfer_again_example =
    post_transfer_again plain calm server (text " k1 ") (some five_body) used
      (pending_transaction five) key_used

abbrev amount_of : Option CreateTransferRequest → Option ℤ
amount_of none = none
amount_of (some given) = scaled.from_string (trim_space given.amount)

five_amount : amount_of (some five_body) ≡ some (pos 500000)
unfolding trim_space trim_left
five_amount = refl

exact_if : (d : ℤ) → some (pos 500000) ≡ some d → OnScale d
exact_if d e = subst (λ (x : Option ℤ). elim x [ none ↦ Unit | some y ↦ OnScale y ]) e refl

five_exact :
    (given : CreateTransferRequest) (d : ℤ)
    → some five_body ≡ some given
    → scaled.from_string (trim_space given.amount) ≡ some d
    → OnScale d
five_exact given d e l = exact_if d (sym five_amount ∙ ap amount_of e ∙ l)

post_transfer-HasMoved_example :
    MovedOrNot plain calm server
      (text "k1")
      (some five_body)
      world
      (posted plain calm server (text "k1") (some five_body) world).1.db
post_transfer-HasMoved_example =
    post_transfer-HasMoved plain calm server (text "k1") (some five_body) world chart-IsSound
      five_exact

-- the whole of a request, run
five_created : (posted plain calm server (text "k1") (some five_body) world).0.status ≡ 201
unfolding serve create_transfer_handler trim_left transfer pure raise lift within try ◌>>=◌ ◌+ℤ◌
    ◌-ℤ◌ validate_transfer_request try_return_cached acquire_exclusive store_result unlock prepare
    load_clearing create_or_find check_parties check_clearing run_created run_claimed
    run_unless_cached settle_in_tx post_clearing post_settlement or_fail fail_tx emit_transfer_audit
    load_snapshot load_three_account_snapshots log_audit log_three on_pool on_tx begin_tx commit
    rollback set_locked clock store_get store_set store_set_nx store_del deferred log_event
    encode_transaction decode_transaction post_journal_entry_tx check_balanced sum_lines
    insert_journal_entry_tx load_and_lock_accounts check_accounts query statement
    insert_entry_header insert_entry_lines apply_balance_updates compute_net_deltas net_deltas
    check_sufficient_balances validate_entry_header collect_account_ids add_account_ids
    update_status fail_transaction get_transaction_by_id get_transaction_by_idempotency_key
    get_account_snapshot get_account_by_code create_transaction same_currency cmp less_than
    trim_space to_upper
five_created = refl

post_transfer-Created_example :
    Created plain calm server
      (text "k1")
      (some five_body)
      world
      (posted plain calm server (text "k1") (some five_body) world).1
post_transfer-Created_example =
    post_transfer-Created plain calm server (text "k1") (some five_body) world refl refl
      five_created

same_number : {a b : ℕ} → some a ≡ some b → a ≡ b
same_number h = cc

apart : (n : ℕ) → some n ≡ some 13 → (n ≡ 13 → ⊥) → ⊥
apart n e h = h (same_number e)

clearing_found :
    find_by_code (health_code server.clearing_code_var) world.db.accounts ≡ some clearing_row
unfolding trim_space trim_left
clearing_found = refl

-- 13 is the clearing account
abbrev parties_of : Option CreateTransferRequest → Option ℕ × Option ℕ
parties_of none = (none, none)
parties_of (some given) = (
  plain.parse_uuid (trim_space given.from_account_id),
  plain.parse_uuid (trim_space given.to_account_id),
)

five_parties : parties_of (some five_body) ≡ (some 11, some 12)
unfolding trim_space trim_left
five_parties = refl

five_others : IsBetweenOthers plain 13 (some five_body)
five_others given e = (
  λ k.
      apart 11 (ap (λ (p : Option ℕ × Option ℕ). p.0) (sym five_parties ∙ ap parties_of e) ∙ k)
        (λ x. omega (arith, x)),
  λ k.
      apart 12 (ap (λ (p : Option ℕ × Option ℕ). p.1) (sym five_parties ∙ ap parties_of e) ∙ k)
        (λ x. omega (arith, x)),
)

post_transfer-healthy_example :
    (serve plain calm server get_clearing_health
      (posted plain calm server (text "k1") (some five_body) world).1).0.status
    ≡ (serve plain calm server get_clearing_health world).0.status
post_transfer-healthy_example =
    post_transfer-healthy plain calm server (text "k1") calm (some five_body) world clearing_row
      chart-IsSound five_exact clearing_found five_others (λ n. refl)
