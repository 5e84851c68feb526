-- ===== src/Ledger/Tests.antt =====
-- A small chart of accounts and an entry, on which the laws of the ledger are tried.
use payments_engine.Base.{ℕ, true, false, ◌≡◌, refl, none, List, [], ◌∷◌, text, arith}
use payments_engine.Base.Int.{ℤ, pos, ◌+ℤ◌, ◌-ℤ◌}
use payments_engine.Exec.{◌>>=◌, pure, raise, lift, within, try}
use payments_engine.Error.{ok}
use payments_engine.Decimal.Scaled.{scaled}
use payments_engine.Account.{Account, AccountType, asset, liability, active}
use payments_engine.Ledger.Entry.{JournalEntry, JournalEntryLine, LineType, debit, credit, unset}
use payments_engine.Ledger.Posting.{
  delta_at, compute_net_deltas, check_balanced, sum_lines, net_deltas, check_sufficient_balances,
  validate_entry_header, collect_account_ids, add_account_ids,
}
use payments_engine.Ledger.Repository.{
  type_in, post_journal_entry_tx, insert_journal_entry_tx, load_and_lock_accounts, check_accounts,
  insert_entry_header, insert_entry_lines, apply_balance_updates,
}
use payments_engine.Ledger.Effect.{IsPosted}
use payments_engine.Ledger.Deltas.{IsMap, lines_units, compute_net_deltas_lem}
use payments_engine.Ledger.Equation.{signed_sum, net_debit, check_balanced_signed}
use payments_engine.Ledger.Debits.{signed_at, AreDebited}
use payments_engine.Ledger.Invariant.{
  post_journal_entry_tx-IsSound, post_journal_entry_tx-AreDebited,
}
use payments_engine.Ledger.Sound.{IsSound}
use payments_engine.Ledger.Returns.{IsPostable, post_journal_entry_tx_returns}
use payments_engine.Transaction.Status.Tests.{fresh_tx}
use payments_engine.Store.{Env, Session, query, statement}

-- every call succeeds
abbrev pub calm : Env
calm = record {
  fails = λ n. false;
  landed = λ n. false;
  now = λ n. 100;
  fresh = λ n. n;
  lapsed = λ n. false;
}

abbrev pub an_account : ℕ → AccountType → ℤ → Account ℤ
an_account id type balance = record {
  id = id;
  code = text "C";
  name = text "N";
  type = type;
  currency = text "GHS";
  balance = balance;
  status = active;
  version = 0;
  parent_id = none;
  is_posting = true;
}

abbrev pub clearing_row : Account ℤ
clearing_row = record (an_account 13 liability (pos 0)) { code = text "GL_LIAB_CLEARING" }

abbrev pub chart : List (Account ℤ)
chart = an_account 11 asset (pos 9000000) ∷ an_account 12 asset (pos 1000000) ∷ clearing_row ∷ []

pub chart-IsSound : IsSound chart
chart-IsSound = record {
  unique = (refl, (refl, (refl, tt)));
  classes = (tt, (tt, (tt, tt)));
  on_scale = (refl, (refl, (refl, tt)));
  funded = (omega arith, (omega arith, (omega arith, tt)));
}

abbrev a_line : ℕ → LineType → ℕ → JournalEntryLine ℤ
a_line account_id type sequence = record {
  id = 0;
  entry_id = 0;
  account_id = account_id;
  type = type;
  amount = pos 500000;
  description = [];
  sequence = sequence;
}

abbrev pub an_entry : JournalEntry ℤ
an_entry = record {
  id = 0;
  transaction_id = 7;
  reference = [];
  description = text "transfer clearing";
  currency = text "GHS";
  status = unset;
  lines = a_line 11 debit 1 ∷ a_line 12 credit 2 ∷ [];
  posted_at = none;
  posted_by = text "system";
}

abbrev pub before : Session ℤ
before = record {
  db = record { accounts = chart; entries = []; lines = []; transactions = fresh_tx ∷ [] };
  calls = 0;
}

abbrev pub after : Session ℤ
after = (post_journal_entry_tx calm an_entry before).1

pub posted_ok : post_journal_entry_tx calm an_entry before ≡ (ok 1, after)
unfolding post_journal_entry_tx ◌>>=◌ pure raise lift within try check_balanced sum_lines ◌+ℤ◌ ◌-ℤ◌
    insert_journal_entry_tx load_and_lock_accounts check_accounts query statement
    insert_entry_header insert_entry_lines apply_balance_updates compute_net_deltas net_deltas
    check_sufficient_balances validate_entry_header collect_account_ids add_account_ids
posted_ok = refl

post_journal_entry_tx-IsSound_example :
    IsSound after.db.accounts × (net_debit after.db.accounts ≡ net_debit before.db.accounts)
post_journal_entry_tx-IsSound_example =
    post_journal_entry_tx-IsSound calm an_entry before after 1 chart-IsSound (refl, (refl, tt))
      posted_ok

post_journal_entry_tx-AreDebited_example :
    AreDebited (λ k. signed_at k an_entry.lines) chart after.db.accounts
post_journal_entry_tx-AreDebited_example =
    post_journal_entry_tx-AreDebited calm an_entry before after 1 chart-IsSound (refl, (refl, tt))
      posted_ok

compute_net_deltas_lem_example :
    (delta_at 12 (compute_net_deltas an_entry.lines (type_in chart))
      ≡ lines_units (type_in chart) 12 an_entry.lines)
    × IsMap (compute_net_deltas an_entry.lines (type_in chart))
compute_net_deltas_lem_example = compute_net_deltas_lem (type_in chart) an_entry.lines 12

entry_balanced : check_balanced an_entry ≡ ok tt
unfolding check_balanced ◌+ℤ◌
entry_balanced = refl

check_balanced_signed_example : signed_sum an_entry.lines ≡ pos 0
check_balanced_signed_example = check_balanced_signed an_entry entry_balanced

an_entry-IsPostable : IsPostable an_entry before.db
unfolding check_balanced sum_lines validate_entry_header collect_account_ids add_account_ids
    check_accounts check_sufficient_balances compute_net_deltas net_deltas ◌+ℤ◌ ◌-ℤ◌
an_entry-IsPostable = record {
  balanced = refl;
  complete = refl;
  first = 11;
  others = 12 ∷ [];
  ids_eq = refl;
  known = refl;
  usable = refl;
  funded = refl;
  short = refl;
  refers_eq = refl;
  positive = ((refl, refl), ((refl, refl), tt));
}

post_journal_entry_tx_returns_example :
    (id : ℕ) × (t : Session ℤ) × (post_journal_entry_tx calm an_entry before ≡ (ok id, t))
    × IsPosted calm an_entry before id t
post_journal_entry_tx_returns_example =
    post_journal_entry_tx_returns calm (λ n. refl) an_entry before an_entry-IsPostable (λ n. refl)
