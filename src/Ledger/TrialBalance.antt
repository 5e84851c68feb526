-- ===== src/Ledger/TrialBalance.antt =====
-- internal/ledger/trial_balance.go, and the query of the trial balance in internal/ledger/repository.go.
use payments_engine.Base.{
  ℕ, Bool, not, List, [], ◌∷◌, Text, text, nat_eq, text_eq, select, if◌then◌else◌,
}
use payments_engine.Error.{sentinel, trial_balance_query_not_supported, Result, ok, err}
use payments_engine.Decimal.{Decimals}
use payments_engine.Exec.{Exec, pure, raise, lift, within, ◌>>=◌}
use payments_engine.Account.{Account}
use payments_engine.Ledger.Entry.{JournalEntryLine, LineType, debit, credit}
use payments_engine.Netting.{text_ltb}
use payments_engine.Store.{Env, Session, query}
use payments_engine.Store.Tables.{EntryRow}
use payments_engine.Ledger.Reports.{counted_for, scanned}

pub record TrialBalanceLine (D : Type 0) : Type 0 where
  pub account_id : ℕ
  pub code : Text
  pub name : Text
  pub total_debits : D
  pub total_credits : D
  pub net : D

pub record TrialBalance (D : Type 0) : Type 0 where
  pub currency : Text
  pub rows : List (TrialBalanceLine D)
  pub balanced : Bool
  pub net_total : D

module _ {D : Type 0} ⦃o : Decimals D⦄ where
  abbrev pub on_side : LineType → LineType → D → D
  on_side debit debit amount = amount
  on_side credit credit amount = amount
  on_side _ _ amount = o.zero_value

  -- SUM(CASE WHEN l.type = side THEN l.amount ELSE 0 END)
  abbrev pub side_total : LineType → List (JournalEntryLine D) → D
  side_total side [] = o.zero_value
  side_total side (l ∷ ls) = o.add (on_side side l.type l.amount) (side_total side ls)

  abbrev pub totals_row : Account D → List (JournalEntryLine D) → TrialBalanceLine D
  totals_row a ls = record {
    account_id = a.id;
    code = a.code;
    name = a.name;
    total_debits = side_total debit ls;
    total_credits = side_total credit ls;
    net = o.zero_value;
  }

  abbrev pub grouped :
      Account D → List (JournalEntryLine D) → List (TrialBalanceLine D) → List (TrialBalanceLine D)
  grouped a [] rest = rest
  grouped a (l ∷ ls) rest = totals_row a (l ∷ ls) ∷ rest

  -- GROUP BY a.id, a.code, a.name: an account has a row when a line of it is counted
  abbrev pub groups :
      Text
      → List EntryRow
      → List (JournalEntryLine D)
      → List (Account D)
      → List (TrialBalanceLine D)
  groups currency entries lines [] = []
  groups currency entries lines (a ∷ rest) =
      grouped a (select (counted_for currency entries a.id) lines)
        (groups currency entries lines rest)

  -- ORDER BY a.code
  abbrev pub insert_by_code :
      TrialBalanceLine D → List (TrialBalanceLine D) → List (TrialBalanceLine D)
  insert_by_code r [] = r ∷ []
  insert_by_code r (x ∷ xs) = if text_ltb x.code r.code then x ∷ insert_by_code r xs else r ∷ x ∷ xs

  abbrev pub by_code : List (TrialBalanceLine D) → List (TrialBalanceLine D)
  by_code [] = []
  by_code (r ∷ rs) = insert_by_code r (by_code rs)

  abbrev pub and_line :
      TrialBalanceLine D
      → Result (List (TrialBalanceLine D) × D)
      → Result (List (TrialBalanceLine D) × D)
  and_line line (err e) = err e
  and_line line (ok (lines, sum)) = ok (line ∷ lines, sum)

  -- the loop over the rows, with the running sum of the nets
  unfoldable pub scan_totals :
      List (TrialBalanceLine D) → D → Result (List (TrialBalanceLine D) × D)
  scan_totals [] sum = ok ([], sum)
  scan_totals (r ∷ rs) sum = elim (scanned (text "parse total debits") r.total_debits) [
    | err e ↦ err e
    | ok debits ↦ elim (scanned (text "parse total credits") r.total_credits) [
      | err e ↦ err e
      | ok credits ↦
          and_line
            (record r {
              total_debits = debits;
              total_credits = credits;
              net = o.sub debits credits;
            })
            (scan_totals rs (o.add sum (o.sub debits credits)))
    ]
  ]

  abbrev pub trial_balance_of : Text → List (TrialBalanceLine D) × D → TrialBalance D
  trial_balance_of currency (lines, sum) = record {
    currency = currency;
    rows = lines;
    balanced = o.is_zero sum;
    net_total = sum;
  }

  unfoldable pub read_trial_balance : Env → Text → Exec (Session D) (TrialBalance D)
  read_trial_balance env currency = do
    rows ←
        within (text "query trial balance")
          (query env (λ db. ok (by_code (groups currency db.entries db.lines db.accounts))))
    out ← lift (scan_totals rows o.zero_value)
    pure (trial_balance_of currency out)

  unfoldable pub get_trial_balance : Env → Bool → Text → Exec (Session D) (TrialBalance D)
  get_trial_balance env reads currency =
      if not reads
      then raise (sentinel trial_balance_query_not_supported)
      else read_trial_balance env currency
