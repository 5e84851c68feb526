-- ===== src/Ledger/Reports/Trial.antt =====
-- GetTrialBalance on a journal whose posted debits equal its posted credits in each currency.
use mathlib.Core.List.{Perm}
use mathlib.Core.Path.{ap₂}
use payments_engine.Base.{
  ℕ, true, List, [], ◌∷◌, Text, some, ◌≡◌, refl, sym, ap, ◌∙◌, arith, nat_eq, text_eq, All,
  Bool-cases, inl, inr, text, ◌↔◌, subst,
}
use payments_engine.Base.Int.{ℤ, pos, ◌+ℤ◌, ◌-ℤ◌, int_laws, +ℤ_zero, zero_+ℤ}
use payments_engine.Error.{ok}
use payments_engine.Decimal.{Decimals}
use payments_engine.Exec.Ends.{Ends, Ends-pure, Ends-bind, Ends-lift_ok, Ends-within}
use payments_engine.Account.{Account}
use payments_engine.Ledger.Entry.{JournalEntryLine}
use payments_engine.Ledger.Equation.{IsUnique}
use payments_engine.Ledger.Reports.{counted_for, find_entry, scanned}
use payments_engine.Ledger.TrialBalance.{
  TrialBalance, TrialBalanceLine, totals_row, grouped, groups, insert_by_code, by_code, scan_totals,
  read_trial_balance, get_trial_balance,
}
use payments_engine.Ledger.Reports.Totals.{
  picked_sum, row_net, rows_net, rows_net-by_code, rows_net-groups, totals_signed,
}
use payments_engine.Ledger.Reports.Rows.{
  Label, row_label, row_labels, used_labels, IsCounted, counted_for_lem, labels-by_code,
  labels-groups,
}
use payments_engine.Ledger.Reports.Books.{posted_sum, Known, accounts_sum-posted_sum}
use payments_engine.Netting.{text_ltb}
use payments_engine.Store.{Env, Session}
use payments_engine.Store.Tables.{Db, EntryRow}
use payments_engine.World.Tx.{query-Ends}

assoc_ℤ : (a b c : ℤ) → a +ℤ b +ℤ c ≡ a +ℤ (b +ℤ c)
assoc_ℤ a b c = omega int_laws

-- a call that fails
abbrev pub Failed : Env → Type 0
Failed env = (n : ℕ) × (env.fails n ≡ true)

module _ {D : Type 0} ⦃o : Decimals D⦄ where
  -- The journal of the tables: account ids are unique, every line is of an account and of an entry of
  -- the tables, and in each currency the lines of the posted entries have debits equal to credits.
  pub record IsBook (db : Db D) : Type 0 where
    pub unique : IsUnique db.accounts
    pub known : All (Known db.accounts) db.lines
    pub placed : All (λ l. (e : EntryRow) × (find_entry l.entry_id db.entries ≡ some e)) db.lines
    pub sums : (currency : Text) → posted_sum currency db.entries db.lines ≡ pos 0

  -- A row that was read: its net is the difference of its totals.
  pub scanned_value :
      (context : Text) (d : D) → (v : D) × (scanned context d ≡ ok v) × (o.units v ≡ o.units d)
  unfolding scanned
  scanned_value context d =
      let (v, e, same) = o.from_string_string d in (v, ground (arith, e), same)

  -- what the loop makes of the rows
  abbrev NetIs : (ℕ → ℤ) → TrialBalanceLine D → Type 0
  NetIs f r = o.units r.net ≡ f r.account_id

  abbrev TotalIs : (ℕ → ℤ) → TrialBalanceLine D → Type 0
  TotalIs f r = row_net r ≡ f r.account_id

  record AreScanned (f : ℕ → ℤ) (rows : List (TrialBalanceLine D)) (sum : D) : Type 0 where
    lines : List (TrialBalanceLine D)
    total : D
    read : scan_totals rows sum ≡ ok (lines, total)
    total_eq : o.units total ≡ o.units sum +ℤ rows_net rows
    nets : All (NetIs f) lines
    labels_eq : row_labels lines ≡ row_labels rows

  add_net :
      (a b c d e : D)
      → o.units b ≡ o.units d
      → o.units c ≡ o.units e
      → o.units (o.add a (o.sub b c)) ≡ o.units a +ℤ (o.units d -ℤ o.units e)
  add_net a b c d e p q = rw (o.units_add, o.units_sub, p, q) refl

  scan_step :
      (r : TrialBalanceLine D) (rs : List (TrialBalanceLine D)) (sum d c : D)
      (lines : List (TrialBalanceLine D)) (total : D)
      → scanned (text "parse total debits") r.total_debits ≡ ok d
      → scanned (text "parse total credits") r.total_credits ≡ ok c
      → scan_totals rs (o.add sum (o.sub d c)) ≡ ok (lines, total)
      → scan_totals (r ∷ rs) sum
        ≡ ok (record r { total_debits = d; total_credits = c; net = o.sub d c } ∷ lines, total)
  unfolding scan_totals
  scan_step r rs sum d c lines total e g k = ground (arith, e, g, k)

  scan_totals-AreScanned :
      (f : ℕ → ℤ) (rows : List (TrialBalanceLine D)) (sum : D)
      → All (TotalIs f) rows
      → AreScanned f rows sum
  unfolding scan_totals
  scan_totals-AreScanned f [] sum h = record {
    lines = [];
    total = sum;
    read = refl;
    total_eq = sym (+ℤ_zero _);
    nets = tt;
    labels_eq = refl;
  }
  scan_totals-AreScanned f (r ∷ rs) sum h =
      let (d, e, p) = scanned_value (text "parse total debits") r.total_debits in
      let (c, g, q) = scanned_value (text "parse total credits") r.total_credits in
      let rest = scan_totals-AreScanned f rs (o.add sum (o.sub d c)) h.1 in
      record {
        lines = record r { total_debits = d; total_credits = c; net = o.sub d c } ∷ rest.lines;
        total = rest.total;
        read = scan_step r rs sum d c rest.lines rest.total e g rest.read;
        total_eq =
            rest.total_eq
            ∙ ap (λ (z : ℤ). z +ℤ rows_net rs) (add_net sum d c r.total_debits r.total_credits p q)
            ∙ assoc_ℤ _ _ _;
        nets = (o.units_sub d c ∙ rw (p, q) h.0, rest.nets);
        labels_eq = ap (λ (ls : List Label). row_label r ∷ ls) rest.labels_eq;
      }

  TotalIs-insert_by_code :
      (f : ℕ → ℤ) (r : TrialBalanceLine D) (rs : List (TrialBalanceLine D))
      → TotalIs f r
      → All (TotalIs f) rs
      → All (TotalIs f) (insert_by_code r rs)
  TotalIs-insert_by_code f r [] h k = (h, tt)
  TotalIs-insert_by_code f r (x ∷ xs) h k = elim (Bool-cases (text_ltb x.code r.code)) [
    | inl after ↦ rw after (k.0, TotalIs-insert_by_code f r xs h k.1)
    | inr before ↦ rw before (h, k)
  ]

  TotalIs-by_code :
      (f : ℕ → ℤ) (rs : List (TrialBalanceLine D))
      → All (TotalIs f) rs
      → All (TotalIs f) (by_code rs)
  TotalIs-by_code f [] h = tt
  TotalIs-by_code f (r ∷ rs) h =
      TotalIs-insert_by_code f r (by_code rs) h.0 (TotalIs-by_code f rs h.1)

  TotalIs-grouped :
      (f : ℕ → ℤ) (a : Account D) (ls : List (JournalEntryLine D))
      (rest : List (TrialBalanceLine D))
      → TotalIs f (totals_row a ls)
      → All (TotalIs f) rest
      → All (TotalIs f) (grouped a ls rest)
  TotalIs-grouped f a [] rest h k = k
  TotalIs-grouped f a (l ∷ ls) rest h k = (h, k)

  -- the debits less the credits of the posted lines of an account
  abbrev pub posted_at : Text → Db D → ℕ → ℤ
  posted_at currency db id = picked_sum (counted_for currency db.entries id) db.lines

  TotalIs-groups :
      (currency : Text) (db : Db D) (accounts : List (Account D))
      → All (TotalIs (posted_at currency db)) (groups currency db.entries db.lines accounts)
  TotalIs-groups currency db [] = tt
  TotalIs-groups currency db (a ∷ rest) =
      TotalIs-grouped (posted_at currency db) a _ _
        (totals_signed (counted_for currency db.entries a.id) db.lines)
        (TotalIs-groups currency db rest)

  -- The sum of the nets is zero, there is one row for each account with a line in a posted entry of the
  -- currency, under the account's id, code and name, and each row's net is that of its account in the
  -- journal.
  pub record IsTrial (currency : Text) (db : Db D) (tb : TrialBalance D) : Type 0 where
    pub net_zero : o.units tb.net_total ≡ pos 0
    pub accounts : Perm (row_labels tb.rows) (used_labels currency db.entries db.lines db.accounts)
    pub counted :
        (id : ℕ) (l : JournalEntryLine D)
        → (counted_for currency db.entries id l ≡ true) ↔ IsCounted currency db.entries id l
    pub is_balanced : tb.balanced ≡ true
    pub nets :
        All (λ (r : TrialBalanceLine D). o.units r.net ≡ posted_at currency db r.account_id) tb.rows

  abbrev sorted_groups : Text → Db D → List (TrialBalanceLine D)
  sorted_groups currency db = by_code (groups currency db.entries db.lines db.accounts)

  groups_zero :
      (currency : Text) (db : Db D) → IsBook db → rows_net (sorted_groups currency db) ≡ pos 0
  groups_zero currency db b =
      rows_net-by_code (groups currency db.entries db.lines db.accounts)
      ∙ rows_net-groups currency db.entries db.lines db.accounts
      ∙ accounts_sum-posted_sum currency db.entries db.lines db.accounts b.unique b.known
      ∙ b.sums currency

  accounts_with_row :
      (currency : Text) (db : Db D)
      (sc : AreScanned (posted_at currency db) (sorted_groups currency db) o.zero_value)
      → Perm (row_labels sc.lines) (used_labels currency db.entries db.lines db.accounts)
  accounts_with_row currency db sc =
      subst (λ (ls : List Label). Perm ls (used_labels currency db.entries db.lines db.accounts))
        (sym sc.labels_eq)
        (subst (λ (ls : List Label). Perm (row_labels (sorted_groups currency db)) ls)
          (labels-groups currency db.entries db.lines db.accounts)
          (labels-by_code (groups currency db.entries db.lines db.accounts)))

  zero_net :
      (currency : Text) (db : Db D)
      (sc : AreScanned (posted_at currency db) (sorted_groups currency db) o.zero_value)
      → IsBook db
      → o.units sc.total ≡ pos 0
  zero_net currency db sc b =
      sc.total_eq ∙ ap₂ ◌+ℤ◌ o.units_zero_value (groups_zero currency db b) ∙ zero_+ℤ (pos 0)

  -- The trial balance of a balanced journal, on every path: in a journal whose posted entries have
  -- debits equal to credits, GetTrialBalance changes no table; when it returns, its net total is zero,
  -- it is reported as balanced, its rows are, in some order and one each, those of the accounts with a
  -- line in a posted entry of the currency, under the account's id, code and name, and the net of each
  -- row is the debits less the credits of those lines of its account; it returns an error only when a
  -- call to the database failed.
  pub get_trial_balance-IsTrial :
      (env : Env) (currency : Text) (s : Session D)
      → IsBook s.db
      → Ends
          (λ tb (t : Session D). (t.db ≡ s.db) × IsTrial currency s.db tb)
          (λ _. Failed env)
          (get_trial_balance env true currency s)
  unfolding get_trial_balance read_trial_balance
  get_trial_balance-IsTrial env currency s b =
      let sc =
        scan_totals-AreScanned (posted_at currency s.db) (sorted_groups currency s.db) o.zero_value
          (TotalIs-by_code _ _ (TotalIs-groups currency s.db s.db.accounts)) in
      Ends-bind _ _ s
        (Ends-within _ _ s
          (query-Ends env (Failed env) (λ n down. (n, down)) (sorted_groups currency) s))
        λ rows t h.
          Ends-lift_ok _ _ t (sc.lines, sc.total)
            (ap (λ (l : List (TrialBalanceLine D)). scan_totals l o.zero_value) h.0 ∙ sc.read)
            (Ends-pure _ t (
              h.1,
              record {
                net_zero = zero_net currency s.db sc b;
                accounts = accounts_with_row currency s.db sc;
                counted = counted_for_lem currency s.db.entries;
                is_balanced = ground (arith, zero_net currency s.db sc b, o.is_zero_units sc.total);
                nets = sc.nets;
              },
            ))
