-- ===== src/Ledger/Returns.antt =====
-- When a posting returns.
use payments_engine.Base.{
  ℕ, true, false, List, [], ◌∷◌, Text, ◌≡◌, refl, sym, ◌∙◌, ◌==◌, nat_eq, All, length, leb, select,
  contains,
}
use payments_engine.Error.{Result, ok, err}
use payments_engine.Decimal.{Decimals}
use payments_engine.Exec.Ends.{
  Ends, Ends_err, Ends-ok, Ends-pure, Ends-lift_ok, Ends-bind, Ends-within,
}
use payments_engine.Account.{Account}
use payments_engine.Ledger.Entry.{JournalEntry, JournalEntryLine}
use payments_engine.Ledger.Posting.{
  DeltaMap, check_balanced, validate_entry_header, collect_account_ids, check_sufficient_balances,
  compute_net_deltas,
}
use payments_engine.Ledger.Repository.{
  type_in, balance_in, check_accounts, check_line, load_and_lock_accounts, insert_entry_header,
  null_if_nil, has_entry, refers, header_fits, line_fits, insert_entry_lines, apply_balance_updates,
  insert_journal_entry_tx, post_journal_entry_tx,
}
use payments_engine.Ledger.Effect.{IsPosted, post_journal_entry_tx-IsPosted}
use payments_engine.Store.{Env, Session, statement}
use payments_engine.Store.Tables.{Db}
use payments_engine.World.Tx.{query-Ends}

down_and_up : true ≡ false → ⊥
down_and_up h = cc

no_failure : (env : Env) → ((n : ℕ) → env.fails n ≡ false) → (n : ℕ) → env.fails n ≡ true → ⊥
no_failure env calm n down = down_and_up (sym down ∙ calm n)

module _ {D : Type 0} ⦃o : Decimals D⦄ where
  -- the rows that are read and locked
  abbrev pub locked_rows : JournalEntry D → Db D → List (Account D)
  locked_rows entry db = select (λ a. contains a.id (collect_account_ids entry)) db.accounts

  -- The entry is balanced and complete; its accounts are in the table, active and of its currency; none of
  -- them falls below zero; the transfer that it names, if any, is in the table; its currency has at
  -- most three characters; and each line has a side, a stored amount that is positive, and a sequence
  -- within its column.
  pub record IsPostable (entry : JournalEntry D) (db : Db D) : Type 0 where
    pub balanced : check_balanced entry ≡ ok tt
    pub complete : validate_entry_header entry ≡ ok tt
    pub first : ℕ
    pub others : List ℕ
    pub ids_eq : collect_account_ids entry ≡ first ∷ others
    pub known : (length (locked_rows entry db) == length (collect_account_ids entry)) ≡ true
    pub usable :
        check_accounts (locked_rows entry db) entry.currency (collect_account_ids entry) ≡ ok tt
    pub funded :
        check_sufficient_balances
          (balance_in (locked_rows entry db))
          (compute_net_deltas entry.lines (type_in (locked_rows entry db)))
        ≡ ok tt
    pub short : leb (length entry.currency) 3 ≡ true
    pub refers_eq : refers (null_if_nil entry.transaction_id) db.transactions ≡ true
    pub positive :
        All (λ (l : JournalEntryLine D). (check_line l ≡ ok tt) × (line_fits l ≡ true)) entry.lines

  -- nothing is said of an error but that there is none
  abbrev Never : Session D → Type 0
  Never _ = ⊥

  abbrev Some : {A : Type 0} → A → Session D → Type 0
  Some _ _ = Unit

  module _ (env : Env) (calm : (n : ℕ) → env.fails n ≡ false) where
    lines-Ends :
        (id : ℕ) (lines : List (JournalEntryLine D)) (s : Session D)
        → All (λ (l : JournalEntryLine D). (check_line l ≡ ok tt) × (line_fits l ≡ true)) lines
        → Ends Some Never (insert_entry_lines env id lines s)
    unfolding insert_entry_lines statement
    lines-Ends id [] s h = Ends-pure tt s tt
    lines-Ends id (l ∷ ls) s h = Ends-lift_ok (check_line l) _ s tt h.0.0 (
        Ends-bind {P = Some} _ _ s (Ends-within _ _ s (rw (calm s.calls, h.0.1) (Ends-ok tt _ tt)))
          (λ _ t q. lines-Ends id ls t h.1))

    updates-Ends :
        (deltas : DeltaMap D) (s : Session D) → Ends Some Never (apply_balance_updates env deltas s)
    unfolding apply_balance_updates statement
    updates-Ends [] s = Ends-pure tt s tt
    updates-Ends ((id, delta) ∷ rest) s =
        Ends-bind {P = Some} _ _ s (Ends-within _ _ s (rw (calm s.calls) (Ends-ok tt _ tt)))
          (λ _ t q. updates-Ends rest t)

    header-Ends :
        (entry : JournalEntry D) (s : Session D)
        → header_fits env.fresh s.calls entry s.db ≡ true
        → Ends Some Never (insert_entry_header env entry s)
    unfolding insert_entry_header statement
    header-Ends entry s fits = Ends-within _ _ s (rw (calm s.calls, fits) (Ends-ok _ _ tt))

    load-Ends :
        (ids : List ℕ) (first : ℕ) (others : List ℕ) (currency : Text) (s : Session D)
        (rows : List (Account D))
        → ids ≡ first ∷ others
        → rows ≡ select (λ a. contains a.id ids) s.db.accounts
        → (length rows == length ids) ≡ true
        → check_accounts rows currency ids ≡ ok tt
        → Ends
            (λ r (t : Session D). (r ≡ rows) × (t.db ≡ s.db))
            Never
            (load_and_lock_accounts env ids currency s)
    unfolding load_and_lock_accounts
    load-Ends [] first others currency s rows e h count usable = absurd (cc)
    load-Ends (i ∷ is) first others currency s rows e h count usable =
        Ends-bind _ _ s
          (Ends-within _ _ s (
            query-Ends env ⊥ (no_failure env calm)
              (λ db. select (λ a. contains a.id (i ∷ is)) db.accounts) s))
          (λ r t q. rw (q.0 ∙ sym h) (
            Ends-lift_ok _ _ t tt (rw count refl)
              (Ends-lift_ok _ _ t tt usable (Ends-pure rows t (refl, q.1)))))

    post-Ends :
        (entry : JournalEntry D) (s : Session D)
        → IsPostable entry s.db
        → ((n : ℕ) → has_entry (env.fresh n) s.db.entries ≡ false)
        → Ends Some Never (post_journal_entry_tx env entry s)
    unfolding post_journal_entry_tx insert_journal_entry_tx
    post-Ends entry s p new = Ends-lift_ok (check_balanced entry) _ s tt p.balanced (
        Ends-lift_ok (validate_entry_header entry) _ s tt p.complete (
          Ends-bind _ _ s
            (load-Ends (collect_account_ids entry) p.first p.others entry.currency s
              (locked_rows entry s.db) p.ids_eq refl p.known p.usable)
            (λ rows t q. rw q.0 (
              Ends-lift_ok _ _ t tt p.funded (
                Ends-bind _ _ t
                  (header-Ends entry t (rw (q.1, p.short, new t.calls, p.refers_eq) refl))
                  (λ id t1 _. Ends-bind _ _ t1 (lines-Ends id entry.lines t1 p.positive) (λ _ t2 _.
                    Ends-bind _ _ t2 (updates-Ends _ t2) (λ _ t3 _. Ends-pure id t3 tt))))))))

    returned :
        (x : Result ℕ × Session D)
        → Ends Some Never x
        → (id : ℕ) × (t : Session D) × (x ≡ (ok id, t))
    returned (ok id, t) h = (id, t, refl)
    returned (err e, t) h = absurd (Ends_err e t h refl)

    -- A posting that passes its checks is made: when no call to the database fails, and the entry is
    -- balanced and complete, its accounts are in the table, active and of its currency of at most three
    -- characters, none of them falls below zero, the transfer that it names, if any, is in the table, no
    -- id that is made is one of an entry of the table, and each line has a side, a stored amount that is
    -- positive, and a sequence within its column,
    -- PostJournalEntryTx returns an id, and it has stored the entry, its lines and the moved accounts.
    pub post_journal_entry_tx_returns :
        (entry : JournalEntry D) (s : Session D)
        → IsPostable entry s.db
        → ((n : ℕ) → has_entry (env.fresh n) s.db.entries ≡ false)
        → (id : ℕ) × (t : Session D) × (post_journal_entry_tx env entry s ≡ (ok id, t))
          × IsPosted env entry s id t
    post_journal_entry_tx_returns entry s p new =
        let r = returned (post_journal_entry_tx env entry s) (post-Ends entry s p new) in
        (r.0, r.1, r.2, post_journal_entry_tx-IsPosted env entry s r.1 r.0 r.2)
