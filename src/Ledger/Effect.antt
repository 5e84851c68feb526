-- ===== src/Ledger/Effect.antt =====
-- What a successful posting has done, step by step: which checks it passed, and the tables that it
-- left.
use payments_engine.Base.{
  ℕ, true, List, [], ◌∷◌, ◌≡◌, refl, ◌≢◌, subst, ap, ◌∙◌, arith, Text, Bool-cases, inl, inr,
  contains, select, nat_eq,
}
use payments_engine.Error.{Result, ok, err}
use payments_engine.Decimal.{Decimals}
use payments_engine.Exec.Success.{
  After, After-bind, After-within, After-lift, After-pure, After-last, After-ok, After-err,
  After-raise, After_at,
}
use payments_engine.Account.{Account}
use payments_engine.Ledger.Entry.{JournalEntry, JournalEntryLine}
use payments_engine.Ledger.Posting.{
  DeltaMap, check_balanced, validate_entry_header, compute_net_deltas, check_sufficient_balances,
  collect_account_ids,
}
use payments_engine.Ledger.Repository.{
  check_accounts, load_and_lock_accounts, entry_row, header_fits, insert_entry_header, balance_in,
  check_line, store_line, line_fits, store_header, store_shift, insert_entry_lines, shift_all,
  apply_balance_updates, insert_journal_entry_tx, post_journal_entry_tx, type_in,
}
use payments_engine.Store.{Env, Session, statement, query, finish}
use payments_engine.Store.Tables.{Db}

module _ {D A : Type 0} where
  finished :
      (r : Result A) (db : Db D) (s : Session D)
      → After (λ a t. (r ≡ ok a) × (t.db ≡ db)) (finish s (r, db))
  finished (ok a) db s = After-ok a _ (refl, refl)
  finished (err e) db s = After-err e _

  -- a statement that succeeded did its work on the tables
  pub statement-After :
      (env : Env) (f : ℕ → Db D → Result A × Db D) (s : Session D)
      → After (λ a t. ((f s.calls s.db).0 ≡ ok a) × (t.db ≡ (f s.calls s.db).1)) (statement env f s)
  unfolding statement
  statement-After env f s = elim (Bool-cases (env.fails s.calls)) [
    | inl down ↦ rw down (After-err _ _)
    | inr up ↦ rw up (finished (f s.calls s.db).0 (f s.calls s.db).1 s)
  ]

  pub query-After :
      (env : Env) (f : Db D → Result A) (s : Session D)
      → After (λ a t. (f s.db ≡ ok a) × (t.db ≡ s.db)) (query env f s)
  unfolding query
  query-After env f s = elim (Bool-cases (env.fails s.calls)) [
    | inl down ↦ rw down (After-err _ _)
    | inr up ↦ rw up (finished (f s.db) s.db s)
  ]

module _ {D : Type 0} where
  abbrev pub rows_for : List ℕ → List (Account D) → List (Account D)
  rows_for ids accounts = select (λ a. contains a.id ids) accounts

  abbrev pub Loaded : List ℕ → Text → Session D → List (Account D) → Session D → Type 0
  Loaded ids currency s rows t =
      (rows ≡ rows_for ids s.db.accounts)
      × (check_accounts rows currency ids ≡ ok tt)
      × (t.db ≡ s.db)

  pub load-After :
      (env : Env) (ids : List ℕ) (currency : Text) (s : Session D)
      → After (Loaded ids currency s) (load_and_lock_accounts env ids currency s)
  unfolding load_and_lock_accounts
  load-After env [] currency s = After-raise _ s
  load-After env (i ∷ is) currency s =
      After-bind _ _ s (After-within _ _ s (query-After env _ s)) λ rows t h.
        After-lift _ _ t
          λ _ _. After-lift _ _ t λ _ checked. After-pure rows t (ground (arith, h.0), checked, h.1)

  header-After :
      (env : Env) (entry : JournalEntry D) (s : Session D)
      → After
          (λ id t.
            (n : ℕ) × (id ≡ env.fresh n)
            × (t.db ≡ record s.db { entries = entry_row env n entry ∷ s.db.entries }))
          (insert_entry_header env entry s)
  unfolding insert_entry_header
  header-After env entry s =
      After-last (After-within _ _ s (statement-After env (store_header env entry) s)) λ id t h.
        elim (Bool-cases (header_fits env.fresh s.calls entry s.db)) [
          | inl fits ↦ (s.calls, ground (arith, h.0, fits), ground (arith, h.1, fits))
          | inr clash ↦ absurd (ground (arith, h.0, clash))
        ]

  -- A row of journal_entry_lines that was stored for a line of an entry.
  pub record IsStored ⦃o : Decimals D⦄ (entry_id : ℕ) (line row : JournalEntryLine D) : Type 0 where
    pub entry_eq : row.entry_id ≡ entry_id
    pub account_eq : row.account_id ≡ line.account_id
    pub type_eq : row.type ≡ line.type
    pub amount_eq : row.amount ≡ o.column line.amount
    pub description_eq : row.description ≡ line.description
    pub sequence_eq : row.sequence ≡ line.sequence
    pub checked : check_line line ≡ ok tt
    pub positive : o.is_positive (o.column line.amount) ≡ true

module _ {D : Type 0} ⦃o : Decimals D⦄ where
  -- `after` is `before` with a row for each of the lines put in front, the last line's first.
  abbrev pub IsExtended :
      ℕ → List (JournalEntryLine D) → List (JournalEntryLine D) → List (JournalEntryLine D) → Type 0
  IsExtended id [] before after = after ≡ before
  IsExtended id (line ∷ rest) before after =
      (row : JournalEntryLine D) × IsStored id line row × IsExtended id rest (row ∷ before) after

  abbrev pub OnlyLines : ℕ → List (JournalEntryLine D) → Session D → Session D → Type 0
  OnlyLines id lines s t =
      IsExtended id lines s.db.lines t.db.lines × (t.db ≡ record s.db { lines = t.db.lines })

  store_line-After :
      (env : Env) (id : ℕ) (line : JournalEntryLine D) (s : Session D)
      → check_line line ≡ ok tt
      → After
          (λ _ t.
            (row : JournalEntryLine D) × IsStored id line row
            × (t.db ≡ record s.db { lines = row ∷ s.db.lines }))
          (statement env (store_line env id line) s)
  store_line-After env id line s c = elim (Bool-cases (line_fits line)) [
    | inl p ↦ After-last (statement-After env (store_line env id line) s) λ _ t h. (
      record line { id = env.fresh s.calls; entry_id = id; amount = o.column line.amount },
      record {
        entry_eq = refl;
        account_eq = refl;
        type_eq = refl;
        amount_eq = refl;
        description_eq = refl;
        sequence_eq = refl;
        checked = c;
        positive = ground (arith, p);
      },
      ground (arith, h.1),
    )
    | inr z ↦
        After-last (statement-After env (store_line env id line) s)
          λ _ t h. absurd (ground (arith, h.0))
  ]

  extend :
      (id : ℕ) (line : JournalEntryLine D) (rest : List (JournalEntryLine D)) (s t u : Session D)
      → (row : JournalEntryLine D) × IsStored id line row
        × (t.db ≡ record s.db { lines = row ∷ s.db.lines })
      → OnlyLines id rest t u
      → OnlyLines id (line ∷ rest) s u
  extend id line rest s t u (row, stored, e) (k, same) = (
    (row, stored, subst (λ (db : Db D). IsExtended id rest db.lines u.db.lines) e k),
    same ∙ ap (λ (db : Db D). record db { lines = u.db.lines }) e,
  )

  lines-After :
      (env : Env) (id : ℕ) (lines : List (JournalEntryLine D)) (s : Session D)
      → After (λ _ t. OnlyLines id lines s t) (insert_entry_lines env id lines s)
  unfolding insert_entry_lines
  lines-After env id [] s = After-pure tt s (refl, refl)
  lines-After env id (line ∷ rest) s = After-lift _ _ s λ _ c.
      After-bind _ _ s (After-within _ _ s (store_line-After env id line s c))
        λ _ t h. After-last (lines-After env id rest t) λ _ u k. extend id line rest s t u h k

  -- the updates of all accounts, as one function of the table
  abbrev pub apply_all : DeltaMap D → List (Account D) → List (Account D)
  apply_all [] accounts = accounts
  apply_all ((id, delta) ∷ rest) accounts = apply_all rest (shift_all id delta accounts)

  updates-After :
      (env : Env) (m : DeltaMap D) (s : Session D)
      → After
          (λ _ t. t.db ≡ record s.db { accounts = apply_all m s.db.accounts })
          (apply_balance_updates env m s)
  unfolding apply_balance_updates
  updates-After env [] s = After-pure tt s refl
  updates-After env ((id, delta) ∷ rest) s =
      After-bind _ _ s (After-within _ _ s (statement-After env (store_shift id delta) s)) λ _ t h.
        After-last (updates-After env rest t)
          λ _ u k. k ∙ ap (λ (db : Db D). record db { accounts = apply_all rest db.accounts }) h.1

  along :
      (id : ℕ) (lines : List (JournalEntryLine D)) {b b' a a' : List (JournalEntryLine D)}
      → b ≡ b'
      → a ≡ a'
      → IsExtended id lines b a
      → IsExtended id lines b' a'
  along id lines {b} {b'} {a} {a'} p q h =
      subst (λ (x : List (JournalEntryLine D)). IsExtended id lines b' x) q
        (subst (λ (x : List (JournalEntryLine D)). IsExtended id lines x a) p h)

  pub record IsPosted (env : Env) (entry : JournalEntry D) (s : Session D) (id : ℕ) (t : Session D)
      : Type 0 where
    pub call : ℕ
    pub id_eq : id ≡ env.fresh call
    pub balanced : check_balanced entry ≡ ok tt
    pub complete : validate_entry_header entry ≡ ok tt
    pub described : entry.description ≢ []
    pub in_currency : entry.currency ≢ []
    pub by_someone : entry.posted_by ≢ []
    pub some_line : entry.lines ≢ []
    pub rows : List (Account D)
    pub rows_eq : rows ≡ rows_for (collect_account_ids entry) s.db.accounts
    pub checked : check_accounts rows entry.currency (collect_account_ids entry) ≡ ok tt
    pub sufficient :
        check_sufficient_balances (balance_in rows) (compute_net_deltas entry.lines (type_in rows))
        ≡ ok tt
    pub accounts_eq :
        t.db.accounts ≡ apply_all (compute_net_deltas entry.lines (type_in rows)) s.db.accounts
    pub entries_eq : t.db.entries ≡ entry_row env call entry ∷ s.db.entries
    pub lines_eq : IsExtended id entry.lines s.db.lines t.db.lines
    pub transactions_eq : t.db.transactions ≡ s.db.transactions

  -- an entry whose header is valid has a description, a currency, an author and a line
  validate_entry_header_lem :
      (entry : JournalEntry D)
      → validate_entry_header entry ≡ ok tt
      → (entry.description ≢ [])
        × (entry.currency ≢ [])
        × (entry.posted_by ≢ [])
        × (entry.lines ≢ [])
  unfolding validate_entry_header
  validate_entry_header_lem entry h = (
    λ e. ground (arith, h, e),
    λ e. ground (arith, h, e),
    λ e. ground (arith, h, e),
    λ e. ground (arith, h, e),
  )

  pub insert-After :
      (env : Env) (entry : JournalEntry D) (s : Session D)
      → check_balanced entry ≡ ok tt
      → After (λ id t. IsPosted env entry s id t) (insert_journal_entry_tx env entry s)
  unfolding insert_journal_entry_tx
  insert-After env entry s b = After-lift _ _ s λ _ valid.
      After-bind _ _ s (load-After env _ _ s) λ rows t1 l. After-lift _ _ t1 λ _ enough.
        After-bind _ _ t1 (header-After env entry t1) λ id t2 hd.
          After-bind _ _ t2 (lines-After env id entry.lines t2) λ _ t3 ls.
            After-bind _ _ t3 (updates-After env _ t3) λ _ t4 up. After-pure id t4 (record {
              call = hd.0;
              id_eq = hd.1;
              balanced = b;
              complete = valid;
              described = (validate_entry_header_lem entry valid).0;
              in_currency = (validate_entry_header_lem entry valid).1;
              by_someone = (validate_entry_header_lem entry valid).2;
              some_line = (validate_entry_header_lem entry valid).3;
              rows = rows;
              rows_eq = l.0;
              checked = l.1;
              sufficient = enough;
              accounts_eq = ground (arith, up, ls.1, hd.2, l.2);
              entries_eq = ground (arith, up, ls.1, hd.2, l.2);
              lines_eq = along id entry.lines (ground (arith, hd.2, l.2)) (ground (arith, up)) ls.0;
              transactions_eq = ground (arith, up, ls.1, hd.2, l.2);
            })

  -- A posting that succeeds has passed every check, has changed each account by its net delta, and
  -- has stored one row for the entry and one for each of its lines.
  pub post-After :
      (env : Env) (entry : JournalEntry D) (s : Session D)
      → After (λ id t. IsPosted env entry s id t) (post_journal_entry_tx env entry s)
  unfolding post_journal_entry_tx
  post-After env entry s = After-lift _ _ s λ _ b. insert-After env entry s b

  pub post_journal_entry_tx-IsPosted :
      (env : Env) (entry : JournalEntry D) (s t : Session D) (id : ℕ)
      → post_journal_entry_tx env entry s ≡ (ok id, t)
      → IsPosted env entry s id t
  post_journal_entry_tx-IsPosted env entry s t id e = After_at (post-After env entry s) e
