-- ===== src/Transaction/Repository.antt =====
-- internal/transaction/repository.go: the statements on `transactions`, and the reads of
-- `accounts`. Each runs on the pool or in a transaction alike.
use payments_engine.Base.{
  ℕ, Bool, true, false, not, ◌&&◌, ◌||◌, List, [], ◌∷◌, Option, none, some, Text, text, ◌==◌,
  nat_eq, text_eq, if◌then◌else◌, leb, length,
}
use payments_engine.Error.{
  Error, sentinel, driver, wrap, is_error, duplicate_idempotency_key, transaction_not_found,
  invalid_status_update, snapshot_not_found, no_rows, Result, ok, err,
}
use payments_engine.Decimal.{Decimals}
use payments_engine.Exec.{Exec, pure, raise, lift, try, ◌>>=◌}
use payments_engine.Account.{Account}
use payments_engine.Transaction.Status.{
  TxStatus, pending, processing, failed, Transaction, status_beq,
}
use payments_engine.Ledger.Repository.{find_account}
use payments_engine.Store.{Env, Session, statement, query}
use payments_engine.Store.Tables.{Db}

abbrev pub or_no_rows {ℓ} : {A : Type ℓ} → Option A → Result A
or_no_rows none = err (sentinel no_rows)
or_no_rows (some a) = ok a

-- `if errors.Is(err, pgx.ErrNoRows) { return target }`, and any other error wrapped.
abbrev pub explain {ℓ} : {A : Type ℓ} → Error → Text → Result A → Result A
explain target context (ok a) = ok a
explain target context (err e) = if is_error e no_rows then err target else err (wrap context e)

abbrev pub exists {ℓ} : {A : Type ℓ} → Option A → Bool
exists none = false
exists (some _) = true

abbrev pub coalesce : Option ℕ → Option ℕ → Option ℕ
coalesce none old = old
coalesce (some t) old = some t

module _ {D : Type 0} where
  abbrev pub find_transaction : ℕ → List (Transaction D) → Option (Transaction D)
  find_transaction id [] = none
  find_transaction id (tx ∷ rest) = if id == tx.id then some tx else find_transaction id rest

  abbrev pub find_by_key : Text → List (Transaction D) → Option (Transaction D)
  find_by_key key [] = none
  find_by_key key (tx ∷ rest) = if key == tx.idempotency_key then some tx else find_by_key key rest

  abbrev pub find_by_code : Text → List (Account D) → Option (Account D)
  find_by_code code [] = none
  find_by_code code (a ∷ rest) = if code == a.code then some a else find_by_code code rest

  -- the row that UPDATE ... RETURNING gives back, if one is written
  abbrev pub updated :
      (Transaction D → Bool)
      → (Transaction D → Transaction D)
      → List (Transaction D)
      → Option (Transaction D)
  updated picks change [] = none
  updated picks change (tx ∷ rest) =
      if picks tx then some (change tx) else updated picks change rest

  abbrev pub update_rows :
      (Transaction D → Bool)
      → (Transaction D → Transaction D)
      → List (Transaction D)
      → List (Transaction D)
  update_rows picks change [] = []
  update_rows picks change (tx ∷ rest) =
      (if picks tx then change tx else tx) ∷ update_rows picks change rest

  abbrev pub update_transactions :
      (Transaction D → Bool)
      → (ℕ → Transaction D → Transaction D)
      → ℕ
      → Db D
      → Result (Transaction D) × Db D
  update_transactions picks change n db = (
    or_no_rows (updated picks (change n) db.transactions),
    record db { transactions = update_rows picks (change n) db.transactions },
  )

  abbrev pub has_status : ℕ → TxStatus → Transaction D → Bool
  has_status id from tx = (tx.id == id) && status_beq tx.status from

  abbrev pub move_status : Env → TxStatus → Option ℕ → ℕ → Transaction D → Transaction D
  move_status env to settled_at n tx = record tx {
    status = to;
    updated_at = env.now n;
    settled_at = coalesce settled_at tx.settled_at;
  }

  -- UpdateStatus, and UpdateStatusTx on a transaction's connection
  unfoldable pub update_status :
      Env → ℕ → TxStatus → TxStatus → Option ℕ → Exec (Session D) (Transaction D)
  update_status env id from to settled_at = do
    out ←
        try
          (statement env (update_transactions (has_status id from) (move_status env to settled_at)))
    lift (explain (sentinel invalid_status_update) (text "update transaction status") out)

  abbrev pub is_open : ℕ → Transaction D → Bool
  is_open id tx = (tx.id == id) && (status_beq tx.status pending || status_beq tx.status processing)

  abbrev pub mark_failed : Env → Error → ℕ → Transaction D → Transaction D
  mark_failed env reason n tx = record tx {
    status = failed;
    failure_reason = some reason;
    updated_at = env.now n;
  }

  abbrev pub fetch_terminal : Result (Transaction D) → Result (Transaction D)
  fetch_terminal (ok tx) = ok tx
  fetch_terminal (err e) = err (wrap (text "fail transaction (fetch terminal)") e)

  -- FailTransaction: a transfer that is no longer open is read back as it is
  unfoldable pub fail_transaction : Env → ℕ → Error → Exec (Session D) (Transaction D)
  fail_transaction env id reason = do
    out ← try (statement env (update_transactions (is_open id) (mark_failed env reason)))
    elim out [
      | ok tx ↦ pure tx
      | err e ↦
          if is_error e no_rows
          then (try (query env (λ db. or_no_rows (find_transaction id db.transactions))) >>= λ row.
              lift (fetch_terminal row))
          else raise (wrap (text "fail transaction") e)
    ]

  unfoldable pub get_transaction_by_id : Env → ℕ → Exec (Session D) (Transaction D)
  get_transaction_by_id env id = do
    out ← try (query env (λ db. or_no_rows (find_transaction id db.transactions)))
    lift (explain (sentinel transaction_not_found) (text "get transaction by id") out)

  unfoldable pub get_transaction_by_idempotency_key : Env → Text → Exec (Session D) (Transaction D)
  get_transaction_by_idempotency_key env key = do
    out ← try (query env (λ db. or_no_rows (find_by_key key db.transactions)))
    lift (explain (sentinel transaction_not_found) (text "get transaction by idempotency key") out)

  abbrev pub snapshot_error : Result (Account D) → Result (Account D)
  snapshot_error (ok a) = ok a
  snapshot_error (err e) = if is_error e no_rows then err (sentinel snapshot_not_found) else err e

  unfoldable pub get_account_snapshot : Env → ℕ → Exec (Session D) (Account D)
  get_account_snapshot env id = do
    out ← try (query env (λ db. or_no_rows (find_account id db.accounts)))
    lift (snapshot_error out)

  unfoldable pub get_account_by_code : Env → Text → Exec (Session D) (Account D)
  get_account_by_code env code = do
    out ← try (query env (λ db. or_no_rows (find_by_code code db.accounts)))
    lift (snapshot_error out)

module _ {D : Type 0} ⦃o : Decimals D⦄ where
  -- the table's constraints, in the order in which they are checked: the currency's
  -- CHAR(3), CHECK (amount > 0) on the stored amount and CHECK (from_account_id <> to_account_id), the unique keys, the references
  abbrev pub insert_error : ℕ → ℕ → Transaction D → Db D → Option Error
  insert_error n id tx db =
      if not (leb (length tx.currency) 3)
        || not (o.is_positive (o.column tx.amount))
        || (tx.from_account_id == tx.to_account_id)
      then some (driver n)
      else if exists (find_by_key tx.idempotency_key db.transactions)
          || exists (find_transaction id db.transactions)
      then some (sentinel duplicate_idempotency_key)
      else if not (
          exists (find_account tx.from_account_id db.accounts)
          && exists (find_account tx.to_account_id db.accounts))
      then some (driver n)
      else none

  abbrev pub inserted_row : Env → ℕ → Transaction D → Transaction D
  inserted_row env n tx = record tx {
    id = env.fresh n;
    amount = o.column tx.amount;
    created_at = env.now n;
    updated_at = env.now n;
    settled_at = none;
    expires_at = none;
  }

  abbrev pub insert_transaction : Env → Transaction D → ℕ → Db D → Result (Transaction D) × Db D
  insert_transaction env tx n db = elim (insert_error n (env.fresh n) tx db) [
    | none ↦ (
      ok (inserted_row env n tx),
      record db { transactions = inserted_row env n tx ∷ db.transactions },
    )
    | some e ↦ (err e, db)
  ]

  abbrev pub create_error : Result (Transaction D) → Result (Transaction D)
  create_error (ok tx) = ok tx
  create_error (err e) =
      if is_error e duplicate_idempotency_key
      then err (sentinel duplicate_idempotency_key)
      else err (wrap (text "create transaction") e)

  unfoldable pub create_transaction : Env → Transaction D → Exec (Session D) (Transaction D)
  create_transaction env tx = do
    out ← try (statement env (insert_transaction env tx))
    lift (create_error out)
