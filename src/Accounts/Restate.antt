-- ===== src/Accounts/Restate.antt =====
-- The statements by which internal/account reads an account and changes its status, on every path.
use payments_engine.Base.{
  ℕ, suc, Bool, true, false, some, List, [], ◌∷◌, Text, ◌≡◌, ◌≢◌, refl, ◌⊎◌, sym, ap, ◌∙◌, arith,
  Bool-cases, Option-cases, inl, inr, nat_eq, text_eq, text_beq_iff,
}
use payments_engine.Error.{Error, sentinel, account_not_found, no_rows, is_error, ok, err}
use payments_engine.Exec.{lift}
use payments_engine.Exec.Ends.{
  Ends, Ends-ok, Ends-err, Ends-pure, Ends-try, Ends-Keeps, Ends-weaken,
}
use payments_engine.Account.{Account, AccountStatus, active, frozen, closed, status_beq}
use payments_engine.Accounts.Service.{
  check_transition, restate_all, store_status, is_enum, get_account_by_id, store_account_status,
  log_account,
}
use payments_engine.Audit.{EventType, EventPayload}
use payments_engine.Ledger.Repository.{find_account}
use payments_engine.Store.{Env, Session, statement, query, finish}
use payments_engine.Store.Tables.{Db}
use payments_engine.Transaction.Repository.{or_no_rows, explain}
use payments_engine.Transfer.Frame.{Framed, Anything, log_event-Framed}
use payments_engine.World.{World}
use payments_engine.World.Pool.{IsLost}

status_beq_refl : (s : AccountStatus) → status_beq s s ≡ true
status_beq_refl active = refl
status_beq_refl frozen = refl
status_beq_refl closed = refl
status_beq_refl (AccountStatus.other t) = (text_beq_iff t t).1 refl

pub check_transition-differs : (s t : AccountStatus) → check_transition s t ≡ ok tt → s ≢ t
unfolding check_transition
check_transition-differs s t h e = ground (arith, status_beq_refl s)

pub check_transition-open : (s t : AccountStatus) → check_transition s t ≡ ok tt → s ≢ closed
unfolding check_transition
check_transition-open s t h e = ground (arith, status_beq_refl s)

module _ {D : Type 0} where
  -- in each row with the id the status is the new one and the version is counted up, and every other
  -- row is as it was
  abbrev pub AreRestated : ℕ → AccountStatus → List (Account D) → List (Account D) → Type 0
  AreRestated id next [] [] = Unit
  AreRestated id next (a ∷ as') (b ∷ bs) =
      ((a.id ≡ id → b ≡ record a { status = next; version = suc a.version }) × (a.id ≢ id → b ≡ a))
      × AreRestated id next as' bs
  AreRestated id next _ _ = ⊥

  pub restate_all-AreRestated :
      (id : ℕ) (next : AccountStatus) (rows : List (Account D))
      → AreRestated id next rows (restate_all id next rows)
  restate_all-AreRestated id next [] = tt
  restate_all-AreRestated id next (a ∷ rest) =
      ((λ e. ground arith, λ n. ground arith), restate_all-AreRestated id next rest)

  -- the row `b` is the one that was found, in its new status, and the table is the one before with
  -- that row in its place
  pub record IsRestated (id : ℕ) (next : AccountStatus) (before : Db D) (b : Account D)
      (after : Db D) : Type 0 where
    pub was : Account D
    pub found : find_account id before.accounts ≡ some was
    pub differs : was.status ≢ next
    pub was_open : was.status ≢ closed
    pub known : is_enum next ≡ true
    pub row_eq : b ≡ record was { status = next; version = suc was.version }
    pub rows_eq : AreRestated id next before.accounts after.accounts
    pub after_eq : after ≡ record before { accounts = after.accounts }

  find_account-restate_all :
      (id : ℕ) (next : AccountStatus) (a : Account D) (rows : List (Account D))
      → find_account id rows ≡ some a
      → find_account id (restate_all id next rows)
        ≡ some (record a { status = next; version = suc a.version })
  find_account-restate_all id next a [] e = absurd (cc)
  find_account-restate_all id next a (b ∷ rest) e =
      ground (arith, find_account-restate_all id next a rest)

  module _ (env : Env) (v : Db D) where
    read_row :
        (id : ℕ) (s : Session D)
        → s.db ≡ v
        → Ends
            (λ a t. (find_account id v.accounts ≡ some a) × (t.db ≡ v))
            (λ t. t.db ≡ v)
            (query env (λ db. or_no_rows (find_account id db.accounts)) s)
    unfolding query statement
    read_row id s h = elim (Bool-cases (env.fails s.calls)) [
      | inl down ↦ rw down (Ends-err _ _ h)
      | inr up ↦ elim (Option-cases (find_account id s.db.accounts)) [
        | inl absent ↦ rw (up, absent) (Ends-err _ _ h)
        | inr (a, there) ↦
            rw (up, there)
              (Ends-ok a _ (ap (λ (db : Db D). find_account id db.accounts) (sym h) ∙ there, h))
      ]
    ]

    explained-Ends :
        {A : Type 0} {Q : A → Session D → Type 0} (context : Text) (e : Error) (s : Session D)
        → s.db ≡ v
        → Ends Q (λ t. t.db ≡ v) (lift (explain (sentinel account_not_found) context (err e)) s)
    unfolding lift
    explained-Ends context e s h = elim (Bool-cases (is_error e no_rows)) [
      | inl missing ↦ rw missing (Ends-err _ s h)
      | inr other ↦ rw other (Ends-err _ s h)
    ]

    pub get_account_by_id-Ends :
        (id : ℕ) (s : Session D)
        → s.db ≡ v
        → Ends
            (λ a t. (find_account id v.accounts ≡ some a) × (t.db ≡ v))
            (λ t. t.db ≡ v)
            (get_account_by_id env id s)
    unfolding get_account_by_id lift
    get_account_by_id-Ends id s h =
        Ends-try _ _ s (read_row id s h) (λ a t q. Ends-ok a t q) (λ e t q. explained-Ends _ e t q)

    module _ (id : ℕ) (next : AccountStatus) (a : Account D)
        (there : find_account id v.accounts ≡ some a) where
      abbrev pub Written : Account D → Db D → Type 0
      Written b after =
          (is_enum next ≡ true)
          × (b ≡ record a { status = next; version = suc a.version })
          × (after ≡ record v { accounts = restate_all id next v.accounts })

      stored :
          (s : Session D)
          → s.db ≡ v
          → Ends
              (λ b t. Written b t.db)
              (λ t. t.db ≡ v)
              (finish s (store_status id next s.calls s.db))
      stored s h = elim (Bool-cases (is_enum next)) [
        | inl known ↦
            rw (h, known, find_account-restate_all id next a v.accounts there)
              (Ends-ok _ _ (refl, refl, refl))
        | inr unknown ↦ rw (h, unknown) (Ends-err _ _ refl)
      ]

      abbrev pub Lost : Db D → Type 0
      Lost after = (after ≡ v) ⊎ IsLost env ((b : Account D) × Written b after)

      restated_row :
          (n : ℕ) (db : Db D)
          → db ≡ v
          → ((store_status id next n db).1 ≡ v)
            ⊎ ((b : Account D) × Written b (store_status id next n db).1)
      restated_row n db h = elim (Bool-cases (is_enum next)) [
        | inl known ↦
            rw (h, known)
              (inr (record a { status = next; version = suc a.version }, (refl, refl, refl)))
        | inr unknown ↦ rw (h, unknown) (inl refl)
      ]

      lost :
          (n : ℕ) (db : Db D)
          → env.fails n ≡ true
          → env.landed n ≡ true
          → ((db ≡ v) ⊎ ((b : Account D) × Written b db))
          → Lost db
      lost n db down took (inl same) = inl same
      lost n db down took (inr w) = inr (record { call = n; down = down; took = took; done = w })

      write_row :
          (s : Session D)
          → s.db ≡ v
          → Ends (λ b t. Written b t.db) (λ t. Lost t.db) (statement env (store_status id next) s)
      unfolding statement
      write_row s h = elim (Bool-cases (env.fails s.calls)) [
        | inl down ↦ elim (Bool-cases (env.landed s.calls)) [
          | inl took ↦
              rw (down, took)
                (Ends-err _ _ (lost s.calls _ down took (restated_row s.calls s.db h)))
          | inr gone ↦ rw (down, gone) (Ends-err _ _ (inl h))
        ]
        | inr up ↦ rw up (Ends-weaken (stored s h) (λ b t q. q) (λ t q. inl q))
      ]

      explained-Lost :
          {A : Type 0} {Q : A → Session D → Type 0} (context : Text) (e : Error) (s : Session D)
          → Lost s.db
          → Ends Q (λ t. Lost t.db) (lift (explain (sentinel account_not_found) context (err e)) s)
      unfolding lift
      explained-Lost context e s h = elim (Bool-cases (is_error e no_rows)) [
        | inl missing ↦ rw missing (Ends-err _ s h)
        | inr other ↦ rw other (Ends-err _ s h)
      ]

      pub store_account_status-Ends :
          (s : Session D)
          → s.db ≡ v
          → Ends (λ b t. Written b t.db) (λ t. Lost t.db) (store_account_status env id next s)
      unfolding store_account_status lift
      store_account_status-Ends s h =
          Ends-try _ _ s (write_row s h) (λ b t q. Ends-ok b t q) (λ e t q. explained-Lost _ e t q)

    pub log_account-Ends :
        {E : World D → Type 0} (audited : Bool) (id : ℕ) (event : EventType)
        (payload : EventPayload D) (target : Db D) (w : World D)
        → w.db ≡ target
        → Ends (λ _ u. u.db ≡ target) E (log_account env audited id event payload w)
    unfolding log_account
    log_account-Ends true id event payload target w h =
        Ends-try _ _ w
          (Ends-Keeps (Framed (λ db. db) (λ db. db ≡ target) Anything) _ w
            (log_event-Framed (λ db. db) (λ db. db ≡ target) Anything env _)
            (record { seen = h; in_tx = tt }))
          (λ a u q. Ends-pure tt u q.seen) (λ e u q. Ends-pure tt u q.seen)
    log_account-Ends false id event payload target w h = Ends-pure tt w h
