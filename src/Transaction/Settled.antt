-- ===== src/Transaction/Settled.antt =====
-- internal/transaction/repository.go: the bounds of a settlement day, the transfers that settled in
-- it, and the change of the status of many transfers at once.
pub mod Bounds
use payments_engine.Base.{
  ℕ, ◌+◌, ◌-◌, ◌%◌, Bool, false, ◌&&◌, ◌||◌, List, [], ◌∷◌, Option, none, some, Text, text, ◌==◌,
  nat_eq, text_eq, leb, ltb, contains, select, length, if◌then◌else◌,
}
use payments_engine.Base.Int.{ℤ, pos, pos_part, neg_part, eqb_ℤ}
use payments_engine.Error.{Result, ok}
use payments_engine.Exec.{Exec, pure, within}
use payments_engine.Store.{Env, Session, statement, query}
use payments_engine.Store.Tables.{Db}
use payments_engine.Transaction.Repository.{update_rows}
use payments_engine.Transaction.Status.{TxStatus, settled, Transaction, status_beq}

-- time.Location: how far the clocks are ahead of UTC at an instant. Times count microseconds, as the
-- columns do, from a midnight of UTC that lies before every time that occurs.
pub record Location : Type 0 where
  pub offset : ℕ → ℤ

abbrev pub utc : Location
utc = record { offset = λ t. pos 0 }

abbrev pub or_utc : Option Location → Location
or_utc none = utc
or_utc (some loc) = loc

-- twenty-four hours
abbrev pub day_length : ℕ
day_length = 86400000000

-- what the clocks show, and the instant at which clocks with this offset show it
abbrev pub ahead : ℕ → ℤ → ℕ
ahead t z = t + pos_part z - neg_part z

abbrev pub behind : ℕ → ℤ → ℕ
behind t z = t + neg_part z - pos_part z

-- time.Date of Go's library: the offset is looked up at the local time as if it were UTC, and again at
-- the instant which that gives.
abbrev pub date : Location → ℕ → ℕ
date loc shown =
    let guess = loc.offset shown in
    if eqb_ℤ guess (pos 0) then shown else behind shown (loc.offset (behind shown guess))

abbrev pub midnight_of : ℕ → ℕ
midnight_of shown = shown - shown % day_length

unfoldable pub settlement_day_bounds : ℕ → Option Location → ℕ × ℕ
settlement_day_bounds day loc =
    let zone = or_utc loc in
    let start = date zone (midnight_of (ahead day (zone.offset day))) in (start, start + day_length)

abbrev pub settled_within : ℕ → ℕ → Option ℕ → Bool
settled_within start end none = false
settled_within start end (some t) = leb start t && ltb t end

abbrev pub time_of : Option ℕ → ℕ
time_of none = 0
time_of (some t) = t

module _ {D : Type 0} where
  -- the WHERE clause of listSettledForSettlementDaySQL
  abbrev pub settled_between : ℕ → ℕ → Text → Transaction D → Bool
  settled_between start end currency tx =
      status_beq tx.status settled
      && (settled_within start end tx.settled_at && ((currency == []) || (tx.currency == currency)))

  -- ORDER BY settled_at, id
  abbrev pub listed_before : Transaction D → Transaction D → Bool
  listed_before a b =
      if time_of a.settled_at == time_of b.settled_at
      then leb a.id b.id
      else ltb (time_of a.settled_at) (time_of b.settled_at)

  abbrev pub insert_listed : Transaction D → List (Transaction D) → List (Transaction D)
  insert_listed tx [] = tx ∷ []
  insert_listed tx (x ∷ xs) = if listed_before tx x then tx ∷ x ∷ xs else x ∷ insert_listed tx xs

  abbrev pub in_listed_order : List (Transaction D) → List (Transaction D)
  in_listed_order [] = []
  in_listed_order (tx ∷ txs) = insert_listed tx (in_listed_order txs)

  unfoldable pub list_settled_between : Env → ℕ → ℕ → Text → Exec (Session D) (List (Transaction D))
  list_settled_between env start end currency = within (text "list settled for settlement day") (
      query env
        (λ db. ok (in_listed_order (select (settled_between start end currency) db.transactions))))

  unfoldable pub list_settled_for_settlement_day :
      Env → ℕ → Option Location → Text → Exec (Session D) (List (Transaction D))
  list_settled_for_settlement_day env day loc currency =
      let (start, end) = settlement_day_bounds day loc in
      list_settled_between env start end currency

  -- WHERE id = ANY($1) AND status = $2
  abbrev pub is_one_of : List ℕ → TxStatus → Transaction D → Bool
  is_one_of ids from tx = contains tx.id ids && status_beq tx.status from

  abbrev pub set_status : Env → TxStatus → ℕ → Transaction D → Transaction D
  set_status env to n tx = record tx { status = to; updated_at = env.now n }

  -- UPDATE transactions, with the number of rows that it changed
  abbrev pub store_statuses : Env → List ℕ → TxStatus → TxStatus → ℕ → Db D → Result ℕ × Db D
  store_statuses env ids from to n db = (
    ok (length (select (is_one_of ids from) db.transactions)),
    record db {
      transactions = update_rows (is_one_of ids from) (set_status env to n) db.transactions;
    },
  )

  -- BulkUpdateStatus, and BulkUpdateStatusTx on a transaction's connection
  unfoldable pub bulk_update_status : Env → List ℕ → TxStatus → TxStatus → Exec (Session D) ℕ
  bulk_update_status env [] from to = pure 0
  bulk_update_status env (i ∷ is) from to =
      within (text "bulk update status") (statement env (store_statuses env (i ∷ is) from to))
