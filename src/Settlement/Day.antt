-- ===== src/Settlement/Day.antt =====
-- The transfers of a day, and the tables with them reconciled.
use payments_engine.Base.{
  ℕ, Bool, true, List, [], ◌∷◌, Option, Text, ◌≡◌, refl, ap, arith, nat_eq, length, select,
  contains, All,
}
use payments_engine.Settlement.{ids_of}
use payments_engine.Settlement.Rows.{
  All-map, length-in_listed_order, contains-in_listed_order, selected_listed,
}
use payments_engine.Store.{Env}
use payments_engine.Store.Tables.{Db}
use payments_engine.Transaction.Repository.{update_rows}
use payments_engine.Transaction.Settled.{
  Location, settlement_day_bounds, settled_between, in_listed_order, is_one_of, set_status,
}
use payments_engine.Transaction.Status.{Transaction, settled, reconciled, status_beq}

module _ {D : Type 0} (p : Transaction D → Bool) (f : Transaction D → Transaction D) where
  pub update_rows_none :
      (rows : List (Transaction D)) → length (select p rows) ≡ 0 → update_rows p f rows ≡ rows
  update_rows_none [] h = refl
  update_rows_none (x ∷ xs) h = ground (arith, update_rows_none xs)

module _ {D : Type 0} (day : ℕ) (loc : Option Location) (currency : Text) where
  -- the transfers that settled on the day
  abbrev pub of_day : Transaction D → Bool
  of_day =
      settled_between (settlement_day_bounds day loc).0 (settlement_day_bounds day loc).1 currency

  abbrev pub day_transfers : Db D → List (Transaction D)
  day_transfers db = in_listed_order (select of_day db.transactions)

  -- the tables with the day's transfers reconciled, and nothing else changed
  abbrev pub reconciled_at : Env → ℕ → Db D → Db D
  reconciled_at env n db = record db {
    transactions = update_rows of_day (set_status env reconciled n) db.transactions;
  }

  pub nothing_settled :
      (env : Env) (n : ℕ) (db : Db D) → [] ≡ day_transfers db → reconciled_at env n db ≡ db
  nothing_settled env n db e =
      ap (λ (l : List (Transaction D)). record db { transactions = l })
        (update_rows_none of_day (set_status env reconciled n) db.transactions (
          omega (
            arith,
            length-in_listed_order (select of_day db.transactions),
            ap (length {A = Transaction D}) e,
          )))

  of_day-settled : (tx : Transaction D) → of_day tx ≡ true → status_beq tx.status settled ≡ true
  of_day-settled tx h = ground arith

  pub of_day-is_one_of :
      (db : Db D) (txs : List (Transaction D))
      → txs ≡ day_transfers db
      → All (λ x. of_day x ≡ true → is_one_of (ids_of txs) settled x ≡ true) db.transactions
  of_day-is_one_of db txs e =
      All-map _ _ db.transactions
        (λ x k h. ground (
          arith,
          k h,
          of_day-settled x h,
          contains-in_listed_order x.id (select of_day db.transactions),
          ap (λ (l : List (Transaction D)). contains x.id (ids_of l)) e,
        ))
        (selected_listed of_day db.transactions)

abbrev pub bulk_updated : {D : Type 0} → Env → List (Transaction D) → ℕ → Db D → Db D
bulk_updated env txs n db = record db {
  transactions =
      update_rows (is_one_of (ids_of txs) settled) (set_status env reconciled n) db.transactions;
}
