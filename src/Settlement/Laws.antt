-- ===== src/Settlement/Laws.antt =====
-- What a run of the settlement does, what a second run does, and when a run returns.
use payments_engine.Base.{
  ℕ, true, false, List, [], ◌∷◌, Option, Text, ◌≡◌, refl, sym, ap, ◌∙◌, arith, length, select, ◌⊎◌,
  inl, inr,
}
use payments_engine.Error.{Result, ok, err}
use payments_engine.Decimal.{Decimals}
use payments_engine.Exec.Ends.{Ends, Ends_ok, Ends_err, Ends-weaken}
use payments_engine.Netting.{net_positions, collect_nets}
use payments_engine.Settlement.{NettingResult, ids_of, netting_result, run_daily_netting}
use payments_engine.Settlement.Rows.{
  All-map, length-in_listed_order, contains-in_listed_order, IsUnique, listed_selected,
  length-select_agree,
}
use payments_engine.Settlement.Day.{
  of_day, day_transfers, reconciled_at, nothing_settled, of_day-is_one_of,
}
use payments_engine.Settlement.Run.{run-Ends}
use payments_engine.Store.{Env}
use payments_engine.Store.Tables.{Db}
use payments_engine.Transaction.Repository.{update_rows}
use payments_engine.Transaction.Settled.{Location, in_listed_order, is_one_of, set_status}
use payments_engine.Transaction.Status.{Transaction, settled, reconciled}
use payments_engine.World.{World}

down_and_up : true ≡ false → ⊥
down_and_up h = cc

module _ {D : Type 0} ⦃o : Decimals D⦄ where
  -- The result is about the day's transfers before the run, and the tables after it are those before
  -- with exactly these transfers RECONCILED.
  pub record IsReconciled (env : Env) (day : ℕ) (loc : Option Location) (currency : Text)
      (before : Db D) (res : NettingResult D) (after : Db D) : Type 0 where
    pub call : ℕ
    pub counted :
        res.reconciled_count ≡ length (select (of_day day loc currency) before.transactions)
    pub netted : res.positions ≡ net_positions (day_transfers day loc currency before)
    pub after_eq : after ≡ reconciled_at day loc currency env call before

  reported :
      (env : Env) (day : ℕ) (loc : Option Location) (currency : Text) (before after : Db D)
      (res : NettingResult D) (call : ℕ)
      → res ≡ netting_result day loc currency (day_transfers day loc currency before)
      → after ≡ reconciled_at day loc currency env call before
      → IsReconciled env day loc currency before res after
  reported env day loc currency before after res call e k = record {
    call = call;
    counted =
        ap (λ (r : NettingResult D). r.reconciled_count) e
        ∙ length-in_listed_order (select (of_day day loc currency) before.transactions);
    netted = ap (λ (r : NettingResult D). r.positions) e;
    after_eq = k;
  }

  pub run_daily_netting-IsReconciled :
      (env : Env) (day : ℕ) (loc : Option Location) (currency : Text) (w : World D)
      → Ends
          (λ r (u : World D). IsReconciled env day loc currency w.db r u.db)
          (λ u.
            (u.db ≡ w.db) ⊎ ((call : ℕ) × (u.db ≡ reconciled_at day loc currency env call w.db)))
          (run_daily_netting env day loc currency w)
  run_daily_netting-IsReconciled env day loc currency w =
      Ends-weaken (run-Ends env day loc currency (Unit {0}) (λ _ _. tt) w.db w refl (inr tt))
        (λ r u q. reported env day loc currency w.db u.db r q.1.0 q.0 q.1.1) (λ u q. q.1)

  nothing_left :
      (env : Env) (day : ℕ) (loc : Option Location) (currency : Text) (call : ℕ)
      (rows : List (Transaction D))
      → select
          (of_day day loc currency)
          (update_rows (of_day day loc currency) (set_status env reconciled call) rows)
        ≡ []
  nothing_left env day loc currency call [] = refl
  nothing_left env day loc currency call (tx ∷ txs) =
      ground (arith, nothing_left env day loc currency call txs)

  after_a_run :
      (env : Env) (day : ℕ) (loc : Option Location) (currency : Text) (call : ℕ)
      (before after : Db D)
      → after ≡ reconciled_at day loc currency env call before
      → day_transfers day loc currency after ≡ []
  after_a_run env day loc currency call before after e =
      ap (day_transfers day loc currency) e
      ∙ ap in_listed_order (nothing_left env day loc currency call before.transactions)

  nothing_netted : net_positions {D = D} [] ≡ []
  unfolding net_positions collect_nets
  nothing_netted = refl

  unchanged :
      (env : Env) (day : ℕ) (loc : Option Location) (currency : Text) (before after : Db D)
      → [] ≡ day_transfers day loc currency before
      → (after ≡ before) ⊎ ((n : ℕ) × (after ≡ reconciled_at day loc currency env n before))
      → after ≡ before
  unchanged env day loc currency before after e (inl q) = q
  unchanged env day loc currency before after e (inr (n, q)) =
      q ∙ nothing_settled day loc currency env n before e

  -- A second run for a day changes nothing: after a run that returned, a run for the same day,
  -- location and currency on the tables that it left, in whatever environment, leaves the tables as
  -- they are on every path, and when it returns, it reports no transfer and no position.
  pub run_daily_netting_again :
      (env again : Env) (day : ℕ) (loc : Option Location) (currency : Text) (w u v : World D)
      (r : NettingResult D)
      → run_daily_netting env day loc currency w ≡ (ok r, u)
      → v.db ≡ u.db
      → Ends
          (λ s (x : World D). (s.reconciled_count ≡ 0) × (s.positions ≡ []) × (x.db ≡ v.db))
          (λ x. x.db ≡ v.db)
          (run_daily_netting again day loc currency v)
  run_daily_netting_again env again day loc currency w u v r e same =
      let first = Ends_ok r u (run_daily_netting-IsReconciled env day loc currency w) e in
      let empty : [] ≡ day_transfers day loc currency v.db =
        sym (after_a_run env day loc currency first.call w.db v.db (same ∙ first.after_eq)) in
      Ends-weaken (run-Ends again day loc currency (Unit {0}) (λ _ _. tt) v.db v refl (inr tt))
        (λ s x q. (
          ap (λ (n : NettingResult D). n.reconciled_count) q.0 ∙ ap length (sym empty),
          ap (λ (n : NettingResult D). n.positions) q.0
              ∙ ap net_positions (sym empty)
              ∙ nothing_netted,
          q.1.1 ∙ nothing_settled day loc currency again q.1.0 v.db empty,
        ))
        (λ x q. unchanged again day loc currency v.db x.db empty q.1)

  -- With the primary key the update by ids finds the day's transfers and no others.
  counted_rows :
      (day : ℕ) (loc : Option Location) (currency : Text) (db : Db D)
      → IsUnique db.transactions
      → length
          (select (is_one_of (ids_of (day_transfers day loc currency db)) settled) db.transactions)
        ≡ length (day_transfers day loc currency db)
  counted_rows day loc currency db u =
      length-select_agree (of_day day loc currency) _ db.transactions
        (of_day-is_one_of day loc currency db (day_transfers day loc currency db) refl)
        (All-map _ _ db.transactions
          (λ x k h. k (
            ground (
              arith,
              h,
              contains-in_listed_order x.id (select (of_day day loc currency) db.transactions),
            )))
          (listed_selected (of_day day loc currency) db.transactions u))
      ∙ sym (length-in_listed_order (select (of_day day loc currency) db.transactions))

  returned :
      {A : Type 0} (Q : A → World D → Type 0) (R : World D → Type 0) (x : Result A × World D)
      → Ends Q (λ u. ⊥ × R u) x
      → (a : A) × (u : World D) × (x ≡ (ok a, u)) × Q a u
  returned Q R (ok a, u) h = (a, u, refl, Ends_ok a u h refl)
  returned Q R (err e, u) h = absurd (Ends_err e u h refl).0

  -- When no call fails and no two transfers have one id, a run of the settlement returns a result,
  -- and it has reconciled the day's transfers.
  pub run_daily_netting_returns :
      (env : Env) (day : ℕ) (loc : Option Location) (currency : Text) (w : World D)
      → ((n : ℕ) → env.fails n ≡ false)
      → IsUnique w.db.transactions
      → (r : NettingResult D) × (u : World D) × (run_daily_netting env day loc currency w
          ≡ (ok r, u))
        × IsReconciled env day loc currency w.db r u.db
  run_daily_netting_returns env day loc currency w calm unique = returned _ _ _ (
      Ends-weaken
        (run-Ends env day loc currency ⊥ (λ n down. down_and_up (sym down ∙ calm n)) w.db w refl
          (inl (counted_rows day loc currency w.db unique)))
        (λ r u q. reported env day loc currency w.db u.db r q.1.0 q.0 q.1.1) (λ u q. q))
