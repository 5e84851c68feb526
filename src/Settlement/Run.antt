-- ===== src/Settlement/Run.antt =====
-- A run of the settlement on every path: which transfers it reconciles, what it reports, and what it
-- leaves when it fails.
use payments_engine.Base.{
  ℕ, true, false, List, [], ◌∷◌, Option, Text, ◌≡◌, refl, sym, ap, subst, ◌∙◌, arith, ◌==◌, nat_eq,
  nat_beq_iff, length, select, ◌⊎◌, inl, inr,
}
use payments_engine.Decimal.{Decimals}
use payments_engine.Exec.Ends.{Ends, Ends-pure, Ends-bind, Ends-within, Ends-weaken, Ends-require}
use payments_engine.Settlement.{
  NettingResult, ids_of, mark_reconciled, netting_result, net_and_mark, run_daily_netting,
}
use payments_engine.Settlement.Rows.{length-in_listed_order, update_rows_agree}
use payments_engine.Store.{Env, Session}
use payments_engine.Store.Tables.{Db}
use payments_engine.Transaction.Settled.{
  Location, list_settled_between, list_settled_for_settlement_day, is_one_of, set_status,
  bulk_update_status,
}
use payments_engine.Transaction.Status.{Transaction, settled, reconciled}
use payments_engine.World.{World}
use payments_engine.World.Tx.{
  Inside, Broken, query-Ends, statement-Ends, tx_begin, tx_step, tx_commit, rollback-Ends,
}
use payments_engine.Settlement.Day.{
  bulk_updated, day_transfers, nothing_settled, of_day, of_day-is_one_of, reconciled_at,
}

-- `X` holds where a run may report an error.
module _ {D : Type 0} ⦃o : Decimals D⦄ (env : Env) (day : ℕ) (loc : Option Location)
    (currency : Text) (X : Type 0) (cause : (n : ℕ) → env.fails n ≡ true → X) (before : Db D) where
  abbrev Settled : Db D → Type 0
  Settled db = (n : ℕ) × (db ≡ reconciled_at day loc currency env n before)

  abbrev NoneOrAll : Db D → Type 0
  NoneOrAll db = (db ≡ before) ⊎ Settled db

  abbrev Stopped : World D → Type 0
  Stopped = Broken env X cause NoneOrAll

  listed :
      (s : Session D)
      → s.db ≡ before
      → Ends
          (λ txs (t : Session D). (txs ≡ day_transfers day loc currency before) × (t.db ≡ before))
          (λ _. X)
          (list_settled_for_settlement_day env day loc currency s)
  unfolding list_settled_for_settlement_day list_settled_between
  listed s e = Ends-within _ _ s (
      Ends-weaken (query-Ends env X cause (day_transfers day loc currency) s)
        (λ txs t q. (q.0 ∙ ap (day_transfers day loc currency) e, q.1 ∙ e)) (λ t x. x))

  -- what the update of all ids has changed, and how many rows it reports
  abbrev Updated : List (Transaction D) → ℕ → Db D → Type 0
  Updated txs m db =
      (m ≡ length (select (is_one_of (ids_of txs) settled) before.transactions))
      × (n : ℕ) × (db ≡ bulk_updated env txs n before)

  updated :
      (tx : Transaction D) (txs : List (Transaction D)) (s : Session D)
      → s.db ≡ before
      → Ends
          (λ m (t : Session D). Updated (tx ∷ txs) m t.db)
          (λ _. X)
          (bulk_update_status env (ids_of (tx ∷ txs)) settled reconciled s)
  unfolding bulk_update_status
  updated tx txs s e = Ends-within _ _ s (
      Ends-weaken
        (statement-Ends env X cause
          (λ n db. length (select (is_one_of (ids_of (tx ∷ txs)) settled) db.transactions))
          (λ n db. bulk_updated env (tx ∷ txs) n db) s)
        (λ m t q. (
          q.0
              ∙ ap
                  (λ (db : Db D).
                    length (select (is_one_of (ids_of (tx ∷ txs)) settled) db.transactions))
                  e,
          s.calls,
          q.1 ∙ ap (bulk_updated env (tx ∷ txs) s.calls) e,
        ))
        (λ t x. x))

  -- as many rows changed as there are transfers of the day: it is these that changed
  exactly :
      (txs : List (Transaction D)) (m : ℕ) (w : World D)
      → txs ≡ day_transfers day loc currency before
      → (m == length txs) ≡ true
      → Inside env X cause NoneOrAll (Updated txs m) w
      → Inside env X cause NoneOrAll Settled w
  exactly txs m w e counted h = record {
    seen = h.seen;
    view = h.view;
    is_open = h.is_open;
    holds = (
      h.holds.1,
      h.holds.2
          ∙ ap (λ (l : List (Transaction D)). record before { transactions = l })
              (update_rows_agree (of_day day loc currency) (is_one_of (ids_of txs) settled)
                (set_status env reconciled h.holds.1) before.transactions
                (of_day-is_one_of day loc currency before txs e)
                (omega (
                  arith,
                  h.holds.0,
                  (nat_beq_iff m (length txs)).0 counted,
                  ap (length {A = Transaction D}) e,
                  length-in_listed_order (select (of_day day loc currency) before.transactions),
                ))),
    );
  }

  uncounted :
      (txs : List (Transaction D)) (m : ℕ) (w : World D)
      → (length (select (is_one_of (ids_of txs) settled) before.transactions) ≡ length txs) ⊎ X
      → (m == length txs) ≡ false
      → Inside env X cause NoneOrAll (Updated txs m) w
      → X
  uncounted txs m w (inr x) differs h = x
  uncounted txs m w (inl c) differs h =
      absurd (ground (arith, nat_beq_iff m (length txs), h.holds.0, c))

  mark_reconciled-Ends :
      (txs : List (Transaction D)) (res : NettingResult D) (w : World D)
      → txs ≡ day_transfers day loc currency before
      → (length (select (is_one_of (ids_of txs) settled) before.transactions) ≡ length txs) ⊎ X
      → Inside env X cause NoneOrAll (λ v. v ≡ before) w
      → Ends (λ r (u : World D). (r ≡ res) × Settled u.db) Stopped (mark_reconciled env txs res w)
  unfolding mark_reconciled
  mark_reconciled-Ends [] res w e c h =
      Ends-bind _ _ w
        (Ends-within _ _ w (tx_commit env X cause NoneOrAll (λ v. v ≡ before) w h (λ db q. inl q)))
        λ _ u q.
          Ends-pure res u (refl, (0, q ∙ sym (nothing_settled day loc currency env 0 before e)))
  mark_reconciled-Ends (tx ∷ txs) res w e c h =
      Ends-bind _ _ w
        (tx_step env X cause NoneOrAll (λ v. v ≡ before) (Updated (tx ∷ txs)) _ w h
          (updated tx txs))
        λ m w1 h1.
          Ends-require (m == length (tx ∷ txs)) _ _ w1
            (λ counted.
              Ends-bind _ _ w1
                (Ends-within _ _ w1 (
                  tx_commit env X cause NoneOrAll Settled w1 (exactly (tx ∷ txs) m w1 e counted h1)
                    (λ db q. inr q)))
                λ _ u q. Ends-pure res u (refl, q))
            (λ differs. (uncounted (tx ∷ txs) m w1 c differs h1, h1.seen))

  -- the update by ids changes as many rows as the day has transfers
  abbrev Counted : Type 0
  Counted =
      length (
        select (is_one_of (ids_of (day_transfers day loc currency before)) settled)
          before.transactions)
      ≡ length (day_transfers day loc currency before)

  counted_for :
      (txs : List (Transaction D))
      → day_transfers day loc currency before ≡ txs
      → Counted ⊎ X
      → (length (select (is_one_of (ids_of txs) settled) before.transactions) ≡ length txs) ⊎ X
  counted_for txs e c =
      subst
        (λ (l : List (Transaction D)).
          (length (select (is_one_of (ids_of l) settled) before.transactions) ≡ length l) ⊎ X)
        e c

  abbrev pub Reports : NettingResult D → Type 0
  Reports r = r ≡ netting_result day loc currency (day_transfers day loc currency before)

  net_and_mark-Ends :
      (w : World D)
      → Counted ⊎ X
      → Inside env X cause NoneOrAll (λ v. v ≡ before) w
      → Ends
          (λ r (u : World D). Reports r × Settled u.db)
          Stopped
          (net_and_mark env day loc currency w)
  net_and_mark-Ends w c h =
      Ends-bind _ _ w
        (tx_step env X cause NoneOrAll (λ v. v ≡ before)
          (λ txs v. (txs ≡ day_transfers day loc currency before) × (v ≡ before)) _ w h listed)
        λ txs w1 h1.
          Ends-weaken
            (mark_reconciled-Ends txs (netting_result day loc currency txs) w1 h1.holds.0
              (counted_for txs (sym h1.holds.0) c)
              (record { seen = h1.seen; view = h1.view; is_open = h1.is_open; holds = h1.holds.1 }))
            (λ r u q. (q.0 ∙ ap (netting_result day loc currency) h1.holds.0, q.1)) (λ u q. q)

  pub run-Ends :
      (w : World D)
      → w.db ≡ before
      → Counted ⊎ X
      → Ends
          (λ r (u : World D). Reports r × Settled u.db)
          Stopped
          (run_daily_netting env day loc currency w)
  unfolding run_daily_netting
  run-Ends w e c =
      Ends-bind _ _ w
        (Ends-within _ _ w (
          Ends-weaken (tx_begin env X cause NoneOrAll w (inl e))
            (λ _ u q. record {
              seen = q.seen;
              view = q.view;
              is_open = q.is_open;
              holds = q.holds ∙ e;
            })
            (λ u q. q)))
        λ _ w1 h1.
          rollback-Ends (λ r db. Reports r × Settled db) (λ db. X × NoneOrAll db) _ w1
            (net_and_mark-Ends w1 c h1)
