-- ===== src/Entries/Atomic.antt =====
-- An entry is posted in full or not at all, wherever its database transaction fails.
use payments_engine.Base.{ℕ, true, ◌≡◌, refl, ◌⊎◌, inl, inr}
use payments_engine.Error.{Result, ok, err}
use payments_engine.Decimal.{Decimals}
use payments_engine.Entries.{insert_and_commit, insert_journal_entry, post_journal_entry}
use payments_engine.Exec.Success.{After-last}
use payments_engine.Exec.Ends.{
  Ends, Ends_ok, Ends_err, Ends-ok, Ends-err, Ends-pure, Ends-bind, Ends-lift, Ends-within,
  Ends-weaken,
}
use payments_engine.Ledger.Effect.{IsPosted, insert-After}
use payments_engine.Ledger.Entry.{JournalEntry}
use payments_engine.Ledger.Posting.{check_balanced}
use payments_engine.Store.{Env, Session}
use payments_engine.Store.Tables.{Db}
use payments_engine.Transfer.Frame.{rollback-Framed}
use payments_engine.Transfer.Moves.{
  ledger_of, In, Out, on_tx-Ends_at, begin_tx-Ends, commit_landed-Ends,
}
use payments_engine.World.{World, rollback, deferred, after_defer}

module _ {D : Type 0} ⦃o : Decimals D⦄ (env : Env) (entry : JournalEntry D) (before : Db D) where
  -- the ledger `after` is the ledger `before` with the entry posted under the id
  pub record HasEntry (id : ℕ) (after : Db D) : Type 0 where
    pub start : Session D
    pub end : Session D
    pub start_eq : ledger_of start.db ≡ before
    pub posted : IsPosted env entry start id end
    pub end_eq : after ≡ ledger_of end.db

  -- a commit that reported an error took effect all the same, and the entry is posted
  pub record IsLanded (after : Db D) : Type 0 where
    pub call : ℕ
    pub down : env.fails call ≡ true
    pub took : env.landed call ≡ true
    pub id : ℕ
    pub has : HasEntry id after

  abbrev pub NoneOrLanded : Db D → Type 0
  NoneOrLanded l = (l ≡ before) ⊎ IsLanded l

  abbrev Kept : World D → Type 0
  Kept = Out NoneOrLanded

  abbrev Made : ℕ → World D → Type 0
  Made id = Out (HasEntry id)

  insert_and_commit-Ends :
      (w : World D)
      → check_balanced entry ≡ ok tt
      → In NoneOrLanded (λ l. l ≡ before) w
      → Ends Made Kept (insert_and_commit env entry w)
  insert_and_commit-Ends w balanced h =
      Ends-bind _ _ w
        (on_tx-Ends_at NoneOrLanded (λ l. l ≡ before) HasEntry _ w h
          λ s e.
            After-last (insert-After env entry s balanced)
              λ id t p. record { start = s; end = t; start_eq = e; posted = p; end_eq = refl })
        λ id w1 h1.
          Ends-bind _ _ w1
            (Ends-within _ _ w1 (
              commit_landed-Ends NoneOrLanded env (HasEntry id) w1 h1 (λ n down took l p.
                inr (record { call = n; down = down; took = took; id = id; has = p }))))
            λ _ w2 h2. Ends-pure id w2 h2

  rolled_back :
      (x : Result ℕ × World D) → Ends Made Kept x → Ends Made Kept (after_defer x.0 (rollback x.1))
  rolled_back (ok a, s) h =
      Ends-ok a _ ((rollback-Framed ledger_of (HasEntry a)).kept s (Ends_ok a s h refl))
  rolled_back (err e, s) h =
      Ends-err e _ ((rollback-Framed ledger_of NoneOrLanded).kept s (Ends_err e s h refl))

  insert_journal_entry-Ends :
      (w : World D)
      → check_balanced entry ≡ ok tt
      → ledger_of w.db ≡ before
      → Ends Made Kept (insert_journal_entry env entry w)
  unfolding insert_journal_entry deferred
  insert_journal_entry-Ends w balanced h =
      Ends-bind _ _ w
        (Ends-within _ _ w (
          begin_tx-Ends NoneOrLanded env (λ l. l ≡ before) w (record { seen = inl h; in_tx = tt })
            h))
        λ _ w1 h1. rolled_back _ (insert_and_commit-Ends w1 balanced h1)

module _ {D : Type 0} ⦃o : Decimals D⦄ where
  -- PostJournalEntry on every path: when it returns an id, the committed accounts, entries and lines
  -- are those before with the entry posted in full under that id; when it returns an error, they are
  -- those before, or a commit failed that took effect all the same, and they are those with the entry
  -- posted in full.
  pub post_journal_entry-Ends :
      (env : Env) (entry : JournalEntry D) (w : World D)
      → Ends
          (λ id u. HasEntry env entry (ledger_of w.db) id (ledger_of u.db))
          (λ u. NoneOrLanded env entry (ledger_of w.db) (ledger_of u.db))
          (post_journal_entry env entry w)
  unfolding post_journal_entry
  post_journal_entry-Ends env entry w =
      Ends-lift (check_balanced entry) _ w
        (λ _ balanced.
          Ends-weaken (insert_journal_entry-Ends env entry (ledger_of w.db) w balanced refl)
            (λ _ u q. q.seen) (λ u q. q.seen))
        (inl refl)
