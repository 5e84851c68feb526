-- ===== src/Accounts/Laws.antt =====
-- What the account service does on every path.
use payments_engine.Base.{
  ℕ, Bool, some, ◌≡◌, refl, ◌⊎◌, subst, sym, ap, ◌∙◌, inl, inr, nat_eq, text_eq,
}
use payments_engine.Error.{ok}
use payments_engine.Exec.Ends.{Ends, Ends-pure, Ends-lift, Ends-bind, Ends-weaken}
use payments_engine.Account.{Account, AccountStatus}
use payments_engine.Accounts.Service.{check_transition, update_account_status}
use payments_engine.Ledger.Repository.{find_account}
use payments_engine.Store.{Env}
use payments_engine.Store.Tables.{Db}
use payments_engine.World.{World}
use payments_engine.World.Pool.{IsLost, Ends-on_pool}
use payments_engine.Accounts.Restate.{
  check_transition-differs, check_transition-open, IsRestated, AreRestated, restate_all-AreRestated,
  get_account_by_id-Ends, Written, Lost, store_account_status-Ends, log_account-Ends,
}

module _ {D : Type 0} where
  restated :
      (env : Env) (v after : Db D) (id : ℕ) (next : AccountStatus) (was : Account D)
      (there : find_account id v.accounts ≡ some was)
      → check_transition was.status next ≡ ok tt
      → (b : Account D) → Written env v id next was there b after
      → IsRestated id next v b after
  restated env v after id next was there legal b h = record {
    was = was;
    found = there;
    differs = check_transition-differs was.status next legal;
    was_open = check_transition-open was.status next legal;
    known = h.0;
    row_eq = h.1;
    rows_eq =
        subst (λ (db : Db D). AreRestated id next v.accounts db.accounts) (sym h.2)
          (restate_all-AreRestated id next v.accounts);
    after_eq = h.2 ∙ ap (λ (db : Db D). record v { accounts = db.accounts }) (sym h.2);
  }

  IsRestated-Lost :
      (env : Env) (v after : Db D) (id : ℕ) (next : AccountStatus) (was : Account D)
      (there : find_account id v.accounts ≡ some was)
      → check_transition was.status next ≡ ok tt
      → Lost env v id next was there after
      → (after ≡ v) ⊎ IsLost env ((b : Account D) × IsRestated id next v b after)
  IsRestated-Lost env v after id next was there legal (inl same) = inl same
  IsRestated-Lost env v after id next was there legal (inr l) = inr (record {
    call = l.call;
    down = l.down;
    took = l.took;
    done = (l.done.0, restated env v after id next was there legal l.done.0 l.done.1);
  })

  -- UpdateAccountStatus on every path: when it returns an account, the account was there, in
  -- another status and not CLOSED, the new status is ACTIVE, FROZEN or CLOSED, what is returned is
  -- the row in that status with its version counted up, and the tables are those before with the
  -- status and the version of that row changed; when it returns an error, the tables are as before, or
  -- a call failed whose work was done and only its answer was lost, and the same change was made. A
  -- CLOSED account therefore stays CLOSED, and no balance changes.
  pub update_account_status-IsRestated :
      (env : Env) (audited : Bool) (id : ℕ) (next : AccountStatus) (w : World D)
      → Ends
          (λ b u. IsRestated id next w.db b u.db)
          (λ u. (u.db ≡ w.db) ⊎ IsLost env ((b : Account D) × IsRestated id next w.db b u.db))
          (update_account_status env audited id next w)
  unfolding update_account_status
  update_account_status-IsRestated env audited id next w =
      Ends-bind _ _ w
        (Ends-weaken
          (Ends-on_pool (λ a db. (find_account id w.db.accounts ≡ some a) × (db ≡ w.db))
            (λ db. db ≡ w.db) _ w (get_account_by_id-Ends env w.db id _ refl))
          (λ a u q. q) (λ u q. inl q))
        λ was w1 h1.
          Ends-lift (check_transition was.status next) _ w1
            (λ _ legal.
              Ends-bind _ _ w1
                (Ends-weaken
                  (Ends-on_pool (Written env w.db id next was h1.0) (Lost env w.db id next was h1.0)
                    _ w1 (store_account_status-Ends env w.db id next was h1.0 _ h1.1))
                  (λ b u q. q) (λ u q. IsRestated-Lost env w.db u.db id next was h1.0 legal q))
                λ b w2 h2.
                  Ends-bind _ _ w2 (log_account-Ends env w.db audited id _ _ _ w2 h2.2) λ _ w3 h3.
                    Ends-pure b w3
                      (restated env w.db w3.db id next was h1.0 legal b (h2.0, h2.1, h3)))
            (inl h1.1)
