-- ===== src/Seed/Grown.antt =====
-- Tables to which accounts were added, and what ensureAccount adds.
use payments_engine.Base.{
  ℕ, ◌+◌, Bool, true, false, List, [], ◌∷◌, ◌++◌, Text, ◌≡◌, refl, sym, ap, subst, ◌∙◌, arith,
  text_eq, nat_eq, length, length-append, All, inl, inr, Bool-cases, Option-cases, ==_refl,
}
use payments_engine.Base.Int.{pos}
use payments_engine.Decimal.{Decimals}
use payments_engine.Exec.{pure, lift, try, ◌>>=◌}
use payments_engine.Exec.Ends.{Ends, Ends-ok, Ends-err, Ends-pure, Ends-bind}
use payments_engine.Account.{Account}
use payments_engine.Accounts.Service.{account_error}
use payments_engine.Seed.{
  SeedAccount, count, parent_of, account_exists_by_code, get_account_id_by_code, parent_error,
  seeded_row, insert_account, insert_unless, ensure_account,
}
use payments_engine.Store.{Env, Session, statement, query}
use payments_engine.Store.Tables.{Db}
use payments_engine.Transaction.Repository.{exists, find_by_code}
use mathlib.Core.List.{append_assoc}

module _ {D : Type 0} where
  -- there is an account with the code
  abbrev pub Has : Text → Db D → Type 0
  Has code db = exists (find_by_code code db.accounts) ≡ true

  found-append :
      (code : Text) (rows accounts : List (Account D))
      → exists (find_by_code code accounts) ≡ true
      → exists (find_by_code code (rows ++ accounts)) ≡ true
  found-append code [] accounts h = h
  found-append code (r ∷ rs) accounts h = ground (arith, found-append code rs accounts)

module _ {D : Type 0} ⦃o : Decimals D⦄ where
  -- `k` accounts with nothing on them were added, and nothing else changed
  pub record Grown (before : Db D) (k : ℕ) (after : Db D) : Type 0 where
    pub rows : List (Account D)
    pub after_eq : after ≡ record before { accounts = rows ++ before.accounts }
    pub size : length rows ≡ k
    pub empty : All (λ a. o.units a.balance ≡ pos 0) rows

  pub Grown-refl : (db : Db D) → Grown db 0 db
  Grown-refl db = record { rows = []; after_eq = refl; size = refl; empty = tt }

  All-append :
      (P : Account D → Type 0) (rs ss : List (Account D)) → All P rs → All P ss → All P (rs ++ ss)
  All-append P [] ss h k = k
  All-append P (r ∷ rs) ss h k = (h.0, All-append P rs ss h.1 k)

  pub Grown-trans : (u v w : Db D) (k l : ℕ) → Grown u k v → Grown v l w → Grown u (k + l) w
  Grown-trans u v w k l g h = record {
    rows = h.rows ++ g.rows;
    after_eq =
        h.after_eq
        ∙ ap (λ (b : Db D). record b { accounts = h.rows ++ b.accounts }) g.after_eq
        ∙ ap (λ (a : List (Account D)). record u { accounts = a })
            (sym (append_assoc h.rows g.rows u.accounts));
    size = omega (arith, length-append h.rows g.rows, g.size, h.size);
    empty = All-append (λ a. o.units a.balance ≡ pos 0) h.rows g.rows h.empty g.empty;
  }

  pub Has-Grown : (code : Text) (u v : Db D) (k : ℕ) → Grown u k v → Has code u → Has code v
  Has-Grown code u v k g h =
      subst (Has code) (sym g.after_eq) (found-append code g.rows u.accounts h)

  -- a statement that may fail, in which case the transaction ends
  abbrev pub Any : Session D → Type 0
  Any _ = Unit

  exists_by_code-Ends :
      (env : Env) (code : Text) (s : Session D)
      → Ends
          (λ b (t : Session D). (b ≡ exists (find_by_code code s.db.accounts)) × (t.db ≡ s.db))
          Any
          (account_exists_by_code env code s)
  unfolding account_exists_by_code query statement ◌>>=◌ try lift
  exists_by_code-Ends env code s = elim (Bool-cases (env.fails s.calls)) [
    | inl down ↦ rw down (Ends-err _ _ tt)
    | inr up ↦ elim (Option-cases (find_by_code code s.db.accounts)) [
      | inl missing ↦ rw (up, missing) (Ends-ok _ _ (refl, refl))
      | inr there ↦ rw (up, there.1) (Ends-ok _ _ (refl, refl))
    ]
  ]

  pub id_by_code-Ends :
      (env : Env) (code : Text) (s : Session D)
      → Ends (λ _ (t : Session D). t.db ≡ s.db) Any (get_account_id_by_code env code s)
  unfolding get_account_id_by_code query statement ◌>>=◌ pure
  id_by_code-Ends env code s = elim (Bool-cases (env.fails s.calls)) [
    | inl down ↦ rw down (Ends-err _ _ tt)
    | inr up ↦ elim (Option-cases (find_by_code code s.db.accounts)) [
      | inl missing ↦ rw (up, missing) (Ends-err _ _ tt)
      | inr there ↦ rw (up, there.1) (Ends-ok _ _ refl)
    ]
  ]

  added :
      (env : Env) (a : SeedAccount) (parent_id n : ℕ) (db : Db D)
      → Grown db 1 (record db { accounts = seeded_row env a parent_id n ∷ db.accounts })
  added env a parent_id n db = record {
    rows = seeded_row env a parent_id n ∷ [];
    after_eq = refl;
    size = refl;
    empty = (o.column_zero ∙ o.units_zero_value, tt);
  }

  insert-Ends :
      (env : Env) (a : SeedAccount) (parent_id : ℕ) (s : Session D)
      → Ends
          (λ _ (t : Session D). Grown s.db 1 t.db × Has a.code t.db)
          Any
          (insert_account env a parent_id s)
  unfolding insert_account statement
  insert-Ends env a parent_id s = elim (Bool-cases (env.fails s.calls)) [
    | inl down ↦ rw down (Ends-err _ _ tt)
    | inr up ↦
        elim (Option-cases
          (account_error s.calls (env.fresh s.calls) (seeded_row env a parent_id s.calls) s.db)) [
            | inr bad ↦ rw (up, bad.1) (Ends-err _ _ tt)
            | inl free ↦ elim (Option-cases (parent_error s.calls (parent_of parent_id) s.db)) [
              | inr orphan ↦ rw (up, free, orphan.1) (Ends-err _ _ tt)
              | inl fine ↦
                  rw (up, free, fine)
                    (Ends-ok _ _ (added env a parent_id s.calls s.db, rw (==_refl a.code) refl))
            ]
          ]
  ]

  unless_there :
      (env : Env) (a : SeedAccount) (parent_id : ℕ) (b : Bool) (s : Session D)
      → b ≡ exists (find_by_code a.code s.db.accounts)
      → Ends
          (λ did (t : Session D). Grown s.db (count did 0) t.db × Has a.code t.db)
          Any
          (insert_unless env a parent_id b s)
  unless_there env a parent_id true s h = Ends-pure false s (Grown-refl s.db, sym h)
  unless_there env a parent_id false s h =
      Ends-bind _ _ s (insert-Ends env a parent_id s) (λ _ t q. Ends-pure true t q)

  insert_unless-Ends :
      (env : Env) (a : SeedAccount) (parent_id : ℕ) (b : Bool) (s : Session D) (u : Db D)
      → s.db ≡ u
      → b ≡ exists (find_by_code a.code u.accounts)
      → Ends
          (λ did (t : Session D). Grown u (count did 0) t.db × Has a.code t.db)
          Any
          (insert_unless env a parent_id b s)
  insert_unless-Ends env a parent_id b s u e =
      subst
        (λ (v : Db D).
          b ≡ exists (find_by_code a.code v.accounts)
          → Ends (λ did (t : Session D). Grown v (count did 0) t.db × Has a.code t.db) Any
              (insert_unless env a parent_id b s))
        e (unless_there env a parent_id b s)

  -- after ensureAccount there is an account with the code
  pub ensure-Ends :
      (env : Env) (a : SeedAccount) (parent_id : ℕ) (s : Session D) (u : Db D)
      → s.db ≡ u
      → Ends
          (λ did (t : Session D). Grown u (count did 0) t.db × Has a.code t.db)
          Any
          (ensure_account env a parent_id s)
  unfolding ensure_account
  ensure-Ends env a parent_id s u e = Ends-bind _ _ s (exists_by_code-Ends env a.code s) (λ b t q.
      insert_unless-Ends env a parent_id b t u (q.1 ∙ e)
        (q.0 ∙ ap (λ (v : Db D). exists (find_by_code a.code v.accounts)) e))

  -- where there is one, it does nothing
  pub ensure-there :
      (env : Env) (a : SeedAccount) (parent_id : ℕ) (s : Session D)
      → Has a.code s.db
      → Ends
          (λ did (t : Session D). (did ≡ false) × (t.db ≡ s.db))
          Any
          (ensure_account env a parent_id s)
  unfolding ensure_account
  ensure-there env a parent_id s h =
      Ends-bind _ _ s (exists_by_code-Ends env a.code s)
        (λ b t q. rw (q.0 ∙ h) (Ends-pure false t (refl, q.1)))
