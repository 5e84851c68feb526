-- ===== src/Seed/Laws.antt =====
-- What the seeding leaves, and that it can be run again.
use payments_engine.Base.{
  ℕ, true, List, [], ◌∷◌, ◌≡◌, refl, subst, arith, ◌==◌, text_eq, All, ◌⊎◌, inl, inr, Bool-cases,
}
use payments_engine.Error.{ok}
use payments_engine.Decimal.{Decimals}
use payments_engine.Exec.Ends.{Ends, Ends_ok, Ends-pure, Ends-bind, Ends-within, Ends-weaken}
use payments_engine.Seed.{SeedAccount, base_coa, seed_all, seed}
use payments_engine.Seed.Grown.{Has, Grown, Grown-trans, Has-Grown, Any}
use payments_engine.Seed.Loops.{
  Looped, is_root, is_child, HasAll, seed_roots-Looped, seed_children-Looped, seed_roots-there,
  seed_children-there,
}
use payments_engine.Store.{Env, Session}
use payments_engine.Store.Tables.{Db}
use payments_engine.World.{World}
use payments_engine.World.Tx.{tx_begin, tx_step, tx_commit, rollback-Ends}

module _ {D : Type 0} ⦃o : Decimals D⦄ where
  -- `n` accounts were added to the table, and every account of the chart is there
  pub record IsSeeded (before : Db D) (n : ℕ) (after : Db D) : Type 0 where
    pub grown : Grown before n after
    pub all_there : HasAll base_coa after

  both_loops :
      (accounts : List SeedAccount) (v w : Db D) (k : ℕ)
      → Grown v k w
      → All (λ a. is_root a ≡ true → Has a.code v) accounts
      → All (λ a. is_child a ≡ true → Has a.code w) accounts
      → HasAll accounts w
  both_loops [] v w k g h l = tt
  both_loops (a ∷ rest) v w k g h l = (
    elim (Bool-cases (a.parent_code == [])) [
      | inl root ↦ Has-Grown a.code v w k g (h.0 root)
      | inr child ↦ l.0 (rw child refl)
    ],
    both_loops rest v w k g h.1 l.1,
  )

  IsSeeded-of :
      (u v w : Db D) (n m : ℕ)
      → Looped is_root u 0 base_coa n v
      → Looped is_child v n base_coa m w
      → IsSeeded u m w
  IsSeeded-of u v w n m h l = record {
    grown =
        subst (λ (k : ℕ). Grown u k w) (omega (arith, h.counted, l.counted))
          (Grown-trans u v w h.more l.more h.grown l.grown);
    all_there = both_loops base_coa v w l.more l.grown h.all_there l.all_there;
  }

  seed_all-IsSeeded :
      (env : Env) (s : Session D) (u : Db D)
      → s.db ≡ u
      → Ends (λ m (t : Session D). IsSeeded u m t.db) Any (seed_all env s)
  seed_all-IsSeeded env s u e = Ends-bind _ _ s (seed_roots-Looped env base_coa 0 s u e) (λ n t h.
      Ends-weaken (seed_children-Looped env base_coa n t t.db refl)
        (λ m t' l. IsSeeded-of u t.db t'.db n m h l) (λ t' q. q))

  pub seed-IsSeeded :
      (env : Env) (w : World D)
      → Ends
          (λ n (u : World D). IsSeeded w.db n u.db)
          (λ u. (u.db ≡ w.db) ⊎ ((n : ℕ) × IsSeeded w.db n u.db))
          (seed env w)
  unfolding seed
  seed-IsSeeded env w =
      let cause : (n : ℕ) → env.fails n ≡ true → Unit {0} = λ _ _. tt in
      let P : Db D → Type 0 = λ db. (db ≡ w.db) ⊎ ((n : ℕ) × IsSeeded w.db n db) in
      Ends-weaken
        (Ends-bind _ _ w (Ends-within _ _ w (tx_begin env (Unit {0}) cause P w (inl refl)))
          (λ _ w1 h.
            rollback-Ends (λ n db. IsSeeded w.db n db) (λ db. Unit {0} × P db) _ w1
              (Ends-bind _ _ w1
                (tx_step env (Unit {0}) cause P (λ v. v ≡ w.db) (λ m v. IsSeeded w.db m v) _ w1 h
                  (λ s e. seed_all-IsSeeded env s w.db e))
                (λ n w2 h2.
                  Ends-bind _ _ w2
                    (Ends-within _ _ w2 (
                      tx_commit env (Unit {0}) cause P (λ v. IsSeeded w.db n v) w2 h2
                        (λ db q. inr (n, q))))
                    (λ _ u q. Ends-pure n u q)))))
        (λ n u q. q) (λ u q. q.1)

  seed_all-there :
      (env : Env) (s : Session D) (u : Db D)
      → s.db ≡ u
      → HasAll base_coa u
      → Ends (λ m (t : Session D). (m ≡ 0) × (t.db ≡ u)) Any (seed_all env s)
  seed_all-there env s u e h =
      Ends-bind _ _ s (seed_roots-there env base_coa 0 s u e h)
        (λ n t q. rw q.0 (seed_children-there env base_coa 0 t u q.1 h))

  there_run :
      (env : Env) (w : World D)
      → HasAll base_coa w.db
      → Ends (λ n (u : World D). (n ≡ 0) × (u.db ≡ w.db)) (λ u. u.db ≡ w.db) (seed env w)
  unfolding seed
  there_run env w h =
      let cause : (n : ℕ) → env.fails n ≡ true → Unit {0} = λ _ _. tt in
      let P : Db D → Type 0 = λ db. db ≡ w.db in
      Ends-weaken
        (Ends-bind _ _ w (Ends-within _ _ w (tx_begin env (Unit {0}) cause P w refl)) (λ _ w1 h1.
          rollback-Ends (λ n db. (n ≡ 0) × (db ≡ w.db)) (λ db. Unit {0} × P db) _ w1
            (Ends-bind _ _ w1
              (tx_step env (Unit {0}) cause P P (λ m v. (m ≡ 0) × (v ≡ w.db)) _ w1 h1
                (λ s e. seed_all-there env s w.db e h))
              (λ n w2 h2.
                Ends-bind _ _ w2
                  (Ends-within _ _ w2 (
                    tx_commit env (Unit {0}) cause P (λ v. (n ≡ 0) × (v ≡ w.db)) w2 h2
                      (λ db q. q.1)))
                  (λ _ u q. Ends-pure n u q)))))
        (λ n u q. q) (λ u q. q.1)

  -- After a seeding that ended well, a second one adds nothing and changes no table, whatever it
  -- returns and whatever fails.
  pub seed_again :
      (env again : Env) (w u : World D) (n : ℕ)
      → seed env w ≡ (ok n, u)
      → Ends (λ m (v : World D). (m ≡ 0) × (v.db ≡ u.db)) (λ v. v.db ≡ u.db) (seed again u)
  seed_again env again w u n e = there_run again u (Ends_ok n u (seed-IsSeeded env w) e).all_there
