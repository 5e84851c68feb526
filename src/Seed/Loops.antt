-- ===== src/Seed/Loops.antt =====
-- What the two loops of the seeding add, and that they add nothing where every account is there.
use payments_engine.Base.{
  ℕ, ◌+◌, Bool, true, false, not, List, [], ◌∷◌, ◌≡◌, refl, sym, subst, ◌∙◌, arith, ◌==◌, text_eq,
  nat_eq, All, inl, inr, Bool-cases,
}
use payments_engine.Decimal.{Decimals}
use payments_engine.Exec.Ends.{Ends, Ends-pure, Ends-bind, Ends-within, Ends-weaken}
use payments_engine.Seed.Grown.{
  Has, Grown, Grown-refl, Grown-trans, Has-Grown, Any, id_by_code-Ends, ensure-Ends, ensure-there,
}
use payments_engine.Seed.{SeedAccount, count, seed_roots, seed_children}
use payments_engine.Store.{Env, Session}
use payments_engine.Store.Tables.{Db}

abbrev pub is_root : SeedAccount → Bool
is_root a = a.parent_code == []

abbrev pub is_child : SeedAccount → Bool
is_child a = not (a.parent_code == [])

module _ {D : Type 0} ⦃o : Decimals D⦄ where
  -- What a loop has done when it has counted `m` rows, from `n` on: every account of the list that the
  -- loop does not skip is there.
  pub record Looped (picks : SeedAccount → Bool) (u : Db D) (n : ℕ) (accounts : List SeedAccount)
      (m : ℕ) (v : Db D) : Type 0 where
    pub more : ℕ
    pub counted : m ≡ n + more
    pub grown : Grown u more v
    pub all_there : All (λ a. picks a ≡ true → Has a.code v) accounts

  Looped-end : (picks : SeedAccount → Bool) (u : Db D) (n : ℕ) → Looped picks u n [] n u
  Looped-end picks u n = record {
    more = 0;
    counted = omega arith;
    grown = Grown-refl u;
    all_there = tt;
  }

  Looped-skip :
      (picks : SeedAccount → Bool) (u v : Db D) (n m : ℕ) (a : SeedAccount)
      (rest : List SeedAccount)
      → picks a ≡ false
      → Looped picks u n rest m v
      → Looped picks u n (a ∷ rest) m v
  Looped-skip picks u v n m a rest h l = record {
    more = l.more;
    counted = l.counted;
    grown = l.grown;
    all_there = (λ k. absurd (cc), l.all_there);
  }

  Looped-step :
      (picks : SeedAccount → Bool) (u v w : Db D) (n m : ℕ) (did : Bool) (a : SeedAccount)
      (rest : List SeedAccount)
      → Grown u (count did 0) v
      → Has a.code v
      → Looped picks v (count did n) rest m w
      → Looped picks u n (a ∷ rest) m w
  Looped-step picks u v w n m did a rest g h l = record {
    more = count did 0 + l.more;
    counted = ground (arith, l.counted);
    grown = Grown-trans u v w (count did 0) l.more g l.grown;
    all_there = (λ k. Has-Grown a.code v w l.more l.grown h, l.all_there);
  }

  pub seed_roots-Looped :
      (env : Env) (accounts : List SeedAccount) (n : ℕ) (s : Session D) (u : Db D)
      → s.db ≡ u
      → Ends
          (λ m (t : Session D). Looped is_root u n accounts m t.db)
          Any
          (seed_roots env accounts n s)
  unfolding seed_roots
  seed_roots-Looped env [] n s u e =
      Ends-pure n s (subst (Looped is_root u n [] n) (sym e) (Looped-end is_root u n))
  seed_roots-Looped env (a ∷ rest) n s u e = elim (Bool-cases (a.parent_code == [])) [
    | inr child ↦ rw child (
        Ends-weaken (seed_roots-Looped env rest n s u e)
          (λ m t l. Looped-skip is_root u t.db n m a rest child l) (λ t q. q))
    | inl root ↦ rw root (
        Ends-bind _ _ s (Ends-within _ _ s (ensure-Ends env a 0 s u e)) (λ did t q.
          Ends-weaken (seed_roots-Looped env rest (count did n) t t.db refl)
            (λ m t' l. Looped-step is_root u t.db t'.db n m did a rest q.0 q.1 l) (λ t' r. r)))
  ]

  pub seed_children-Looped :
      (env : Env) (accounts : List SeedAccount) (n : ℕ) (s : Session D) (u : Db D)
      → s.db ≡ u
      → Ends
          (λ m (t : Session D). Looped is_child u n accounts m t.db)
          Any
          (seed_children env accounts n s)
  unfolding seed_children
  seed_children-Looped env [] n s u e =
      Ends-pure n s (subst (Looped is_child u n [] n) (sym e) (Looped-end is_child u n))
  seed_children-Looped env (a ∷ rest) n s u e = elim (Bool-cases (a.parent_code == [])) [
    | inl root ↦ rw root (
        Ends-weaken (seed_children-Looped env rest n s u e)
          (λ m t l. Looped-skip is_child u t.db n m a rest (rw root refl) l) (λ t q. q))
    | inr child ↦ rw child (
        Ends-bind _ _ s (Ends-within _ _ s (id_by_code-Ends env a.parent_code s))
          (λ parent_id s1 q1.
            Ends-bind _ _ s1 (Ends-within _ _ s1 (ensure-Ends env a parent_id s1 u (q1 ∙ e)))
              (λ did t q.
                Ends-weaken (seed_children-Looped env rest (count did n) t t.db refl)
                  (λ m t' l. Looped-step is_child u t.db t'.db n m did a rest q.0 q.1 l)
                  (λ t' r. r))))
  ]

  -- every account of the list is there
  abbrev pub HasAll : List SeedAccount → Db D → Type 0
  HasAll accounts db = All (λ a. Has a.code db) accounts

  pub seed_roots-there :
      (env : Env) (accounts : List SeedAccount) (n : ℕ) (s : Session D) (u : Db D)
      → s.db ≡ u
      → HasAll accounts u
      → Ends (λ m (t : Session D). (m ≡ n) × (t.db ≡ u)) Any (seed_roots env accounts n s)
  unfolding seed_roots
  seed_roots-there env [] n s u e h = Ends-pure n s (refl, e)
  seed_roots-there env (a ∷ rest) n s u e h = elim (Bool-cases (a.parent_code == [])) [
    | inr child ↦ rw child (seed_roots-there env rest n s u e h.1)
    | inl root ↦ rw root (
        Ends-bind _ _ s
          (Ends-within _ _ s (ensure-there env a 0 s (subst (Has a.code) (sym e) h.0)))
          (λ did t q. rw q.0 (seed_roots-there env rest n t u (q.1 ∙ e) h.1)))
  ]

  pub seed_children-there :
      (env : Env) (accounts : List SeedAccount) (n : ℕ) (s : Session D) (u : Db D)
      → s.db ≡ u
      → HasAll accounts u
      → Ends (λ m (t : Session D). (m ≡ n) × (t.db ≡ u)) Any (seed_children env accounts n s)
  unfolding seed_children
  seed_children-there env [] n s u e h = Ends-pure n s (refl, e)
  seed_children-there env (a ∷ rest) n s u e h = elim (Bool-cases (a.parent_code == [])) [
    | inl root ↦ rw root (seed_children-there env rest n s u e h.1)
    | inr child ↦ rw child (
        Ends-bind _ _ s (Ends-within _ _ s (id_by_code-Ends env a.parent_code s))
          (λ parent_id s1 q1.
            Ends-bind _ _ s1
              (Ends-within _ _ s1
                (ensure-there env a parent_id s1 (subst (Has a.code) (sym (q1 ∙ e)) h.0)))
              (λ did t q. rw q.0 (seed_children-there env rest n t u (q.1 ∙ q1 ∙ e) h.1))))
  ]
