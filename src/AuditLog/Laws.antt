-- ===== src/AuditLog/Laws.antt =====
-- The audit trail of an entity is complete and in order.
use payments_engine.Base.{
  ℕ, ◌≤◌, ◌<◌, true, false, List, [], ◌∷◌, Option, none, some, ◌↔◌, ◌≡◌, refl, ap, ◌∙◌, arith,
  nat_eq, select, Bool-cases, inl, inr, All, ◌⊎◌, subst,
}
use mathlib.Core.List.{Perm}
use mathlib.Core.List.Perm
use payments_engine.Error.{ok}
use payments_engine.Exec.Ends.{Ends, Ends_ok, Ends-ok, Ends-err}
use payments_engine.Audit.{AuditEvent, EntityType, account, transaction}
use payments_engine.AuditLog.{
  entity_beq, in_range, not_before, not_after, logged_before, insert_logged, in_logged_order,
  get_by_entity_range, get_by_entity,
}
use payments_engine.Store.{Env}
use payments_engine.World.{World, log_event, stamp}

entity_beq_refl : (t : EntityType) → entity_beq t t ≡ true
entity_beq_refl account = refl
entity_beq_refl transaction = refl

entity_beq_eq : (a b : EntityType) → entity_beq a b ≡ true → a ≡ b
entity_beq_eq account account h = refl
entity_beq_eq account transaction h = cc
entity_beq_eq transaction account h = cc
entity_beq_eq transaction transaction h = refl

not_before_le : (from : Option ℕ) (t n : ℕ) → from ≡ some t → not_before from n ≡ true → t ≤ n
not_before_le none t n p h = cc
not_before_le (some f) t n p h = ground arith

not_after_le : (to : Option ℕ) (t n : ℕ) → to ≡ some t → not_after to n ≡ true → n ≤ t
not_after_le none t n p h = cc
not_after_le (some f) t n p h = ground arith

not_before-true :
    (from : Option ℕ) (n : ℕ) → ((t : ℕ) → from ≡ some t → t ≤ n) → not_before from n ≡ true
not_before-true none n h = refl
not_before-true (some f) n h = ground (arith, h f refl)

not_after-true : (to : Option ℕ) (n : ℕ) → ((t : ℕ) → to ≡ some t → n ≤ t) → not_after to n ≡ true
not_after-true none n h = refl
not_after-true (some f) n h = ground (arith, h f refl)

module _ {D : Type 0} where
  -- the earlier event, or the one with the smaller id of two at one time
  infix 50 ◌≼◌
  abbrev pub ◌≼◌ : AuditEvent D → AuditEvent D → Type 0
  a ≼ b = (a.occurred_at < b.occurred_at) ⊎ ((a.occurred_at ≡ b.occurred_at) × (a.id ≤ b.id))

  abbrev pub IsAscending : List (AuditEvent D) → Type 0
  IsAscending [] = Unit
  IsAscending (e ∷ es) = All (λ x. e ≼ x) es × IsAscending es

  insert-perm : (e : AuditEvent D) (es : List (AuditEvent D)) → Perm (insert_logged e es) (e ∷ es)
  insert-perm e [] = Perm.rfl
  insert-perm e (x ∷ xs) = elim (Bool-cases (logged_before e x)) [
    | inl first ↦ rw first Perm.rfl
    | inr later ↦ rw later (Perm.trans (Perm.cons x (insert-perm e xs)) (Perm.swap e x xs))
  ]

  pub in_logged_order-perm : (es : List (AuditEvent D)) → Perm (in_logged_order es) es
  in_logged_order-perm [] = Perm.rfl
  in_logged_order-perm (e ∷ es) =
      Perm.trans (insert-perm e (in_logged_order es)) (Perm.cons e (in_logged_order-perm es))

  ≼_trans : (a b c : AuditEvent D) → a ≼ b → b ≼ c → a ≼ c
  ≼_trans a b c p q = ground arith

  logged_before-≼ : (a b : AuditEvent D) → logged_before a b ≡ true → a ≼ b
  logged_before-≼ a b h = ground arith

  not_logged_before-≼ : (a b : AuditEvent D) → logged_before a b ≡ false → b ≼ a
  not_logged_before-≼ a b h = ground arith

  All-insert_logged :
      (P : AuditEvent D → Type 0) (e : AuditEvent D) (es : List (AuditEvent D))
      → P e
      → All P es
      → All P (insert_logged e es)
  All-insert_logged P e [] h k = (h, tt)
  All-insert_logged P e (x ∷ xs) h k = elim (Bool-cases (logged_before e x)) [
    | inl first ↦ rw first (h, k)
    | inr later ↦ rw later (k.0, All-insert_logged P e xs h k.1)
  ]

  above :
      (e x : AuditEvent D) (xs : List (AuditEvent D))
      → e ≼ x
      → All (λ y. x ≼ y) xs
      → All (λ y. e ≼ y) xs
  above e x [] h k = tt
  above e x (y ∷ ys) h k = (≼_trans e x y h k.0, above e x ys h k.1)

  insert-IsAscending :
      (e : AuditEvent D) (es : List (AuditEvent D))
      → IsAscending es
      → IsAscending (insert_logged e es)
  insert-IsAscending e [] h = (tt, tt)
  insert-IsAscending e (x ∷ xs) h = elim (Bool-cases (logged_before e x)) [
    | inl first ↦ let le = logged_before-≼ e x first in rw first ((le, above e x xs le h.0), h)
    | inr later ↦ rw later (
      All-insert_logged (λ y. x ≼ y) e xs (not_logged_before-≼ e x later) h.0,
      insert-IsAscending e xs h.1,
    )
  ]

  in_logged_order-IsAscending : (es : List (AuditEvent D)) → IsAscending (in_logged_order es)
  in_logged_order-IsAscending [] = tt
  in_logged_order-IsAscending (e ∷ es) =
      insert-IsAscending e (in_logged_order es) (in_logged_order-IsAscending es)

  -- an event of the entity, not before the first bound and not after the second
  pub record IsOf (type : EntityType) (id : ℕ) (from to : Option ℕ) (e : AuditEvent D)
      : Type 0 where
    pub type_eq : e.entity_type ≡ type
    pub id_eq : e.entity_id ≡ id
    pub since : (t : ℕ) → from ≡ some t → t ≤ e.occurred_at
    pub until : (t : ℕ) → to ≡ some t → e.occurred_at ≤ t

  in_range-IsOf :
      (type : EntityType) (id : ℕ) (from to : Option ℕ) (e : AuditEvent D)
      → in_range type id from to e ≡ true
      → IsOf type id from to e
  in_range-IsOf type id from to e h = record {
    type_eq = entity_beq_eq e.entity_type type (ground arith);
    id_eq = ground arith;
    since = λ t p. not_before_le from t e.occurred_at p (ground arith);
    until = λ t p. not_after_le to t e.occurred_at p (ground arith);
  }

  IsOf-in_range :
      (type : EntityType) (id : ℕ) (from to : Option ℕ) (e : AuditEvent D)
      → IsOf type id from to e
      → in_range type id from to e ≡ true
  IsOf-in_range type id from to e h =
      rw
        (
          h.type_eq,
          entity_beq_refl type,
          not_before-true from e.occurred_at h.since,
          not_after-true to e.occurred_at h.until,
        )
        (ground (arith, h.id_eq))

  -- what a read of the trail returns and leaves alone
  abbrev pub IsTrail :
      EntityType → ℕ → Option ℕ → Option ℕ → World D → List (AuditEvent D) → World D → Type 0
  IsTrail type id from to w es u =
      IsAscending es
      × ((e : AuditEvent D) → (in_range type id from to e ≡ true) ↔ IsOf type id from to e)
      × Perm es (select (in_range type id from to) w.audit)
      × (u.audit ≡ w.audit)
      × (u.db ≡ w.db)

  -- GetByEntityRange on every path: the events that are returned are those of the entity in the trail
  -- whose time lies between the bounds that are given, both included, each as often as it is in the
  -- trail, in ascending order of time and then of id; and the trail and the tables are as they were,
  -- also after an error.
  pub get_by_entity_range-IsTrail :
      (env : Env) (type : EntityType) (id : ℕ) (from to : Option ℕ) (w : World D)
      → Ends
          (λ es (u : World D). IsTrail type id from to w es u)
          (λ u. (u.audit ≡ w.audit) × (u.db ≡ w.db))
          (get_by_entity_range env type id from to w)
  unfolding get_by_entity_range
  get_by_entity_range-IsTrail env type id from to w = elim (Bool-cases (env.fails w.calls)) [
    | inl down ↦ rw down (Ends-err _ _ (refl, refl))
    | inr up ↦
        let found = select (in_range type id from to) w.audit in
        rw up (
          Ends-ok _ _ (
            in_logged_order-IsAscending found,
            λ e. (in_range-IsOf type id from to e, IsOf-in_range type id from to e),
            in_logged_order-perm found,
            refl,
            refl,
          ))
  ]

  audit_after :
      (env : Env) (e : AuditEvent D) (w u : World D)
      → log_event env e w ≡ (ok tt, u)
      → u.audit ≡ stamp env w.calls e ∷ w.audit
  unfolding log_event
  audit_after env e w u h = ground (arith, h)

  own_event :
      (env : Env) (e : AuditEvent D) (n : ℕ) (trail : List (AuditEvent D))
      → select (in_range e.entity_type e.entity_id none none) (stamp env n e ∷ trail)
        ≡ stamp env n e ∷ select (in_range e.entity_type e.entity_id none none) trail
  own_event env e n trail = ground (arith, entity_beq_refl e.entity_type)

  -- An event that was written is read back: when Log has stored an event and GetByEntity then returns
  -- for its entity, the events are the new one, under the id and the time of the call, together with
  -- those that the trail held of the entity before.
  pub get_by_entity-log_event :
      (env later : Env) (e : AuditEvent D) (w u v : World D) (es : List (AuditEvent D))
      → log_event env e w ≡ (ok tt, u)
      → get_by_entity later e.entity_type e.entity_id u ≡ (ok es, v)
      → Perm es
          (stamp env w.calls e ∷ select (in_range e.entity_type e.entity_id none none) w.audit)
  unfolding get_by_entity
  get_by_entity-log_event env later e w u v es written read =
      subst (λ (l : List (AuditEvent D)). Perm es l)
        (ap (select (in_range e.entity_type e.entity_id none none)) (audit_after env e w u written)
          ∙ own_event env e w.calls w.audit)
        (Ends_ok es v (get_by_entity_range-IsTrail later e.entity_type e.entity_id none none u)
          read).2
