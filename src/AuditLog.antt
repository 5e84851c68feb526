-- ===== src/AuditLog.antt =====
-- internal/audit/logger.go: what the audit trail shows of an entity. `Log` is log_event of World.
mod Laws
mod Tests
use payments_engine.Base.{
  ℕ, suc, Bool, true, false, ◌&&◌, List, [], ◌∷◌, Option, none, some, ◌==◌, nat_eq, leb, ltb,
  select, if◌then◌else◌,
}
use payments_engine.Error.{driver, ok, err}
use payments_engine.Exec.{Exec}
use payments_engine.Audit.{AuditEvent, EntityType, account, transaction}
use payments_engine.Store.{Env}
use payments_engine.World.{World, tick}

abbrev pub entity_beq : EntityType → EntityType → Bool
entity_beq account account = true
entity_beq transaction transaction = true
entity_beq _ _ = false

-- a bound that is not given does not bound
abbrev pub not_before : Option ℕ → ℕ → Bool
not_before none t = true
not_before (some from) t = leb from t

abbrev pub not_after : Option ℕ → ℕ → Bool
not_after none t = true
not_after (some to) t = leb t to

module _ {D : Type 0} where
  -- the WHERE clause of selectAuditEventsRangeSQL
  abbrev pub in_range : EntityType → ℕ → Option ℕ → Option ℕ → AuditEvent D → Bool
  in_range type id from to e =
      (entity_beq e.entity_type type && e.entity_id == id)
      && (not_before from e.occurred_at && not_after to e.occurred_at)

  -- ORDER BY occurred_at ASC, id ASC
  abbrev pub logged_before : AuditEvent D → AuditEvent D → Bool
  logged_before a b =
      if a.occurred_at == b.occurred_at then leb a.id b.id else ltb a.occurred_at b.occurred_at

  abbrev pub insert_logged : AuditEvent D → List (AuditEvent D) → List (AuditEvent D)
  insert_logged e [] = e ∷ []
  insert_logged e (x ∷ xs) = if logged_before e x then e ∷ x ∷ xs else x ∷ insert_logged e xs

  abbrev pub in_logged_order : List (AuditEvent D) → List (AuditEvent D)
  in_logged_order [] = []
  in_logged_order (e ∷ es) = insert_logged e (in_logged_order es)

  unfoldable pub get_by_entity_range :
      Env → EntityType → ℕ → Option ℕ → Option ℕ → Exec (World D) (List (AuditEvent D))
  get_by_entity_range env type id from to w =
      if env.fails w.calls
      then (err (driver w.calls), tick w)
      else (ok (in_logged_order (select (in_range type id from to) w.audit)), tick w)

  unfoldable pub get_by_entity : Env → EntityType → ℕ → Exec (World D) (List (AuditEvent D))
  unfolding get_by_entity_range
  get_by_entity env type id = get_by_entity_range env type id none none
