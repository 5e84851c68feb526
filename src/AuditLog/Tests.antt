-- ===== src/AuditLog/Tests.antt =====
-- The trail of one account.
use payments_engine.Base.{List, [], ◌∷◌, none, some, ◌≡◌, refl, text, select}
use payments_engine.Base.Int.{ℤ}
use payments_engine.Error.{ok}
use payments_engine.Decimal.Scaled.{scaled}
use payments_engine.Exec.Ends.{Ends}
use payments_engine.Account.{active, frozen}
use payments_engine.Audit.{AuditEvent, account, account_frozen, status_changed}
use payments_engine.AuditLog.{in_range, get_by_entity, get_by_entity_range}
use payments_engine.AuditLog.Laws.{IsTrail, get_by_entity_range-IsTrail, get_by_entity-log_event}
use payments_engine.Ledger.Tests.{calm}
use payments_engine.Transfer.Tests.{world}
use payments_engine.World.{World, log_event, stamp}
use mathlib.Core.List.{Perm}

abbrev freezing : AuditEvent ℤ
freezing = record {
  id = 0;
  entity_type = account;
  entity_id = 11;
  event_type = account_frozen;
  actor = text "account-service";
  payload = status_changed active frozen;
  occurred_at = 0;
}

get_by_entity_range-IsTrail_example :
    Ends
      (λ es (u : World ℤ). IsTrail account 11 (some 5) none world es u)
      (λ u. (u.audit ≡ world.audit) × (u.db ≡ world.db))
      (get_by_entity_range calm account 11 (some 5) none world)
get_by_entity_range-IsTrail_example =
    get_by_entity_range-IsTrail calm account 11 (some 5) none world

abbrev written : World ℤ
written = (log_event calm freezing world).1

abbrev shown : List (AuditEvent ℤ)
shown = stamp calm world.calls freezing ∷ []

log_event_ok : log_event calm freezing world ≡ (ok tt, written)
unfolding log_event
log_event_ok = refl

get_by_entity_ok :
    get_by_entity calm account 11 written ≡ (ok shown, (get_by_entity calm account 11 written).1)
unfolding get_by_entity log_event
get_by_entity_ok = refl

get_by_entity-log_event_example :
    Perm shown
      (stamp calm world.calls freezing ∷ select (in_range account 11 none none) world.audit)
get_by_entity-log_event_example =
    get_by_entity-log_event calm calm freezing world written
      (get_by_entity calm account 11 written).1 shown log_event_ok get_by_entity_ok
