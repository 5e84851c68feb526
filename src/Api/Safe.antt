-- ===== src/Api/Safe.antt =====
-- Reading over the API changes nothing.
pub mod Serve
use payments_engine.Base.{
  ℕ, Bool, true, false, List, [], ◌∷◌, Option, Text, ◌≡◌, refl, ◌∙◌, arith, text_eq, if◌then◌else◌,
}
use payments_engine.Error.{Result}
use payments_engine.Decimal.{Decimals}
use payments_engine.Exec.{Exec}
use payments_engine.Exec.Keeps.{Keeps, keeps_rules}
use payments_engine.Accounts.Service.{get_account_by_id}
use payments_engine.Api.Answer.{Answer, Handler, reply, calling}
use payments_engine.Api.Routes.{Route, post_account, patch_account, post_transfer}
use payments_engine.Audit.{EntityType}
use payments_engine.AuditLog.{get_by_entity_range}
use payments_engine.Ledger.Reports.{
  AccountEntryRow, or_existing, get_account_entry_rows, get_account_entries as read_entries,
}
use payments_engine.Ledger.TrialBalance.{get_trial_balance as read_totals, read_trial_balance}
use payments_engine.Store.{Env, Session, query, statement}
use payments_engine.Store.Tables.{Db}
use payments_engine.Transaction.Repository.{get_transaction_by_id, get_account_by_code}
use payments_engine.World.{World, on_pool}

-- the GET routes
abbrev pub is_get : Route → Bool
is_get (post_account _) = false
is_get (patch_account _ _) = false
is_get (post_transfer _ _) = false
is_get _ = true

module _ {D : Type 0} where
  -- the tables, the trail, the keys of the store and the open transaction are the same
  pub record IsUnchanged (w u : World D) : Type 0 where
    pub db_eq : u.db ≡ w.db
    pub tx_eq : u.open_tx ≡ w.open_tx
    pub keys_eq : u.keys ≡ w.keys
    pub audit_eq : u.audit ≡ w.audit

  IsUnchanged-trans : (u v w : World D) → IsUnchanged u v → IsUnchanged v w → IsUnchanged u w
  IsUnchanged-trans u v w h k = record {
    db_eq = k.db_eq ∙ h.db_eq;
    tx_eq = k.tx_eq ∙ h.tx_eq;
    keys_eq = k.keys_eq ∙ h.keys_eq;
    audit_eq = k.audit_eq ∙ h.audit_eq;
  }

  -- actions and handlers that only read
  record Reads {A : Type 0} (m : Exec (World D) A) : Type 0 where
    reads : (w : World D) → IsUnchanged w (m w).1

  pub record Shows (h : Handler D) : Type 0 where
    pub shows : (w : World D) → IsUnchanged w (h w).1

  Shows-if :
      (b : Bool) (one other : Handler D)
      → Shows one
      → Shows other
      → Shows (if b then one else other)
  Shows-if true one other h k = h
  Shows-if false one other h k = k

  Shows-reply : (a : Answer D) → Shows (reply a)
  Shows-reply a = record {
    shows = λ w. record { db_eq = refl; tx_eq = refl; keys_eq = refl; audit_eq = refl };
  }

  Shows-calling :
      {A : Type 0} (m : Exec (World D) A) (f : Result A → Handler D)
      → Reads m
      → ((r : Result A) → Shows (f r))
      → Shows (calling m f)
  Shows-calling m f h k = record {
    shows = λ w. IsUnchanged-trans w (m w).1 _ (h.reads w) ((k (m w).0).shows (m w).1);
  }

  abbrev Same : Db D → Session D → Type 0
  Same d s = s.db ≡ d

  query-Same :
      {A : Type 0} (env : Env) (f : Db D → Result A) (d : Db D) → Keeps (Same d) (query env f)
  unfolding query statement
  query-Same env f d = record { kept = λ s h. ground arith }

  Reads-on_pool :
      {A : Type 0} (m : Exec (Session D) A) → ((d : Db D) → Keeps (Same d) m) → Reads (on_pool m)
  unfolding on_pool
  Reads-on_pool m k = record {
    reads = λ w. record {
      db_eq = (k w.db).kept (record { db = w.db; calls = w.calls }) refl;
      tx_eq = refl;
      keys_eq = refl;
      audit_eq = refl;
    };
  }

  ruleset shows = (Shows-if, Shows-reply, Shows-calling, Reads-on_pool)

  ruleset same = (keeps_rules, query-Same)

  account_by_id-Same : (env : Env) (id : ℕ) (d : Db D) → Keeps (Same d) (get_account_by_id env id)
  unfolding get_account_by_id
  account_by_id-Same env id d = search same

  account_by_code-Same :
      (env : Env) (code : Text) (d : Db D) → Keeps (Same d) (get_account_by_code env code)
  unfolding get_account_by_code
  account_by_code-Same env code d = search same

  transaction_by_id-Same :
      (env : Env) (id : ℕ) (d : Db D) → Keeps (Same d) (get_transaction_by_id env id)
  unfolding get_transaction_by_id
  transaction_by_id-Same env id d = search same

  by_entity-Reads :
      (env : Env) (type : EntityType) (id : ℕ) (from to : Option ℕ)
      → Reads (get_by_entity_range {D = D} env type id from to)
  unfolding get_by_entity_range
  by_entity-Reads env type id from to = record {
    reads = λ w. record {
      db_eq = ground arith;
      tx_eq = ground arith;
      keys_eq = ground arith;
      audit_eq = ground arith;
    };
  }

module _ {D : Type 0} ⦃o : Decimals D⦄ where
  existing-Same :
      (env : Env) (id : ℕ) (rows : List (AccountEntryRow D)) (d : Db D)
      → Keeps (Same d) (or_existing env id rows)
  existing-Same env id (r ∷ rs) d = search same
  existing-Same env id [] d = search same

  entries-Same : (env : Env) (id : ℕ) (d : Db D) → Keeps (Same d) (read_entries {D = D} env true id)
  unfolding read_entries get_account_entry_rows
  entries-Same env id d = search (same, existing-Same)

  trial-Same :
      (env : Env) (currency : Text) (d : Db D)
      → Keeps (Same d) (read_totals {D = D} env true currency)
  unfolding read_totals read_trial_balance
  trial-Same env currency d = search same
