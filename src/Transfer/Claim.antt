-- ===== src/Transfer/Claim.antt =====
-- The idempotency store around a transfer: the look-up of an earlier result, the claim on the key,
-- and the result that is left under it.
use payments_engine.Base.{Bool, true, false, not, Option, none, some, Text, text, if◌then◌else◌}
use payments_engine.Error.{
  sentinel, wrap, is_error, key_not_found, transfer_in_progress, Result, ok, err,
}
use payments_engine.Decimal.{Decimals}
use payments_engine.Exec.{Exec, pure, raise, lift, try, ◌>>=◌, ◌>>◌}
use payments_engine.Idempotency.{
  Stored, in_progress, encoded, unreadable, encode_transaction, decode_transaction,
}
use payments_engine.Store.{Env}
use payments_engine.Transaction.Status.{Transaction}
use payments_engine.Transfer.Request.{Config}
use payments_engine.World.{World, store_get, store_set, store_set_nx, store_del, set_locked}

abbrev set_error : Result (Unit {0}) → Result (Unit {0})
set_error (ok _) = ok tt
set_error (err e) = err (wrap (text "idempotency set result") e)

module _ {D : Type 0} ⦃o : Decimals D⦄ (env : Env) (cfg : Config) where
  abbrev keep_decoded : Result (Transaction D) → Result (Option (Transaction D))
  keep_decoded (ok tx) = ok (some tx)
  keep_decoded (err _) = ok none

  -- what is found under the key before the claim
  abbrev pub read_cached : Result Stored → Result (Option (Transaction D))
  read_cached (err e) =
      if is_error e key_not_found then ok none else err (wrap (text "idempotency get") e)
  read_cached (ok in_progress) = err (sentinel transfer_in_progress)
  read_cached (ok (encoded p)) = keep_decoded (decode_transaction (encoded p))
  read_cached (ok (unreadable t)) = keep_decoded (decode_transaction (unreadable t))

  unfoldable pub try_return_cached : Text → Exec (World D) (Option (Transaction D))
  try_return_cached key =
      if not cfg.has_store
      then pure none
      else (try (store_get env key) >>= λ raw. lift (read_cached raw))

  abbrev require_decoded : Result (Transaction D) → Result (Option (Transaction D))
  require_decoded (ok tx) = ok (some tx)
  require_decoded (err _) = err (sentinel transfer_in_progress)

  -- what is found under the key when another request holds it
  abbrev pub read_duplicate : Result Stored → Result (Option (Transaction D))
  read_duplicate (err e) = err (sentinel transfer_in_progress)
  read_duplicate (ok in_progress) = err (sentinel transfer_in_progress)
  read_duplicate (ok (encoded p)) = require_decoded (decode_transaction (encoded p))
  read_duplicate (ok (unreadable t)) = require_decoded (decode_transaction (unreadable t))

  -- `some tx` is a duplicate; `none` is a claim, or that there is no store
  unfoldable pub acquire_exclusive : Text → Exec (World D) (Option (Transaction D))
  acquire_exclusive key = if not cfg.has_store then pure none else do
    claimed ← try (store_set_nx env key in_progress)
    elim claimed [
      | err e ↦ raise (wrap (text "idempotency setnx") e)
      | ok mine ↦
          if mine
          then (set_locked true >> pure none)
          else (try (store_get env key) >>= λ raw. lift (read_duplicate raw))
    ]

  unfoldable pub store_result : Text → Transaction D → Exec (World D) (Unit {0})
  store_result key tx =
      if not cfg.has_store
      then pure tt
      else (try (store_set env key (encode_transaction tx)) >>= λ r. lift (set_error r))

  abbrev pub release : Text → Bool → Exec (World D) (Unit {0})
  release key true = try (store_del env key) >> pure tt
  release key false = pure tt

  -- the deferred call of Transfer
  unfoldable pub unlock : Text → Exec (World D) (Unit {0})
  unlock key w = release key w.idem_locked w
