-- ===== src/Api/Errors.antt =====
-- The status of a failed transfer: an error wraps one sentinel at most, so the order of the tests of
-- writeTransferError does not matter.
use payments_engine.Base.{
  ℕ, Bool, true, ◌≡◌, ◌∙◌, refl, ap, arith, if◌then◌else◌, nat_beq, nat_beq_iff,
}
use payments_engine.Error.{
  Sentinel, Error, sentinel, message, driver, wrap, also, is_error, sentinel_code, invalid_transfer,
  insufficient_funds, currency_mismatch, clearing_account_not_found, snapshot_not_found,
  transfer_in_progress,
}
use payments_engine.Api.Transfers.{write_transfer_error}

-- which sentinels an error wraps is known from one of them
is_error_at :
    (e : Error) (s t : Sentinel)
    → is_error e s ≡ true
    → is_error e t ≡ nat_beq (sentinel_code s) (sentinel_code t)
is_error_at (sentinel r) s t h =
    ap (λ (k : ℕ). nat_beq k (sentinel_code t))
      ((nat_beq_iff (sentinel_code r) (sentinel_code s)).0 h)
is_error_at (message m) s t h = absurd (cc)
is_error_at (driver n) s t h = absurd (cc)
is_error_at (wrap m e) s t h = is_error_at e s t h
is_error_at (also e f) s t h = is_error_at e s t h

-- the status of each sentinel of a transfer, and 500 for every other
abbrev pub transfer_status : Sentinel → ℕ
transfer_status invalid_transfer = 400
transfer_status insufficient_funds = 400
transfer_status currency_mismatch = 400
transfer_status clearing_account_not_found = 404
transfer_status snapshot_not_found = 404
transfer_status transfer_in_progress = 409
transfer_status _ = 500

abbrev tested : Sentinel → Sentinel → Bool
tested s t = nat_beq (sentinel_code s) (sentinel_code t)

-- the tests in their order, on a sentinel
status_by_tests : Sentinel → ℕ
status_by_tests s =
    if tested s invalid_transfer
    then 400
    else if tested s insufficient_funds
    then 400
    else if tested s currency_mismatch
    then 400
    else if tested s clearing_account_not_found
    then 404
    else if tested s snapshot_not_found
    then 404
    else if tested s transfer_in_progress
    then 409
    else 500

status_by_tests_lem : (s : Sentinel) → status_by_tests s ≡ transfer_status s
unfolding status_by_tests
status_by_tests_lem invalid_transfer = refl
status_by_tests_lem _ = refl

status_tested :
    (D : Type 0) (e : Error) (s : Sentinel)
    → is_error e s ≡ true
    → (write_transfer_error {D = D} e).status ≡ status_by_tests s
unfolding write_transfer_error status_by_tests
status_tested D e s h = ground (
  arith,
  is_error_at e s invalid_transfer,
  is_error_at e s insufficient_funds,
  is_error_at e s currency_mismatch,
  is_error_at e s clearing_account_not_found,
  is_error_at e s snapshot_not_found,
  is_error_at e s transfer_in_progress,
)

-- The status of a failed transfer is that of the sentinel which its error wraps, however deeply and
-- whichever test comes first: 400 for a request that is invalid, not covered or in another currency,
-- 404 for an account or a clearing account that is missing, 409 for a key that is in use, and 500 for
-- every other sentinel.
write_transfer_error_status :
    (D : Type 0) (e : Error) (s : Sentinel)
    → is_error e s ≡ true
    → (write_transfer_error {D = D} e).status ≡ transfer_status s
write_transfer_error_status D e s h = status_tested D e s h ∙ status_by_tests_lem s
