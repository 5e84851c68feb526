-- ===== src/Api/Handled.antt =====
-- What the handler of POST /api/v1/transfers does with a request: it refuses it, or it calls the service
-- once with what the header and the body say.
use payments_engine.Base.{
  ℕ, [], Option, none, some, Text, ◌≡◌, refl, arith, ◌==◌, text_eq, ◌⊎◌, inl, inr, Bool-cases,
}
use payments_engine.Base.Strings.{trim_space, to_upper}
use payments_engine.Error.{Error, Result, ok, err}
use payments_engine.Decimal.{Decimals}
use payments_engine.Api.Answer.{Formats, Answer, Handler}
use payments_engine.Api.Transfers.{
  CreateTransferRequest, create_transfer_handler, write_transfer_error, transferred_answer,
  transfer_amount, transfer_to, transfer_from, transfer_decoded, transfer_request,
}
use payments_engine.Store.{Env}
use payments_engine.Transaction.Status.{Transaction}
use payments_engine.Transfer.Request.{TransferRequest, Config}
use payments_engine.Transfer.Service.{transfer}
use payments_engine.World.{World}

write_transfer_error_failed :
    (D : Type 0) (e : Error) → (write_transfer_error {D = D} e).status ≡ 201 → ⊥
unfolding write_transfer_error
write_transfer_error_failed D e = ground arith

module _ {D : Type 0} ⦃o : Decimals D⦄ (form : Formats) where
  -- the request for the service is what the header and the body say
  pub record Reads (header : Text) (body : CreateTransferRequest) (req : TransferRequest D)
      : Type 0 where
    pub key_eq : req.idempotency_key ≡ trim_space header
    pub from_eq : form.parse_uuid (trim_space body.from_account_id) ≡ some req.from_account_id
    pub to_eq : form.parse_uuid (trim_space body.to_account_id) ≡ some req.to_account_id
    pub amount_eq : o.from_string (trim_space body.amount) ≡ some req.amount
    pub currency_eq : req.currency ≡ to_upper (trim_space body.currency)

  module _ (env : Env) (cfg : Config) (trace header : Text) where
    -- the transfer that a request asks for, and the answer
    abbrev answered_transfer : TransferRequest D → Handler D
    answered_transfer req w =
        transferred_answer form env cfg (transfer env cfg trace req w).0
          (transfer env cfg trace req w).1

    -- it is refused before the service is called, or the service is called once
    abbrev pub Handled : Option CreateTransferRequest → World D → Answer D × World D → Type 0
    Handled body w x =
        ((x.0.status ≡ 400) × (x.1 ≡ w))
        ⊎ ((given : CreateTransferRequest) × (req : TransferRequest D) × (body ≡ some given)
            × Reads header given req
            × (x ≡ answered_transfer req w))

    answered-world :
        (r : Result (Transaction D)) (u : World D) → (transferred_answer form env cfg r u).1 ≡ u
    answered-world (ok tx) u = refl
    answered-world (err e) u = refl

    Handled-amount :
        (body : CreateTransferRequest) (from_id to_id : ℕ) (amount : Option D) (w : World D)
        → form.parse_uuid (trim_space body.from_account_id) ≡ some from_id
        → form.parse_uuid (trim_space body.to_account_id) ≡ some to_id
        → o.from_string (trim_space body.amount) ≡ amount
        → Handled
            (some body)
            w
            (transfer_amount form env cfg trace (trim_space header) body from_id to_id amount w)
    Handled-amount body from_id to_id none w h k l = inl (refl, refl)
    Handled-amount body from_id to_id (some d) w h k l = inr (
      body,
      transfer_request form env cfg (trim_space header) body from_id to_id d,
      refl,
      record { key_eq = refl; from_eq = h; to_eq = k; amount_eq = l; currency_eq = refl },
      refl,
    )

    Handled-to :
        (body : CreateTransferRequest) (from_id : ℕ) (to_id : Option ℕ) (w : World D)
        → form.parse_uuid (trim_space body.from_account_id) ≡ some from_id
        → form.parse_uuid (trim_space body.to_account_id) ≡ to_id
        → Handled
            (some body)
            w
            (transfer_to form env cfg trace (trim_space header) body from_id to_id w)
    Handled-to body from_id none w h k = inl (refl, refl)
    Handled-to body from_id (some to_id) w h k = Handled-amount body from_id to_id _ w h k refl

    Handled-from :
        (body : CreateTransferRequest) (from_id : Option ℕ) (w : World D)
        → form.parse_uuid (trim_space body.from_account_id) ≡ from_id
        → Handled
            (some body)
            w
            (transfer_from form env cfg trace (trim_space header) body from_id w)
    Handled-from body none w h = inl (refl, refl)
    Handled-from body (some from_id) w h = Handled-to body from_id _ w h refl

    Handled-decoded :
        (body : Option CreateTransferRequest) (w : World D)
        → Handled body w (transfer_decoded form env cfg trace (trim_space header) body w)
    Handled-decoded none w = inl (refl, refl)
    Handled-decoded (some body) w = Handled-from body _ w refl

    pub handled :
        (body : Option CreateTransferRequest) (w : World D)
        → Handled body w (create_transfer_handler form env cfg trace header body w)
    unfolding create_transfer_handler
    handled body w = elim (Bool-cases (trim_space header == [])) [
      | inl blank ↦ rw blank (inl (refl, refl))
      | inr given ↦ rw given (Handled-decoded body w)
    ]

    pub made :
        (r : Result (Transaction D)) (u : World D)
        → (transferred_answer form env cfg r u).0.status ≡ 201
        → (tx : Transaction D) × (r ≡ ok tx)
    made (ok tx) u h = (tx, refl)
    made (err e) u h = absurd (write_transfer_error_failed D e h)

    abbrev SameWorld : TransferRequest D → World D → Type 0
    SameWorld req w = (answered_transfer req w).1 ≡ (transfer env cfg trace req w).1

    pub answered_transfer-world : (req : TransferRequest D) (w : World D) → SameWorld req w
    answered_transfer-world req w =
        answered-world (transfer env cfg trace req w).0 (transfer env cfg trace req w).1
