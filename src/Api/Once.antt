-- ===== src/Api/Once.antt =====
-- What a request to POST /api/v1/transfers does to the tables: a transfer under the key of its header,
-- or nothing.
use payments_engine.Base.{
  Option, none, some, Text, ◌≡◌, refl, sym, ap, subst, ◌∙◌, arith, text_eq, ◌⊎◌, inl, inr,
}
use payments_engine.Base.Strings.{trim_space}
use payments_engine.Error.{Result}
use payments_engine.Decimal.{Decimals}
use payments_engine.Api.Answer.{Formats, Answer}
use payments_engine.Api.Routes.{Server, serve, post_transfer}
use payments_engine.Api.Transfers.{CreateTransferRequest}
use payments_engine.Ledger.Balances.{OnScale}
use payments_engine.Ledger.Sound.{IsSound}
use payments_engine.Store.{Env}
use payments_engine.Store.Tables.{Db}
use payments_engine.Transaction.Repository.{find_by_key}
use payments_engine.Transaction.Status.{Transaction}
use payments_engine.Transfer.Fresh.{transfer-IsTransferred}
use payments_engine.Transfer.Moves.{IsTransferred, ledger_of}
use payments_engine.Transfer.Replay.{transfer_again_unchanged}
use payments_engine.Transfer.Request.{TransferRequest, idempotency_transfer_key}
use payments_engine.Transfer.Service.{transfer}
use payments_engine.Transfer.Sound.{HasMoved, transfer-HasMoved}
use payments_engine.World.{World}
use payments_engine.Api.Handled.{Handled, Reads, answered_transfer-world, handled, made}

module _ {D : Type 0} ⦃o : Decimals D⦄ (form : Formats) where
  module _ (env : Env) (srv : Server) (header : Text) where
    abbrev pub posted : Option CreateTransferRequest → World D → Answer D × World D
    posted body w = serve form env srv (post_transfer header body) w

    refused_or_run :
        (body : Option CreateTransferRequest) (w : World D)
        → Handled form env srv.config srv.trace_id header body w (posted body w)
    unfolding serve
    refused_or_run body w = handled form env srv.config srv.trace_id header body w

    -- the tables after the request, by way of the tables after a transfer
    by_transfer :
        (P : Db D → Type 0) (body : Option CreateTransferRequest) (w : World D)
        (x : Answer D × World D)
        → P w.db
        → ((req : TransferRequest D) (given : CreateTransferRequest)
            → body ≡ some given
            → Reads form header given req
            → P (transfer env srv.config srv.trace_id req w).1.db)
        → Handled form env srv.config srv.trace_id header body w x
        → P x.1.db
    by_transfer P body w x h k (inl q) = subst (λ (u : World D). P u.db) (sym q.1) h
    by_transfer P body w x h k (inr (given, req, e, reads, x_eq)) =
        subst (λ (u : World D). P u.db)
          (sym (
            ap (λ (y : Answer D × World D). y.1) x_eq
            ∙ answered_transfer-world form env srv.config srv.trace_id header req w))
          (k req given e reads)

    -- A transfer that is posted again moves nothing: when a row of transactions has the key that the
    -- request's header gives, POST /api/v1/transfers changes no table, whatever its body says, whatever it
    -- answers and whatever fails behind it.
    pub post_transfer_again :
        (body : Option CreateTransferRequest) (w : World D) (found : Transaction D)
        → find_by_key (trim_space header) w.db.transactions ≡ some found
        → (posted body w).1.db ≡ w.db
    post_transfer_again body w found taken =
        by_transfer (λ db. db ≡ w.db) body w (posted body w) refl
          (λ req given e reads.
            transfer_again_unchanged env srv.config srv.trace_id req found w
              (ap (λ (k : Text). find_by_key k w.db.transactions) reads.key_eq ∙ taken))
          (refused_or_run body w)

    -- the accounts are those before, or the amount of the body has moved between its two accounts
    abbrev pub MovedOrNot : Option CreateTransferRequest → World D → Db D → Type 0
    MovedOrNot body w db =
        (db.accounts ≡ w.db.accounts)
        ⊎ ((given : CreateTransferRequest) × (req : TransferRequest D) × (body ≡ some given)
            × Reads form header given req
            × HasMoved req w.db.accounts db.accounts)

    moved_or_not :
        (w : World D) (body : Option CreateTransferRequest) (req : TransferRequest D)
        (given : CreateTransferRequest) (db : Db D)
        → body ≡ some given
        → Reads form header given req
        → (db.accounts ≡ w.db.accounts) ⊎ HasMoved req w.db.accounts db.accounts
        → MovedOrNot body w db
    moved_or_not w body req given db e reads (inl h) = inl h
    moved_or_not w body req given db e reads (inr h) = inr (given, req, e, reads, h)

    -- On a sound table of accounts, and where every amount that is read from the body is one that the
    -- column holds exactly, POST /api/v1/transfers leaves the accounts as they were, or a sound table in
    -- which the account that the body names as the source is debited with the body's amount, the
    -- destination is credited with it and every other balance is as it was, whatever fails behind it and
    -- whatever it answers.
    pub post_transfer-HasMoved :
        (body : Option CreateTransferRequest) (w : World D)
        → IsSound w.db.accounts
        → ((given : CreateTransferRequest) (d : D)
            → body ≡ some given
            → o.from_string (trim_space given.amount) ≡ some d
            → OnScale d)
        → MovedOrNot body w (posted body w).1.db
    post_transfer-HasMoved body w sound exact =
        by_transfer (MovedOrNot body w) body w (posted body w) (inl refl)
          (λ req given e reads.
            moved_or_not w body req given (transfer env srv.config srv.trace_id req w).1.db e reads
              (transfer-HasMoved env srv.config srv.trace_id req w sound
                (exact given req.amount e reads.amount_eq)))
          (refused_or_run body w)

    -- both entries of the transfer that the body asks for are posted
    abbrev pub Created : Option CreateTransferRequest → World D → World D → Type 0
    Created body w u =
        (given : CreateTransferRequest) × (req : TransferRequest D) × (body ≡ some given)
        × Reads form header given req
        × IsTransferred env srv.config req (ledger_of w.db) (ledger_of u.db)

    Created-by :
        (body : Option CreateTransferRequest) (w : World D) (x : Answer D × World D)
        → find_by_key (trim_space header) w.db.transactions ≡ none
        → w.keys (idempotency_transfer_key (trim_space header)) ≡ none
        → x.0.status ≡ 201
        → Handled form env srv.config srv.trace_id header body w x
        → Created body w x.1
    Created-by body w x free unused h (inl q) = absurd (omega (arith, h, q.0))
    Created-by body w x free unused h (inr (given, req, e, reads, x_eq)) =
        let run = transfer env srv.config srv.trace_id req w in
        let tx =
          made form env srv.config srv.trace_id header run.0 run.1
            (sym (ap (λ (y : Answer D × World D). y.0.status) x_eq) ∙ h) in
        (
          given,
          req,
          e,
          reads,
          subst
              (λ (u : World D). IsTransferred env srv.config req (ledger_of w.db) (ledger_of u.db))
              (sym (
                ap (λ (y : Answer D × World D). y.1) x_eq
                ∙ answered_transfer-world form env srv.config srv.trace_id header req w))
              (transfer-IsTransferred env srv.config srv.trace_id req w run.1 tx.0
                (ap (λ (k : Text). find_by_key k w.db.transactions) reads.key_eq ∙ free)
                (ap (λ (k : Text). w.keys (idempotency_transfer_key k)) reads.key_eq ∙ unused)
                (ap (λ (r : Result (Transaction D)). (r, run.1)) tx.1)),
        )

    -- Created means moved: under a key that has no row and nothing stored, when POST /api/v1/transfers
    -- answers 201, the committed ledger is the one before with both journal entries of the transfer that
    -- the body asks for posted.
    pub post_transfer-Created :
        (body : Option CreateTransferRequest) (w : World D)
        → find_by_key (trim_space header) w.db.transactions ≡ none
        → w.keys (idempotency_transfer_key (trim_space header)) ≡ none
        → (posted body w).0.status ≡ 201
        → Created body w (posted body w).1
    post_transfer-Created body w free unused h =
        Created-by body w (posted body w) free unused h (refused_or_run body w)
