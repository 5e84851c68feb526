-- ===== src/Api/Health.antt =====
-- The health of the clearing account, before and after a transfer that was posted to the API.
use payments_engine.Base.{
  ℕ, Bool, false, List, [], ◌∷◌, Option, some, Text, ◌≡◌, ◌≢◌, refl, sym, ap, ◌∙◌, ◌==◌, nat_eq,
  text_eq, inl, inr, Bool-cases, if◌then◌else◌, ==→eq,
}
use payments_engine.Base.Int.{int_laws, +ℤ_zero, ℤ, pos, ◌+ℤ◌, ◌-ℤ◌, eqb_ℤ}
use payments_engine.Base.Strings.{trim_space}
use payments_engine.Decimal.{Decimals}
use payments_engine.Account.{Account, AccountType}
use payments_engine.Api.Answer.{Formats}
use payments_engine.Api.Once.{posted, MovedOrNot, post_transfer-HasMoved}
use payments_engine.Api.Reports.{health_code, get_clearing_health_handler}
use payments_engine.Api.Routes.{Server, serve, get_clearing_health}
use payments_engine.Api.Transfers.{CreateTransferRequest}
use payments_engine.Exec.{◌>>=◌, try, lift}
use payments_engine.Ledger.Balances.{OnScale}
use payments_engine.Ledger.Debits.{IsDebited, AreDebited}
use payments_engine.Ledger.Equation.{as_debit}
use payments_engine.Ledger.Sound.{IsSound}
use payments_engine.Store.{Env, query, statement}
use payments_engine.Store.Tables.{Db}
use payments_engine.Transaction.Repository.{find_by_code, get_account_by_code}
use payments_engine.Transfer.Request.{TransferRequest}
use payments_engine.Transfer.Sound.{moved_amount}
use payments_engine.World.{World, on_pool}

twice : (x : ℤ) → x ≡ pos 0 -ℤ (pos 0 -ℤ x)
twice x = omega int_laws

without_zero : (y : ℤ) → pos 0 -ℤ ((pos 0 -ℤ y) +ℤ pos 0) ≡ y
without_zero y = omega int_laws

negated : (x y : ℤ) → pos 0 -ℤ x ≡ (pos 0 -ℤ y) +ℤ pos 0 → x ≡ y
negated x y e = twice x ∙ ap (λ (k : ℤ). pos 0 -ℤ k) e ∙ without_zero y

-- the balance on the debit side gives the balance
debit_balance : (t : AccountType) (x y : ℤ) → as_debit t x ≡ as_debit t y +ℤ pos 0 → x ≡ y
debit_balance AccountType.asset x y e = e ∙ +ℤ_zero y
debit_balance AccountType.expense x y e = e ∙ +ℤ_zero y
debit_balance AccountType.liability x y e = negated x y e
debit_balance AccountType.equity x y e = negated x y e
debit_balance AccountType.income x y e = negated x y e
debit_balance (AccountType.other s) x y e = negated x y e

same_some : {A : Type 0} {a b : A} → some a ≡ some b → a ≡ b
same_some h = cc

module _ {D : Type 0} ⦃o : Decimals D⦄ where
  -- an account to whose balance nothing is added is found with the balance it had
  abbrev FoundSame : Text → Account D → List (Account D) → Type 0
  FoundSame code c after =
      (d : Account D) × (find_by_code code after ≡ some d) × (o.units d.balance ≡ o.units c.balance)

  debited_same :
      (z : ℤ) (a b : Account D)
      → IsDebited z a b
      → z ≡ pos 0
      → o.units b.balance ≡ o.units a.balance
  debited_same z a b h e = debit_balance a.type (o.units b.balance) (o.units a.balance) (
      ap (λ (t : AccountType). as_debit t (o.units b.balance)) (sym h.type_eq)
      ∙ h.debit_eq
      ∙ ap (λ (k : ℤ). as_debit a.type (o.units a.balance) +ℤ k) e)

  found_same :
      (f : ℕ → ℤ) (code : Text) (c : Account D) (before after : List (Account D))
      → AreDebited f before after
      → find_by_code code before ≡ some c
      → f c.id ≡ pos 0
      → FoundSame code c after
  found_same f code c [] after h found none_moved = absurd (cc)
  found_same f code c (a ∷ as') [] h found none_moved = absurd h
  found_same f code c (a ∷ as') (b ∷ bs) h found none_moved = elim (Bool-cases (code == a.code)) [
    | inl here ↦
        let is_a : a ≡ c = same_some (rw here at found) in
        (
          b,
          rw (h.0.code_eq, here) refl,
          debited_same (f a.id) a b h.0 (ap (λ (k : Account D). f k.id) is_a ∙ none_moved)
              ∙ ap (λ (k : Account D). o.units k.balance) is_a,
        )
    | inr elsewhere ↦
        let rest = found_same f code c as' bs h.1 (rw elsewhere at found) none_moved in
        (rest.0, rw (h.0.code_eq, elsewhere) rest.1, rest.2)
  ]

  -- the account that the health check watches is in order
  abbrev pub health_status : Account D → ℕ
  health_status c = if o.is_zero c.balance then 200 else 503

  same_status :
      (c d : Account D) → o.units d.balance ≡ o.units c.balance → health_status d ≡ health_status c
  same_status c d e =
      ap (λ (b : Bool). if b then 200 else 503)
        (o.is_zero_units d.balance
          ∙ ap (λ (k : ℤ). eqb_ℤ k (pos 0)) e
          ∙ sym (o.is_zero_units c.balance))

-- the body asks for a transfer between two other accounts
abbrev pub IsBetweenOthers : Formats → ℕ → Option CreateTransferRequest → Type 0
IsBetweenOthers form id body =
    (given : CreateTransferRequest)
    → body ≡ some given
    → (form.parse_uuid (trim_space given.from_account_id) ≢ some id)
      × (form.parse_uuid (trim_space given.to_account_id) ≢ some id)

module _ {D : Type 0} ⦃o : Decimals D⦄ (form : Formats) where
  serve_health :
      (env : Env) (srv : Server) (w : World D) (c : Account D)
      → env.fails w.calls ≡ false
      → find_by_code (health_code srv.clearing_code_var) w.db.accounts ≡ some c
      → (serve form env srv get_clearing_health w).0.status ≡ health_status c
  unfolding serve get_clearing_health_handler on_pool get_account_by_code query statement ◌>>=◌ try
      lift
  serve_health env srv w c up found = elim (Bool-cases (o.is_zero c.balance)) [
    | inl zero ↦ rw (up, found, zero) refl
    | inr other ↦ rw (up, found, other) refl
  ]

  unmoved :
      (req : TransferRequest D) (id : ℕ)
      → id ≢ req.from_account_id
      → id ≢ req.to_account_id
      → moved_amount req id ≡ pos 0
  unmoved req id h k = elim (Bool-cases (id == req.from_account_id)) [
    | inl source ↦ absurd (h (==→eq id req.from_account_id source))
    | inr other ↦ elim (Bool-cases (id == req.to_account_id)) [
      | inl target ↦ absurd (k (==→eq id req.to_account_id target))
      | inr neither ↦ rw (other, neither) (omega int_laws)
    ]
  ]

  module _ (env : Env) (srv : Server) (header : Text) where
    still_found :
        (code : Text) (body : Option CreateTransferRequest) (w : World D) (c : Account D)
        (db : Db D)
        → find_by_code code w.db.accounts ≡ some c
        → IsBetweenOthers form c.id body
        → MovedOrNot form env srv header body w db
        → FoundSame code c db.accounts
    still_found code body w c db found others (inl same) =
        (c, ap (λ (l : List (Account D)). find_by_code code l) same ∙ found, refl)
    still_found code body w c db found others (inr (given, req, e, reads, moved)) =
        found_same (moved_amount req) code c w.db.accounts db.accounts moved.debited found (
          unmoved req c.id
            (λ k. (others given e).0 (reads.from_eq ∙ ap (λ (n : ℕ). some n) (sym k)))
            (λ k. (others given e).1 (reads.to_eq ∙ ap (λ (n : ℕ). some n) (sym k))))

    -- A transfer that is posted to the API leaves the health of the clearing account as it was: on a sound
    -- table of accounts, with an amount that the column holds exactly, and between two accounts other than
    -- the one that the health check watches, GET /api/v1/health/clearing answers with the same status after
    -- POST /api/v1/transfers as before it, whatever fails behind the transfer, where the two checks
    -- themselves meet no failing call.
    pub post_transfer-healthy :
        (later : Env) (body : Option CreateTransferRequest) (w : World D) (c : Account D)
        → IsSound w.db.accounts
        → ((given : CreateTransferRequest) (d : D)
            → body ≡ some given
            → o.from_string (trim_space given.amount) ≡ some d
            → OnScale d)
        → find_by_code (health_code srv.clearing_code_var) w.db.accounts ≡ some c
        → IsBetweenOthers form c.id body
        → ((n : ℕ) → later.fails n ≡ false)
        → (serve form later srv get_clearing_health (posted form env srv header body w).1).0.status
          ≡ (serve form later srv get_clearing_health w).0.status
    post_transfer-healthy later body w c sound exact found others up =
        let u = (posted form env srv header body w).1 in
        let d =
          still_found (health_code srv.clearing_code_var) body w c u.db found others
            (post_transfer-HasMoved form env srv header body w sound exact) in
        serve_health later srv u d.0 (up u.calls) d.1
        ∙ same_status c d.0 d.2
        ∙ sym (serve_health later srv w c (up w.calls) found)
