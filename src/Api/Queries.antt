-- ===== src/Api/Queries.antt =====
-- The currency of a query, and what the trial balance of the API says.
use payments_engine.Base.{
  true, false, ◌&&◌, [], ◌∷◌, ◌++◌, Text, text, ◌≡◌, refl, sym, ap, subst, ◌∙◌, arith, ◌==◌,
  text_eq, nat_eq, length, map, ◌⊎◌, inl, inr, Bool-cases, ==→eq,
}
use payments_engine.Base.Strings.{trim_left, trim_space, to_upper}
use payments_engine.Error.{Error, message, ok, err}
use payments_engine.Decimal.{Decimals}
use payments_engine.Api.Answer.{Formats, Answer, trial_body, trial_row}
use payments_engine.Api.Reports.{all_letters, iso_code_error, parse_required_currency_query}
use payments_engine.Api.Routes.{get_trial_balance}
use payments_engine.Exec.Ends.{Ends}
use payments_engine.Ledger.TrialBalance.{TrialBalance, get_trial_balance as read_totals}
use payments_engine.Ledger.Reports.Trial.{IsTrial}
use payments_engine.Store.{Env}
use payments_engine.Store.Tables.{Db}
use payments_engine.World.{World}
use mathlib.Core.List.{reverse, reverse-cons, reverse-reverse}

-- three letters from A to Z
pub record IsCode (c : Text) : Type 0 where
  pub three : length c ≡ 3
  pub letters : all_letters c ≡ true

all_letters-append : (s t : Text) → all_letters (s ++ t) ≡ (all_letters s && all_letters t)
all_letters-append [] t = refl
all_letters-append (c ∷ s) t = ground (arith, all_letters-append s t)

all_letters-reverse : (s : Text) → all_letters s ≡ true → all_letters (reverse s) ≡ true
all_letters-reverse [] h = refl
all_letters-reverse (c ∷ s) h =
    ap all_letters (reverse-cons c s)
    ∙ all_letters-append (reverse s) (c ∷ [])
    ∙ ground (arith, all_letters-reverse s)

trim_left-letters : (s : Text) → all_letters s ≡ true → trim_left s ≡ s
unfolding trim_left
trim_left-letters [] h = refl
trim_left-letters (c ∷ s) h = ground arith

trim_space-letters : (s : Text) → all_letters s ≡ true → trim_space s ≡ s
unfolding trim_space
trim_space-letters s h =
    ap (λ (t : Text). reverse (trim_left (reverse t))) (trim_left-letters s h)
    ∙ ap reverse (trim_left-letters (reverse s) (all_letters-reverse s h))
    ∙ reverse-reverse s

to_upper-letters : (s : Text) → all_letters s ≡ true → to_upper s ≡ s
unfolding to_upper
to_upper-letters [] h = refl
to_upper-letters (c ∷ s) h = ground (arith, to_upper-letters s)

IsCode-full : (c : Text) → IsCode c → (c == []) ≡ false
IsCode-full [] h = absurd (omega (arith, h.three))
IsCode-full (x ∷ xs) h = refl

parse_same : (c : Text) → IsCode c → parse_required_currency_query c ≡ ok c
unfolding parse_required_currency_query
parse_same c h =
    rw
      (
        trim_space-letters c h.letters,
        to_upper-letters c h.letters,
        IsCode-full c h,
        h.three,
        h.letters,
      )
      refl

-- a query is refused, or its parameter is a code between spaces, in any case
parsed :
    (param : Text)
    → ((parse_required_currency_query param ≡ ok (to_upper (trim_space param)))
        × IsCode (to_upper (trim_space param)))
      ⊎ ((e : Error) × (parse_required_currency_query param ≡ err e))
unfolding parse_required_currency_query
parsed param = elim (Bool-cases (trim_space param == [])) [
  | inl blank ↦ inr (message (text "currency query parameter is required"), rw blank refl)
  | inr given ↦ elim (Bool-cases (length (to_upper (trim_space param)) == 3)) [
    | inr other ↦ inr (iso_code_error, rw (given, other) refl)
    | inl three ↦ elim (Bool-cases (all_letters (to_upper (trim_space param)))) [
      | inr other ↦ inr (iso_code_error, rw (given, three, other) refl)
      | inl letters ↦ inl (
        rw (given, three, letters) refl,
        record { three = ==→eq (length (to_upper (trim_space param))) 3 three; letters = letters },
      )
    ]
  ]
]

refused_or_ok : {e : Error} {c : Text} → err e ≡ ok c → ⊥
refused_or_ok h = cc

ok_same : {a b : Text} → ok a ≡ ok b → a ≡ b
ok_same h = cc

-- A currency that a query gives is three letters from A to Z, the upper case of the parameter without
-- the spaces around it, and is accepted again as itself.
parse_required_currency_query-IsCode :
    (param c : Text)
    → parse_required_currency_query param ≡ ok c
    → IsCode c × (c ≡ to_upper (trim_space param)) × (parse_required_currency_query c ≡ ok c)
parse_required_currency_query-IsCode param c h = elim (parsed param) [
  | inr bad ↦ absurd (refused_or_ok (sym bad.1 ∙ h))
  | inl good ↦
      let e = ok_same (sym h ∙ good.0) in
      let code = subst IsCode (sym e) good.1 in (code, e, parse_same c code)
]

module _ {D : Type 0} ⦃o : Decimals D⦄ (form : Formats) (env : Env) where
  -- a trial balance of the journal, reported as balanced
  pub record SaysBalanced (currency : Text) (db : Db D) (a : Answer D) : Type 0 where
    pub totals : TrialBalance D
    pub trial : IsTrial currency db totals
    pub status_eq : a.status ≡ 200
    pub body_eq :
        a.body
        ≡ trial_body (record {
          currency = totals.currency;
          rows = map (trial_row form) totals.rows;
          balanced = true;
          net_total = o.string_fixed totals.net_total;
        })
