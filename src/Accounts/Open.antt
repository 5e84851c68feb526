-- ===== src/Accounts/Open.antt =====
-- What opening an account does to a sound table.
use payments_engine.Base.{
  ℕ, Bool, true, none, [], ◌∷◌, Text, ◌≡◌, refl, sym, ap, subst, ◌∙◌, arith, Bool-cases,
  Option-cases, inl, inr, ◌==◌, ◌⊎◌, nat_eq, text_eq,
}
use payments_engine.Base.Int.{pos, zero_+ℤ}
use payments_engine.Decimal.{Decimals}
use payments_engine.Exec.Ends.{
  Ends, Ends-ok, Ends-err, Ends-pure, Ends-raise, Ends-lift, Ends-bind, Ends-within, Ends-weaken,
}
use payments_engine.Account.{Account, AccountType, active}
use payments_engine.Accounts.Restate.{log_account-Ends}
use payments_engine.Accounts.Service.{
  CreateAccountInput, is_valid_account_type, account_error, opened_row, insert_account,
  store_account, new_account, create_account,
}
use payments_engine.Ledger.Balances.{OnScale}
use payments_engine.Ledger.Equation.{IsClass, as_debit_zero, net_debit}
use payments_engine.Ledger.Repository.{find_account}
use payments_engine.Ledger.Sound.{IsSound}
use payments_engine.Store.{Env, Session, statement, finish}
use payments_engine.Store.Tables.{Db}
use payments_engine.World.{World}
use payments_engine.World.Pool.{IsLost, Ends-on_pool}

class_of_valid : (t : AccountType) → is_valid_account_type t ≡ true → IsClass t
class_of_valid AccountType.asset h = tt
class_of_valid AccountType.liability h = tt
class_of_valid AccountType.equity h = tt
class_of_valid AccountType.income h = tt
class_of_valid AccountType.expense h = tt
class_of_valid (AccountType.other t) h = absurd (cc)

module _ {D : Type 0} ⦃o : Decimals D⦄ where
  -- the account `b` is a new row of the table, active and with nothing on it
  pub record IsOpened (input : CreateAccountInput) (before : Db D) (b : Account D) (after : Db D)
      : Type 0 where
    pub type_eq : b.type ≡ input.type
    pub currency_eq : b.currency ≡ input.currency
    pub status_eq : b.status ≡ active
    pub empty : o.units b.balance ≡ pos 0
    pub after_eq : after ≡ record before { accounts = b ∷ before.accounts }
    pub new : find_account b.id before.accounts ≡ none
    pub class : IsClass b.type
    pub on_scale : OnScale b.balance

  accepted :
      (n id : ℕ) (a : Account D) (db : Db D)
      → account_error n id a db ≡ none
      → (find_account id db.accounts ≡ none) × (is_valid_account_type a.type ≡ true)
  accepted n id a db h = ground arith

  module _ (env : Env) (suffix : Text) (input : CreateAccountInput) (v : Db D) where
    abbrev opened : ℕ → Account D
    opened n = opened_row env n (new_account suffix input)

    opened_row-IsOpened :
        (n : ℕ) (db : Db D)
        → db ≡ v
        → account_error n (env.fresh n) (new_account suffix input) db ≡ none
        → IsOpened input v (opened n) (record db { accounts = opened n ∷ db.accounts })
    opened_row-IsOpened n db h free = record {
      type_eq = refl;
      currency_eq = refl;
      status_eq = refl;
      empty = o.column_zero ∙ o.units_zero_value;
      after_eq = ap (λ (db : Db D). record db { accounts = opened n ∷ db.accounts }) h;
      new =
          ap (λ (db : Db D). find_account (env.fresh n) db.accounts) (sym h)
          ∙ (accepted n (env.fresh n) (new_account suffix input) db free).0;
      class =
          class_of_valid input.type (accepted n (env.fresh n) (new_account suffix input) db free).1;
      on_scale = o.column_column o.zero_value;
    }

    inserted :
        (s : Session D)
        → s.db ≡ v
        → Ends
            (λ b t. IsOpened input v b t.db)
            (λ t. t.db ≡ v)
            (finish s (insert_account env (new_account suffix input) s.calls s.db))
    inserted s h =
        elim (Option-cases
          (account_error s.calls (env.fresh s.calls) (new_account suffix input) s.db)) [
            | inl free ↦
                rw (free, insert_account) (Ends-ok _ _ (opened_row-IsOpened s.calls s.db h free))
            | inr (x, refused) ↦ rw (refused, insert_account) (Ends-err x _ h)
          ]

    -- the tables as before, or with the new account, where only the answer was lost
    abbrev Left : Db D → Type 0
    Left db = (db ≡ v) ⊎ IsLost env ((b : Account D) × IsOpened input v b db)

    stored :
        (n : ℕ) (db : Db D)
        → db ≡ v
        → env.fails n ≡ true
        → env.landed n ≡ true
        → Left (insert_account env (new_account suffix input) n db).1
    stored n db h down took =
        elim (Option-cases (account_error n (env.fresh n) (new_account suffix input) db)) [
          | inl free ↦
              rw (free, insert_account)
                (inr (record {
                  call = n;
                  down = down;
                  took = took;
                  done = (opened n, opened_row-IsOpened n db h free);
                }))
          | inr (x, refused) ↦ rw (refused, insert_account) (inl h)
        ]

    insert-Ends :
        (s : Session D)
        → s.db ≡ v
        → Ends
            (λ b t. IsOpened input v b t.db)
            (λ t. Left t.db)
            (statement env (insert_account env (new_account suffix input)) s)
    unfolding statement
    insert-Ends s h = elim (Bool-cases (env.fails s.calls)) [
      | inl down ↦ elim (Bool-cases (env.landed s.calls)) [
        | inl took ↦ rw (down, took) (Ends-err _ _ (stored s.calls s.db h down took))
        | inr gone ↦ rw (down, gone) (Ends-err _ _ (inl h))
      ]
      | inr up ↦ rw up (Ends-weaken (inserted s h) (λ b t q. q) (λ t q. inl q))
    ]

    store_account-Ends :
        (s : Session D)
        → s.db ≡ v
        → Ends
            (λ b t. IsOpened input v b t.db)
            (λ t. Left t.db)
            (store_account env (new_account suffix input) s)
    unfolding store_account
    store_account-Ends s h = elim (Bool-cases ((new_account {D = D} suffix input).name == [])) [
      | inl unnamed ↦ rw unnamed (Ends-raise _ s (inl h))
      | inr named ↦ rw named (Ends-within _ _ s (insert-Ends s h))
    ]

    create_account-Ends :
        (audited : Bool) (w : World D)
        → w.db ≡ v
        → Ends
            (λ b u. IsOpened input v b u.db)
            (λ u. Left u.db)
            (create_account env audited suffix input w)
    unfolding create_account
    create_account-Ends audited w h =
        Ends-lift _ _ w
          (λ _ named.
            Ends-lift _ _ w
              (λ _ typed.
                Ends-lift _ _ w
                  (λ _ priced.
                    Ends-bind _ _ w
                      (Ends-on_pool (λ b db. IsOpened input v b db) Left _ w
                        (store_account-Ends _ h))
                      λ b w1 h1.
                        Ends-bind _ _ w1 (log_account-Ends env v audited b.id _ _ w1.db w1 refl)
                          λ _ w2 h2.
                            Ends-pure b w2
                              (subst (λ (db : Db D). IsOpened input v b db) (sym h2) h1))
                  (inl h))
              (inl h))
          (inl h)

  opened-IsSound :
      (input : CreateAccountInput) (before : Db D) (b : Account D)
      → IsSound before.accounts
      → find_account b.id before.accounts ≡ none
      → IsClass b.type
      → OnScale b.balance
      → o.units b.balance ≡ pos 0
      → IsSound (b ∷ before.accounts)
        × (net_debit (b ∷ before.accounts) ≡ net_debit before.accounts)
  opened-IsSound input before b sound new class on_scale empty = (
    record {
      unique = (new, sound.unique);
      classes = (class, sound.classes);
      on_scale = (on_scale, sound.on_scale);
      funded = (rw empty (omega arith), sound.funded);
    },
    rw (empty, as_debit_zero b.type) (zero_+ℤ (net_debit before.accounts)),
  )

  IsSound-after :
      (input : CreateAccountInput) (before after : Db D) (b : Account D)
      → IsSound before.accounts
      → IsOpened input before b after
      → IsSound after.accounts × (net_debit after.accounts ≡ net_debit before.accounts)
  IsSound-after input before after b sound p =
      rw p.after_eq (opened-IsSound input before b sound p.new p.class p.on_scale p.empty)

  lost-IsSound :
      (env : Env) (input : CreateAccountInput) (before after : Db D)
      → IsSound before.accounts
      → (after ≡ before) ⊎ IsLost env ((b : Account D) × IsOpened input before b after)
      → (after ≡ before)
        ⊎ IsLost env (
            (b : Account D) × IsOpened input before b after
            × IsSound after.accounts
            × (net_debit after.accounts ≡ net_debit before.accounts))
  lost-IsSound env input before after sound (inl same) = inl same
  lost-IsSound env input before after sound (inr l) =
      let (q, n) = IsSound-after input before after l.done.0 sound l.done.1 in
      inr
        (record { call = l.call; down = l.down; took = l.took; done = (l.done.0, l.done.1, q, n) })

  -- CreateAccount on every path: on a sound table, when it returns an account, the account is a new
  -- row, ACTIVE, of the class and currency asked for, with a balance of zero, the table is the one
  -- before with that row added and is sound, and the debit balances less the credit balances are
  -- what they were; when it returns an error, the tables are as before, or a call failed whose work
  -- was done and only its answer was lost, and such a row was added.
  pub create_account-IsOpened :
      (env : Env) (audited : Bool) (suffix : Text) (input : CreateAccountInput) (w : World D)
      → IsSound w.db.accounts
      → Ends
          (λ b u.
            IsOpened input w.db b u.db
            × IsSound u.db.accounts
            × (net_debit u.db.accounts ≡ net_debit w.db.accounts))
          (λ u.
            (u.db ≡ w.db)
            ⊎ IsLost env (
                (b : Account D) × IsOpened input w.db b u.db
                × IsSound u.db.accounts
                × (net_debit u.db.accounts ≡ net_debit w.db.accounts)))
          (create_account env audited suffix input w)
  create_account-IsOpened env audited suffix input w sound =
      Ends-weaken (create_account-Ends env suffix input w.db audited w refl)
        (λ b u p. let (q, n) = IsSound-after input w.db u.db b sound p in (p, q, n))
        (λ u q. lost-IsSound env input w.db u.db sound q)
