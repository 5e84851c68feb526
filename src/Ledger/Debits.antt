-- ===== src/Ledger/Debits.antt =====
-- What a posting does to each account, as debits: a debit account grows by the entry's debits and a
-- credit account by its credits.
use payments_engine.Base.{
  ℕ, Bool-cases, inl, inr, List, [], ◌∷◌, ◌≡◌, refl, arith, ◌==◌, nat_eq, if◌then◌else◌, ◌∙◌, ap,
  sym, All, some, subst,
}
use payments_engine.Base.Int.{ℤ, pos, ◌+ℤ◌, int_laws}
use payments_engine.Decimal.{Decimals}
use payments_engine.Account.{Account, AccountType}
use payments_engine.Ledger.Entry.{JournalEntryLine}
use payments_engine.Ledger.Posting.{line_delta}
use payments_engine.Ledger.Repository.{find_account}
use payments_engine.Ledger.Deltas.{line_units, lines_units}
use payments_engine.Ledger.Balances.{AreMoved}
use payments_engine.Ledger.Equation.{
  as_debit, as_debit-add, as_debit_zero, as_debit_line, signed, IsPlaced, IsUnique,
}
use payments_engine.Ledger.Loaded.{All-found}

module _ {D : Type 0} ⦃o : Decimals D⦄ where
  -- the debits less the credits that the lines make on the account
  abbrev pub signed_at : ℕ → List (JournalEntryLine D) → ℤ
  signed_at id [] = pos 0
  signed_at id (line ∷ rest) =
      (if id == line.account_id then signed line line.type else pos 0) +ℤ signed_at id rest

  -- the row `b` is the row `a` with `z` more on its debit side, and nothing else of it changed but its
  -- version
  pub record IsDebited (z : ℤ) (a b : Account D) : Type 0 where
    pub id_eq : b.id ≡ a.id
    pub code_eq : b.code ≡ a.code
    pub name_eq : b.name ≡ a.name
    pub parent_id_eq : b.parent_id ≡ a.parent_id
    pub is_posting_eq : b.is_posting ≡ a.is_posting
    pub type_eq : b.type ≡ a.type
    pub currency_eq : b.currency ≡ a.currency
    pub status_eq : b.status ≡ a.status
    pub debit_eq : as_debit b.type (o.units b.balance) ≡ as_debit a.type (o.units a.balance) +ℤ z

  abbrev pub AreDebited : (ℕ → ℤ) → List (Account D) → List (Account D) → Type 0
  AreDebited f [] [] = Unit
  AreDebited f (a ∷ as') (b ∷ bs) = IsDebited (f a.id) a b × AreDebited f as' bs
  AreDebited f _ _ = ⊥

  same_row :
      (accounts : List (Account D)) (k : ℕ) (b a : Account D)
      → find_account k accounts ≡ some b
      → find_account a.id accounts ≡ some a
      → a.id ≡ k
      → b ≡ a
  same_row accounts k b a p e q = cc (sym p ∙ ap (λ x. find_account x accounts) (sym q) ∙ e)

  line_at :
      (accounts : List (Account D)) (type_of : ℕ → AccountType) (line : JournalEntryLine D)
      (a : Account D)
      → find_account a.id accounts ≡ some a
      → IsPlaced accounts type_of line
      → as_debit a.type (line_units type_of a.id line)
        ≡ (if a.id == line.account_id then signed line line.type else pos 0)
  line_at accounts type_of line a e p = elim (Bool-cases (a.id == line.account_id)) [
    | inl here ↦
        rw (here, p.type_eq)
          (subst
            (λ (x : Account D).
              as_debit x.type (o.units (line_delta p.account.type line.type line.amount))
              ≡ signed line line.type)
            (same_row accounts line.account_id p.account a p.found e (ground arith))
            (as_debit_line p.account.type line line.type p.class))
    | inr elsewhere ↦ rw elsewhere (as_debit_zero a.type)
  ]

  lines_at :
      (accounts : List (Account D)) (type_of : ℕ → AccountType) (lines : List (JournalEntryLine D))
      (a : Account D)
      → find_account a.id accounts ≡ some a
      → All (IsPlaced accounts type_of) lines
      → as_debit a.type (lines_units type_of a.id lines) ≡ signed_at a.id lines
  lines_at accounts type_of [] a e h = as_debit_zero a.type
  lines_at accounts type_of (line ∷ rest) a e h =
      rw
        (
          as_debit-add a.type,
          line_at accounts type_of line a e h.0,
          lines_at accounts type_of rest a e h.1,
        )
        refl

  debited :
      (f g : ℕ → ℤ) (as' bs : List (Account D))
      → AreMoved f as' bs
      → All (λ a. as_debit a.type (f a.id) ≡ g a.id) as'
      → AreDebited g as' bs
  debited f g [] [] p h = tt
  debited f g (a ∷ as') (b ∷ bs) p h = (
    record {
      id_eq = p.0.id_eq;
      code_eq = p.0.code_eq;
      name_eq = p.0.name_eq;
      parent_id_eq = p.0.parent_id_eq;
      is_posting_eq = p.0.is_posting_eq;
      type_eq = p.0.type_eq;
      currency_eq = p.0.currency_eq;
      status_eq = p.0.status_eq;
      debit_eq = rw (p.0.type_eq, p.0.balance_eq, as_debit-add a.type, h.0) refl;
    },
    debited f g as' bs p.1 h.1,
  )
  debited f g [] (b ∷ bs) p h = absurd p
  debited f g (a ∷ as') [] p h = absurd p

  -- moved as the lines say: debited as the lines say
  pub AreMoved-AreDebited :
      (type_of : ℕ → AccountType) (f : ℕ → ℤ) (lines : List (JournalEntryLine D))
      (as' bs : List (Account D))
      → ((k : ℕ) → f k ≡ lines_units type_of k lines)
      → IsUnique as'
      → All (IsPlaced as' type_of) lines
      → AreMoved f as' bs
      → AreDebited (λ k. signed_at k lines) as' bs
  AreMoved-AreDebited type_of f lines as' bs e u h p =
      debited f (λ k. signed_at k lines) as' bs p
        (All-found (λ a. as_debit a.type (f a.id) ≡ signed_at a.id lines) as' u
          (λ a q. rw (e a.id) (lines_at as' type_of lines a q h)))

  -- one entry after another
  pub AreDebited-trans :
      (f g h : ℕ → ℤ) (as' bs cs : List (Account D))
      → ((k : ℕ) → f k +ℤ g k ≡ h k)
      → AreDebited f as' bs
      → AreDebited g bs cs
      → AreDebited h as' cs
  AreDebited-trans f g h [] [] [] e p q = tt
  AreDebited-trans f g h (a ∷ as') (b ∷ bs) (c ∷ cs) e p q = (
    record {
      id_eq = q.0.id_eq ∙ p.0.id_eq;
      code_eq = q.0.code_eq ∙ p.0.code_eq;
      name_eq = q.0.name_eq ∙ p.0.name_eq;
      parent_id_eq = q.0.parent_id_eq ∙ p.0.parent_id_eq;
      is_posting_eq = q.0.is_posting_eq ∙ p.0.is_posting_eq;
      type_eq = q.0.type_eq ∙ p.0.type_eq;
      currency_eq = q.0.currency_eq ∙ p.0.currency_eq;
      status_eq = q.0.status_eq ∙ p.0.status_eq;
      debit_eq = q.0.debit_eq ∙ rw (p.0.debit_eq, p.0.id_eq, sym (e a.id)) (omega int_laws);
    },
    AreDebited-trans f g h as' bs cs e p.1 q.1,
  )
  AreDebited-trans f g h [] [] (c ∷ cs) e p q = absurd q
  AreDebited-trans f g h [] (b ∷ bs) cs e p q = absurd p
  AreDebited-trans f g h (a ∷ as') [] cs e p q = absurd p
  AreDebited-trans f g h (a ∷ as') (b ∷ bs) [] e p q = absurd q
