-- ===== src/Ledger/Reports/Stays.antt =====
-- The accounts of a table stay in it when their balances are moved.
use payments_engine.Base.{
  ℕ, List, [], ◌∷◌, none, ◌≡◌, refl, ap, ◌∙◌, arith, ◌==◌, nat_eq, Bool-cases, Option-cases, inl,
  inr,
}
use payments_engine.Decimal.{Decimals}
use payments_engine.Account.{Account}
use payments_engine.Ledger.Effect.{apply_all}
use payments_engine.Ledger.Entry.{JournalEntryLine}
use payments_engine.Ledger.Equation.{IsUnique}
use payments_engine.Ledger.Posting.{DeltaMap}
use payments_engine.Ledger.Reports.Books.{Known}
use payments_engine.Ledger.Repository.{find_account, shift, shift_all}

module _ {D : Type 0} ⦃o : Decimals D⦄ where
  shift-id : (id : ℕ) (d : D) (a : Account D) → (shift id d a).id ≡ a.id
  shift-id id d a = ground arith

  -- the accounts of a table stay in it, and no id comes twice
  shift_all-none :
      (k id : ℕ) (d : D) (accounts : List (Account D))
      → find_account k accounts ≡ none
      → find_account k (shift_all id d accounts) ≡ none
  shift_all-none k id d [] h = refl
  shift_all-none k id d (a ∷ rest) h = elim (Bool-cases (a.id == id)) [
    | inl hit ↦ rw hit (ground (arith, shift_all-none k id d rest))
    | inr miss ↦ rw miss (ground (arith, shift_all-none k id d rest))
  ]

  none-shift_all :
      (k id : ℕ) (d : D) (accounts : List (Account D))
      → find_account k (shift_all id d accounts) ≡ none
      → find_account k accounts ≡ none
  none-shift_all k id d [] h = refl
  none-shift_all k id d (a ∷ rest) h = ground (arith, none-shift_all k id d rest)

  shift_all-IsUnique :
      (id : ℕ) (d : D) (accounts : List (Account D))
      → IsUnique accounts
      → IsUnique (shift_all id d accounts)
  shift_all-IsUnique id d [] u = tt
  shift_all-IsUnique id d (a ∷ rest) u = (
    ap (λ (k : ℕ). find_account k (shift_all id d rest)) (shift-id id d a)
        ∙ shift_all-none a.id id d rest u.0,
    shift_all-IsUnique id d rest u.1,
  )

  none-apply_all :
      (m : DeltaMap D) (k : ℕ) (accounts : List (Account D))
      → find_account k (apply_all m accounts) ≡ none
      → find_account k accounts ≡ none
  none-apply_all [] k accounts h = h
  none-apply_all ((id, d) ∷ m) k accounts h =
      none-shift_all k id d accounts (none-apply_all m k (shift_all id d accounts) h)

  pub apply_all-IsUnique :
      (m : DeltaMap D) (accounts : List (Account D))
      → IsUnique accounts
      → IsUnique (apply_all m accounts)
  apply_all-IsUnique [] accounts u = u
  apply_all-IsUnique ((id, d) ∷ m) accounts u =
      apply_all-IsUnique m (shift_all id d accounts) (shift_all-IsUnique id d accounts u)

  pub still-Known :
      (m : DeltaMap D) (accounts : List (Account D)) (l : JournalEntryLine D)
      → Known accounts l
      → Known (apply_all m accounts) l
  still-Known m accounts l (a, e) =
      elim (Option-cases (find_account l.account_id (apply_all m accounts))) [
        | inl gone ↦ absurd (cc (none-apply_all m l.account_id accounts gone))
        | inr found ↦ found
      ]
