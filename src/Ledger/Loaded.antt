-- ===== src/Ledger/Loaded.antt =====
-- The accounts that an entry names, as they were found, locked and checked.
use payments_engine.Base.{
  ℕ, true, Bool-cases, inl, inr, List, [], ◌∷◌, ◌≡◌, refl, arith, ◌==◌, nat_eq, text_eq,
  text_beq_iff, contains, subst, All, some, Text, Option-cases,
}
use payments_engine.Error.{ok}
use payments_engine.Account.{Account, active, status_beq}
use payments_engine.Ledger.Entry.{JournalEntry, JournalEntryLine}
use payments_engine.Ledger.Posting.{collect_account_ids, add_id, add_account_ids}
use payments_engine.Ledger.Repository.{find_account, status_in, currency_in, check_accounts}
use payments_engine.Ledger.Effect.{rows_for}
use payments_engine.Ledger.Equation.{IsClass, IsUnique}

contains-add_id :
    (id k : ℕ) (ids : List ℕ) → contains id ids ≡ true → contains id (add_id k ids) ≡ true
contains-add_id id k [] h = cc
contains-add_id id k (j ∷ ids) h = ground (arith, contains-add_id id k ids)

added : (k : ℕ) (ids : List ℕ) → contains k (add_id k ids) ≡ true
added k [] = ground arith
added k (j ∷ ids) = ground (arith, added k ids)

module _ {D : Type 0} where
  pub find_account-select :
      (ids : List ℕ) (id : ℕ) (accounts : List (Account D))
      → contains id ids ≡ true
      → find_account id (rows_for ids accounts) ≡ find_account id accounts
  find_account-select ids id [] h = refl
  find_account-select ids id (a ∷ rest) h = ground (arith, find_account-select ids id rest)

  -- an account that was found among the rows, active and in the currency
  pub record IsLoaded (rows : List (Account D)) (currency : Text) (id : ℕ) : Type 0 where
    pub account : Account D
    pub found : find_account id rows ≡ some account
    pub is_active : account.status ≡ active
    pub currency_eq : account.currency ≡ currency

  active_found :
      (rows : List (Account D)) (currency : Text) (id : ℕ)
      → status_beq (status_in rows id) active ≡ true
      → (currency_in rows id == currency) ≡ true
      → IsLoaded rows currency id
  active_found rows currency id h c = elim (Option-cases (find_account id rows)) [
    | inl e ↦ absurd (ground arith)
    | inr (a, e) ↦ record {
      account = a;
      found = e;
      is_active = ground arith;
      currency_eq = ground (arith, text_beq_iff a.currency currency);
    }
  ]

  -- what the loop over the ids has established for each of them
  pub checked_IsLoaded :
      (rows : List (Account D)) (currency : Text) (ids : List ℕ) (id : ℕ)
      → check_accounts rows currency ids ≡ ok tt
      → contains id ids ≡ true
      → IsLoaded rows currency id
  unfolding check_accounts
  checked_IsLoaded rows currency [] id h c = absurd (cc)
  checked_IsLoaded rows currency (i ∷ ids) id h c = elim (Bool-cases (id == i)) [
    | inl same ↦ active_found rows currency id (ground arith) (ground arith)
    | inr differs ↦ checked_IsLoaded rows currency ids id (ground arith) (ground arith)
  ]

  still_collected :
      (id : ℕ) (lines : List (JournalEntryLine D)) (ids : List ℕ)
      → contains id ids ≡ true
      → contains id (add_account_ids lines ids) ≡ true
  unfolding add_account_ids
  still_collected id [] ids h = h
  still_collected id (line ∷ rest) ids h =
      still_collected id rest (add_id line.account_id ids)
        (contains-add_id id line.account_id ids h)

  collected :
      (lines : List (JournalEntryLine D)) (ids : List ℕ)
      → All (λ line. contains line.account_id (add_account_ids lines ids) ≡ true) lines
  unfolding add_account_ids
  collected [] ids = tt
  collected (line ∷ rest) ids = (
    still_collected line.account_id rest (add_id line.account_id ids) (added line.account_id ids),
    collected rest (add_id line.account_id ids),
  )

  -- every line's account is among the ids that are locked
  pub collect_account_ids-All :
      (entry : JournalEntry D)
      → All (λ line. contains line.account_id (collect_account_ids entry) ≡ true) entry.lines
  unfolding collect_account_ids
  collect_account_ids-All entry = collected entry.lines []

  abbrev pub AllClasses : List (Account D) → Type 0
  AllClasses accounts = All (λ a. IsClass a.type) accounts

  pub class_found :
      (id : ℕ) (a : Account D) (accounts : List (Account D))
      → AllClasses accounts
      → find_account id accounts ≡ some a
      → IsClass a.type
  class_found id a [] h e = absurd (cc)
  class_found id a (b ∷ rest) h e = elim (Bool-cases (id == b.id)) [
    | inl here ↦ subst (λ (x : Account D). IsClass x.type) {x = b} {y = a} (ground arith) h.0
    | inr later ↦ class_found id a rest h.1 (ground arith)
  ]

  -- in a table with a primary key, what holds of each row that is found by its key holds of all
  pub All-found :
      (Q : Account D → Type 0) (accounts : List (Account D))
      → IsUnique accounts
      → ((a : Account D) → find_account a.id accounts ≡ some a → Q a)
      → All Q accounts
  All-found Q [] u k = tt
  All-found Q (b ∷ rest) u k =
      (k b (ground arith), All-found Q rest u.1 (λ a e. k a (ground arith)))
