-- ===== src/Ledger/Invariant.antt =====
-- What every successful posting keeps: the accounting equation, the primary key, and balances of
-- zero or more; and by how much it moves each account.
use mathlib.Core.Path.{fun_ext}
use payments_engine.Base.{
  ℕ, true, Bool-cases, inl, inr, List, [], ◌∷◌, ◌≡◌, refl, arith, ◌==◌, nat_eq, contains, subst,
  ◌∙◌, ap, sym, All, some,
}
use payments_engine.Base.Int.{ℤ, pos, ◌+ℤ◌, ◌≤ℤ◌, +ℤ_zero}
use payments_engine.Error.{ok}
use payments_engine.Decimal.{Decimals}
use payments_engine.Exec.Success.{After_at}
use payments_engine.Account.{Account}
use payments_engine.Ledger.Entry.{JournalEntry, JournalEntryLine}
use payments_engine.Ledger.Posting.{DeltaMap, compute_net_deltas, collect_account_ids, has_key}
use payments_engine.Ledger.Repository.{find_account, type_in, balance_in, post_journal_entry_tx}
use payments_engine.Ledger.Effect.{IsPosted, post-After, apply_all}
use payments_engine.Ledger.Deltas.{
  delta_at_missing, compute_net_deltas_lem, has_key-compute_net_deltas, lines_units,
}
use payments_engine.Ledger.Balances.{AllOnScale, AreMoved, delta_units, apply_all-AreMoved}
use payments_engine.Ledger.Equation.{
  IsPlaced, net_debit, net_debit-AreMoved, debit_sum_lines, check_balanced_signed,
}
use payments_engine.Ledger.Debits.{signed_at, AreDebited, AreMoved-AreDebited}
use payments_engine.Ledger.Sound.{
  IsSound, AllFunded, AmountsOnScale, enough, compute-OnScale, AreMoved-IsUnique,
  AreMoved-AllClasses, AreMoved-AllFunded,
}
use payments_engine.Ledger.Loaded.{
  checked_IsLoaded, collect_account_ids-All, class_found, All-found, find_account-select,
}
use payments_engine.Store.{Env, Session}

type_in_found :
    {D : Type 0} (id : ℕ) (a : Account D) (rows : List (Account D))
    → find_account id rows ≡ some a
    → type_in rows id ≡ a.type
type_in_found id a rows e = rw (e, type_in) refl

module _ {D : Type 0} ⦃o : Decimals D⦄ where
  balance_in_found :
      (id : ℕ) (a : Account D) (rows : List (Account D))
      → find_account id rows ≡ some a
      → balance_in rows id ≡ a.balance
  balance_in_found id a rows e = rw (e, balance_in) refl

  funded_found :
      (id : ℕ) (a : Account D) (accounts : List (Account D))
      → AllFunded accounts
      → find_account id accounts ≡ some a
      → pos 0 ≤ℤ o.units a.balance
  funded_found id a [] h e = absurd (cc)
  funded_found id a (b ∷ rest) h e = elim (Bool-cases (id == b.id)) [
    | inl here ↦
        subst (λ (x : Account D). pos 0 ≤ℤ o.units x.balance) {x = b} {y = a} (ground arith) h.0
    | inr later ↦ funded_found id a rest h.1 (ground arith)
  ]

  module _ (env : Env) (entry : JournalEntry D) (s : Session D) (id : ℕ) (t : Session D)
      (p : IsPosted env entry s id t) (sound : IsSound s.db.accounts)
      (exact : AmountsOnScale entry.lines) where
    locked :
        (k : ℕ)
        → contains k (collect_account_ids entry) ≡ true
        → (a : Account D) × (find_account k p.rows ≡ some a)
          × (find_account k s.db.accounts ≡ some a)
    locked k c =
        let l = checked_IsLoaded p.rows entry.currency (collect_account_ids entry) k p.checked c in
        (
          l.account,
          l.found,
          sym (find_account-select (collect_account_ids entry) k s.db.accounts c)
              ∙ ap (find_account k) (sym p.rows_eq)
              ∙ l.found,
        )

    placed :
        (line : JournalEntryLine D)
        → contains line.account_id (collect_account_ids entry) ≡ true
        → IsPlaced s.db.accounts (type_in p.rows) line
    placed line c =
        let (a, e, f) = locked line.account_id c in
        record {
          account = a;
          found = f;
          class = class_found line.account_id a s.db.accounts sound.classes f;
          type_eq = type_in_found line.account_id a p.rows e;
        }

    All-IsPlaced :
        (lines : List (JournalEntryLine D))
        → All (λ line. contains line.account_id (collect_account_ids entry) ≡ true) lines
        → All (IsPlaced s.db.accounts (type_in p.rows)) lines
    All-IsPlaced [] h = tt
    All-IsPlaced (line ∷ rest) h = (placed line h.0, All-IsPlaced rest h.1)

    abbrev deltas : DeltaMap D
    deltas = compute_net_deltas entry.lines (type_in p.rows)

    -- the sums of the lines, account by account
    abbrev moves : ℕ → ℤ
    moves k = delta_units deltas k

    applied :
        AreMoved moves s.db.accounts (apply_all deltas s.db.accounts)
        × AllOnScale (apply_all deltas s.db.accounts)
    applied =
        apply_all-AreMoved deltas s.db.accounts
          (compute_net_deltas_lem (type_in p.rows) entry.lines 0).1
          (compute-OnScale (type_in p.rows) entry.lines exact) sound.on_scale

    moved : AreMoved moves s.db.accounts t.db.accounts
    moved =
        subst (λ (x : List (Account D)). AreMoved moves s.db.accounts x) (sym p.accounts_eq)
          applied.0

    keeps_scale : AllOnScale t.db.accounts
    keeps_scale = subst AllOnScale (sym p.accounts_eq) applied.1

    move_of_key :
        (a : Account D)
        → find_account a.id s.db.accounts ≡ some a
        → has_key a.id deltas ≡ true
        → pos 0 ≤ℤ o.units a.balance +ℤ moves a.id
    move_of_key a e key =
        let c = sym (has_key-compute_net_deltas (type_in p.rows) entry a.id) ∙ key in
        let (b, found, same) = locked a.id c in
        let is_a : b ≡ a = cc in
        let balance : balance_in p.rows a.id ≡ a.balance =
          balance_in_found a.id a p.rows (found ∙ ap some is_a) in
        subst (λ (x : D). pos 0 ≤ℤ o.units x +ℤ moves a.id) balance
          (enough (balance_in p.rows) deltas a.id p.sufficient key)

    funded_after :
        (a : Account D)
        → find_account a.id s.db.accounts ≡ some a
        → pos 0 ≤ℤ o.units a.balance
        → pos 0 ≤ℤ o.units a.balance +ℤ moves a.id
    funded_after a e h = elim (Bool-cases (has_key a.id deltas)) [
      | inl key ↦ move_of_key a e key
      | inr other ↦
          subst (λ (z : ℤ). pos 0 ≤ℤ o.units a.balance +ℤ z)
            (sym (ap o.units (delta_at_missing a.id deltas other) ∙ o.units_zero_value))
            (rw +ℤ_zero h)
    ]

    all_funded : AllFunded t.db.accounts
    all_funded = AreMoved-AllFunded moves s.db.accounts t.db.accounts moved (
        All-found (λ a. pos 0 ≤ℤ o.units a.balance +ℤ moves a.id) s.db.accounts sound.unique
          (λ a e. funded_after a e (funded_found a.id a s.db.accounts sound.funded e)))

    pub IsPosted-IsSound : IsSound t.db.accounts
    IsPosted-IsSound = record {
      unique = AreMoved-IsUnique moves s.db.accounts t.db.accounts moved sound.unique;
      classes = AreMoved-AllClasses moves s.db.accounts t.db.accounts moved sound.classes;
      on_scale = keeps_scale;
      funded = all_funded;
    }

    moves-lines : (k : ℕ) → moves k ≡ lines_units (type_in p.rows) k entry.lines
    moves-lines k = (compute_net_deltas_lem (type_in p.rows) entry.lines k).0

    pub IsPosted-net_debit : net_debit t.db.accounts ≡ net_debit s.db.accounts
    IsPosted-net_debit =
        net_debit-AreMoved moves s.db.accounts t.db.accounts moved
        ∙ rw
            (
              fun_ext moves-lines,
              debit_sum_lines s.db.accounts (type_in p.rows) entry.lines sound.unique
                  (All-IsPlaced entry.lines (collect_account_ids-All entry)),
              check_balanced_signed entry p.balanced,
            )
            (+ℤ_zero _)

    -- each account is debited by the entry's debits less its credits on it
    pub IsPosted-AreDebited : AreDebited (λ k. signed_at k entry.lines) s.db.accounts t.db.accounts
    IsPosted-AreDebited =
        AreMoved-AreDebited (type_in p.rows) moves entry.lines s.db.accounts t.db.accounts
          moves-lines sound.unique (All-IsPlaced entry.lines (collect_account_ids-All entry)) moved

  -- Posting an entry keeps the table of accounts sound: when PostJournalEntryTx returns an id, and
  -- the amounts of the entry are values that a NUMERIC(18, 4) column holds exactly, a table with
  -- unique ids, known classes, exact balances and no balance below zero has become such a table,
  -- and the sum of the debit balances less the sum of the credit balances is what it was.
  pub post_journal_entry_tx-IsSound :
      (env : Env) (entry : JournalEntry D) (s t : Session D) (id : ℕ)
      → IsSound s.db.accounts
      → AmountsOnScale entry.lines
      → post_journal_entry_tx env entry s ≡ (ok id, t)
      → IsSound t.db.accounts × (net_debit t.db.accounts ≡ net_debit s.db.accounts)
  post_journal_entry_tx-IsSound env entry s t id sound exact e =
      let p = After_at (post-After env entry s) e in
      (
        IsPosted-IsSound env entry s id t p sound exact,
        IsPosted-net_debit env entry s id t p sound exact,
      )

  -- What a posting does to the balances: when PostJournalEntryTx returns an id, on a sound table and
  -- with amounts that the column holds exactly, the table has the same accounts in the same order,
  -- and each of them has become larger on its debit side by the entry's debits less the entry's
  -- credits on that account, with its id, code, class, currency and status unchanged.
  pub post_journal_entry_tx-AreDebited :
      (env : Env) (entry : JournalEntry D) (s t : Session D) (id : ℕ)
      → IsSound s.db.accounts
      → AmountsOnScale entry.lines
      → post_journal_entry_tx env entry s ≡ (ok id, t)
      → AreDebited (λ k. signed_at k entry.lines) s.db.accounts t.db.accounts
  post_journal_entry_tx-AreDebited env entry s t id sound exact e =
      IsPosted-AreDebited env entry s id t (After_at (post-After env entry s) e) sound exact
