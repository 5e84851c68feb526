-- ===== src/Transfer/Sound.antt =====
-- What a transfer does to the balances, whatever the outcome of its calls.
use payments_engine.Base.{
  ℕ, Bool, true, false, List, Text, ◌≡◌, sym, ◌∙◌, ap, subst, ◌⊎◌, inl, inr, if◌then◌else◌, ◌==◌,
  nat_eq,
}
use payments_engine.Base.Int.{ℤ, pos, ◌+ℤ◌, ◌-ℤ◌, int_laws}
use payments_engine.Decimal.{Decimals}
use payments_engine.Account.{Account}
use payments_engine.Ledger.Balances.{OnScale}
use payments_engine.Ledger.Debits.{signed_at, AreDebited, AreDebited-trans}
use payments_engine.Ledger.Equation.{net_debit}
use payments_engine.Ledger.Invariant.{IsPosted-IsSound, IsPosted-net_debit, IsPosted-AreDebited}
use payments_engine.Ledger.Sound.{IsSound}
use payments_engine.Store.{Env}
use payments_engine.Store.Tables.{Db}
use payments_engine.Transfer.Atomic.{NoneOrBoth, transfer-NoneOrBoth}
use payments_engine.Transfer.Moves.{ledger_of, IsTransferred}
use payments_engine.Transfer.Request.{TransferRequest, Config}
use payments_engine.Transfer.Service.{transfer}
use payments_engine.Transfer.Legs.{clearing_entry, settlement_entry}
use payments_engine.World.{World}

-- what the clearing account gets it gives away again
two_pairs :
    (a b c : Bool) (u : ℤ)
    → (if a then u else pos 0)
        +ℤ ((if b then pos 0 -ℤ u else pos 0) +ℤ pos 0)
        +ℤ ((if b then u else pos 0) +ℤ ((if c then pos 0 -ℤ u else pos 0) +ℤ pos 0))
      ≡ (if a then u else pos 0) -ℤ (if c then u else pos 0)
two_pairs true true true u = omega int_laws
two_pairs true true false u = omega int_laws
two_pairs true false true u = omega int_laws
two_pairs true false false u = omega int_laws
two_pairs false true true u = omega int_laws
two_pairs false true false u = omega int_laws
two_pairs false false true u = omega int_laws
two_pairs false false false u = omega int_laws

module _ {D : Type 0} ⦃o : Decimals D⦄ where
  -- the source is debited with the amount and the destination credited with it
  abbrev pub moved_amount : TransferRequest D → ℕ → ℤ
  moved_amount req id =
      (if id == req.from_account_id then o.units req.amount else pos 0)
      -ℤ (if id == req.to_account_id then o.units req.amount else pos 0)

  both_entries :
      (cfg : Config) (req : TransferRequest D) (tx_id clearing_id k : ℕ)
      → signed_at k (clearing_entry cfg req tx_id clearing_id).lines
          +ℤ signed_at k (settlement_entry cfg req tx_id clearing_id).lines
        ≡ moved_amount req k
  both_entries cfg req tx_id clearing_id k =
      two_pairs (k == req.from_account_id) (k == clearing_id) (k == req.to_account_id)
        (o.units req.amount)

  -- the state of the accounts after a transfer that posted
  pub record HasMoved (req : TransferRequest D) (before after : List (Account D)) : Type 0 where
    pub sound : IsSound after
    pub net : net_debit after ≡ net_debit before
    pub debited : AreDebited (moved_amount req) before after

  module _ (env : Env) (cfg : Config) (req : TransferRequest D) (before after : Db D)
      (p : IsTransferred env cfg req before after) (sound : IsSound before.accounts)
      (exact : OnScale req.amount) where
    at_start : p.start.db.accounts ≡ before.accounts
    at_start = ap (λ (db : Db D). db.accounts) p.start_eq

    at_resumed : p.resumed.db.accounts ≡ p.cleared.db.accounts
    at_resumed = ap (λ (db : Db D). db.accounts) p.resumed_eq

    at_end : after.accounts ≡ p.end.db.accounts
    at_end = ap (λ (db : Db D). db.accounts) p.end_eq

    IsSound-start : IsSound p.start.db.accounts
    IsSound-start = subst IsSound (sym at_start) sound

    IsSound-resumed : IsSound p.resumed.db.accounts
    IsSound-resumed = subst IsSound (sym at_resumed) (
        IsPosted-IsSound env _ p.start p.first_id p.cleared p.first IsSound-start
          (exact, (exact, tt)))

    IsSound-end : IsSound p.end.db.accounts
    IsSound-end =
        IsPosted-IsSound env _ p.resumed p.second_id p.end p.second IsSound-resumed
          (exact, (exact, tt))

    debited_first :
        AreDebited
          (λ k. signed_at k (clearing_entry cfg req p.tx_id p.clearing_id).lines)
          before.accounts
          p.resumed.db.accounts
    debited_first =
        rw (sym at_start, at_resumed)
          (IsPosted-AreDebited env _ p.start p.first_id p.cleared p.first IsSound-start
            (exact, (exact, tt)))

    debited_second :
        AreDebited
          (λ k. signed_at k (settlement_entry cfg req p.tx_id p.clearing_id).lines)
          p.resumed.db.accounts
          after.accounts
    debited_second = rw at_end (
        IsPosted-AreDebited env _ p.resumed p.second_id p.end p.second IsSound-resumed
          (exact, (exact, tt)))

    IsTransferred-HasMoved : HasMoved req before.accounts after.accounts
    IsTransferred-HasMoved = record {
      sound = subst IsSound (sym at_end) IsSound-end;
      net =
          ap net_debit at_end
          ∙ IsPosted-net_debit env _ p.resumed p.second_id p.end p.second IsSound-resumed
              (exact, (exact, tt))
          ∙ ap net_debit at_resumed
          ∙ IsPosted-net_debit env _ p.start p.first_id p.cleared p.first IsSound-start
              (exact, (exact, tt))
          ∙ ap net_debit at_start;
      debited =
          AreDebited-trans _ _ (moved_amount req) before.accounts p.resumed.db.accounts
            after.accounts (both_entries cfg req p.tx_id p.clearing_id) debited_first
            debited_second;
    }

  settled_or_not :
      (env : Env) (cfg : Config) (req : TransferRequest D) (before after : Db D)
      → IsSound before.accounts
      → OnScale req.amount
      → NoneOrBoth env cfg req before after
      → (after.accounts ≡ before.accounts) ⊎ HasMoved req before.accounts after.accounts
  settled_or_not env cfg req before after sound exact (inl e) =
      inl (ap (λ (db : Db D). db.accounts) e)
  settled_or_not env cfg req before after sound exact (inr p) =
      inr (IsTransferred-HasMoved env cfg req before after p sound exact)

  -- Transfer moves the amount or nothing: on a sound table of accounts and with an amount that the
  -- column holds exactly, whatever fails and whatever Transfer returns, the committed accounts are
  -- those that were there before, or a sound table in which the source is debited with the amount,
  -- the destination is credited with it, every other account has the balance it had, the clearing
  -- account included, and the debit balances less the credit balances come to what they were.
  pub transfer-HasMoved :
      (env : Env) (cfg : Config) (trace : Text) (req : TransferRequest D) (w : World D)
      → IsSound w.db.accounts
      → OnScale req.amount
      → ((transfer env cfg trace req w).1.db.accounts ≡ w.db.accounts)
        ⊎ HasMoved req w.db.accounts (transfer env cfg trace req w).1.db.accounts
  transfer-HasMoved env cfg trace req w sound exact =
      settled_or_not env cfg req (ledger_of w.db) (ledger_of (transfer env cfg trace req w).1.db)
        sound exact (transfer-NoneOrBoth env cfg trace req w)
