-- ===== src/Ledger/Sound.antt =====
-- A sound table `accounts`: what the schema and the code keep of it, and that a posting keeps it.
use payments_engine.Base.{
  ℕ, true, false, List, [], ◌∷◌, ◌≡◌, refl, arith, nat_eq, text_eq, All, none,
}
use payments_engine.Base.Int.{ℤ, pos, ◌+ℤ◌, ◌≤ℤ◌}
use payments_engine.Error.{ok}
use payments_engine.Decimal.{Decimals}
use payments_engine.Account.{Account, AccountType}
use payments_engine.Ledger.Entry.{JournalEntryLine, LineType}
use payments_engine.Ledger.Posting.{
  DeltaMap, delta_at, has_key, put_delta, line_delta, net_deltas, compute_net_deltas,
  check_sufficient_balances,
}
use payments_engine.Ledger.Repository.{find_account}
use payments_engine.Ledger.Balances.{OnScale, AllOnScale, DeltasOnScale, AreMoved, delta_units}
use payments_engine.Ledger.Equation.{IsUnique}
use payments_engine.Ledger.Loaded.{AllClasses}

module _ {D : Type 0} ⦃o : Decimals D⦄ where
  abbrev pub AllFunded : List (Account D) → Type 0
  AllFunded accounts = All (λ a. pos 0 ≤ℤ o.units a.balance) accounts

  -- Ids are unique, the classes are those of the enumeration, the balances are values of their
  -- column, and none is below zero.
  pub record IsSound (accounts : List (Account D)) : Type 0 where
    pub unique : IsUnique accounts
    pub classes : AllClasses accounts
    pub on_scale : AllOnScale accounts
    pub funded : AllFunded accounts

  not_below :
      (a b : D) → o.less_than (o.add a b) o.zero_value ≡ false → pos 0 ≤ℤ o.units a +ℤ o.units b
  not_below a b h =
      ground
        (arith, o.less_than_units (o.add a b) o.zero_value, o.units_zero_value, o.units_add a b)

  pub enough :
      (balance_of : ℕ → D) (m : DeltaMap D) (id : ℕ)
      → check_sufficient_balances balance_of m ≡ ok tt
      → has_key id m ≡ true
      → pos 0 ≤ℤ o.units (balance_of id) +ℤ delta_units m id
  unfolding check_sufficient_balances
  enough balance_of [] id h e = absurd (cc)
  enough balance_of ((k, d) ∷ m) id h e =
      ground (arith, not_below (balance_of k) d, enough balance_of m id)

  find_account-AreMoved :
      (f : ℕ → ℤ) (id : ℕ) (as' bs : List (Account D))
      → AreMoved f as' bs
      → find_account id as' ≡ none
      → find_account id bs ≡ none
  find_account-AreMoved f id [] [] p h = refl
  find_account-AreMoved f id (a ∷ as') (b ∷ bs) p h =
      ground (arith, p.0.id_eq, find_account-AreMoved f id as' bs p.1)
  find_account-AreMoved f id [] (b ∷ bs) p h = absurd p
  find_account-AreMoved f id (a ∷ as') [] p h = absurd p

  pub AreMoved-IsUnique :
      (f : ℕ → ℤ) (as' bs : List (Account D)) → AreMoved f as' bs → IsUnique as' → IsUnique bs
  AreMoved-IsUnique f [] [] p u = tt
  AreMoved-IsUnique f (a ∷ as') (b ∷ bs) p u = (
    rw p.0.id_eq (find_account-AreMoved f a.id as' bs p.1 u.0),
    AreMoved-IsUnique f as' bs p.1 u.1,
  )
  AreMoved-IsUnique f [] (b ∷ bs) p u = absurd p
  AreMoved-IsUnique f (a ∷ as') [] p u = absurd p

  pub AreMoved-AllClasses :
      (f : ℕ → ℤ) (as' bs : List (Account D)) → AreMoved f as' bs → AllClasses as' → AllClasses bs
  AreMoved-AllClasses f [] [] p u = tt
  AreMoved-AllClasses f (a ∷ as') (b ∷ bs) p u =
      (rw p.0.type_eq u.0, AreMoved-AllClasses f as' bs p.1 u.1)
  AreMoved-AllClasses f [] (b ∷ bs) p u = absurd p
  AreMoved-AllClasses f (a ∷ as') [] p u = absurd p

  pub AreMoved-AllFunded :
      (f : ℕ → ℤ) (as' bs : List (Account D))
      → AreMoved f as' bs
      → All (λ a. pos 0 ≤ℤ o.units a.balance +ℤ f a.id) as'
      → AllFunded bs
  AreMoved-AllFunded f [] [] p u = tt
  AreMoved-AllFunded f (a ∷ as') (b ∷ bs) p u =
      (rw p.0.balance_eq u.0, AreMoved-AllFunded f as' bs p.1 u.1)
  AreMoved-AllFunded f [] (b ∷ bs) p u = absurd p
  AreMoved-AllFunded f (a ∷ as') [] p u = absurd p

  -- every posting: what it needs of the entry is that its amounts are values of their column
  abbrev pub AmountsOnScale : List (JournalEntryLine D) → Type 0
  AmountsOnScale lines = All (λ line. OnScale line.amount) lines

  line_delta-OnScale :
      (t : AccountType) (l : LineType) (a : D) → OnScale a → OnScale (line_delta t l a)
  line_delta-OnScale t l a h = ground (arith, o.column_neg a h, o.column_zero)

  delta_at-OnScale : (id : ℕ) (m : DeltaMap D) → DeltasOnScale m → OnScale (delta_at id m)
  delta_at-OnScale id [] h = o.column_zero
  delta_at-OnScale id ((k, d) ∷ m) h = ground (arith, delta_at-OnScale id m h.1)

  put-OnScale :
      (k : ℕ) (v : D) (m : DeltaMap D)
      → OnScale v
      → DeltasOnScale m
      → DeltasOnScale (put_delta k v m)
  put-OnScale k v [] h g = (h, tt)
  put-OnScale k v ((j, d) ∷ m) h g = ground (arith, put-OnScale k v m h g.1)

  net_deltas-OnScale :
      (type_of : ℕ → AccountType) (lines : List (JournalEntryLine D)) (m : DeltaMap D)
      → AmountsOnScale lines
      → DeltasOnScale m
      → DeltasOnScale (net_deltas type_of lines m)
  unfolding net_deltas
  net_deltas-OnScale type_of [] m h g = g
  net_deltas-OnScale type_of (line ∷ rest) m h g = net_deltas-OnScale type_of rest _ h.1 (
      put-OnScale line.account_id _ m
        (o.column_add (delta_at line.account_id m) _ (delta_at-OnScale line.account_id m g)
          (line_delta-OnScale (type_of line.account_id) line.type line.amount h.0))
        g)

  pub compute-OnScale :
      (type_of : ℕ → AccountType) (lines : List (JournalEntryLine D))
      → AmountsOnScale lines
      → DeltasOnScale (compute_net_deltas lines type_of)
  unfolding compute_net_deltas
  compute-OnScale type_of lines h = net_deltas-OnScale type_of lines [] h tt
