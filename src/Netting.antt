-- ===== src/Netting.antt =====
-- internal/settlement/settlement.go: the net positions of a list of transfers. Account ids are in the
-- order of their strings; a Go map is an association list in the order in which its keys were first
-- written.
pub mod Flow
mod Tests
use payments_engine.Base.{
  ℕ, suc, Bool, true, false, ◌&&◌, List, [], ◌∷◌, Text, ◌==◌, nat_eq, text_eq, leb, ltb,
  if◌then◌else◌,
}
use payments_engine.Decimal.{Decimals}
use payments_engine.Transaction.Status.{Transaction}

pub record NetPosition (D : Type 0) : Type 0 where
  pub from_account_id : ℕ
  pub to_account_id : ℕ
  pub currency : Text
  pub net_amount : D
  pub transaction_count : ℕ

-- a key of the two maps with its values
pub record PairNet (D : Type 0) : Type 0 where
  pub low : ℕ
  pub high : ℕ
  pub currency : Text
  pub net : D
  pub count : ℕ

-- the order of strings
abbrev pub text_ltb : Text → Text → Bool
text_ltb [] [] = false
text_ltb [] (b ∷ bs) = true
text_ltb (a ∷ as') [] = false
text_ltb (a ∷ as') (b ∷ bs) = if a == b then text_ltb as' bs else ltb a b

module _ {D : Type 0} where
  abbrev pub position_less : NetPosition D → NetPosition D → Bool
  position_less a b =
      if a.from_account_id == b.from_account_id
      then (if a.to_account_id == b.to_account_id
          then text_ltb a.currency b.currency
          else ltb a.to_account_id b.to_account_id)
      else ltb a.from_account_id b.from_account_id

  abbrev pub insert_position : NetPosition D → List (NetPosition D) → List (NetPosition D)
  insert_position p [] = p ∷ []
  insert_position p (q ∷ qs) = if position_less q p then q ∷ insert_position p qs else p ∷ q ∷ qs

  -- sort.Slice
  abbrev pub sort_positions : List (NetPosition D) → List (NetPosition D)
  sort_positions [] = []
  sort_positions (p ∷ ps) = insert_position p (sort_positions ps)

module _ {D : Type 0} ⦃o : Decimals D⦄ where
  abbrev pub order_low : Transaction D → ℕ
  order_low tx =
      if leb tx.from_account_id tx.to_account_id then tx.from_account_id else tx.to_account_id

  abbrev pub order_high : Transaction D → ℕ
  order_high tx =
      if leb tx.from_account_id tx.to_account_id then tx.to_account_id else tx.from_account_id

  abbrev pub same_pair : ℕ → ℕ → Text → PairNet D → Bool
  same_pair low high currency p = (low == p.low) && ((high == p.high) && (currency == p.currency))

  -- nets[key] = nets[key].Add(delta); counts[key]++
  abbrev pub add_net : ℕ → ℕ → Text → D → List (PairNet D) → List (PairNet D)
  add_net low high currency delta [] =
      record {
        low = low;
        high = high;
        currency = currency;
        net = o.add o.zero_value delta;
        count = 1;
      }
      ∷ []
  add_net low high currency delta (p ∷ ps) =
      if same_pair low high currency p
      then record p { net = o.add p.net delta; count = suc p.count } ∷ ps
      else p ∷ add_net low high currency delta ps

  abbrev pub tx_delta : Transaction D → D
  tx_delta tx = if tx.from_account_id == order_low tx then tx.amount else o.neg tx.amount

  unfoldable pub collect_nets : List (Transaction D) → List (PairNet D) → List (PairNet D)
  collect_nets [] nets = nets
  collect_nets (tx ∷ txs) nets =
      collect_nets txs (add_net (order_low tx) (order_high tx) tx.currency (tx_delta tx) nets)

  abbrev pub position_of : PairNet D → NetPosition D
  position_of p =
      if o.is_positive p.net
      then record {
        from_account_id = p.low;
        to_account_id = p.high;
        currency = p.currency;
        net_amount = p.net;
        transaction_count = p.count;
      }
      else record {
        from_account_id = p.high;
        to_account_id = p.low;
        currency = p.currency;
        net_amount = o.abs p.net;
        transaction_count = p.count;
      }

  abbrev pub residuals : List (PairNet D) → List (NetPosition D)
  residuals [] = []
  residuals (p ∷ ps) = if o.is_zero p.net then residuals ps else position_of p ∷ residuals ps

  unfoldable pub net_positions : List (Transaction D) → List (NetPosition D)
  net_positions txs = sort_positions (residuals (collect_nets txs []))
