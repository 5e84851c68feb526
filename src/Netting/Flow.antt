-- ===== src/Netting/Flow.antt =====
-- Netting keeps what each account owes.
use payments_engine.Base.{
  ℕ, suc, Bool, true, false, List, [], ◌∷◌, Text, ◌≡◌, refl, sym, ap, ◌∙◌, ◌==◌, nat_eq, text_eq,
  text_beq_iff, leb, arith, if◌then◌else◌, Bool-cases, inl, inr, ==_refl,
}
use payments_engine.Base.Int.{
  ℤ, pos, ◌+ℤ◌, ◌-ℤ◌, ◌≤ℤ◌, int_laws, zero_+ℤ, +ℤ_zero, abs_ℤ_neg, ltb_ℤ, eqb→eq,
}
use payments_engine.Decimal.{Decimals}
use payments_engine.Netting.{
  NetPosition, PairNet, position_less, insert_position, sort_positions, order_low, order_high,
  same_pair, add_net, tx_delta, collect_nets, position_of, residuals, net_positions,
}
use payments_engine.Transaction.Status.{Transaction}

-- what an amount from `a` to `b` takes out of `k`
abbrev pub out_of : ℕ → ℕ → ℕ → ℤ → ℤ
out_of k a b z = (if k == a then z else pos 0) -ℤ (if k == b then z else pos 0)

out_of-add : (k a b : ℕ) (y z : ℤ) → out_of k a b (y +ℤ z) ≡ out_of k a b y +ℤ out_of k a b z
out_of-add k a b y z = two_sides (k == a) (k == b) y z
  where
    two_sides :
        (p q : Bool) (y z : ℤ)
        → (if p then y +ℤ z else pos 0) -ℤ (if q then y +ℤ z else pos 0)
          ≡ (if p then y else pos 0)
            -ℤ (if q then y else pos 0)
            +ℤ ((if p then z else pos 0) -ℤ (if q then z else pos 0))
    two_sides true true y z = omega int_laws
    two_sides true false y z = omega int_laws
    two_sides false true y z = omega int_laws
    two_sides false false y z = omega int_laws

out_of_zero : (k a b : ℕ) → out_of k a b (pos 0) ≡ pos 0
out_of_zero k a b = two_sides (k == a) (k == b)
  where
    two_sides : (p q : Bool) → (if p then pos 0 else pos 0) -ℤ (if q then pos 0 else pos 0) ≡ pos 0
    two_sides true true = omega int_laws
    two_sides true false = omega int_laws
    two_sides false true = omega int_laws
    two_sides false false = omega int_laws

out_of_neg : (k a b : ℕ) (z : ℤ) → out_of k a b (pos 0 -ℤ z) ≡ out_of k b a z
out_of_neg k a b z = two_sides (k == a) (k == b) z
  where
    two_sides :
        (p q : Bool) (z : ℤ)
        → (if p then pos 0 -ℤ z else pos 0) -ℤ (if q then pos 0 -ℤ z else pos 0)
          ≡ (if q then z else pos 0) -ℤ (if p then z else pos 0)
    two_sides true true z = omega int_laws
    two_sides true false z = omega int_laws
    two_sides false true z = omega int_laws
    two_sides false false z = omega int_laws

left_swap : (a b c : ℤ) → a +ℤ (b +ℤ c) ≡ b +ℤ (a +ℤ c)
left_swap a b c = omega int_laws

right_swap : (a b c : ℤ) → a +ℤ b +ℤ c ≡ a +ℤ c +ℤ b
right_swap a b c = omega int_laws

zero_last : (a : ℤ) → a +ℤ pos 0 ≡ pos 0 +ℤ a
zero_last a = omega int_laws

assoc_ℤ : (a b c : ℤ) → a +ℤ (b +ℤ c) ≡ a +ℤ b +ℤ c
assoc_ℤ a b c = omega int_laws

apart : (a b : ℕ) → leb a b ≡ false → (a == b) ≡ false
apart a b h = ground arith

not_positive : (u : ℤ) → ltb_ℤ (pos 0) u ≡ false → u ≤ℤ pos 0
not_positive u h = ground arith

abbrev in_currency_of : Text → Text → ℤ → ℤ
in_currency_of c currency z = if c == currency then z else pos 0

module _ {D : Type 0} ⦃o : Decimals D⦄ (k : ℕ) (c : Text) where
  abbrev pub tx_out : Transaction D → ℤ
  tx_out tx =
      if c == tx.currency
      then out_of k tx.from_account_id tx.to_account_id (o.units tx.amount)
      else pos 0

  -- what the transfers in the currency take out of the account, less what they bring in
  abbrev pub txs_out : List (Transaction D) → ℤ
  txs_out [] = pos 0
  txs_out (tx ∷ txs) = tx_out tx +ℤ txs_out txs

  abbrev pub position_out : NetPosition D → ℤ
  position_out p =
      if c == p.currency
      then out_of k p.from_account_id p.to_account_id (o.units p.net_amount)
      else pos 0

  -- the same of net positions
  abbrev pub positions_out : List (NetPosition D) → ℤ
  positions_out [] = pos 0
  positions_out (p ∷ ps) = position_out p +ℤ positions_out ps

  abbrev net_out : PairNet D → ℤ
  net_out p = if c == p.currency then out_of k p.low p.high (o.units p.net) else pos 0

  abbrev nets_out : List (PairNet D) → ℤ
  nets_out [] = pos 0
  nets_out (p ∷ ps) = net_out p +ℤ nets_out ps

  insert-out :
      (p : NetPosition D) (ps : List (NetPosition D))
      → positions_out (insert_position p ps) ≡ position_out p +ℤ positions_out ps
  insert-out p [] = refl
  insert-out p (q ∷ qs) = elim (Bool-cases (position_less q p)) [
    | inl before ↦
        rw (before, insert-out p qs)
          (left_swap (position_out q) (position_out p) (positions_out qs))
    | inr after ↦ rw after refl
  ]

  sort-out : (ps : List (NetPosition D)) → positions_out (sort_positions ps) ≡ positions_out ps
  sort-out [] = refl
  sort-out (p ∷ ps) = insert-out p (sort_positions ps) ∙ ap (λ z. position_out p +ℤ z) (sort-out ps)

  position_of-out : (p : PairNet D) → position_out (position_of p) ≡ net_out p
  position_of-out p = elim (Bool-cases (o.is_positive p.net)) [
    | inl plus ↦ rw plus refl
    | inr minus ↦ rw minus (
        ap (in_currency_of c p.currency) (
          rw
            (
              o.units_abs p.net,
              abs_ℤ_neg (o.units p.net)
                  (not_positive (o.units p.net) (sym (o.is_positive_units p.net) ∙ minus)),
            )
            (out_of_neg k p.high p.low (o.units p.net))))
  ]

  net_out_zero : (p : PairNet D) → o.units p.net ≡ pos 0 → net_out p ≡ pos 0
  net_out_zero p e = elim (Bool-cases (c == p.currency)) [
    | inl here ↦ rw (here, e) (out_of_zero k p.low p.high)
    | inr other ↦ rw other refl
  ]

  residuals-out : (ps : List (PairNet D)) → positions_out (residuals ps) ≡ nets_out ps
  residuals-out [] = refl
  residuals-out (p ∷ ps) = elim (Bool-cases (o.is_zero p.net)) [
    | inl zero_net ↦ rw zero_net (
        rw
          (net_out_zero p (eqb→eq (o.units p.net) (pos 0) (sym (o.is_zero_units p.net) ∙ zero_net)))
          (residuals-out ps ∙ sym (zero_+ℤ (nets_out ps))))
    | inr other ↦ rw (other, position_of-out p, residuals-out ps) refl
  ]

  in_currency-add :
      (low high : ℕ) (currency : Text) (n d : D)
      → in_currency_of c currency (out_of k low high (o.units (o.add n d)))
        ≡ in_currency_of c currency (out_of k low high (o.units n))
          +ℤ in_currency_of c currency (out_of k low high (o.units d))
  in_currency-add low high currency n d = elim (Bool-cases (c == currency)) [
    | inl here ↦ rw (here, o.units_add n d) (out_of-add k low high (o.units n) (o.units d))
    | inr other ↦ rw other (sym (zero_+ℤ (pos 0)))
  ]

  same_key :
      (low high : ℕ) (currency : Text) (p : PairNet D)
      → same_pair low high currency p ≡ true
      → (low ≡ p.low) × (high ≡ p.high) × (currency ≡ p.currency)
  same_key low high currency p h = ground (arith, text_beq_iff currency p.currency)

  joined :
      (low high : ℕ) (currency : Text) (d : D) (p : PairNet D) (rest : ℤ)
      → (low ≡ p.low) × (high ≡ p.high) × (currency ≡ p.currency)
      → net_out (record p { net = o.add p.net d; count = suc p.count }) +ℤ rest
        ≡ net_out p +ℤ rest +ℤ in_currency_of c currency (out_of k low high (o.units d))
  joined low high currency d p rest (l, h, e) =
      rw (l, h, e)
        (ap (λ z. z +ℤ rest) (in_currency-add p.low p.high p.currency p.net d) ∙ right_swap _ _ _)

  add_net-out :
      (low high : ℕ) (currency : Text) (d : D) (ps : List (PairNet D))
      → nets_out (add_net low high currency d ps)
        ≡ nets_out ps +ℤ (if c == currency then out_of k low high (o.units d) else pos 0)
  add_net-out low high currency d [] =
      ap (λ u. in_currency_of c currency (out_of k low high u) +ℤ pos 0)
        (o.units_add o.zero_value d
          ∙ ap (λ z. z +ℤ o.units d) o.units_zero_value
          ∙ zero_+ℤ (o.units d))
      ∙ zero_last _
  add_net-out low high currency d (p ∷ ps) = elim (Bool-cases (same_pair low high currency p)) [
    | inl same ↦
        rw same (joined low high currency d p (nets_out ps) (same_key low high currency p same))
    | inr other ↦ rw (other, add_net-out low high currency d ps) (assoc_ℤ _ _ _)
  ]

  tx_delta-out :
      (tx : Transaction D)
      → (if c == tx.currency
          then out_of k (order_low tx) (order_high tx) (o.units (tx_delta tx))
          else pos 0)
        ≡ tx_out tx
  tx_delta-out tx = elim (Bool-cases (leb tx.from_account_id tx.to_account_id)) [
    | inl ordered ↦ rw (ordered, ==_refl tx.from_account_id) refl
    | inr reversed ↦
        rw (reversed, apart tx.from_account_id tx.to_account_id reversed)
          (ap (in_currency_of c tx.currency) (
            rw (o.units_neg tx.amount)
              (out_of_neg k tx.to_account_id tx.from_account_id (o.units tx.amount))))
  ]

  collect_nets-out :
      (txs : List (Transaction D)) (nets : List (PairNet D))
      → nets_out (collect_nets txs nets) ≡ nets_out nets +ℤ txs_out txs
  unfolding collect_nets
  collect_nets-out [] nets = sym (+ℤ_zero (nets_out nets))
  collect_nets-out (tx ∷ txs) nets =
      collect_nets-out txs (add_net (order_low tx) (order_high tx) tx.currency (tx_delta tx) nets)
      ∙ ap (λ z. z +ℤ txs_out txs)
          (add_net-out (order_low tx) (order_high tx) tx.currency (tx_delta tx) nets
            ∙ ap (λ z. nets_out nets +ℤ z) (tx_delta-out tx))
      ∙ sym (assoc_ℤ (nets_out nets) (tx_out tx) (txs_out txs))

  -- Netting owes what the transfers owe: for every account and every currency, the net positions
  -- that NetPositions returns take as much out of the account, less what they bring in, as the
  -- transfers in the list do.
  pub net_positions-out :
      (txs : List (Transaction D)) → positions_out (net_positions txs) ≡ txs_out txs
  unfolding net_positions
  net_positions-out txs =
      sort-out (residuals (collect_nets txs []))
      ∙ residuals-out (collect_nets txs [])
      ∙ collect_nets-out txs []
      ∙ zero_+ℤ (txs_out txs)
