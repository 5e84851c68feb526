-- ===== src/Ledger/Deltas.antt =====
-- computeNetDeltas against its specification: the delta of an account is the sum of what the lines
-- say of that account, and the keys are the accounts of the lines, each once.
use payments_engine.Base.{
  ℕ, false, ◌||◌, List, [], ◌∷◌, ◌≡◌, refl, arith, ◌==◌, nat_eq, contains, if◌then◌else◌, ◌∙◌,
}
use payments_engine.Base.Int.{ℤ, pos, ◌+ℤ◌, int_laws, +ℤ_zero}
use payments_engine.Decimal.{Decimals}
use payments_engine.Account.{AccountType}
use payments_engine.Ledger.Entry.{JournalEntry, JournalEntryLine}
use payments_engine.Ledger.Posting.{
  DeltaMap, delta_at, has_key, put_delta, line_delta, net_deltas, compute_net_deltas, add_id,
  add_account_ids, collect_account_ids,
}

contains-add_id :
    (id k : ℕ) (ids : List ℕ) → contains id (add_id k ids) ≡ ((id == k) || contains id ids)
contains-add_id id k [] = refl
contains-add_id id k (j ∷ ids) = ground (arith, contains-add_id id k ids)

module _ {D : Type 0} ⦃o : Decimals D⦄ where
  delta_at-put :
      (id k : ℕ) (v : D) (m : DeltaMap D)
      → delta_at id (put_delta k v m) ≡ (if id == k then v else delta_at id m)
  delta_at-put id k v [] = refl
  delta_at-put id k v ((j, d) ∷ m) = ground (arith, delta_at-put id k v m)

  has_key-put :
      (id k : ℕ) (v : D) (m : DeltaMap D)
      → has_key id (put_delta k v m) ≡ ((id == k) || has_key id m)
  has_key-put id k v [] = refl
  has_key-put id k v ((j, d) ∷ m) = ground (arith, has_key-put id k v m)

  pub delta_at_missing :
      (id : ℕ) (m : DeltaMap D) → has_key id m ≡ false → delta_at id m ≡ o.zero_value
  delta_at_missing id [] h = refl
  delta_at_missing id ((k, d) ∷ m) h = ground (arith, delta_at_missing id m)

  -- no key twice
  abbrev pub IsMap : DeltaMap D → Type 0
  IsMap [] = Unit
  IsMap ((k, d) ∷ m) = (has_key k m ≡ false) × IsMap m

  put-IsMap : (k : ℕ) (v : D) (m : DeltaMap D) → IsMap m → IsMap (put_delta k v m)
  put-IsMap k v [] h = (refl, tt)
  put-IsMap k v ((j, d) ∷ m) h = ground (arith, put-IsMap k v m h.1, has_key-put j k v m)

  net_deltas-IsMap :
      (type_of : ℕ → AccountType) (lines : List (JournalEntryLine D)) (m : DeltaMap D)
      → IsMap m
      → IsMap (net_deltas type_of lines m)
  unfolding net_deltas
  net_deltas-IsMap type_of [] m h = h
  net_deltas-IsMap type_of (line ∷ rest) m h =
      net_deltas-IsMap type_of rest _ (put-IsMap line.account_id _ m h)

  -- what one line says of the account `id`
  abbrev pub line_units : (ℕ → AccountType) → ℕ → JournalEntryLine D → ℤ
  line_units type_of id line =
      if id == line.account_id
      then o.units (line_delta (type_of line.account_id) line.type line.amount)
      else pos 0

  abbrev pub lines_units : (ℕ → AccountType) → ℕ → List (JournalEntryLine D) → ℤ
  lines_units type_of id [] = pos 0
  lines_units type_of id (line ∷ rest) = line_units type_of id line +ℤ lines_units type_of id rest

  put_units :
      (id k : ℕ) (d : D) (m : DeltaMap D)
      → o.units (delta_at id (put_delta k (o.add (delta_at k m) d) m))
        ≡ o.units (delta_at id m) +ℤ (if id == k then o.units d else pos 0)
  put_units id k d m = ground (
    arith,
    delta_at-put id k (o.add (delta_at k m) d) m,
    o.units_add (delta_at k m) d,
    +ℤ_zero (o.units (delta_at id m)),
  )

  net_deltas_units :
      (type_of : ℕ → AccountType) (id : ℕ) (lines : List (JournalEntryLine D)) (m : DeltaMap D)
      → o.units (delta_at id (net_deltas type_of lines m))
        ≡ o.units (delta_at id m) +ℤ lines_units type_of id lines
  unfolding net_deltas
  net_deltas_units type_of id [] m = omega int_laws
  net_deltas_units type_of id (line ∷ rest) m =
      let d = line_delta (type_of line.account_id) line.type line.amount in
      net_deltas_units type_of id rest
        (put_delta line.account_id (o.add (delta_at line.account_id m) d) m)
      ∙ rw (put_units id line.account_id d m) (omega int_laws)

  -- The delta of every account is the sum of what the lines say of it, no account is listed twice,
  -- and the accounts that are listed are those of the lines.
  pub compute_net_deltas_lem :
      (type_of : ℕ → AccountType) (lines : List (JournalEntryLine D)) (id : ℕ)
      → (o.units (delta_at id (compute_net_deltas lines type_of)) ≡ lines_units type_of id lines)
        × IsMap (compute_net_deltas lines type_of)
  unfolding compute_net_deltas
  compute_net_deltas_lem type_of lines id = (
    net_deltas_units type_of id lines [] ∙ rw o.units_zero_value (omega int_laws),
    net_deltas-IsMap type_of lines [] tt,
  )

  same_keys :
      (type_of : ℕ → AccountType) (id : ℕ) (lines : List (JournalEntryLine D)) (m : DeltaMap D)
      (ids : List ℕ)
      → has_key id m ≡ contains id ids
      → has_key id (net_deltas type_of lines m) ≡ contains id (add_account_ids lines ids)
  unfolding net_deltas add_account_ids
  same_keys type_of id [] m ids h = h
  same_keys type_of id (line ∷ rest) m ids h =
      let d = line_delta (type_of line.account_id) line.type line.amount in
      same_keys type_of id rest (put_delta line.account_id (o.add (delta_at line.account_id m) d) m)
        (add_id line.account_id ids)
        (rw
          (
            has_key-put id line.account_id (o.add (delta_at line.account_id m) d) m,
            contains-add_id id line.account_id ids,
            h,
          )
          refl)

  -- The keys of the deltas are the accounts that were collected and locked.
  pub has_key-compute_net_deltas :
      (type_of : ℕ → AccountType) (entry : JournalEntry D) (id : ℕ)
      → has_key id (compute_net_deltas entry.lines type_of)
        ≡ contains id (collect_account_ids entry)
  unfolding compute_net_deltas collect_account_ids
  has_key-compute_net_deltas type_of entry id = same_keys type_of id entry.lines [] [] refl
