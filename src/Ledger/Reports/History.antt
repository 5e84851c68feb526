-- ===== src/Ledger/Reports/History.antt =====
-- GetAccountEntries: the history of an account, or ErrAccountNotFound.
use payments_engine.Base.{
  ℕ, suc, Bool, true, false, List, [], ◌∷◌, text, some, none, ◌≡◌, refl, sym, ap, ◌∙◌, arith, ◌==◌,
  nat_eq, All, Bool-cases, inl, inr, length, select,
}
use mathlib.Core.Path.{ap₂}
use payments_engine.Base.Int.{ℤ, pos, ◌+ℤ◌, ◌-ℤ◌, zero_+ℤ}
use payments_engine.Error.{Result, ok, err, sentinel, ledger_account_not_found}
use payments_engine.Decimal.{Decimals}
use payments_engine.Exec.{pure, lift, within, try, ◌>>=◌}
use payments_engine.Account.{Account}
use payments_engine.Ledger.Entry.{JournalEntryLine, LineType, debit, credit, invalid}
use payments_engine.Ledger.Equation.{signed}
use payments_engine.Ledger.Reports.{
  AccountEntryRow, find_entry, entry_row_of, joined, shown_before, insert_shown, in_shown_order,
  scanned, scan_rows, or_existing, get_account_entry_rows, get_account_entries,
}
use payments_engine.Ledger.Reports.Totals.{picked_sum, swap_first}
use payments_engine.Ledger.Reports.Books.{Known}
use payments_engine.Ledger.Reports.Trial.{IsBook, scanned_value}
use payments_engine.Ledger.Repository.{find_account}
use payments_engine.Store.{Env, Session, query, statement}
use payments_engine.Store.Tables.{Db, EntryRow}

module _ {D A : Type 0} where
  pub query_up :
      (env : Env) (f : Db D → Result A) (s : Session D)
      → env.fails s.calls ≡ false
      → query env f s ≡ (f s.db, record s { calls = suc s.calls })
  unfolding query statement
  query_up env f s up = rw up refl

module _ {D : Type 0} ⦃o : Decimals D⦄ where
  -- a row as a debit, and the sum of the rows
  abbrev pub row_signed : AccountEntryRow D → LineType → ℤ
  row_signed r debit = o.units r.amount
  row_signed r credit = pos 0 -ℤ o.units r.amount
  row_signed r (invalid _) = pos 0

  abbrev pub history_sum : List (AccountEntryRow D) → ℤ
  history_sum [] = pos 0
  history_sum (r ∷ rs) = row_signed r r.line_type +ℤ history_sum rs

  history_sum-insert :
      (r : AccountEntryRow D) (rs : List (AccountEntryRow D))
      → history_sum (insert_shown r rs) ≡ history_sum (r ∷ rs)
  history_sum-insert r [] = refl
  history_sum-insert r (x ∷ xs) = elim (Bool-cases (shown_before r x)) [
    | inl first ↦ rw first refl
    | inr later ↦
        rw later (ap (◌+ℤ◌ (row_signed x x.line_type)) (history_sum-insert r xs) ∙ swap_first _ _ _)
  ]

  history_sum-in_shown_order :
      (rs : List (AccountEntryRow D)) → history_sum (in_shown_order rs) ≡ history_sum rs
  history_sum-in_shown_order [] = refl
  history_sum-in_shown_order (r ∷ rs) =
      history_sum-insert r (in_shown_order rs)
      ∙ ap (◌+ℤ◌ (row_signed r r.line_type)) (history_sum-in_shown_order rs)

  row_of_line :
      (e : EntryRow) (l : JournalEntryLine D) (t : LineType)
      → row_signed (entry_row_of e l) t ≡ signed l t
  row_of_line e l debit = refl
  row_of_line e l credit = refl
  row_of_line e l (invalid _) = refl

  abbrev pub of_account : ℕ → JournalEntryLine D → Bool
  of_account id l = l.account_id == id

  abbrev HasEntry : List EntryRow → JournalEntryLine D → Type 0
  HasEntry entries l = (e : EntryRow) × (find_entry l.entry_id entries ≡ some e)

  history_sum-joined :
      (id : ℕ) (entries : List EntryRow) (lines : List (JournalEntryLine D))
      → All (HasEntry entries) lines
      → history_sum (joined id entries lines) ≡ picked_sum (of_account id) lines
  history_sum-joined id entries [] h = refl
  history_sum-joined id entries (l ∷ ls) h = elim (Bool-cases (l.account_id == id)) [
    | inl own ↦
        rw (own, h.0.1)
          (ap₂ ◌+ℤ◌ (row_of_line h.0.0 l l.type) (history_sum-joined id entries ls h.1))
    | inr other ↦ rw other (history_sum-joined id entries ls h.1 ∙ sym (zero_+ℤ _))
  ]

  count-insert :
      (r : AccountEntryRow D) (rs : List (AccountEntryRow D))
      → length (insert_shown r rs) ≡ suc (length rs)
  count-insert r [] = refl
  count-insert r (x ∷ xs) = ground (arith, count-insert r xs)

  count-in_shown_order : (rs : List (AccountEntryRow D)) → length (in_shown_order rs) ≡ length rs
  count-in_shown_order [] = refl
  count-in_shown_order (r ∷ rs) =
      count-insert r (in_shown_order rs) ∙ ap suc (count-in_shown_order rs)

  count-joined :
      (id : ℕ) (entries : List EntryRow) (lines : List (JournalEntryLine D))
      → All (HasEntry entries) lines
      → length (joined id entries lines) ≡ length (select (of_account id) lines)
  count-joined id entries [] h = refl
  count-joined id entries (l ∷ ls) h = elim (Bool-cases (l.account_id == id)) [
    | inl own ↦ rw (own, h.0.1) (ap suc (count-joined id entries ls h.1))
    | inr other ↦ rw other (count-joined id entries ls h.1)
  ]

  -- an account that is not in the table has no lines
  joined_unknown :
      (id : ℕ) (db : Db D) (lines : List (JournalEntryLine D))
      → All (Known db.accounts) lines
      → find_account id db.accounts ≡ none
      → joined id db.entries lines ≡ []
  joined_unknown id db [] h e = refl
  joined_unknown id db (l ∷ ls) h e = elim (Bool-cases (l.account_id == id)) [
    | inl own ↦ absurd (ground (arith, h.0.1))
    | inr other ↦ rw other (joined_unknown id db ls h.1 e)
  ]

  record Read (rows : List (AccountEntryRow D)) : Type 0 where
    out : List (AccountEntryRow D)
    read : scan_rows rows ≡ ok out
    same : history_sum out ≡ history_sum rows
    count : length out ≡ length rows

  scan_row :
      (r : AccountEntryRow D) (rs out : List (AccountEntryRow D)) (v : D)
      → scanned (text "parse row amount") r.amount ≡ ok v
      → scan_rows rs ≡ ok out
      → scan_rows (r ∷ rs) ≡ ok (record r { amount = v } ∷ out)
  scan_row r rs out v e k = ground (arith, e, k)

  same_amount :
      (r : AccountEntryRow D) (v : D) (t : LineType)
      → o.units v ≡ o.units r.amount
      → row_signed (record r { amount = v }) t ≡ row_signed r t
  same_amount r v debit e = e
  same_amount r v credit e = ap (◌-ℤ◌ (pos 0)) e
  same_amount r v (invalid _) e = refl

  scan_rows-Read : (rows : List (AccountEntryRow D)) → Read rows
  scan_rows-Read [] = record { out = []; read = refl; same = refl; count = refl }
  scan_rows-Read (r ∷ rs) =
      let (v, e, p) = scanned_value (text "parse row amount") r.amount in
      let rest = scan_rows-Read rs in
      record {
        out = record r { amount = v } ∷ rest.out;
        read = scan_row r rs rest.out v e rest.read;
        same = ap₂ ◌+ℤ◌ (same_amount r v r.line_type p) rest.same;
        count = ap suc rest.count;
      }

  abbrev after_query : Session D → Session D
  after_query s = record s { calls = suc s.calls }

  first_query :
      (env : Env) (id : ℕ) (s : Session D) (out : List (AccountEntryRow D))
      → env.fails s.calls ≡ false
      → scan_rows (in_shown_order (joined id s.db.entries s.db.lines)) ≡ ok out
      → get_account_entries env true id s ≡ or_existing env id out (after_query s)
  unfolding get_account_entries get_account_entry_rows ◌>>=◌ within lift
  first_query env id s out up read = rw (query_up env _ s up, read) refl

  known_history :
      (env : Env) (id : ℕ) (s : Session D) (out : List (AccountEntryRow D)) (a : Account D)
      → env.fails s.calls ≡ false
      → find_account id s.db.accounts ≡ some a
      → (t : Session D) × (or_existing env id out s ≡ (ok out, t)) × (t.db ≡ s.db)
  unfolding ◌>>=◌ try lift pure
  known_history env id s (r ∷ rs) a up found = (s, refl, refl)
  known_history env id s [] a up found = (after_query s, rw (query_up env _ s up, found) refl, refl)

  unknown_history :
      (env : Env) (id : ℕ) (s : Session D)
      → env.fails s.calls ≡ false
      → find_account id s.db.accounts ≡ none
      → or_existing env id [] s ≡ (err (sentinel ledger_account_not_found), after_query s)
  unfolding ◌>>=◌ try lift pure
  unknown_history env id s up gone = rw (query_up env _ s up, gone) refl

  -- The history that is returned: it has a row for each line of the account, and the debits less the
  -- credits of its rows are those of the account's lines.
  pub record IsHistory (db : Db D) (id : ℕ) (rows : List (AccountEntryRow D)) : Type 0 where
    pub count : length rows ≡ length (select (of_account id) db.lines)
    pub sum : history_sum rows ≡ picked_sum (of_account id) db.lines

  -- GetAccountEntries where no call fails, in a journal whose lines are of its accounts and entries: for
  -- an account of the table it returns a row for each of the account's lines, with the debits less the
  -- credits of these lines as the sum of the rows; for an account that is not in the table it returns
  -- ErrAccountNotFound; and it changes no table.
  pub get_account_entries-IsHistory :
      (env : Env) (id : ℕ) (s : Session D)
      → ((n : ℕ) → env.fails n ≡ false)
      → IsBook s.db
      → ((a : Account D)
          → find_account id s.db.accounts ≡ some a
          → (rows : List (AccountEntryRow D)) × (t : Session D) × (get_account_entries env true id s
              ≡ (ok rows, t))
            × (t.db ≡ s.db)
            × IsHistory s.db id rows)
        × (find_account id s.db.accounts ≡ none
            → (t : Session D) × (get_account_entries env true id s
                ≡ (err (sentinel ledger_account_not_found), t))
              × (t.db ≡ s.db))
  get_account_entries-IsHistory env id s up book =
      let r = scan_rows-Read (in_shown_order (joined id s.db.entries s.db.lines)) in
      (
        λ a found.
            let (t, e, same) =
              known_history env id (after_query s) r.out a (up (suc s.calls)) found in
            (
              r.out,
              t,
              first_query env id s r.out (up s.calls) r.read ∙ e,
              same,
              record {
                count =
                    r.count
                    ∙ count-in_shown_order (joined id s.db.entries s.db.lines)
                    ∙ count-joined id s.db.entries s.db.lines book.placed;
                sum =
                    r.same
                    ∙ history_sum-in_shown_order (joined id s.db.entries s.db.lines)
                    ∙ history_sum-joined id s.db.entries s.db.lines book.placed;
              },
            ),
        λ gone. (
          after_query (after_query s),
          first_query env id s [] (up s.calls) (
                ap (λ (l : List (AccountEntryRow D)). scan_rows (in_shown_order l))
                  (joined_unknown id s.db s.db.lines book.known gone))
              ∙ unknown_history env id (after_query s) (up (suc s.calls)) gone,
          refl,
        ),
      )
