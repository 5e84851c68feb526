-- ===== src/Settlement/Rows.antt =====
-- The rows that a settlement selects, and the rows that it changes by their ids.
use payments_engine.Base.{
  ℕ, suc, ◌≤◌, Bool, true, false, ◌||◌, List, [], ◌∷◌, none, ◌≡◌, refl, arith, ◌==◌, nat_eq,
  contains, select, length, All, ap, ◌∙◌,
}
use payments_engine.Settlement.{ids_of}
use payments_engine.Transaction.Repository.{find_transaction, update_rows}
use payments_engine.Transaction.Settled.{insert_listed, in_listed_order}
use payments_engine.Transaction.Status.{Transaction}

pub All-map {ℓ} :
    {A : Type ℓ} (P Q : A → Type ℓ) (xs : List A) → ((x : A) → P x → Q x) → All P xs → All Q xs
All-map P Q [] k h = tt
All-map P Q (x ∷ xs) k h = (k x h.0, All-map P Q xs k h.1)

module _ {D : Type 0} where
  -- the order of a list is immaterial to its length and to its ids
  length-insert_listed :
      (tx : Transaction D) (txs : List (Transaction D))
      → length (insert_listed tx txs) ≡ suc (length txs)
  length-insert_listed tx [] = refl
  length-insert_listed tx (x ∷ xs) = ground (arith, length-insert_listed tx xs)

  pub length-in_listed_order :
      (txs : List (Transaction D)) → length (in_listed_order txs) ≡ length txs
  length-in_listed_order [] = refl
  length-in_listed_order (tx ∷ txs) =
      length-insert_listed tx (in_listed_order txs) ∙ ap suc (length-in_listed_order txs)

  contains-insert_listed :
      (k : ℕ) (tx : Transaction D) (txs : List (Transaction D))
      → contains k (ids_of (insert_listed tx txs)) ≡ ((k == tx.id) || contains k (ids_of txs))
  contains-insert_listed k tx [] = refl
  contains-insert_listed k tx (x ∷ xs) = ground (arith, contains-insert_listed k tx xs)

  pub contains-in_listed_order :
      (k : ℕ) (txs : List (Transaction D))
      → contains k (ids_of (in_listed_order txs)) ≡ contains k (ids_of txs)
  contains-in_listed_order k [] = refl
  contains-in_listed_order k (tx ∷ txs) =
      contains-insert_listed k tx (in_listed_order txs)
      ∙ ap (λ (b : Bool). (k == tx.id) || b) (contains-in_listed_order k txs)

  abbrev pub ListedIn : List (Transaction D) → Transaction D → Type 0
  ListedIn txs x = contains x.id (ids_of txs) ≡ true

  -- a row that is selected is found by its id
  pub selected_listed :
      (p : Transaction D → Bool) (rows : List (Transaction D))
      → All (λ x. p x ≡ true → ListedIn (select p rows) x) rows
  selected_listed p [] = tt
  selected_listed p (x ∷ xs) =
      (λ h. ground arith, All-map _ _ xs (λ y k h. ground (arith, k h)) (selected_listed p xs))

  -- Where the rows of `p` are among those of `q`, there are not more of them; and where there are as
  -- many, a change of the ones is a change of the others.
  length-select-le :
      (p q : Transaction D → Bool) (rows : List (Transaction D))
      → All (λ x. p x ≡ true → q x ≡ true) rows
      → length (select p rows) ≤ length (select q rows)
  length-select-le p q [] h = omega arith
  length-select-le p q (x ∷ xs) h =
      ground (arith, length-select-le p q xs h.1, λ (e : p x ≡ true). h.0 e)

  pub update_rows_agree :
      (p q : Transaction D → Bool) (f : Transaction D → Transaction D) (rows : List (Transaction D))
      → All (λ x. p x ≡ true → q x ≡ true) rows
      → length (select q rows) ≡ length (select p rows)
      → update_rows q f rows ≡ update_rows p f rows
  update_rows_agree p q f [] h e = refl
  update_rows_agree p q f (x ∷ xs) h e = ground (
    arith,
    length-select-le p q xs h.1,
    update_rows_agree p q f xs h.1,
    λ (k : p x ≡ true). h.0 k,
  )

  -- the primary key: no two transfers have one id
  abbrev pub IsUnique : List (Transaction D) → Type 0
  IsUnique [] = Unit
  IsUnique (tx ∷ txs) = (find_transaction tx.id txs ≡ none) × IsUnique txs

  not_listed :
      (k : ℕ) (p : Transaction D → Bool) (rows : List (Transaction D))
      → find_transaction k rows ≡ none
      → contains k (ids_of (select p rows)) ≡ false
  not_listed k p [] h = refl
  not_listed k p (x ∷ xs) h = ground (arith, not_listed k p xs)

  others_differ :
      (k : ℕ) (rows : List (Transaction D))
      → find_transaction k rows ≡ none
      → All (λ x. (x.id == k) ≡ false) rows
  others_differ k [] h = tt
  others_differ k (x ∷ xs) h = (ground arith, others_differ k xs (ground arith))

  ListedIn-more :
      (p : Transaction D → Bool) (x : Transaction D) (xs ys : List (Transaction D))
      → All (λ y. (y.id == x.id) ≡ false) ys
      → All (λ y. ListedIn (select p xs) y → p y ≡ true) ys
      → All (λ y. ListedIn (select p (x ∷ xs)) y → p y ≡ true) ys
  ListedIn-more p x xs [] d h = tt
  ListedIn-more p x xs (y ∷ ys) d h =
      (λ e. h.0 (ground (arith, d.0)), ListedIn-more p x xs ys d.1 h.1)

  -- with unique ids only a row that is selected is found by its id
  pub listed_selected :
      (p : Transaction D → Bool) (rows : List (Transaction D))
      → IsUnique rows
      → All (λ x. ListedIn (select p rows) x → p x ≡ true) rows
  listed_selected p [] u = tt
  listed_selected p (x ∷ xs) u = (
    λ h. ground (arith, not_listed x.id p xs u.0),
    ListedIn-more p x xs xs (others_differ x.id xs u.0) (listed_selected p xs u.1),
  )

  pub length-select_agree :
      (p q : Transaction D → Bool) (rows : List (Transaction D))
      → All (λ x. p x ≡ true → q x ≡ true) rows
      → All (λ x. q x ≡ true → p x ≡ true) rows
      → length (select q rows) ≡ length (select p rows)
  length-select_agree p q [] h k = refl
  length-select_agree p q (x ∷ xs) h k = ground (
    arith,
    length-select_agree p q xs h.1 k.1,
    λ (e : p x ≡ true). h.0 e,
    λ (e : q x ≡ true). k.0 e,
  )
