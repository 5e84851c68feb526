-- ===== src/Seed.antt =====
-- cmd/seed/main.go: the first chart of accounts, inserted in one database transaction.
pub mod Grown
pub mod Loops
pub mod Laws
pub mod Tests
use payments_engine.Base.{
  ℕ, suc, ◌+◌, Bool, true, false, not, ◌||◌, List, [], ◌∷◌, Option, none, some, Text, text, ◌==◌,
  nat_eq, text_eq, if◌then◌else◌,
}
use payments_engine.Error.{Error, driver, is_error, no_rows, Result, ok, err}
use payments_engine.Decimal.{Decimals}
use payments_engine.Exec.{Exec, pure, lift, within, try, ◌>>=◌, ◌>>◌}
use payments_engine.Account.{Account, AccountType, asset, liability, income, active}
use payments_engine.Accounts.Service.{account_error}
use payments_engine.Ledger.Repository.{find_account}
use payments_engine.Store.{Env, Session, statement, query}
use payments_engine.Store.Tables.{Db}
use payments_engine.Transaction.Repository.{or_no_rows, exists, find_by_code}
use payments_engine.World.{World, begin_tx, on_tx, commit, rollback, deferred}

pub record SeedAccount : Type 0 where
  pub code : Text
  pub name : Text
  pub type : AccountType
  pub currency : Text
  pub is_posting : Bool
  pub parent_code : Text

abbrev ghs_account : Text → Text → AccountType → Bool → Text → SeedAccount
ghs_account code name type is_posting parent_code = record {
  code = code;
  name = name;
  type = type;
  currency = text "GHS";
  is_posting = is_posting;
  parent_code = parent_code;
}

-- baseCoA
unfoldable pub base_coa : List SeedAccount
base_coa =
    ghs_account (text "GL_ASSETS") (text "Assets") asset false []
    ∷ ghs_account (text "GL_LIABILITIES") (text "Liabilities") liability false []
    ∷ ghs_account (text "GL_INCOME") (text "Income") income false []
    ∷ ghs_account (text "GL_ASSET_VAULT_CASH") (text "Vault Cash") asset true (text "GL_ASSETS")
    ∷ ghs_account (text "GL_ASSET_SETTLEMENT") (text "Settlement Account") asset true
        (text "GL_ASSETS")
    ∷ ghs_account (text "GL_LIAB_CUSTOMER_SAVINGS_POOL") (text "Customer Savings Pool") liability
        false (text "GL_LIABILITIES")
    ∷ ghs_account (text "GL_LIAB_CLEARING") (text "Clearing Account") liability true
        (text "GL_LIABILITIES")
    ∷ ghs_account (text "GL_INCOME_FEES") (text "Fee Income") income true (text "GL_INCOME")
    ∷ []

-- `inserted++` if a row was inserted
abbrev pub count : Bool → ℕ → ℕ
count did n = if did then suc n else n

-- uuid.Nil is 0
abbrev pub parent_of : ℕ → Option ℕ
parent_of parent_id = if parent_id == 0 then none else some parent_id

module _ {D : Type 0} where
  -- a row, no row, or an error of the driver
  abbrev pub found_one : Result (Account D) → Result Bool
  found_one (ok a) = ok true
  found_one (err e) = if is_error e no_rows then ok false else err e

  unfoldable pub account_exists_by_code : Env → Text → Exec (Session D) Bool
  account_exists_by_code env code = do
    r ← try (query env (λ db. or_no_rows (find_by_code code db.accounts)))
    lift (found_one r)

  unfoldable pub get_account_id_by_code : Env → Text → Exec (Session D) ℕ
  get_account_id_by_code env code = do
    a ← query env (λ db. or_no_rows (find_by_code code db.accounts))
    pure a.id

  -- REFERENCES accounts(id)
  abbrev pub parent_error : ℕ → Option ℕ → Db D → Option Error
  parent_error n none db = none
  parent_error n (some id) db =
      if exists (find_account id db.accounts) then none else some (driver n)

module _ {D : Type 0} ⦃o : Decimals D⦄ where
  -- the columns that the statement leaves out have their defaults
  abbrev pub seeded_row : Env → SeedAccount → ℕ → ℕ → Account D
  seeded_row env a parent_id n = record {
    id = env.fresh n;
    code = a.code;
    name = a.name;
    type = a.type;
    currency = a.currency;
    balance = o.column o.zero_value;
    status = active;
    version = 0;
    parent_id = parent_of parent_id;
    is_posting = a.is_posting;
  }

  abbrev pub add_row : Account D → Option Error → Option Error → Db D → Result (Unit {0}) × Db D
  add_row row (some e) orphan db = (err e, db)
  add_row row none (some e) db = (err e, db)
  add_row row none none db = (ok tt, record db { accounts = row ∷ db.accounts })

  unfoldable pub insert_account : Env → SeedAccount → ℕ → Exec (Session D) (Unit {0})
  insert_account env a parent_id = statement env (λ n db.
      add_row (seeded_row env a parent_id n)
        (account_error n (env.fresh n) (seeded_row env a parent_id n) db)
        (parent_error n (parent_of parent_id) db) db)

  abbrev pub insert_unless : Env → SeedAccount → ℕ → Bool → Exec (Session D) Bool
  insert_unless env a parent_id true = pure false
  insert_unless env a parent_id false = do insert_account env a parent_id; pure true

  unfoldable pub ensure_account : Env → SeedAccount → ℕ → Exec (Session D) Bool
  ensure_account env a parent_id = do
    exists ← account_exists_by_code env a.code
    insert_unless env a parent_id exists

  -- the loop over the accounts without a parent, and the loop over the others; `n` counts the rows
  -- that were inserted
  unfoldable pub seed_roots : Env → List SeedAccount → ℕ → Exec (Session D) ℕ
  seed_roots env [] n = pure n
  seed_roots env (a ∷ rest) n =
      let go_on = seed_roots env rest in
      if not (a.parent_code == [])
      then go_on n
      else (within (text "seed root") (ensure_account env a 0) >>= λ did. go_on (count did n))

  unfoldable pub seed_children : Env → List SeedAccount → ℕ → Exec (Session D) ℕ
  seed_children env [] n = pure n
  seed_children env (a ∷ rest) n =
      let go_on = seed_children env rest in
      if a.parent_code == []
      then go_on n
      else (within (text "load parent") (get_account_id_by_code env a.parent_code) >>= λ parent_id.
          within (text "seed child") (ensure_account env a parent_id) >>= λ did.
          go_on (count did n))

  abbrev pub seed_all : Env → Exec (Session D) ℕ
  seed_all env = do n ← seed_roots env base_coa 0; seed_children env base_coa n

  -- The program from the open pool on. An error ends it: the connection is closed, and the database
  -- drops what was not committed, as after the deferred rollback.
  unfoldable pub seed : Env → Exec (World D) ℕ
  seed env = do
    within (text "begin") (begin_tx env)
    deferred rollback (do n ← on_tx (seed_all env); within (text "commit") (commit env); pure n)
