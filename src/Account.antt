-- ===== src/Account.antt =====
-- internal/account/account.go: the classes and states of an account, and the rows of the table
-- `accounts` that every repository reads.
use payments_engine.Base.{ℕ, Option, Bool, true, false, Text, text_beq}

-- A string that is none of the constants is `other`.
pub data AccountType : Type 0 where
  asset liability equity income expense : AccountType
  other : Text → AccountType

pub data AccountStatus : Type 0 where
  active frozen closed : AccountStatus
  other : Text → AccountStatus

abbrev pub status_beq : AccountStatus → AccountStatus → Bool
status_beq active active = true
status_beq frozen frozen = true
status_beq closed closed = true
status_beq (AccountStatus.other s) (AccountStatus.other t) = text_beq s t
status_beq _ _ = false

-- `code`, `parent_id` and `is_posting` are columns of the table only; the Go structs `Account`
-- (without them) and `AccountSnapshot` (with the code) are read from such rows.
pub record Account (D : Type 0) : Type 0 where
  pub id : ℕ
  pub code : Text
  pub name : Text
  pub type : AccountType
  pub currency : Text
  pub balance : D
  pub status : AccountStatus
  pub version : ℕ
  pub parent_id : Option ℕ
  pub is_posting : Bool
