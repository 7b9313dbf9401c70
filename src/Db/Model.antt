-- ===== src/Db/Model.antt =====
-- db/sqlc/models.go: the rows, and the database that db/migration sets up.
-- A row's id is a bigserial, so a number from 1 on. A timestamp is a number of microseconds. The
-- rate of a currency is a float64, kept as its bit pattern. A column that the code always fills
-- is no option, also where the migration allows null.
use go2bank.Prelude.{ℕ, String, Option, List}
use go2bank.Prelude.Int.{ℤ}
use go2bank.Db.Error.{Error}

pub record Account : Type 0 where
  pub id : ℕ
  pub owner : String
  pub balance : ℤ
  pub currency : String
  pub created_at : ℕ

pub record Currency : Type 0 where
  pub currency : String
  pub rate : ℕ
  pub created_at : ℕ

pub record Entry : Type 0 where
  pub id : ℕ
  pub account_id : ℕ
  pub amount : ℤ
  pub created_at : ℕ

pub record Transfer : Type 0 where
  pub id : ℕ
  pub from_account_id : ℕ
  pub to_account_id : ℕ
  pub amount : ℤ
  pub created_at : ℕ

pub record User : Type 0 where
  pub username : String
  pub hashed_password : String
  pub full_name : String
  pub email : String
  pub password_changed_at : ℕ
  pub created_at : ℕ
  pub role : String
  pub provider : String

-- The rows of every table, in the order of insertion.
pub record Tables : Type 0 where
  pub users : List User
  pub accounts : List Account
  pub entries : List Entry
  pub transfers : List Transfer
  pub currencies : List Currency

-- The session of a connection: outside a transaction, in one, or in one where a statement has
-- failed, so that every further statement of it is refused.
pub data TxState : Type 0 where
  idle active failed : TxState

-- The sequences behind the ids stand beside the tables: a rollback does not turn them back.
-- `locks` are the accounts whose rows the transaction has locked, until it ends.
-- `faults` says of each statement still to come whether the server or the driver fails it.
pub record Db : Type 0 where
  pub tables : Tables
  pub open tables use *
  pub account_seq : ℕ
  pub entry_seq : ℕ
  pub transfer_seq : ℕ
  pub now : ℕ
  pub tx : TxState
  pub locks : List ℕ
  pub faults : List (Option Error)
