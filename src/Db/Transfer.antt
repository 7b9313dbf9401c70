-- ===== src/Db/Transfer.antt =====
-- db/sqlc/transfer.sql.go: the table of transfers.
use go2bank.Prelude.{
  ℕ, ◌+◌, ◌||◌, Option, none, some, List, [], ◌∷◌, ◌++◌, ◌==◌, nat_eq, string_eq, if◌then◌else◌,
  filter,
}
use go2bank.Prelude.Int.{ℤ}
use go2bank.Db.Error.{no_rows, pg_error, foreign_key_violation}
use go2bank.Db.Model.{Account, Transfer, Db}
use go2bank.Db.Query.{Query, ok, err, statement}
use go2bank.Db.Account.Rows.{find_account}
use go2bank.Db.Page.{page}

pub record CreateTransferParams : Type 0 where
  pub from_account_id : ℕ
  pub to_account_id : ℕ
  pub amount : ℤ

abbrev pub new_transfer : CreateTransferParams → Db → Transfer
new_transfer arg db = record {
  id = db.transfer_seq + 1;
  from_account_id = arg.from_account_id;
  to_account_id = arg.to_account_id;
  amount = arg.amount;
  created_at = db.now;
}

abbrev next_transfer : Db → Db
next_transfer db = record db { transfer_seq = db.transfer_seq + 1 }

abbrev put_transfers : List Transfer → Db → Db
put_transfers rows db = record db { tables = record db.tables { transfers = rows } }

-- Two foreign keys on accounts.
insert_transfer : CreateTransferParams → Option Account → Option Account → Query Transfer
insert_transfer arg (some _) (some _) db = (
  ok (new_transfer arg db),
  put_transfers (db.transfers ++ new_transfer arg db ∷ []) (next_transfer db),
)
insert_transfer arg _ _ db = (err (pg_error foreign_key_violation), next_transfer db)

-- `CreateTransfer`
unfoldable pub create_transfer : CreateTransferParams → Query Transfer
unfolding insert_transfer
create_transfer arg = statement λ db.
    insert_transfer arg (find_account arg.from_account_id db.accounts)
      (find_account arg.to_account_id db.accounts) db

find_transfer : ℕ → List Transfer → Option Transfer
find_transfer id [] = none
find_transfer id (row ∷ rows) = if row.id == id then some row else find_transfer id rows

answer : Option Transfer → Query Transfer
answer none db = (err no_rows, db)
answer (some row) db = (ok row, db)

-- `GetTransfer`
unfoldable pub get_transfer : ℕ → Query Transfer
unfolding answer find_transfer
get_transfer id = statement λ db. answer (find_transfer id db.transfers) db

pub record ListTransfersParams : Type 0 where
  pub from_account_id : ℕ
  pub to_account_id : ℕ
  pub limit : ℤ
  pub offset : ℤ

-- `ListTransfers`
unfoldable pub list_transfers : ListTransfersParams → Query (List Transfer)
list_transfers arg = statement λ db. (
  page (λ row. row.id) arg.limit arg.offset
      (filter
        (λ row.
          row.from_account_id == arg.from_account_id || row.to_account_id == arg.to_account_id)
        db.transfers),
  db,
)
