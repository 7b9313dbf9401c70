-- ===== src/Db/Account.antt =====
-- db/sqlc/account.sql.go: the table of accounts, one function for each query.
pub mod Rows
pub mod Opening
use go2bank.Prelude.{
  ℕ, ◌+◌, String, refl, ◌≢◌, Bool, true, ◌&&◌, Option, none, some, List, [], ◌∷◌, ◌++◌, ◌==◌,
  nat_eq, string_eq, if◌then◌else◌, any,
}
use go2bank.Prelude.Int.{ℤ, ◌+ℤ◌}
use go2bank.Prelude.Word.{in_int64}
use go2bank.Db.Error.{Error, no_rows, pg_error, unique_violation, foreign_key_violation}
use go2bank.Db.Model.{failed, active, idle, TxState, Account, User, Db}
use go2bank.Db.Query.{HasRead, statement-HasRead, Query, Result, ok, err, statement}
use go2bank.Db.Page.{page}
use Rows.{find_account, replace_account, delete_account_row, owned_by}

pub record AddAccountBalanceParams : Type 0 where
  pub amount : ℤ
  pub id : ℕ

abbrev pub put_accounts : List Account → Db → Db
put_accounts rows db = record db { tables = record db.tables { accounts = rows } }

-- The lock of a row is held until the transaction ends: outside of one, that is the end of the
-- statement.
abbrev held_after : TxState → ℕ → List ℕ → List ℕ
held_after idle id ids = []
held_after active id ids = id ∷ ids
held_after failed id ids = ids

abbrev pub lock : ℕ → Db → Db
lock id db = record db { locks = held_after db.tx id db.locks }

-- UPDATE of the balance of one account, where the new one is a bigint.
write_balance : Account → Query Account
write_balance row db =
    if in_int64 row.balance
    then (ok row, put_accounts (replace_account row db.accounts) (lock row.id db))
    else (err (pg_error "22003"), db)

update_row : (Account → ℤ) → Option Account → Query Account
unfolding write_balance
update_row f none db = (err no_rows, db)
update_row f (some row) db = write_balance (record row { balance = f row }) db

-- `AddAccountBalance`
unfoldable pub add_account_balance : AddAccountBalanceParams → Query Account
unfolding update_row
add_account_balance arg =
    statement
      λ db. update_row (λ row. row.balance +ℤ arg.amount) (find_account arg.id db.accounts) db

pub record CreateAccountParams : Type 0 where
  pub owner : String
  pub balance : ℤ
  pub currency : String

abbrev pub has_user : String → List User → Bool
has_user name users = any (λ u. u.username == name) users

-- The constraint owner_currency_key.
abbrev pub has_account : String → String → List Account → Bool
has_account owner currency rows = any (λ a. a.owner == owner && a.currency == currency) rows

abbrev pub new_account : CreateAccountParams → Db → Account
new_account arg db = record {
  id = db.account_seq + 1;
  owner = arg.owner;
  balance = arg.balance;
  currency = arg.currency;
  created_at = db.now;
}

abbrev next_account : Db → Db
next_account db = record db { account_seq = db.account_seq + 1 }

-- The unique index is tested as the row goes in, the foreign key at the end of the statement.
unfoldable pub insert_account : CreateAccountParams → Query Account
insert_account arg db =
    if has_account arg.owner arg.currency db.accounts
    then (err (pg_error unique_violation), next_account db)
    else if has_user arg.owner db.users
    then (
      ok (new_account arg db),
      put_accounts (db.accounts ++ new_account arg db ∷ []) (next_account db),
    )
    else (err (pg_error foreign_key_violation), next_account db)

-- `CreateAccount`
unfoldable pub create_account : CreateAccountParams → Query Account
unfolding insert_account
create_account arg = statement (insert_account arg)

is_referenced : ℕ → Db → Bool
is_referenced id db =
    if any (λ e. e.account_id == id) db.entries
    then true
    else any (λ t. if t.from_account_id == id then true else t.to_account_id == id) db.transfers

-- `DeleteAccount`: refused while an entry or a transfer refers to the account.
unfoldable pub delete_account : ℕ → Query Unit
unfolding is_referenced
delete_account id = statement λ db.
    if is_referenced id db
    then (err (pg_error foreign_key_violation), db)
    else (ok tt, put_accounts (delete_account_row id db.accounts) db)

abbrev pub answered : Option Account → Result Account
answered none = err no_rows
answered (some row) = ok row

abbrev answer : Option Account → Query Account
answer found db = (answered found, db)

-- `GetAccount`
unfoldable pub get_account : ℕ → Query Account
get_account id = statement λ db. answer (find_account id db.accounts) db

-- The row that was found is locked.
abbrev locked : Option Account → Db → Db
locked none db = db
locked (some row) db = lock row.id db

-- `GetAccountForUpdate`: FOR NO KEY UPDATE locks the row.
unfoldable pub get_account_for_update : ℕ → Query Account
get_account_for_update id =
    statement λ db. answer (find_account id db.accounts) (locked (find_account id db.accounts) db)

pub record ListAccountsParams : Type 0 where
  pub owner : String
  pub limit : ℤ
  pub offset : ℤ

-- `ListAccounts`
unfoldable pub list_accounts : ListAccountsParams → Query (List Account)
list_accounts arg =
    statement λ db. (page (λ row. row.id) arg.limit arg.offset (owned_by arg.owner db.accounts), db)

pub record UpdateAccountParams : Type 0 where
  pub id : ℕ
  pub balance : ℤ

-- `UpdateAccount`
unfoldable pub update_account : UpdateAccountParams → Query Account
unfolding update_row
update_account arg =
    statement λ db. update_row (λ _. arg.balance) (find_account arg.id db.accounts) db

-- A read of an account, in or out of a transaction that has not failed.
pub get_account-HasRead :
    (id : ℕ) (db : Db)
    → db.tx ≢ failed
    → HasRead (answered (find_account id db.accounts)) db (get_account id db)
unfolding get_account
get_account-HasRead id db h =
    statement-HasRead (answered (find_account id db.accounts)) _ db (λ fs. refl) h
