-- ===== src/Db/Store/Effects.antt =====
-- What each statement of a transfer does to the tables when it goes through.
use go2bank.Prelude.{◌≡◌, ◌≢◌, inl, inr, true, none, some, [], ◌∷◌, ◌++◌, arith, Option-cases}
use go2bank.Prelude.Int.{◌+ℤ◌}
use go2bank.Prelude.Word.{in_int64}
use go2bank.Db.Model.{Account, Entry, Transfer, Tables, Db}
use go2bank.Db.Query.{ok, statement-ok}
use go2bank.Db.Account.Rows.{find_account, replace_account}
use go2bank.Db.Account.{AddAccountBalanceParams, add_account_balance}
use go2bank.Db.Entry.{CreateEntryParams, create_entry}
use go2bank.Db.Transfer.{CreateTransferParams, create_transfer}

pub record TransferAdded (arg : CreateTransferParams) (t : Tables) (row : Transfer) (t' : Tables)
    : Type 0 where
  pub added : t' ≡ record t { transfers = t.transfers ++ row ∷ [] }
  pub from : row.from_account_id ≡ arg.from_account_id
  pub to : row.to_account_id ≡ arg.to_account_id
  pub amount : row.amount ≡ arg.amount
  pub from_known : find_account arg.from_account_id t.accounts ≢ none
  pub to_known : find_account arg.to_account_id t.accounts ≢ none

pub create_transfer-TransferAdded :
    (arg : CreateTransferParams) (db : Db) {row : Transfer} {db' : Db}
    → create_transfer arg db ≡ (ok row, db')
    → TransferAdded arg db.tables row db'.tables
unfolding create_transfer
create_transfer-TransferAdded arg db h =
    let w = statement-ok _ db h in let r = w.ran in ground arith

pub record EntryAdded (arg : CreateEntryParams) (t : Tables) (row : Entry) (t' : Tables)
    : Type 0 where
  pub added : t' ≡ record t { entries = t.entries ++ row ∷ [] }
  pub account : row.account_id ≡ arg.account_id
  pub amount : row.amount ≡ arg.amount
  pub known : find_account arg.account_id t.accounts ≢ none

pub create_entry-EntryAdded :
    (arg : CreateEntryParams) (db : Db) {row : Entry} {db' : Db}
    → create_entry arg db ≡ (ok row, db')
    → EntryAdded arg db.tables row db'.tables
unfolding create_entry
create_entry-EntryAdded arg db h = let w = statement-ok _ db h in let r = w.ran in ground arith

pub record BalanceAdded (arg : AddAccountBalanceParams) (t : Tables) (row : Account) (t' : Tables)
    : Type 0 where
  pub old : Account
  pub found : find_account arg.id t.accounts ≡ some old
  pub row_is : row ≡ record old { balance = old.balance +ℤ arg.amount }
  pub written : t' ≡ record t { accounts = replace_account row t.accounts }
  pub fits : in_int64 row.balance ≡ true

pub add_account_balance-BalanceAdded :
    (arg : AddAccountBalanceParams) (db : Db) {row : Account} {db' : Db}
    → add_account_balance arg db ≡ (ok row, db')
    → BalanceAdded arg db.tables row db'.tables
unfolding add_account_balance
add_account_balance-BalanceAdded arg db h =
    let w = statement-ok _ db h in
    let r = w.ran in
    elim (Option-cases (find_account arg.id db.accounts)) [
      | inl missing ↦ absurd (ground arith)
      | inr (old, e) ↦ record {
        old = old;
        found = e;
        row_is = ground arith;
        written = ground arith;
        fits = ground arith;
      }
    ]
