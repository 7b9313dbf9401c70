-- ===== src/Db/Store.antt =====
-- db/sqlc/store.go: database transactions, and the transfer of money.
pub mod Effects
pub mod Moving
pub mod Fitting
pub mod Atomic
pub mod Booking
pub mod Ledger
pub mod Runs
pub mod Race
pub mod Locks
pub mod Refines
pub mod Going
pub mod Complete
mod Tests
use go2bank.Prelude.{ℕ, Option, none, some, List, [], ◌∷◌, ltb, if◌then◌else◌}
use go2bank.Prelude.Int.{ℤ, pos, ltb_ℤ}
use go2bank.Prelude.Word.{neg_int64}
use go2bank.Db.Error.{Error, insufficient_balance, message, tx_error}
use go2bank.Db.Model.{Account, Entry, Transfer, Tables, Db, active, idle}
use go2bank.Db.Query.{◌>>◌, Query, Result, ok, err, pure, fail, ◌>>=◌, is_failed}
use go2bank.Db.Account.{add_account_balance, get_account}
use go2bank.Db.Entry.{create_entry}
use go2bank.Db.Transfer.{create_transfer}

-- The tables as they were at the start, and no locks; what the sequences gave out stays given out.
abbrev pub restore : Tables → Db → Db
restore saved db = record db { tables = saved; tx = idle; locks = [] }

pub roll_back : {A : Type 0} → Tables → Error → List (Option Error) → Query A
roll_back saved e [] db = (err e, restore saved db)
roll_back saved e (none ∷ fs) db = (err e, restore saved (record db { faults = fs }))
roll_back saved e (some rb ∷ fs) db =
    (err (tx_error e rb), restore saved (record db { faults = fs }))

-- A failed commit is one that has not taken effect: that its answer was lost is left out.
pub commit : {A : Type 0} → Tables → A → List (Option Error) → Query A
commit saved a [] db = (ok a, record db { tx = idle; locks = [] })
commit saved a (none ∷ fs) db = (ok a, record db { tx = idle; locks = []; faults = fs })
commit saved a (some e ∷ fs) db = (err e, restore saved (record db { faults = fs }))

-- The server turns the commit of a failed transaction into a rollback, which the driver reports.
pub finish : {A : Type 0} → Tables → Result A × Db → Result A × Db
unfolding roll_back commit
finish saved (err e, db) = roll_back saved e db.faults db
finish saved (ok a, db) =
    if is_failed db.tx
    then (err (message "commit unexpectedly resulted in rollback"), restore saved db)
    else commit saved a db.faults db

pub begin : {A : Type 0} → List (Option Error) → Query A → Query A
unfolding finish
begin [] fn db = finish db.tables (fn (record db { tx = active }))
begin (none ∷ fs) fn db = finish db.tables (fn (record db { tx = active; faults = fs }))
begin (some e ∷ fs) fn db = (err e, record db { faults = fs })

-- `execTx`. The closure's variable `result` is the value of `fn`: what the source holds in it
-- beside an error is dropped by its callers, and has no place here.
unfoldable pub exec_tx : {A : Type 0} → Query A → Query A
unfolding begin
exec_tx fn db = begin db.faults fn db

pub record TransferTxParams : Type 0 where
  pub from_account_id : ℕ
  pub to_account_id : ℕ
  pub from_amount : ℤ
  pub to_amount : ℤ

pub record TransferTxResult : Type 0 where
  pub transfer : Transfer
  pub from_account : Account
  pub to_account : Account
  pub from_entry : Entry
  pub to_entry : Entry

-- The balance in `fromAccount, _ := q.GetAccount(…)`: an error leaves the zero value.
abbrev funds_in : Result Account → ℤ
funds_in (ok account) = account.balance
funds_in (err _) = pos 0

unfoldable pub read_funds : ℕ → Query ℤ
read_funds id db = let (r, db') = get_account id db in (ok (funds_in r), db')

-- `addMoney`
unfoldable pub add_money : ℕ → ℤ → ℕ → ℤ → Query (Account × Account)
add_money account_id amount account_id2 amount2 = do
  account1 ← add_account_balance (record { amount = amount; id = account_id })
  account2 ← add_account_balance (record { amount = amount2; id = account_id2 })
  pure (account1, account2)

abbrev pub swap : Account × Account → Account × Account
swap (a, b) = (b, a)

-- The accounts from and to, updated in the order of their ids.
unfoldable pub move_money : TransferTxParams → Query (Account × Account)
move_money arg =
    if ltb arg.from_account_id arg.to_account_id
    then add_money arg.from_account_id (neg_int64 arg.from_amount) arg.to_account_id arg.to_amount
    else do
      both ←
          add_money arg.to_account_id arg.to_amount arg.from_account_id (neg_int64 arg.from_amount)
      pure (swap both)

unfoldable pub book_transfer : TransferTxParams → Query TransferTxResult
book_transfer arg = do
  transfer ← create_transfer (record {
    from_account_id = arg.from_account_id;
    to_account_id = arg.to_account_id;
    amount = arg.from_amount;
  })
  from_entry ←
      create_entry (record { account_id = arg.from_account_id; amount = neg_int64 arg.from_amount })
  to_entry ← create_entry (record { account_id = arg.to_account_id; amount = arg.to_amount })
  both ← move_money arg
  pure (record {
    transfer = transfer;
    from_account = both.0;
    to_account = both.1;
    from_entry = from_entry;
    to_entry = to_entry;
  })

-- `fromAccount.Balance < arg.FromAmount`, and the error.
unfoldable pub check_funds : TransferTxParams → Query Unit
unfolding read_funds
check_funds arg = do
  funds ← read_funds arg.from_account_id
  if ltb_ℤ funds arg.from_amount then fail insufficient_balance else pure tt

pub transfer_body : TransferTxParams → Query TransferTxResult
unfolding check_funds book_transfer
transfer_body arg = do check_funds arg; book_transfer arg

-- `TransferTx`
unfoldable pub transfer_tx : TransferTxParams → Query TransferTxResult
unfolding transfer_body exec_tx
transfer_tx arg = exec_tx (transfer_body arg)
