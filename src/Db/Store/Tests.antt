-- ===== src/Db/Store/Tests.antt =====
-- Runs of the store on the sample bank.
use go2bank.Prelude.{◌≡◌, refl, none, some, [], ◌∷◌, ◌++◌, arith}
use go2bank.Prelude.Int.{pos, negsuc, ◌+ℤ◌, ltb_ℤ}
use go2bank.Prelude.Word.{neg_int64, in_int64}
use go2bank.Db.Error.{message, Error}
use go2bank.Db.Model.{Db}
use go2bank.Db.Store.Atomic.{exec_tx_atomic}
use go2bank.Db.Store.Booking.{transfer_tx-Booked, Booked}
use go2bank.Db.Store.Ledger.{IsSound, IsPayment, transfer_tx-IsReconciled, HasNoDebt, IsReconciled}
use go2bank.Samples.{ann_account, bank, payment, bob_account}
use go2bank.Db.Query.{◌>>=◌, ok, err}
use go2bank.Db.Store.Runs.{Reach-IsSound, here, next, transfers}
use go2bank.Db.Store.{
  read_funds, book_transfer, TransferTxParams, TransferTxResult, transfer_tx, transfer_body,
  move_money, add_money, exec_tx,
}
use go2bank.Db.Account.{add_account_balance, get_account}
use go2bank.Db.Account.Rows.{balance, find_account, replace_account}
use go2bank.Db.Entry.{create_entry, booked}
use go2bank.Db.Transfer.{create_transfer}
use go2bank.Db.Query.{statement}

-- Opens what a run of the store computes with.
store_code : Unit {0}
unfolding transfer_tx ◌>>=◌ statement move_money add_money add_account_balance get_account
    find_account replace_account create_entry create_transfer neg_int64 in_int64 ltb_ℤ ◌+ℤ◌
store_code = tt

abbrev result : TransferTxResult
result = record {
  transfer = record {
    id = 1;
    from_account_id = 1;
    to_account_id = 2;
    amount = pos 30;
    created_at = 9;
  };
  from_account = record ann_account { balance = pos 70 };
  to_account = record bob_account { balance = pos 20 };
  from_entry = record { id = 3; account_id = 1; amount = negsuc 29; created_at = 9 };
  to_entry = record { id = 4; account_id = 2; amount = pos 15; created_at = 9 };
}

abbrev paid_bank : Db
paid_bank = record bank {
  tables = record bank.tables {
    accounts = result.from_account ∷ result.to_account ∷ [];
    entries = (bank.entries ++ result.from_entry ∷ []) ++ result.to_entry ∷ [];
    transfers = result.transfer ∷ [];
  };
  entry_seq = 4;
  transfer_seq = 1;
}

transfer_tx_run : transfer_tx payment bank ≡ (ok result, paid_bank)
unfolding store_code
transfer_tx_run = refl

transfer_tx-Booked_example : Booked payment bank.tables result paid_bank.tables
transfer_tx-Booked_example = transfer_tx-Booked payment bank result paid_bank transfer_tx_run

-- The ninth call of the driver, the commit, fails.
abbrev lost : Error
lost = message "connection lost"

abbrev shaky_bank : Db
shaky_bank = record bank {
  faults = none ∷ none ∷ none ∷ none ∷ none ∷ none ∷ none ∷ some lost ∷ [];
}

transfer_tx_lost :
    exec_tx (transfer_body payment) shaky_bank
    ≡ (err lost, record bank { entry_seq = 4; transfer_seq = 1 })
unfolding store_code exec_tx
transfer_tx_lost = refl

exec_tx_atomic_example : (record bank { entry_seq = 4; transfer_seq = 1 }).tables ≡ bank.tables
exec_tx_atomic_example = exec_tx_atomic (transfer_body payment) shaky_bank lost _ transfer_tx_lost

pub bank-IsReconciled : IsReconciled bank.tables
unfolding store_code booked
bank-IsReconciled id = ground arith

pub bank-HasNoDebt : HasNoDebt bank.tables
unfolding store_code
bank-HasNoDebt id = ground arith

payment-IsPayment : IsPayment payment
payment-IsPayment = omega arith

transfer_tx-IsReconciled_example : IsReconciled (transfer_tx payment bank).1.tables
transfer_tx-IsReconciled_example = transfer_tx-IsReconciled payment bank bank-IsReconciled

Reach-IsSound_example : IsSound (transfer_tx payment bank).1.tables
Reach-IsSound_example =
    Reach-IsSound {db = bank} (next here (transfers payment payment-IsPayment))
      (record { reconciled = bank-IsReconciled; no_debt = bank-HasNoDebt })

abbrev large : TransferTxParams
large = record payment { from_amount = pos 80; to_amount = pos 40 }

-- The test of the funds takes no lock. Where two transfers both read the balance of 100 before
-- either commits, both pass, and what they book one after the other leaves the account at -60.
overdrawn :
    let first = (exec_tx (book_transfer large) bank).1 in
    let second = (exec_tx (book_transfer large) first).1 in
    ((read_funds 1 bank).0 ≡ ok (pos 100)) × (balance 1 second.accounts ≡ negsuc 59)
unfolding store_code exec_tx
overdrawn = (refl, refl)
