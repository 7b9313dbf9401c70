-- ===== src/Db/Store/Race/Tests.antt =====
-- Races on the sample bank.
use go2bank.Prelude.{ℕ, ◌+◌, ◌≡◌, refl, [], arith}
use go2bank.Prelude.Int.{ℤ, pos, negsuc, ◌+ℤ◌, ◌<ℤ◌, ltb_ℤ}
use go2bank.Prelude.Word.{neg_int64, in_int64}
use go2bank.Db.Store.Ledger.{HasNoDebt}
use go2bank.Db.Store.Race.Sound.{RaceReach-HasNoDebt, charge, IsAlone}
use go2bank.Db.Store.Tests.{bank-HasNoDebt}
use go2bank.Db.Model.{active, Db}
use go2bank.Db.Store.Race.{commits, RaceReach, and_then, at_rest, not_yet, checks, Payment}
use go2bank.Db.Store.Race.Overdraft.{RaceReach-overdraws, AreRivals}
use go2bank.Samples.{ann_account, bob_account, bank, payment}
use go2bank.Db.Query.{ok, statement, ◌>>=◌}
use go2bank.Db.Store.{
  book_transfer, check_funds, exec_tx, TransferTxResult, read_funds, move_money, add_money,
}
use go2bank.Db.Account.{add_account_balance, get_account}
use go2bank.Db.Account.Rows.{balance, find_account, replace_account}
use go2bank.Db.Entry.{create_entry}
use go2bank.Db.Transfer.{create_transfer}

-- Opens what a run of the store computes with.
race_code : Unit {0}
unfolding exec_tx check_funds read_funds book_transfer ◌>>=◌ statement move_money add_money
    add_account_balance get_account find_account replace_account create_entry create_transfer
    neg_int64 in_int64 ltb_ℤ ◌+ℤ◌
race_code = tt

-- 80 of the 100 of the first account.
abbrev large : Payment
large = record {
  arg = record payment { from_amount = pos 80; to_amount = pos 40 };
  pays = omega arith;
}

-- The `n`-th of two such payments, and the balances after it.
abbrev receipt : ℕ → ℤ → ℤ → TransferTxResult
receipt n from to = record {
  transfer = record {
    id = n;
    from_account_id = 1;
    to_account_id = 2;
    amount = pos 80;
    created_at = 9;
  };
  from_account = record ann_account { balance = from };
  to_account = record bob_account { balance = to };
  from_entry = record { id = n + n + 1; account_id = 1; amount = negsuc 79; created_at = 9 };
  to_entry = record { id = n + n + 2; account_id = 2; amount = pos 40; created_at = 9 };
}

abbrev booked_once : Db
booked_once = (exec_tx (book_transfer large.arg) bank).1

abbrev booked_twice : Db
booked_twice = (exec_tx (book_transfer large.arg) booked_once).1

first_run : exec_tx (book_transfer large.arg) bank ≡ (ok (receipt 1 (pos 20) (pos 45)), booked_once)
unfolding race_code
first_run = refl

second_run :
    exec_tx (book_transfer large.arg) booked_once
    ≡ (ok (receipt 2 (negsuc 59) (pos 85)), booked_twice)
unfolding race_code
second_run = refl

large-AreRivals : AreRivals large large bank
unfolding race_code
large-AreRivals = record {
  one_payer = refl;
  away = λ h. absurd (omega (arith, h));
  away_too = λ h. absurd (omega (arith, h));
  covered = omega arith;
  covered_too = omega arith;
  exceed = omega arith;
}

RaceReach-overdraws_example :
    RaceReach (λ _ _. Unit) (at_rest bank) (at_rest booked_twice)
    × (balance 1 booked_twice.accounts <ℤ pos 0)
RaceReach-overdraws_example =
    RaceReach-overdraws large large bank booked_once booked_twice _ _ large-AreRivals first_run
      second_run

-- One payment, from its check to its commit.
one_by_one : RaceReach IsAlone (at_rest bank) (at_rest booked_once)
unfolding charge race_code
one_by_one =
    and_then (and_then not_yet (checks large [] (record bank { tx = active }) refl refl refl refl))
      (commits [] (record { payment = large; held = [] }) [] refl refl)

RaceReach-HasNoDebt_example : HasNoDebt booked_once.tables
RaceReach-HasNoDebt_example = RaceReach-HasNoDebt one_by_one bank-HasNoDebt
