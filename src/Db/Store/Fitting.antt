-- ===== src/Db/Store/Fitting.antt =====
-- A transfer that is booked keeps both balances in the range of int64.
use go2bank.Prelude.{ℕ, ◌≡◌, sym, ◌≢◌, inl, inr, true, some, arith, ltb, if◌then◌else◌, Bool-cases}
use go2bank.Prelude.Int.{ℤ, ◌+ℤ◌}
use go2bank.Prelude.Word.{neg_int64, in_int64}
use go2bank.Db.Account.Rows.{find_account, find_account-replace_ne, balance, find_account-id}
use go2bank.Db.Model.{Account, Db, Tables}
use go2bank.Db.Query.{bind_ok_rec, ok}
use go2bank.Db.Store.{add_money, move_money, TransferTxParams}
use go2bank.Db.Store.Effects.{add_account_balance-BalanceAdded}

-- The new balances of two accounts that differ.
pub record Fits (arg : TransferTxParams) (t : Tables) : Type 0 where
  pub payer : in_int64 (balance arg.from_account_id t.accounts +ℤ neg_int64 arg.from_amount) ≡ true
  pub payee : in_int64 (balance arg.to_account_id t.accounts +ℤ arg.to_amount) ≡ true

add_money-fits :
    (k : ℕ) (x : ℤ) (j : ℕ) (y : ℤ) (db : Db) {both : Account × Account} {db' : Db}
    → j ≢ k
    → add_money k x j y db ≡ (ok both, db')
    → (in_int64 (balance k db.accounts +ℤ x) ≡ true)
      × (in_int64 (balance j db.accounts +ℤ y) ≡ true)
unfolding add_money
add_money-fits k x j y db apart h = bind_ok_rec _ _ db h λ a mid first rest.
    bind_ok_rec _ _ mid rest λ b last second _.
      let one = add_account_balance-BalanceAdded _ db first in
      let two = add_account_balance-BalanceAdded _ mid second in
      let key : a.id ≡ k =
        ground (arith, one.row_is, find_account-id k one.old db.accounts one.found) in
      let other = find_account-replace_ne j a db.accounts (rw key apart) in
      let found : find_account j db.accounts ≡ some two.old =
        ground (arith, other, one.written, two.found) in
      (ground (arith, one.found, one.row_is, one.fits), ground (arith, found, two.row_is, two.fits))

pub move_money-Fits :
    (arg : TransferTxParams) (db : Db) {both : Account × Account} {db' : Db}
    → arg.from_account_id ≢ arg.to_account_id
    → move_money arg db ≡ (ok both, db')
    → Fits arg db.tables
unfolding move_money
move_money-Fits arg db apart h = elim (Bool-cases (ltb arg.from_account_id arg.to_account_id)) [
  | inl e ↦
      let (payer, payee) =
        add_money-fits _ _ _ _ db (λ s. apart (sym s)) (rw (e, if◌then◌else◌) at h) in
      record { payer = payer; payee = payee }
  | inr e ↦ bind_ok_rec _ _ db (rw (e, if◌then◌else◌) at h) λ both' mid moved _.
      let (payee, payer) = add_money-fits _ _ _ _ db apart moved in
      record { payer = payer; payee = payee }
]
