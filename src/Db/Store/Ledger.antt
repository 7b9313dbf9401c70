-- ===== src/Db/Store/Ledger.antt =====
-- The books stay right: every balance is the sum of the account's entries and never negative,
-- under every query of the store that the handlers call.
use go2bank.Prelude.{
  ℕ, ◌≡◌, refl, sym, ◌⊎◌, inl, inr, Bool, true, false, arith, if◌then◌else◌, nat_beq_iff,
}
use go2bank.Prelude.Int.{ℤ, pos, negsuc, ◌+ℤ◌, neg, ◌≤ℤ◌, int_laws, +ℤ_assoc}
use go2bank.Prelude.Word.{IsInt64, neg_int64_exact}
use go2bank.Db.Query.{err, ok, Result}
use go2bank.Db.Store.Atomic.{exec_tx_atomic}
use go2bank.Db.Account.Rows.{balance}
use go2bank.Db.Entry.{booked, booked-append}
use go2bank.Db.Model.{Db, Tables}
use go2bank.Db.Store.Booking.{Entered, transfer_tx-Booked, Booked}
use go2bank.Db.Store.{transfer_body, TransferTxResult, TransferTxParams, transfer_tx}

-- The balance of every account is the sum of what its entries book.
abbrev pub IsReconciled : Tables → Type 0
IsReconciled t = (id : ℕ) → balance id t.accounts ≡ booked id t.entries

abbrev pub HasNoDebt : Tables → Type 0
HasNoDebt t = (id : ℕ) → pos 0 ≤ℤ balance id t.accounts

Entered-IsReconciled :
    (arg : TransferTxParams) (t : Tables) (res : TransferTxResult) (t' : Tables)
    → Entered arg t res t'
    → IsReconciled t
    → IsReconciled t'
Entered-IsReconciled arg t res t' b h id =
    rw (b.balances id, b.entries, booked-append, booked-append, h id)
      (rw (b.from_entry_account, b.to_entry_account, b.from_entry_amount, b.to_entry_amount)
        (sym (+ℤ_assoc _ _ _)))

-- Amounts that are not negative. The binding sees to `pays`; that the conversion `brings` an amount
-- of zero or more is not checked anywhere: one that overflows can be negative.
pub record IsPayment (arg : TransferTxParams) : Type 0 where
  pub fits : IsInt64 arg.from_amount
  pub pays : pos 0 ≤ℤ arg.from_amount
  pub brings : pos 0 ≤ℤ arg.to_amount

-- A covered balance stays at zero or more.
no_debt_after :
    (v a y : ℤ) (mine theirs : Bool)
    → pos 0 ≤ℤ v
    → pos 0 ≤ℤ a
    → pos 0 ≤ℤ y
    → (mine ≡ true → a ≤ℤ v)
    → pos 0 ≤ℤ v +ℤ ((if mine then neg a else pos 0) +ℤ (if theirs then y else pos 0))
no_debt_after v a y true true hv ha hy c = let k = c refl in omega int_laws
no_debt_after v a y true false hv ha hy c = let k = c refl in omega int_laws
no_debt_after v a y false true hv ha hy c = omega int_laws
no_debt_after v a y false false hv ha hy c = omega int_laws

pub neg_fits : (a : ℤ) → IsInt64 a → pos 0 ≤ℤ a → IsInt64 (neg a)
unfolding neg
neg_fits (pos n) h p = ground arith
neg_fits (negsuc n) h p = absurd (omega arith)

pub Booked-HasNoDebt :
    (arg : TransferTxParams) (t : Tables) (res : TransferTxResult) (t' : Tables)
    → IsPayment arg
    → Booked arg t res t'
    → HasNoDebt t
    → HasNoDebt t'
Booked-HasNoDebt arg t res t' pay b h id =
    rw (b.balances id, neg_int64_exact arg.from_amount (neg_fits arg.from_amount pay.fits pay.pays))
      (no_debt_after (balance id t.accounts) arg.from_amount arg.to_amount _ _ (h id) pay.pays
        pay.brings
        (λ mine.
          let same : arg.from_account_id ≡ id = (nat_beq_iff _ _).0 mine in rw same at b.covered))

-- Both together, for any run of the store.
pub record IsSound (t : Tables) : Type 0 where
  pub reconciled : IsReconciled t
  pub no_debt : HasNoDebt t

transfer-cases :
    (arg : TransferTxParams) (db : Db) (o : Result TransferTxResult × Db)
    → transfer_tx arg db ≡ o
    → ((res : TransferTxResult) × Booked arg db.tables res o.1.tables) ⊎ (o.1.tables ≡ db.tables)
unfolding transfer_tx
transfer-cases arg db (ok res, db') h = inl (res, transfer_tx-Booked arg db res db' h)
transfer-cases arg db (err e, db') h = inr (exec_tx_atomic (transfer_body arg) db e db' h)

-- A transfer, whatever becomes of it, keeps every balance the sum of its entries.
pub transfer_tx-IsReconciled :
    (arg : TransferTxParams) (db : Db)
    → IsReconciled db.tables
    → IsReconciled (transfer_tx arg db).1.tables
transfer_tx-IsReconciled arg db h = elim (transfer-cases arg db _ refl) [
  | inl (res, b) ↦ Entered-IsReconciled arg _ res _ b.entered h
  | inr same ↦ rw same h
]

-- A payment, whatever becomes of it, leaves no account below zero.
pub transfer_tx-HasNoDebt :
    (arg : TransferTxParams) (db : Db)
    → IsPayment arg
    → HasNoDebt db.tables
    → HasNoDebt (transfer_tx arg db).1.tables
transfer_tx-HasNoDebt arg db pay h = elim (transfer-cases arg db _ refl) [
  | inl (res, b) ↦ Booked-HasNoDebt arg _ res _ pay b h
  | inr same ↦ rw same h
]
