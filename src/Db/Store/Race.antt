-- ===== src/Db/Store/Race.antt =====
-- Transfers that overlap. A transfer falls into two parts, between which other transfers may commit:
-- the check of the funds, on what was committed by then, and the bookings. A transfer keeps the
-- locks that its check has taken until it commits, and neither part gets past a row that another
-- transfer has locked. The bookings stand as one step, at the commit, on the balances as they are
-- then: an update adds to its row as it stands, and locks it until the commit, so that of two
-- transfers that update one row the later one waits for the commit of the first and goes on from
-- there. This is taken from the database and not derived here, and so are the ids in that order.
pub mod Sound
pub mod Overdraft
mod Tests
use go2bank.Prelude.{
  ℕ, ◌*◌, ◌≡◌, refl, sym, subst, ◌⊎◌, inl, inr, false, Option, List, [], ◌∷◌, ◌++◌, ◌==◌, nat_eq,
  string_eq, any,
}
use go2bank.Prelude.Int.{◌≤ℤ◌}
use go2bank.Db.Store.Ledger.{IsPayment}
use go2bank.Db.Account.Rows.{balance}
use go2bank.Db.Error.{Error}
use go2bank.Db.Model.{active, Db}
use go2bank.Db.Query.{Result, err, ok}
use go2bank.Db.Store.{book_transfer, check_funds, exec_tx, TransferTxParams, TransferTxResult}
use go2bank.Db.Store.Atomic.{exec_tx-Committed, exec_tx_atomic}
use go2bank.Db.Store.Booking.{book_transfer-Entered, check_funds-ok, Entered}
use go2bank.Db.Store.Runs.{Upkeep}

-- A transfer whose amounts are not negative.
pub record Payment : Type 0 where
  pub arg : TransferTxParams
  pub pays : IsPayment arg

-- A transfer that has passed the check, with the rows that the check has locked.
pub record Checked : Type 0 where
  pub payment : Payment
  pub open payment use *
  pub held : List ℕ

-- None of these rows is locked by one of these transfers.
abbrev pub AreFree : List ℕ → List Checked → Type 0
AreFree ids others = any (λ id. any (λ c. any (λ m. m == id) c.held) others) ids ≡ false

-- The committed tables, and the transfers that have passed the check and are still to commit.
pub record Bank : Type 0 where
  pub db : Db
  pub checked : List Checked

abbrev pub at_rest : Db → Bank
at_rest db = record { db = db; checked = [] }

-- What `checks` needs of the transactions under way, beside the funds.
abbrev pub Rule : Type 1
Rule = Bank → Payment → Type 0

-- One part of one transfer, with any faults, or a call of the store that moves no money.
pub data RaceStep (May : Rule) (b : Bank) : Bank → Type 0 where
  checks :
      (p : Payment) (faults : List (Option Error)) (last : Db)
      → May b p
      → check_funds p.arg (record b.db { tx = active; locks = []; faults = faults }) ≡ (ok tt, last)
      → last.tx ≡ active
      → AreFree last.locks b.checked
      → RaceStep May b
          (record b { checked = record { payment = p; held = last.locks } ∷ b.checked })
  commits :
      (before : List Checked) (p : Checked) (after : List Checked)
      → b.checked ≡ before ++ p ∷ after
      → AreFree (p.arg.from_account_id ∷ p.arg.to_account_id ∷ []) (before ++ after)
      → RaceStep May b
          (record { db = (exec_tx (book_transfer p.arg) b.db).1; checked = before ++ after })
  goes_on : {db : Db} → Upkeep b.db db → RaceStep May b (record b { db = db })

pub data RaceReach (May : Rule) (b : Bank) : Bank → Type 0 where
  not_yet : RaceReach May b b
  and_then : {mid last : Bank} → RaceReach May b mid → RaceStep May mid last → RaceReach May b last

-- What the check of a live transaction has seen.
pub check_funds-covered :
    (p : Payment) (faults : List (Option Error)) (db last : Db)
    → check_funds p.arg (record db { tx = active; locks = []; faults = faults }) ≡ (ok tt, last)
    → last.tx ≡ active
    → p.arg.from_amount ≤ℤ balance p.arg.from_account_id db.accounts
check_funds-covered p faults db last h live =
    let (_, seen) = check_funds-ok p.arg _ refl h in
    elim seen [ inl covered ↦ covered | inr broke ↦ absurd (cc) ]

pub exec_tx-Entered :
    (arg : TransferTxParams) (db : Db) {res : TransferTxResult} {last : Db}
    → exec_tx (book_transfer arg) db ≡ (ok res, last)
    → Entered arg db.tables res last.tables
exec_tx-Entered arg db {res} {last} h =
    let c = exec_tx-Committed (book_transfer arg) db h in
    subst (λ t. Entered arg t res last.tables) c.same
      (subst (λ u. Entered arg c.start.tables res u) (sym c.kept)
        (book_transfer-Entered arg c.start c.ran))

-- A commit has entered the transfer on the balances of its time, or has left every table.
pub booked-cases :
    (arg : TransferTxParams) (db : Db)
    → let t' = (exec_tx (book_transfer arg) db).1.tables in
      ((res : TransferTxResult) × Entered arg db.tables res t') ⊎ (t' ≡ db.tables)
booked-cases arg db = by_end _ refl
  where
    by_end :
        (o : Result TransferTxResult × Db)
        → exec_tx (book_transfer arg) db ≡ o
        → ((res : TransferTxResult) × Entered arg db.tables res o.1.tables)
          ⊎ (o.1.tables ≡ db.tables)
    by_end (ok res, last) h = inl (res, exec_tx-Entered arg db h)
    by_end (err e, last) h = inr (exec_tx_atomic (book_transfer arg) db e last h)
