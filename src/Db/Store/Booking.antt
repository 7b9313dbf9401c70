-- ===== src/Db/Store/Booking.antt =====
-- A transfer that goes through, from the check of the funds to the commit.
use go2bank.Prelude.{
  ℕ, ◌≡◌, sym, subst, ◌≢◌, ◌⊎◌, inl, inr, none, [], ◌∷◌, ◌++◌, arith, if◌then◌else◌, Bool-cases,
  Option-cases,
}
use go2bank.Prelude.Int.{ℤ, ◌+ℤ◌, ◌≤ℤ◌, ltb_ℤ, ltb_ℤ-eq-false}
use go2bank.Prelude.Word.{neg_int64}
use go2bank.Db.Store.Fitting.{move_money-Fits, Fits}
use go2bank.Db.Store.Atomic.{exec_tx-Committed}
use go2bank.Db.Transfer.{create_transfer}
use go2bank.Db.Account.{get_account-HasRead}
use go2bank.Db.Account.Rows.{balance, find_account}
use go2bank.Db.Model.{failed, active, Tables, Db}
use go2bank.Db.Store.{
  check_funds, transfer_tx, transfer_body, read_funds, TransferTxParams, TransferTxResult,
  book_transfer,
}
use go2bank.Db.Store.Effects.{
  EntryAdded, TransferAdded, create_transfer-TransferAdded, create_entry-EntryAdded,
}
use go2bank.Db.Store.Moving.{Moved, holder_of, move_money-Moved, change}
use go2bank.Db.Query.{statement_of_failed, ok-injective, bind_ok_rec, ok}

-- What the booking of a transfer has done. An amount leaves the one account and an amount comes to
-- the other; a transfer and two entries say so; no other table changes.
pub record Entered (arg : TransferTxParams) (t : Tables) (res : TransferTxResult) (t' : Tables)
    : Type 0 where
  pub from_known : find_account arg.from_account_id t.accounts ≢ none
  pub to_known : find_account arg.to_account_id t.accounts ≢ none
  pub fits : arg.from_account_id ≢ arg.to_account_id → Fits arg t
  pub balances : (id : ℕ) → balance id t'.accounts ≡ balance id t.accounts +ℤ change arg id
  pub holders : (id : ℕ) → holder_of id t'.accounts ≡ holder_of id t.accounts
  pub transfers : t'.transfers ≡ t.transfers ++ res.transfer ∷ []
  pub transfer_from : res.transfer.from_account_id ≡ arg.from_account_id
  pub transfer_to : res.transfer.to_account_id ≡ arg.to_account_id
  pub transfer_amount : res.transfer.amount ≡ arg.from_amount
  pub entries : t'.entries ≡ (t.entries ++ res.from_entry ∷ []) ++ res.to_entry ∷ []
  pub from_entry_account : res.from_entry.account_id ≡ arg.from_account_id
  pub from_entry_amount : res.from_entry.amount ≡ neg_int64 arg.from_amount
  pub to_entry_account : res.to_entry.account_id ≡ arg.to_account_id
  pub to_entry_amount : res.to_entry.amount ≡ arg.to_amount
  pub users : t'.users ≡ t.users
  pub currencies : t'.currencies ≡ t.currencies

-- What a transfer that returned no error has done, after a check of the funds that has seen the
-- balance.
pub record Booked (arg : TransferTxParams) (t : Tables) (res : TransferTxResult) (t' : Tables)
    : Type 0 where
  pub covered : arg.from_amount ≤ℤ balance arg.from_account_id t.accounts
  pub entered : Entered arg t res t'
  pub open entered use *

module _ (arg : TransferTxParams) {t t1 t2 t3 t4 : Tables} (res : TransferTxResult)
    (step1 : TransferAdded
      (record {
        from_account_id = arg.from_account_id;
        to_account_id = arg.to_account_id;
        amount = arg.from_amount;
      })
      t
      res.transfer
      t1)
    (step2 : EntryAdded
      (record { account_id = arg.from_account_id; amount = neg_int64 arg.from_amount })
      t1
      res.from_entry
      t2)
    (step3 : EntryAdded
      (record { account_id = arg.to_account_id; amount = arg.to_amount })
      t2
      res.to_entry
      t3)
    (step4 : Moved (change arg) t3 t4)
    (in_range : arg.from_account_id ≢ arg.to_account_id → Fits arg t3) where
  same_accounts : t3.accounts ≡ t.accounts
  same_accounts = ground (arith, step1.added, step2.added, step3.added)

  Entered-steps : Entered arg t res t4
  Entered-steps = record {
    from_known = step1.from_known;
    to_known = step1.to_known;
    fits = λ apart. record {
      payer = rw (← same_accounts) (in_range apart).payer;
      payee = rw (← same_accounts) (in_range apart).payee;
    };
    balances = λ id. rw (← same_accounts) (step4.balances id);
    holders = λ id. rw (← same_accounts) (step4.holders id);
    transfers = ground (arith, step1.added, step2.added, step3.added, step4.others);
    transfer_from = step1.from;
    transfer_to = step1.to;
    transfer_amount = step1.amount;
    entries = ground (arith, step1.added, step2.added, step3.added, step4.others);
    from_entry_account = step2.account;
    from_entry_amount = step2.amount;
    to_entry_account = step3.account;
    to_entry_amount = step3.amount;
    users = ground (arith, step1.added, step2.added, step3.added, step4.others);
    currencies = ground (arith, step1.added, step2.added, step3.added, step4.others);
  }

pub book_transfer-Entered :
    (arg : TransferTxParams) (db : Db) {res : TransferTxResult} {db' : Db}
    → book_transfer arg db ≡ (ok res, db')
    → Entered arg db.tables res db'.tables
unfolding book_transfer
book_transfer-Entered arg db {res} {db'} h = bind_ok_rec _ _ db h λ transfer db1 h1 r1.
    bind_ok_rec _ _ db1 r1 λ from_entry db2 h2 r2. bind_ok_rec _ _ db2 r2 λ to_entry db3 h3 r3.
      bind_ok_rec _ _ db3 r3 λ both db4 h4 r4.
        let (e, e') = ok-injective r4 in
        rw (← e, ← e')
          (Entered-steps arg _ (create_transfer-TransferAdded _ db h1)
            (create_entry-EntryAdded _ db1 h2) (create_entry-EntryAdded _ db2 h3)
            (move_money-Moved arg db3 h4) (λ apart. move_money-Fits arg db3 apart h4))

-- The funds that the check sees are the balance, or the transaction has failed.
read_funds-ok :
    (id : ℕ) (db : Db) {funds : ℤ} {db' : Db}
    → db.tx ≡ active
    → read_funds id db ≡ (ok funds, db')
    → (db'.tables ≡ db.tables) × ((funds ≡ balance id db.accounts) ⊎ (db'.tx ≡ failed))
unfolding read_funds
read_funds-ok id db in_tx h =
    let g = get_account-HasRead id db (λ e. cc) in
    elim g.answered [
      | inl e ↦ elim (Option-cases (find_account id db.accounts)) [
        | inl missing ↦ ground arith
        | inr (row, found) ↦ ground arith
      ]
      | inr (e, broke, tx) ↦ ground (arith, g.same)
    ]

book_transfer-failed :
    (arg : TransferTxParams) (db : Db) {res : TransferTxResult} {db' : Db}
    → db.tx ≡ failed
    → book_transfer arg db ≢ (ok res, db')
unfolding book_transfer create_transfer
book_transfer-failed arg db broke h =
    bind_ok_rec _ _ db h λ transfer db1 h1 _. cc (statement_of_failed _ db broke, h1)

-- A check that passes has seen a balance that covers the amount, or the transaction has failed.
pub check_funds-ok :
    (arg : TransferTxParams) (db : Db) {db' : Db}
    → db.tx ≡ active
    → check_funds arg db ≡ (ok tt, db')
    → (db'.tables ≡ db.tables)
      × ((arg.from_amount ≤ℤ balance arg.from_account_id db.accounts) ⊎ (db'.tx ≡ failed))
unfolding check_funds
check_funds-ok arg db {db'} in_tx h = bind_ok_rec _ _ db h λ funds mid h1 r1.
    let (same, cases) = read_funds-ok arg.from_account_id db in_tx h1 in
    elim (Bool-cases (ltb_ℤ funds arg.from_amount)) [
      | inl short ↦ absurd (ground arith)
      | inr enough ↦
          let (_, e) = ok-injective (rw (enough, if◌then◌else◌) at r1) in
          rw (← e) (
            same,
            elim cases [
              | inl f ↦ inl (rw (← f) (ltb_ℤ-eq-false funds arg.from_amount enough))
              | inr broke ↦ inr broke
            ],
          )
    ]

transfer_body-Booked :
    (arg : TransferTxParams) (db : Db) {res : TransferTxResult} {db' : Db}
    → db.tx ≡ active
    → transfer_body arg db ≡ (ok res, db')
    → Booked arg db.tables res db'.tables
unfolding transfer_body
transfer_body-Booked arg db in_tx h = bind_ok_rec _ _ db h λ _ mid h1 r.
    let (same, cases) = check_funds-ok arg db in_tx h1 in
    elim cases [
      | inl covered ↦
          rw (← same)
            (record { covered = rw same covered; entered = book_transfer-Entered arg mid r })
      | inr broke ↦ absurd (book_transfer-failed arg mid broke r)
    ]

-- A transfer that goes through was covered by the balance of the first account, and both accounts
-- exist. Every balance has then changed by exactly the amount that leaves the first account and the
-- amount that comes to the second, the rows of the accounts are the same otherwise, one transfer
-- and two entries with these accounts and amounts have been added, and nothing else has changed.
pub transfer_tx-Booked :
    (arg : TransferTxParams) (db : Db) (res : TransferTxResult) (db' : Db)
    → transfer_tx arg db ≡ (ok res, db')
    → Booked arg db.tables res db'.tables
unfolding transfer_tx
transfer_tx-Booked arg db res db' h =
    let c = exec_tx-Committed (transfer_body arg) db h in
    subst (λ t. Booked arg t res db'.tables) c.same
      (subst (λ u. Booked arg c.start.tables res u) (sym c.kept)
        (transfer_body-Booked arg c.start c.in_tx c.ran))
