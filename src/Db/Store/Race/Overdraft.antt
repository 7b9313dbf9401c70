-- ===== src/Db/Store/Race/Overdraft.antt =====
-- The check of the funds takes no lock, so two transfers may both pass it on one balance.
use go2bank.Prelude.{
  ℕ, ◌≡◌, refl, ap, subst, ◌≢◌, inl, inr, false, none, List, [], ◌∷◌, ◌++◌, arith, Option-cases,
}
use go2bank.Prelude.Int.{ℤ, pos, ◌+ℤ◌, neg, ◌≤ℤ◌, ◌<ℤ◌, ltb_ℤ, int_laws, +ℤ-zero}
use go2bank.Prelude.Word.{neg_int64_exact}
use go2bank.Db.Account.{answered, get_account}
use go2bank.Db.Query.{◌>>=◌ as bind}
use go2bank.Db.Query.Outcome.{statement-ok_of}
use go2bank.Db.Account.Rows.{find_account, balance}
use go2bank.Db.Model.{active, Db}
use go2bank.Db.Query.{Result, ok}
use go2bank.Db.Store.{
  read_funds, TransferTxParams, book_transfer, TransferTxResult, exec_tx, check_funds,
}
use go2bank.Db.Store.Ledger.{neg_fits}
use go2bank.Db.Store.Moving.{change}
use go2bank.Db.Store.Race.{
  AreFree, Checked, commits, not_yet, and_then, RaceStep, checks, at_rest, exec_tx-Entered,
  RaceReach, Payment,
}

-- Two payments from one account to other accounts, each covered by the balance, which together
-- exceed it.
pub record AreRivals (p q : Payment) (db : Db) : Type 0 where
  pub one_payer : q.arg.from_account_id ≡ p.arg.from_account_id
  pub away : p.arg.to_account_id ≢ p.arg.from_account_id
  pub away_too : q.arg.to_account_id ≢ p.arg.from_account_id
  pub covered : p.arg.from_amount ≤ℤ balance p.arg.from_account_id db.accounts
  pub covered_too : q.arg.from_amount ≤ℤ balance p.arg.from_account_id db.accounts
  pub exceed : balance p.arg.from_account_id db.accounts <ℤ p.arg.from_amount +ℤ q.arg.from_amount

-- What the check of a transfer begins with.
abbrev begun : Db → Db
begun db = record db { tx = active; locks = []; faults = [] }

not_short : (a b : ℤ) → a ≤ℤ b → ltb_ℤ b a ≡ false
unfolding ltb_ℤ
not_short a b h = ground arith

-- A check that is met by no fault, of an account that covers the amount, passes and locks nothing.
check_funds-passes :
    (arg : TransferTxParams) (db : Db)
    → find_account arg.from_account_id db.accounts ≢ none
    → arg.from_amount ≤ℤ balance arg.from_account_id db.accounts
    → check_funds arg (begun db) ≡ (ok tt, begun db)
unfolding check_funds read_funds get_account bind
check_funds-passes arg db known covered =
    elim (Option-cases (find_account arg.from_account_id db.accounts)) [
      | inl missing ↦ absurd (known missing)
      | inr (row, found) ↦
          let e =
            statement-ok_of (λ d. (answered (find_account arg.from_account_id d.accounts), d))
              (begun db) (begun db) row refl refl (rw found refl) in
          rw (e, not_short arg.from_amount row.balance (rw found at covered)) refl
    ]

-- What a payment that is booked takes from the account that pays.
payer-change :
    (p : Payment) (id : ℕ)
    → p.arg.from_account_id ≡ id
    → p.arg.to_account_id ≢ id
    → change p.arg id ≡ neg p.arg.from_amount
payer-change p id payer away = ground (
  arith,
  +ℤ-zero (neg p.arg.from_amount),
  neg_int64_exact p.arg.from_amount (neg_fits p.arg.from_amount p.pays.fits p.pays.pays),
)

-- A commit whose transaction went through, and ended in `last`.
commits_to :
    (before : List Checked) (p : Checked) (after : List Checked) (db last : Db)
    {res : TransferTxResult}
    → exec_tx (book_transfer p.arg) db ≡ (ok res, last)
    → AreFree (p.arg.from_account_id ∷ p.arg.to_account_id ∷ []) (before ++ after)
    → RaceStep
        (λ _ _. Unit)
        (record { db = db; checked = before ++ p ∷ after })
        (record { db = last; checked = before ++ after })
commits_to before p after db last h free =
    subst
      (λ d.
        RaceStep (λ _ _. Unit) (record { db = db; checked = before ++ p ∷ after })
          (record { db = d; checked = before ++ after }))
      (ap (λ (o : Result TransferTxResult × Db). o.1) h) (commits before p after refl free)

-- Two payments from one account to other accounts, each covered by its balance and together more
-- than it, whose bookings go through one after the other: the store lets both pass the check before
-- either commits, since the check locks no row, and their account ends below zero.
pub RaceReach-overdraws :
    (p q : Payment) (db mid last : Db) (res1 res2 : TransferTxResult)
    → AreRivals p q db
    → exec_tx (book_transfer p.arg) db ≡ (ok res1, mid)
    → exec_tx (book_transfer q.arg) mid ≡ (ok res2, last)
    → RaceReach (λ _ _. Unit) (at_rest db) (at_rest last)
      × (balance p.arg.from_account_id last.accounts <ℤ pos 0)
RaceReach-overdraws p q db mid last res1 res2 rivals h1 h2 = (run, below)
  where
    first : Checked
    first = record { payment = p; held = [] }

    second : Checked
    second = record { payment = q; held = [] }

    both_checked :
        RaceReach (λ _ _. Unit) (at_rest db) (record { db = db; checked = second ∷ first ∷ [] })
    both_checked =
        let known = (exec_tx-Entered p.arg db h1).from_known in
        and_then
          (and_then not_yet (
            checks p [] (begun db) tt (check_funds-passes p.arg db known rivals.covered) refl refl))
          (checks q [] (begun db) tt
            (check_funds-passes q.arg db (rw rivals.one_payer known)
              (rw rivals.one_payer rivals.covered_too))
            refl refl)

    run : RaceReach (λ _ _. Unit) (at_rest db) (at_rest last)
    run =
        and_then (and_then both_checked (commits_to (second ∷ []) first [] db mid h1 refl))
          (commits_to [] second [] mid last h2 refl)

    below : balance p.arg.from_account_id last.accounts <ℤ pos 0
    below =
        let payer = p.arg.from_account_id in
        let x = rivals.exceed in
        rw
          (
            (exec_tx-Entered q.arg mid h2).balances payer,
            payer-change q payer rivals.one_payer rivals.away_too,
            (exec_tx-Entered p.arg db h1).balances payer,
            payer-change p payer refl rivals.away,
          )
          (omega int_laws)
