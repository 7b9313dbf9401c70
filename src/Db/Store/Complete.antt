-- ===== src/Db/Store/Complete.antt =====
-- A transfer that nothing stands against goes through.
use go2bank.Prelude.{
  ◌≡◌, refl, sym, ap, ◌∙◌, ◌≢◌, inl, inr, true, false, Option, some, List, [], ◌∷◌, arith, ltb,
  if◌then◌else◌, Bool-cases,
}
use go2bank.Prelude.Int.{ℤ, ◌+ℤ◌, ◌≤ℤ◌, ltb_ℤ}
use go2bank.Prelude.Word.{neg_int64, in_int64}
use go2bank.Db.Store.Going.{
  pure-Goes, add_money-Goes, Goes-bind, Goes, create_entry-Goes, create_transfer-Goes,
  read_funds-Goes,
}
use go2bank.Db.Error.{Error}
use go2bank.Db.Store.{
  check_funds, finish, begin, commit, TransferTxParams, book_transfer, move_money, exec_tx,
  transfer_tx, transfer_body,
}
use go2bank.Db.Account.Rows.{find_account}
use go2bank.Db.Model.{Tables, idle, Account, active, Db}
use go2bank.Db.Query.{is_failed, Query, ok}

-- What a transfer needs, beside a database that answers.
pub record IsPayable (arg : TransferTxParams) (t : Tables) : Type 0 where
  pub payer : Account
  pub payee : Account
  pub from_found : find_account arg.from_account_id t.accounts ≡ some payer
  pub to_found : find_account arg.to_account_id t.accounts ≡ some payee
  pub apart : arg.from_account_id ≢ arg.to_account_id
  pub covered : arg.from_amount ≤ℤ payer.balance
  pub payer_fits : in_int64 (payer.balance +ℤ neg_int64 arg.from_amount) ≡ true
  pub payee_fits : in_int64 (payee.balance +ℤ arg.to_amount) ≡ true

covered_lem : (v a : ℤ) → a ≤ℤ v → ltb_ℤ v a ≡ false
unfolding ltb_ℤ
covered_lem v a h = ground arith

module _ (arg : TransferTxParams) (t : Tables) (p : IsPayable arg t) where
  move_money-Goes :
      (db : Db)
      → db.faults ≡ []
      → db.tx ≡ active
      → db.accounts ≡ t.accounts
      → Goes (move_money arg) db (λ _ _. Unit)
  unfolding move_money
  move_money-Goes db clear live same =
      elim (Bool-cases (ltb arg.from_account_id arg.to_account_id)) [
        | inl e ↦
            rw (e, if◌then◌else◌)
              (add_money-Goes _ _ _ _ p.payer p.payee db clear live (λ h. p.apart (sym h))
                (rw same p.from_found) (rw same p.to_found) p.payer_fits p.payee_fits)
        | inr e ↦
            rw (e, if◌then◌else◌)
              (Goes-bind _ _ db
                (add_money-Goes _ _ _ _ p.payee p.payer db clear live p.apart (rw same p.to_found)
                  (rw same p.from_found) p.payee_fits p.payer_fits)
                λ both last c l _. pure-Goes _ last c l)
      ]

  book_transfer-Goes :
      (db : Db)
      → db.faults ≡ []
      → db.tx ≡ active
      → db.accounts ≡ t.accounts
      → Goes (book_transfer arg) db (λ _ _. Unit)
  unfolding book_transfer
  book_transfer-Goes db clear live same =
      Goes-bind _ _ db
        (create_transfer-Goes db clear live _ p.payer p.payee (rw same p.from_found)
          (rw same p.to_found))
        λ transfer d1 c1 l1 e1.
          Goes-bind _ _ d1 (create_entry-Goes d1 c1 l1 _ p.payer (rw (e1 ∙ same) p.from_found))
            λ from_entry d2 c2 l2 e2.
              Goes-bind _ _ d2
                (create_entry-Goes d2 c2 l2 _ p.payee (rw (e2 ∙ e1 ∙ same) p.to_found))
                λ to_entry d3 c3 l3 e3.
                  Goes-bind _ _ d3 (move_money-Goes d3 c3 l3 (e3 ∙ e2 ∙ e1 ∙ same))
                    λ both d4 c4 l4 _. pure-Goes _ d4 c4 l4

  check_funds-Goes :
      (db : Db)
      → db.faults ≡ []
      → db.tx ≡ active
      → db.accounts ≡ t.accounts
      → Goes (check_funds arg) db (λ _ after. after.accounts ≡ t.accounts)
  unfolding check_funds
  check_funds-Goes db clear live same =
      Goes-bind _ _ db
        (read_funds-Goes db clear live arg.from_account_id p.payer (rw same p.from_found))
        λ funds mid c l e.
          let enough : ltb_ℤ funds arg.from_amount ≡ false =
            rw e.0 (covered_lem p.payer.balance arg.from_amount p.covered) in
          rw (enough, if◌then◌else◌)
            (record {
              result = tt;
              after = mid;
              ran = refl;
              clear = c;
              live = l;
              post = e.1 ∙ same;
            })

  transfer_body-Goes :
      (db : Db)
      → db.faults ≡ []
      → db.tx ≡ active
      → db.accounts ≡ t.accounts
      → Goes (transfer_body arg) db (λ _ _. Unit)
  unfolding transfer_body
  transfer_body-Goes db clear live same =
      Goes-bind _ _ db (check_funds-Goes db clear live same)
        λ _ mid c l e. book_transfer-Goes mid c l e

commit-ok :
    {A : Type 0} (saved : Tables) (a : A) (fs : List (Option Error)) (d : Db)
    → fs ≡ []
    → (commit saved a fs d).0 ≡ ok a
unfolding commit
commit-ok saved a [] d e = refl
commit-ok saved a (f ∷ fs) d e = cc

finish-ok :
    {A : Type 0} (saved : Tables) (a : A) (d : Db)
    → d.faults ≡ []
    → d.tx ≡ active
    → (finish saved (ok a, d)).0 ≡ ok a
unfolding finish
finish-ok saved a d clear live =
    let e : is_failed d.tx ≡ false = ap is_failed live in
    rw (e, if◌then◌else◌) (commit-ok saved a d.faults d clear)

begin-ok :
    {A : Type 0} (fn : Query A) (db : Db) (a : A) (after : Db) (fs : List (Option Error))
    → fs ≡ []
    → after.faults ≡ []
    → after.tx ≡ active
    → fn (record db { tx = active }) ≡ (ok a, after)
    → (begin fs fn db).0 ≡ ok a
unfolding begin
begin-ok fn db a after [] e clear live h = rw h (finish-ok db.tables a after clear live)
begin-ok fn db a after (f ∷ fs) e clear live h = cc

abbrev pub Succeeds : {A : Type 0} → Query A → Db → Type 0
Succeeds {A} q db = (a : A) × ((q db).0 ≡ ok a)

-- A transfer between two accounts that exist and differ, covered by the balance of the first, with
-- new balances in the range of int64, and met by no fault, returns a result.
pub transfer_tx-Succeeds :
    (arg : TransferTxParams) (db : Db)
    → IsPayable arg db.tables
    → db.tx ≡ idle
    → db.faults ≡ []
    → Succeeds (transfer_tx arg) db
unfolding transfer_tx exec_tx
transfer_tx-Succeeds arg db p i clear =
    let g = transfer_body-Goes arg db.tables p (record db { tx = active }) clear refl refl in
    (
      g.result,
      begin-ok (transfer_body arg) db g.result g.after db.faults clear g.clear g.live g.ran,
    )
