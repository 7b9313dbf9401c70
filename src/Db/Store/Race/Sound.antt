-- ===== src/Db/Store/Race/Sound.antt =====
-- What every interleaving of transfers keeps, and what keeps the accounts out of debt.
use go2bank.Prelude.{
  ℕ, ◌+◌, ◌≡◌, inl, inr, Bool, true, false, List, [], ◌∷◌, ◌++◌, arith, ◌==◌, nat_eq, string_eq,
  if◌then◌else◌, Bool-cases, nat_beq_iff,
}
use go2bank.Prelude.Int.{ℤ, pos, pos_part, ◌+ℤ◌, neg, ◌≤ℤ◌, int_laws}
use go2bank.Prelude.Word.{neg_int64_exact}
use go2bank.Db.Store.{exec_tx, book_transfer}
use go2bank.Db.Account.Rows.{balance}
use go2bank.Db.Model.{Db}
use go2bank.Db.Store.Ledger.{HasNoDebt, neg_fits}
use go2bank.Db.Store.Race.{
  Checked, Bank, at_rest, Payment, goes_on, Rule, not_yet, check_funds-covered, RaceReach, and_then,
  commits, booked-cases, RaceStep, checks,
}
use go2bank.Db.Store.Runs.{Upkeep-Unmoved}

-- What the transfers that have passed the check are going to take from the account `id`.
unfoldable pub charge : ℕ → List Checked → ℕ
charge id [] = 0
charge id (p ∷ ps) =
    (if p.arg.from_account_id == id then pos_part p.arg.from_amount else 0) + charge id ps

charge-append :
    (id : ℕ) (before : List Checked) (p : Checked) (after : List Checked)
    → charge id (before ++ p ∷ after) ≡ charge id (p ∷ []) + charge id (before ++ after)
unfolding charge
charge-append id [] p after = omega arith
charge-append id (q ∷ before) p after = omega (arith, charge-append id before p after)

-- No other transfer from the same account has passed the check and is still to commit.
abbrev pub IsAlone : Rule
IsAlone b p = charge p.arg.from_account_id b.checked ≡ 0

abbrev IsCovered : Bank → Type 0
IsCovered b = (id : ℕ) → pos (charge id b.checked) ≤ℤ balance id b.db.accounts

-- A booking lowers a balance by no more than it lowers the charge.
covered_after :
    (v a y : ℤ) (rest : ℕ) (mine theirs : Bool)
    → pos 0 ≤ℤ a
    → pos 0 ≤ℤ y
    → pos ((if mine then pos_part a else 0) + 0 + rest) ≤ℤ v
    → pos rest ≤ℤ v +ℤ ((if mine then neg a else pos 0) +ℤ (if theirs then y else pos 0))
covered_after v a y rest true true ha hy c = omega int_laws
covered_after v a y rest true false ha hy c = omega int_laws
covered_after v a y rest false true ha hy c = omega int_laws
covered_after v a y rest false false ha hy c = omega int_laws

IsCovered-commit :
    (before : List Checked) (p : Checked) (after : List Checked) (b : Bank)
    → b.checked ≡ before ++ p ∷ after
    → IsCovered b
    → IsCovered (record { db = (exec_tx (book_transfer p.arg) b.db).1; checked = before ++ after })
unfolding charge
IsCovered-commit before p after b e h id =
    let all = rw (e, charge-append id before p after) at (h id) in
    elim (booked-cases p.arg b.db) [
      | inl (res, entered) ↦
          rw
            (
              entered.balances id,
              neg_int64_exact p.arg.from_amount
                  (neg_fits p.arg.from_amount p.pays.fits p.pays.pays),
            )
            (covered_after _ p.arg.from_amount p.arg.to_amount (charge id (before ++ after)) _ _
              p.pays.pays p.pays.brings all)
      | inr same ↦ rw same (omega (arith, all))
    ]

IsCovered-check :
    (p : Payment) (held : List ℕ) (b : Bank)
    → IsAlone b p
    → p.arg.from_amount ≤ℤ balance p.arg.from_account_id b.db.accounts
    → IsCovered b
    → IsCovered (record b { checked = record { payment = p; held = held } ∷ b.checked })
unfolding charge
IsCovered-check p held b alone covered h id = elim (Bool-cases (p.arg.from_account_id == id)) [
  | inl mine ↦
      let same : p.arg.from_account_id ≡ id = (nat_beq_iff _ _).0 mine in
      let pays = p.pays.pays in
      rw (mine, if◌then◌else◌) (ground (arith, rw same at alone, rw same at covered))
  | inr other ↦ rw (other, if◌then◌else◌) (omega (arith, h id))
]

IsCovered-step : {b b' : Bank} → RaceStep IsAlone b b' → IsCovered b → IsCovered b'
IsCovered-step {b} (checks p faults last alone ran live free) h =
    IsCovered-check p last.locks b alone (check_funds-covered p faults b.db last ran live) h
IsCovered-step {b} (commits before p after e free) h = IsCovered-commit before p after b e h
IsCovered-step (goes_on step) h = λ id. rw ((Upkeep-Unmoved step).balances id) (h id)

IsCovered-reach : {b b' : Bank} → RaceReach IsAlone b b' → IsCovered b → IsCovered b'
IsCovered-reach not_yet h = h
IsCovered-reach (and_then r step) h = IsCovered-step step (IsCovered-reach r h)

-- Where no transfer is checked while another one from the same account is still to commit, no
-- interleaving of transfers whose two amounts are not negative takes an account below zero. The
-- handler does not check the second amount, which a conversion that overflows can make negative.
pub RaceReach-HasNoDebt :
    {db : Db} {b : Bank}
    → RaceReach IsAlone (at_rest db) b
    → HasNoDebt db.tables
    → HasNoDebt b.db.tables
unfolding charge
RaceReach-HasNoDebt r h = λ id. let c = IsCovered-reach r h id in omega (arith, c)
