-- ===== src/Db/Store/Moving.antt =====
-- The two balance updates of a transfer, read as one change of the balances.
use go2bank.Prelude.{
  ℕ, ◌≡◌, ap, ◌∙◌, inl, inr, Option, some, List, arith, ltb, ◌==◌, nat_eq, string_eq, if◌then◌else◌,
  Bool-cases,
}
use go2bank.Prelude.Int.{ℤ, pos, ◌+ℤ◌, +ℤ-zero, +ℤ_assoc, +ℤ_comm}
use go2bank.Prelude.Word.{neg_int64}
use go2bank.Db.Query.{bind-ok, Result, ok}
use mathlib.Core.Option
use go2bank.Db.Model.{Db, Account, Tables}
use go2bank.Db.Account.Rows.{
  find_account, replace_account, balance, find_account-replace_self, find_account-replace_ne,
  find_account-id,
}
use go2bank.Db.Account.{AddAccountBalanceParams}
use go2bank.Db.Store.{TransferTxParams, add_money, move_money}
use go2bank.Db.Store.Effects.{add_account_balance-BalanceAdded, BalanceAdded}

-- `amount` at the account `k`, nothing elsewhere.
abbrev pub at_account : ℕ → ℤ → ℕ → ℤ
at_account k amount id = if k == id then amount else pos 0

-- An account without its balance.
abbrev pub holder : Account → Account
holder row = record row { balance = pos 0 }

abbrev pub holder_of : ℕ → List Account → Option Account
holder_of id rows = Option.map holder (find_account id rows)

-- The balances have changed by `change`, and nothing else has.
pub record Moved (change : ℕ → ℤ) (t t' : Tables) : Type 0 where
  pub balances : (id : ℕ) → balance id t'.accounts ≡ balance id t.accounts +ℤ change id
  pub holders : (id : ℕ) → holder_of id t'.accounts ≡ holder_of id t.accounts
  pub others : t' ≡ record t { accounts = t'.accounts }

find-replace :
    (id : ℕ) (row old : Account) (rows : List Account)
    → find_account row.id rows ≡ some old
    → find_account id (replace_account row rows)
      ≡ (if row.id == id then some row else find_account id rows)
find-replace id row old rows h = elim (Bool-cases (row.id == id)) [
  | inl same ↦ ground (arith, find_account-replace_self row old rows h)
  | inr other ↦ ground (arith, find_account-replace_ne id row rows)
]

module _ (id k : ℕ) (amount : ℤ) (row old : Account) (rows : List Account)
    (found : find_account k rows ≡ some old)
    (row_is : row ≡ record old { balance = old.balance +ℤ amount }) where
  key : row.id ≡ k
  key = ground (arith, find_account-id k old rows found)

  found_after :
      find_account id (replace_account row rows)
      ≡ (if k == id then some row else find_account id rows)
  found_after = rw (← key) (find-replace id row old rows (rw key found))

  pub balance-replace :
      balance id (replace_account row rows) ≡ balance id rows +ℤ at_account k amount id
  balance-replace = rw found_after (ground (arith, +ℤ-zero (balance id rows)))

  pub holder_of-replace : holder_of id (replace_account row rows) ≡ holder_of id rows
  holder_of-replace = rw found_after (ground arith)

pub BalanceAdded-Moved :
    (arg : AddAccountBalanceParams) (t : Tables) (row : Account) (t' : Tables)
    → BalanceAdded arg t row t'
    → Moved (at_account arg.id arg.amount) t t'
BalanceAdded-Moved arg t row t' h = record {
  balances = λ id.
      rw h.written (balance-replace id arg.id arg.amount row h.old t.accounts h.found h.row_is);
  holders = λ id.
      rw h.written (holder_of-replace id arg.id arg.amount row h.old t.accounts h.found h.row_is);
  others = rw h.written;
}

Moved-trans :
    {f g : ℕ → ℤ} {t u v : Tables} → Moved f t u → Moved g u v → Moved (λ id. f id +ℤ g id) t v
Moved-trans {f} {g} {t} {u} {v} m n = record {
  balances =
      λ id. rw (n.balances id, m.balances id) (+ℤ_assoc (balance id t.accounts) (f id) (g id));
  holders = λ id. n.holders id ∙ m.holders id;
  others = n.others ∙ ap (λ (w : Tables). record w { accounts = v.accounts }) m.others;
}

add_money-Moved :
    (k : ℕ) (x : ℤ) (j : ℕ) (y : ℤ) (db : Db) {both : Account × Account} {db' : Db}
    → add_money k x j y db ≡ (ok both, db')
    → Moved (λ id. at_account k x id +ℤ at_account j y id) db.tables db'.tables
unfolding add_money
add_money-Moved k x j y db h =
    let (a, mid, first, h1) = bind-ok _ _ db h in
    let (b, last, second, h2) = bind-ok _ _ mid h1 in
    let same : last.tables ≡ _ = ap (λ (r : Result (Account × Account) × Db). r.1.tables) h2 in
    rw (← same) (
      Moved-trans (BalanceAdded-Moved _ _ a _ (add_account_balance-BalanceAdded _ db first))
        (BalanceAdded-Moved _ _ b _ (add_account_balance-BalanceAdded _ mid second)))

-- What a transfer does to the balance of the account `id`.
abbrev pub change : TransferTxParams → ℕ → ℤ
change arg id =
    at_account arg.from_account_id (neg_int64 arg.from_amount) id
    +ℤ at_account arg.to_account_id arg.to_amount id

Moved-change :
    {f g : ℕ → ℤ} {t t' : Tables} → ((id : ℕ) → f id ≡ g id) → Moved f t t' → Moved g t t'
Moved-change e m = record {
  balances = λ id. rw (← e id) (m.balances id);
  holders = m.holders;
  others = m.others;
}

pub move_money-Moved :
    (arg : TransferTxParams) (db : Db) {both : Account × Account} {db' : Db}
    → move_money arg db ≡ (ok both, db')
    → Moved (change arg) db.tables db'.tables
unfolding move_money
move_money-Moved arg db h = elim (Bool-cases (ltb arg.from_account_id arg.to_account_id)) [
  | inl e ↦ add_money-Moved _ _ _ _ db (rw (e, if◌then◌else◌) at h)
  | inr e ↦
      let (both', mid, moved, h1) = bind-ok _ _ db (rw (e, if◌then◌else◌) at h) in
      let same : mid.tables ≡ _ = ap (λ (r : Result (Account × Account) × Db). r.1.tables) h1 in
      rw (← same) (
        Moved-change (λ id. +ℤ_comm (at_account arg.to_account_id arg.to_amount id) _)
          (add_money-Moved _ _ _ _ db moved))
]
