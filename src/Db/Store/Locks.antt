-- ===== src/Db/Store/Locks.antt =====
-- The row locks of transfers that run at once. An update of a balance locks the row of its account
-- until the transaction ends, and waits while another transaction holds that lock. `TransferTx`
-- updates the account of the lower id first. (Its inserts only take key-share locks on the accounts,
-- which the updates do not conflict with.)
pub mod Choice
pub mod Progress
mod Tests
use go2bank.Prelude.{
  ℕ, ◌+◌, ◌≤◌, ◌≡◌, refl, sym, inl, inr, Bool, true, false, not, ◌||◌, List, ◌∷◌, ◌++◌, arith, ltb,
  ◌==◌, nat_eq, string_eq, if◌then◌else◌, Bool-cases, any,
}
use go2bank.Prelude.Int.{ℤ}
use go2bank.Prelude.Word.{neg_int64}
use go2bank.Db.Model.{Db, Account}
use go2bank.Db.Query.{ok, continue, pure, Result, err, Query, ◌>>=◌}
use go2bank.Db.Store.{swap, TransferTxParams, move_money, add_money}

-- The accounts of a transfer in the order of its updates: `arg.FromAccountID < arg.ToAccountID`.
unfoldable pub first_locked : TransferTxParams → ℕ
first_locked arg =
    if ltb arg.from_account_id arg.to_account_id then arg.from_account_id else arg.to_account_id

unfoldable pub second_locked : TransferTxParams → ℕ
second_locked arg =
    if ltb arg.from_account_id arg.to_account_id then arg.to_account_id else arg.from_account_id

abbrev first_amount : TransferTxParams → ℤ
first_amount arg =
    if ltb arg.from_account_id arg.to_account_id then neg_int64 arg.from_amount else arg.to_amount

abbrev second_amount : TransferTxParams → ℤ
second_amount arg =
    if ltb arg.from_account_id arg.to_account_id then arg.to_amount else neg_int64 arg.from_amount

abbrev from_then_to : TransferTxParams → Account × Account → Account × Account
from_then_to arg both = if ltb arg.from_account_id arg.to_account_id then both else swap both

continue-pure : {A : Type 0} (o : Result A × Db) → continue o.0 pure o.1 ≡ o
continue-pure (ok a, db) = refl
continue-pure (err e, db) = refl

bind-pure : {A : Type 0} (m : Query A) (db : Db) → (m >>= pure) db ≡ m db
unfolding ◌>>=◌
bind-pure m db = continue-pure (m db)

pub first-le-second : (arg : TransferTxParams) → first_locked arg ≤ second_locked arg
unfolding first_locked second_locked
first-le-second arg = ground arith

-- The two updates of a transfer are those of `addMoney` in the order of the ids, and never the
-- other way round, whichever account pays.
pub move_money-order :
    (arg : TransferTxParams) (db : Db)
    → (move_money arg db
        ≡ (add_money (first_locked arg) (first_amount arg) (second_locked arg) (second_amount arg)
              >>= λ both. pure (from_then_to arg both))
            db)
      × (first_locked arg ≤ second_locked arg)
unfolding move_money first_locked second_locked
move_money-order arg db = elim (Bool-cases (ltb arg.from_account_id arg.to_account_id)) [
  | inl e ↦ (rw (e, if◌then◌else◌) (sym (bind-pure _ db)), first-le-second arg)
  | inr e ↦ (rw (e, if◌then◌else◌) refl, first-le-second arg)
]

pub data Phase : Type 0 where
  waits_first waits_second updated ended : Phase

-- A transaction of a transfer, by how far its updates have come.
pub record Txn : Type 0 where
  pub arg : TransferTxParams
  pub phase : Phase

abbrev pub is_ended : Phase → Bool
is_ended ended = true
is_ended _ = false

abbrev pub is_updated : Phase → Bool
is_updated updated = true
is_updated _ = false

abbrev pub is_second : Phase → Bool
is_second waits_second = true
is_second _ = false

abbrev pub is_first : Phase → Bool
is_first waits_first = true
is_first _ = false

abbrev pub held : Phase → ℕ → ℕ → ℕ → Bool
held waits_first one two id = false
held waits_second one two id = one == id
held updated one two id = one == id || two == id
held ended one two id = false

abbrev pub holds : ℕ → Txn → Bool
holds id t = held t.phase (first_locked t.arg) (second_locked t.arg) id

-- The lock is its own, or no other transaction has it.
abbrev pub may_lock : Txn → ℕ → List Txn → Bool
may_lock t id others = if holds id t then true else not (any (holds id) others)

pub data LockStep (ts : List Txn) : List Txn → Type 0 where
  locks_first :
      (before : List Txn) (t : Txn) (after : List Txn)
      → ts ≡ before ++ t ∷ after
      → t.phase ≡ waits_first
      → may_lock t (first_locked t.arg) (before ++ after) ≡ true
      → LockStep ts (before ++ record t { phase = waits_second } ∷ after)
  locks_second :
      (before : List Txn) (t : Txn) (after : List Txn)
      → ts ≡ before ++ t ∷ after
      → t.phase ≡ waits_second
      → may_lock t (second_locked t.arg) (before ++ after) ≡ true
      → LockStep ts (before ++ record t { phase = updated } ∷ after)
  ends :
      (before : List Txn) (t : Txn) (after : List Txn)
      → ts ≡ before ++ t ∷ after
      → t.phase ≡ updated
      → LockStep ts (before ++ record t { phase = ended } ∷ after)

-- A run of `n` steps.
pub data LockRun (ts : List Txn) : ℕ → List Txn → Type 0 where
  stays : LockRun ts 0 ts
  moves :
      {n : ℕ} {mid last : List Txn} → LockRun ts n mid → LockStep mid last → LockRun ts (n + 1) last
