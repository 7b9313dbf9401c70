-- ===== src/Db/Store/Atomic.antt =====
-- `execTx`: all or nothing, and what a transaction that was committed has run.
use go2bank.Prelude.{
  ◌≡◌, refl, ◌≢◌, inl, inr, Option, none, some, List, [], ◌∷◌, arith, if◌then◌else◌, Bool-cases,
}
use go2bank.Db.Error.{Error}
use go2bank.Db.Model.{Tables, idle, active, Db}
use go2bank.Db.Query.{Query, ok, is_failed, Result, err}
use go2bank.Db.Store.{begin, finish, roll_back, commit, exec_tx}

-- The closure ran in a transaction on the same tables, and its tables are the committed ones.
pub record Committed {A : Type 0} (fn : Query A) (db : Db) (a : A) (db' : Db) : Type 0 where
  pub start : Db
  pub last : Db
  pub same : start.tables ≡ db.tables
  pub in_tx : start.tx ≡ active
  pub ran : fn start ≡ (ok a, last)
  pub kept : db'.tables ≡ last.tables
  pub closed : db'.tx ≡ idle

roll_back-ne-ok :
    {A : Type 0} (saved : Tables) (e : Error) (fs : List (Option Error)) (db : Db) {a : A}
    {db' : Db}
    → roll_back saved e fs db ≢ (ok a, db')
unfolding roll_back
roll_back-ne-ok saved e [] db = cc
roll_back-ne-ok saved e (none ∷ fs) db = cc
roll_back-ne-ok saved e (some rb ∷ fs) db = cc

commit-ok :
    {A : Type 0} (saved : Tables) (x : A) (fs : List (Option Error)) (db : Db) {a : A} {db' : Db}
    → commit saved x fs db ≡ (ok a, db')
    → (x ≡ a) × (db'.tables ≡ db.tables) × (db'.tx ≡ idle)
unfolding commit
commit-ok saved x [] db h = ground arith
commit-ok saved x (none ∷ fs) db h = ground arith
commit-ok saved x (some e ∷ fs) db h = ground arith

finish-ok :
    {A : Type 0} (saved : Tables) (o : Result A × Db) {a : A} {db' : Db}
    → finish saved o ≡ (ok a, db')
    → (last : Db) × (o ≡ (ok a, last)) × (db'.tables ≡ last.tables) × (db'.tx ≡ idle)
unfolding finish
finish-ok saved (err e, db) h = absurd (roll_back-ne-ok saved e db.faults db h)
finish-ok saved (ok x, db) h = elim (Bool-cases (is_failed db.tx)) [
  | inl broke ↦ absurd (ground arith)
  | inr fine ↦
      let (e, kept, closed) = commit-ok saved x db.faults db (rw (fine, if◌then◌else◌) at h) in
      (db, rw e, kept, closed)
]

begin-ok :
    {A : Type 0} (fs : List (Option Error)) (fn : Query A) (db : Db) {a : A} {db' : Db}
    → begin fs fn db ≡ (ok a, db')
    → Committed fn db a db'
unfolding begin
begin-ok [] fn db h =
    let (last, ran, kept, closed) = finish-ok db.tables (fn (record db { tx = active })) h in
    record {
      start = _;
      last = last;
      same = refl;
      in_tx = refl;
      ran = ran;
      kept = kept;
      closed = closed;
    }
begin-ok (none ∷ fs) fn db h =
    let (last, ran, kept, closed) =
      finish-ok db.tables (fn (record db { tx = active; faults = fs })) h in
    record {
      start = _;
      last = last;
      same = refl;
      in_tx = refl;
      ran = ran;
      kept = kept;
      closed = closed;
    }
begin-ok (some e ∷ fs) fn db h = cc

pub exec_tx-Committed :
    {A : Type 0} (fn : Query A) (db : Db) {a : A} {db' : Db}
    → exec_tx fn db ≡ (ok a, db')
    → Committed fn db a db'
unfolding exec_tx
exec_tx-Committed fn db h = begin-ok db.faults fn db h

roll_back-tables :
    {A : Type 0} (saved : Tables) (e : Error) (fs : List (Option Error)) (db : Db) {o : Result A}
    {db' : Db}
    → roll_back saved e fs db ≡ (o, db')
    → db'.tables ≡ saved
unfolding roll_back
roll_back-tables saved e [] db h = ground arith
roll_back-tables saved e (none ∷ fs) db h = ground arith
roll_back-tables saved e (some rb ∷ fs) db h = ground arith

finish-err :
    {A : Type 0} (saved : Tables) (o : Result A × Db) {e : Error} {db' : Db}
    → finish saved o ≡ (err e, db')
    → db'.tables ≡ saved
unfolding finish commit
finish-err saved (err e', db) h = roll_back-tables saved e' db.faults db h
finish-err saved (ok x, db) h = ground arith

begin-err :
    {A : Type 0} (fs : List (Option Error)) (fn : Query A) (db : Db) {e : Error} {db' : Db}
    → begin fs fn db ≡ (err e, db')
    → db'.tables ≡ db.tables
unfolding begin
begin-err [] fn db h = finish-err db.tables (fn (record db { tx = active })) h
begin-err (none ∷ fs) fn db h = finish-err db.tables (fn (record db { tx = active; faults = fs })) h
begin-err (some e ∷ fs) fn db h = ground arith

-- A transaction that returns an error has left every table as it was, whatever the closure does,
-- wherever it fails, and also where the rollback or the commit fails.
pub exec_tx_atomic :
    {A : Type 0} (fn : Query A) (db : Db) (e : Error) (db' : Db)
    → exec_tx fn db ≡ (err e, db')
    → db'.tables ≡ db.tables
unfolding exec_tx
exec_tx_atomic fn db e db' h = begin-err db.faults fn db h
