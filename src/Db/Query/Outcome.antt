-- ===== src/Db/Query/Outcome.antt =====
-- A statement that leaves the tables where it fails.
use go2bank.Prelude.{
  ◌≡◌, refl, ap, inl, inr, false, Option, none, some, List, [], ◌∷◌, if◌then◌else◌, Bool-cases,
}
use go2bank.Db.Error.{
  invalid_request, insufficient_balance, currency_mismatch, message, Error, tx_error, no_rows,
  pg_error,
}
use go2bank.Db.Model.{active, Db, Tables}
use go2bank.Db.Query.{statement, err, Query, Result, settle, ok, attempt, is_failed}

-- What an end says of the tables: none changed, or what `Good` says of the answer.
abbrev pub Settles : {A : Type 0} → (Tables → A → Tables → Type 0) → Tables → Result A × Db → Type 0
Settles Good t (ok a, db) = Good t a db.tables
Settles Good t (err e, db) = db.tables ≡ t

module _ {A : Type 0} (Good : Tables → A → Tables → Type 0) (body : Query A)
    (settles : (d : Db) → Settles Good d.tables (body d)) where
  settle-Settles : (t : Tables) (o : Result A × Db) → Settles Good t o → Settles Good t (settle o)
  unfolding settle
  settle-Settles t (ok a, d) h = h
  settle-Settles t (err no_rows, d) h = h
  settle-Settles t (err insufficient_balance, d) h = h
  settle-Settles t (err invalid_request, d) h = h
  settle-Settles t (err (pg_error _), d) h = h
  settle-Settles t (err (message _), d) h = h
  settle-Settles t (err (tx_error _ _), d) h = h
  settle-Settles t (err (currency_mismatch _ _ _), d) h = h

  attempt-Settles :
      (fs : List (Option Error)) (db : Db) → Settles Good db.tables (attempt fs body db)
  unfolding attempt
  attempt-Settles [] db = settle-Settles db.tables (body db) (settles db)
  attempt-Settles (none ∷ fs) db =
      settle-Settles db.tables (body (record db { faults = fs }))
        (settles (record db { faults = fs }))
  attempt-Settles (some e ∷ fs) db = refl

  pub statement-Settles : (db : Db) → Settles Good db.tables (statement body db)
  unfolding statement
  statement-Settles db = elim (Bool-cases (is_failed db.tx)) [
    | inl e ↦ rw (e, if◌then◌else◌) refl
    | inr e ↦ rw (e, if◌then◌else◌) (attempt-Settles db.faults db)
  ]

attempt-ok_of :
    {A : Type 0} (body : Query A) (db after : Db) (a : A) (fs : List (Option Error))
    → fs ≡ []
    → body db ≡ (ok a, after)
    → attempt fs body db ≡ (ok a, after)
unfolding attempt settle
attempt-ok_of body db after a [] e h = ap settle h
attempt-ok_of body db after a (f ∷ fs) e h = cc

-- A statement that no fault meets, in an open transaction.
pub statement-ok_of :
    {A : Type 0} (body : Query A) (db after : Db) (a : A)
    → db.faults ≡ []
    → db.tx ≡ active
    → body db ≡ (ok a, after)
    → statement body db ≡ (ok a, after)
unfolding statement
statement-ok_of body db after a clear live h =
    let e : is_failed db.tx ≡ false = ap is_failed live in
    rw e (attempt-ok_of body db after a db.faults clear h)
