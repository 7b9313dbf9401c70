-- ===== src/Db/Query.antt =====
-- How a query of db/sqlc runs: one statement that the server answers with rows or an error.
-- A fault fails the statement before it does anything.
pub mod Outcome
use go2bank.Prelude.{
  ◌≡◌, refl, ◌≢◌, ◌⊎◌, inl, inr, Bool, true, false, Option, none, some, List, [], ◌∷◌, arith,
  if◌then◌else◌, Bool-cases,
}
use go2bank.Db.Error.{
  currency_mismatch, invalid_request, Error, no_rows, insufficient_balance, pg_error, message,
  tx_error,
}
use go2bank.Db.Model.{Tables, Db, TxState, idle, failed}

pub data Result (A : Type 0) : Type 0 where
  ok : A → Result A
  err : Error → Result A

abbrev pub Query : Type 0 → Type 0
Query A = Db → Result A × Db

abbrev pub pure : {A : Type 0} → A → Query A
pure a db = (ok a, db)

abbrev pub fail : {A : Type 0} → Error → Query A
fail e db = (err e, db)

abbrev pub continue : {A B : Type 0} → Result A → (A → Query B) → Query B
continue (ok a) f db = f a db
continue (err e) f db = (err e, db)

infixl 5 ◌>>=◌ ◌>>◌
-- Shut, so that a proof reads a block step by step; a test opens it.
unfoldable pub ◌>>=◌ : {A B : Type 0} → Query A → (A → Query B) → Query B
◌>>=◌ m f db = let (r, db') = m db in continue r f db'

abbrev pub ◌>>◌ : {A B : Type 0} → Query A → Query B → Query B
m >> k = m >>= λ _. k

abbrev pub is_failed : TxState → Bool
is_failed failed = true
is_failed _ = false

-- An error ends what a transaction can do.
abbrev pub broken : TxState → TxState
broken idle = idle
broken _ = failed

-- No row for `QueryRow` is the driver's finding, and no error of the server.
pub settle : {A : Type 0} → Result A × Db → Result A × Db
settle (ok a, db) = (ok a, db)
settle (err no_rows, db) = (err no_rows, db)
settle (err e, db) = (err e, record db { tx = broken db.tx })

pub attempt : {A : Type 0} → List (Option Error) → Query A → Query A
unfolding settle
attempt [] body db = settle (body db)
attempt (none ∷ fs) body db = settle (body (record db { faults = fs }))
attempt (some e ∷ fs) body db = (err e, record db { faults = fs; tx = broken db.tx })

-- One statement, whose effect on the tables is `body`.
unfoldable pub statement : {A : Type 0} → Query A → Query A
unfolding attempt
statement body db =
    if is_failed db.tx then (err (pg_error "25P02"), db) else attempt db.faults body db

-- What is left of a statement that went through: its body did, on the same tables.
pub record WentThrough {A : Type 0} (body : Query A) (db : Db) (a : A) (db' : Db) : Type 0 where
  pub faults : List (Option Error)
  pub ran : body (record db { faults = faults }) ≡ (ok a, db')

settle-ok :
    {A : Type 0} (o : Result A × Db) {a : A} {db' : Db} → settle o ≡ (ok a, db') → o ≡ (ok a, db')
unfolding settle
settle-ok (ok a, db) h = h
settle-ok (err no_rows, db) h = cc
settle-ok (err insufficient_balance, db) h = cc
settle-ok (err invalid_request, db) h = cc
settle-ok (err (pg_error _), db) h = cc
settle-ok (err (message _), db) h = cc
settle-ok (err (tx_error _ _), db) h = cc
settle-ok (err (currency_mismatch _ _ _), db) h = cc

attempt-ok :
    {A : Type 0} (fs : List (Option Error)) (body : Query A) (db : Db) {a : A} {db' : Db}
    → attempt fs body db ≡ (ok a, db')
    → db.faults ≡ fs
    → WentThrough body db a db'
unfolding attempt
attempt-ok [] body db h e = record { faults = []; ran = rw (← e) (settle-ok _ h) }
attempt-ok (none ∷ fs) body db h e = record { faults = fs; ran = settle-ok _ h }
attempt-ok (some _ ∷ fs) body db h e = cc

pub statement-ok :
    {A : Type 0} (body : Query A) (db : Db) {a : A} {db' : Db}
    → statement body db ≡ (ok a, db')
    → WentThrough body db a db'
unfolding statement
statement-ok body db h = elim (Bool-cases (is_failed db.tx)) [
  | inl e ↦ absurd (ground arith)
  | inr e ↦ attempt-ok db.faults body db (rw e at h) refl
]

continue-ok :
    {A B : Type 0} (o : Result A × Db) (f : A → Query B) {b : B} {db' : Db}
    → continue o.0 f o.1 ≡ (ok b, db')
    → (a : A) × (mid : Db) × (o ≡ (ok a, mid)) × (f a mid ≡ (ok b, db'))
continue-ok (ok a, mid) f h = (a, mid, refl, h)
continue-ok (err e, mid) f h = cc

-- Inversion of a block that went through.
pub bind-ok :
    {A B : Type 0} (m : Query A) (f : A → Query B) (db : Db) {b : B} {db' : Db}
    → (m >>= f) db ≡ (ok b, db')
    → (a : A) × (mid : Db) × (m db ≡ (ok a, mid)) × (f a mid ≡ (ok b, db'))
unfolding ◌>>=◌
bind-ok m f db h = continue-ok (m db) f h

-- The same, with what is left to prove in the scope of the step's result.
pub bind_ok_rec :
    {A B : Type 0} {P : Type 0} (m : Query A) (f : A → Query B) (db : Db) {b : B} {db' : Db}
    → (m >>= f) db ≡ (ok b, db')
    → ((a : A) (mid : Db) → m db ≡ (ok a, mid) → f a mid ≡ (ok b, db') → P)
    → P
bind_ok_rec m f db h k = let (a, mid, first, rest) = bind-ok m f db h in k a mid first rest

pub ok-injective :
    {A : Type 0} {a b : A} {db db' : Db}
    → ◌≡◌ {A = Result A × Db} (ok a, db) (ok b, db')
    → (a ≡ b) × (db ≡ db')
ok-injective h = (cc, cc)

-- A failed transaction refuses every statement.
pub statement_of_failed :
    {A : Type 0} (body : Query A) (db : Db)
    → db.tx ≡ failed
    → statement body db ≡ (err (pg_error "25P02"), db)
unfolding statement
statement_of_failed body db h = rw h

-- Where a query only reads, its statement leaves the tables, and answers as the query does, or a
-- fault has left a transaction failed.
pub record HasRead {A : Type 0} (answer : Result A) (db : Db) (o : Result A × Db) : Type 0 where
  pub same : o.1.tables ≡ db.tables
  pub tx : (o.1.tx ≡ db.tx) ⊎ (o.1.tx ≡ broken db.tx)
  pub answered : (o.0 ≡ answer) ⊎ ((e : Error) × (o.0 ≡ err e) × (o.1.tx ≡ broken db.tx))

is_failed_only : (t : TxState) → is_failed t ≡ true → t ≡ failed
is_failed_only t h = ground arith

settle-HasRead : {A : Type 0} (r : Result A) (db : Db) → HasRead r db (settle (r, db))
unfolding settle
settle-HasRead (ok a) db = record { same = refl; tx = inl refl; answered = inl refl }
settle-HasRead (err no_rows) db = record { same = refl; tx = inl refl; answered = inl refl }
settle-HasRead (err insufficient_balance) db = record {
  same = refl;
  tx = inr refl;
  answered = inl refl;
}
settle-HasRead (err invalid_request) db = record { same = refl; tx = inr refl; answered = inl refl }
settle-HasRead (err (pg_error _)) db = record { same = refl; tx = inr refl; answered = inl refl }
settle-HasRead (err (message _)) db = record { same = refl; tx = inr refl; answered = inl refl }
settle-HasRead (err (tx_error _ _)) db = record { same = refl; tx = inr refl; answered = inl refl }
settle-HasRead (err (currency_mismatch _ _ _)) db = record {
  same = refl;
  tx = inr refl;
  answered = inl refl;
}

module _ {A : Type 0} (r : Result A) (body : Query A) (db : Db)
    (reads : (fs : List (Option Error))
      → body (record db { faults = fs }) ≡ (r, record db { faults = fs })) where
  attempt-HasRead : (fs : List (Option Error)) → db.faults ≡ fs → HasRead r db (attempt fs body db)
  unfolding attempt
  attempt-HasRead [] e = rw (reads db.faults) (settle-HasRead r db)
  attempt-HasRead (none ∷ fs) e =
      let h = settle-HasRead r (record db { faults = fs }) in
      rw (reads fs) (record { same = h.same; tx = h.tx; answered = h.answered })
  attempt-HasRead (some e' ∷ fs) e = record {
    same = refl;
    tx = inr refl;
    answered = inr (e', refl, refl);
  }

  pub statement-HasRead : db.tx ≢ failed → HasRead r db (statement body db)
  unfolding statement
  statement-HasRead h = elim (Bool-cases (is_failed db.tx)) [
    | inl e ↦ absurd (h (is_failed_only db.tx e))
    | inr e ↦ rw (e, if◌then◌else◌) (attempt-HasRead db.faults refl)
  ]

-- What a query keeps of the tables, whatever it answers, its statement keeps.
module _ {A : Type 0} (P : Tables → Type 0) (body : Query A)
    (keeps : (d : Db) → P d.tables → P (body d).1.tables) where
  settle-keeps : (o : Result A × Db) → P o.1.tables → P (settle o).1.tables
  unfolding settle
  settle-keeps (ok a, d) h = h
  settle-keeps (err no_rows, d) h = h
  settle-keeps (err insufficient_balance, d) h = h
  settle-keeps (err invalid_request, d) h = h
  settle-keeps (err (pg_error _), d) h = h
  settle-keeps (err (message _), d) h = h
  settle-keeps (err (tx_error _ _), d) h = h
  settle-keeps (err (currency_mismatch _ _ _), d) h = h

  attempt-keeps :
      (fs : List (Option Error)) (db : Db) → P db.tables → P (attempt fs body db).1.tables
  unfolding attempt
  attempt-keeps [] db h = settle-keeps (body db) (keeps db h)
  attempt-keeps (none ∷ fs) db h =
      settle-keeps (body (record db { faults = fs })) (keeps (record db { faults = fs }) h)
  attempt-keeps (some e ∷ fs) db h = h

  pub statement-keeps : (db : Db) → P db.tables → P (statement body db).1.tables
  unfolding statement
  statement-keeps db h = elim (Bool-cases (is_failed db.tx)) [
    | inl e ↦ rw (e, if◌then◌else◌) h
    | inr e ↦ rw (e, if◌then◌else◌) (attempt-keeps db.faults db h)
  ]

pub Result-cases :
    {A : Type 0} (r : Result A) → ((e : Error) × (r ≡ err e)) ⊎ ((a : A) × (r ≡ ok a))
Result-cases (ok a) = inr (a, refl)
Result-cases (err e) = inl (e, refl)
