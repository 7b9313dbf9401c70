-- ===== src/Db/Store/Refines.antt =====
-- What a transfer does, seen on nothing but the balances of the accounts that exist.
use go2bank.Prelude.{
  ℕ, ◌≡◌, refl, sym, ap, ◌≢◌, inl, inr, Bool, true, false, ◌&&◌, Option, none, some, [], map, arith,
  if◌then◌else◌, Bool-cases,
}
use go2bank.Prelude.Int.{ℤ, ◌+ℤ◌, leb_ℤ, leb_ℤ_iff}
use go2bank.Prelude.Word.{neg_int64, in_int64}
use go2bank.Db.Query.{Result, ok, err}
use go2bank.Db.Store.Atomic.{exec_tx_atomic}
use go2bank.Db.Store.Booking.{transfer_tx-Booked, Booked}
use go2bank.Db.Account.Rows.{balance, find_account}
use go2bank.Db.Model.{idle, Db, Tables, Account}
use go2bank.Db.Store.{transfer_body, TransferTxResult, transfer_tx, TransferTxParams}
use go2bank.Db.Store.Complete.{transfer_tx-Succeeds, IsPayable}
use go2bank.Db.Store.Moving.{change, holder_of}
use mathlib.Core.Option
mod Tests

-- The balance of every account, and nothing where there is none.
abbrev pub Funds : Type 0
Funds = ℕ → Option ℤ

abbrev pub funds : Tables → Funds
funds t id = Option.map (λ (row : Account). row.balance) (find_account id t.accounts)

abbrev pub payable_from : TransferTxParams → Option ℤ → Option ℤ → Bool
payable_from arg none payee = false
payable_from arg (some a) none = false
payable_from arg (some a) (some b) =
    leb_ℤ arg.from_amount a
    && in_int64 (a +ℤ neg_int64 arg.from_amount)
    && in_int64 (b +ℤ arg.to_amount)

-- A transfer is accepted if both accounts exist, the balance of the first covers the amount, and
-- both new balances are in the range of int64.
abbrev pub accepts : TransferTxParams → Funds → Bool
accepts arg f = payable_from arg (f arg.from_account_id) (f arg.to_account_id)

-- It is then taken from the first account and given to the second, or else nothing happens.
abbrev pub transferred : TransferTxParams → Funds → Funds
transferred arg f id = if accepts arg f then Option.map (λ v. v +ℤ change arg id) (f id) else f id

accepts-IsPayable :
    (arg : TransferTxParams) (t : Tables)
    → arg.from_account_id ≢ arg.to_account_id
    → accepts arg (funds t) ≡ true
    → IsPayable arg t
accepts-IsPayable arg t apart h = by_rows _ _ refl refl h
  where
    by_rows :
        (from to : Option Account)
        → find_account arg.from_account_id t.accounts ≡ from
        → find_account arg.to_account_id t.accounts ≡ to
        → accepts arg (funds t) ≡ true
        → IsPayable arg t
    by_rows none to e f h = absurd (cc)
    by_rows (some a) none e f h = absurd (cc)
    by_rows (some a) (some b) e f h =
        let k = rw (e, f) at h in
        record {
          payer = a;
          payee = b;
          from_found = e;
          to_found = f;
          apart = apart;
          covered = (leb_ℤ_iff arg.from_amount a.balance).0 (ground arith);
          payer_fits = ground arith;
          payee_fits = ground arith;
        }

funds-Entered :
    (arg : TransferTxParams) (t t' : Tables) (id : ℕ)
    → balance id t'.accounts ≡ balance id t.accounts +ℤ change arg id
    → holder_of id t'.accounts ≡ holder_of id t.accounts
    → funds t' id ≡ Option.map (λ v. v +ℤ change arg id) (funds t id)
funds-Entered arg t t' id b h = by_rows _ _ refl refl
  where
    by_rows :
        (old new : Option Account)
        → find_account id t.accounts ≡ old
        → find_account id t'.accounts ≡ new
        → funds t' id ≡ Option.map (λ v. v +ℤ change arg id) (funds t id)
    by_rows none none e f = rw (e, f) refl
    by_rows none (some a) e f = absurd (let k = rw (e, f) at h in cc)
    by_rows (some a) none e f = absurd (let k = rw (e, f) at h in cc)
    by_rows (some a) (some a') e f = let k = rw (e, f) at b in rw (e, f) (rw k refl)

Booked-accepts :
    (arg : TransferTxParams) (t t' : Tables) (res : TransferTxResult)
    → arg.from_account_id ≢ arg.to_account_id
    → Booked arg t res t'
    → accepts arg (funds t) ≡ true
Booked-accepts arg t t' res apart b = by_rows _ _ refl refl
  where
    by_rows :
        (from to : Option Account)
        → find_account arg.from_account_id t.accounts ≡ from
        → find_account arg.to_account_id t.accounts ≡ to
        → accepts arg (funds t) ≡ true
    by_rows none to e f = absurd (b.from_known e)
    by_rows (some x) none e f = absurd (b.to_known f)
    by_rows (some x) (some y) e f =
        let r = b.fits apart in
        let covered = (leb_ℤ_iff arg.from_amount x.balance).1 (rw e at b.covered) in
        rw (e, f, covered, rw e at r.payer, rw f at r.payee) refl

abbrev pub is_ok : {A : Type 0} → Result A → Bool
is_ok (ok a) = true
is_ok (err e) = false

-- For a transfer between two accounts that differ, met by no fault, the store does to the balances
-- exactly what the specification says, and succeeds exactly where the specification accepts.
pub transfer_tx-refines :
    (arg : TransferTxParams) (db : Db)
    → arg.from_account_id ≢ arg.to_account_id
    → db.tx ≡ idle
    → db.faults ≡ []
    → let o = transfer_tx arg db in
      ((id : ℕ) → funds o.1.tables id ≡ transferred arg (funds db.tables) id)
      × (is_ok o.0 ≡ accepts arg (funds db.tables))
unfolding transfer_tx
transfer_tx-refines arg db apart rests clear = by_end _ refl
  where
    by_end :
        (o : Result TransferTxResult × Db)
        → transfer_tx arg db ≡ o
        → ((id : ℕ) → funds o.1.tables id ≡ transferred arg (funds db.tables) id)
          × (is_ok o.0 ≡ accepts arg (funds db.tables))
    by_end (ok res, last) h =
        let b = transfer_tx-Booked arg db res last h in
        let agreed = Booked-accepts arg db.tables last.tables res apart b in
        (
          λ id.
              rw (agreed, if◌then◌else◌)
                (funds-Entered arg db.tables last.tables id (b.balances id) (b.holders id)),
          sym agreed,
        )
    by_end (err e, last) h = elim (Bool-cases (accepts arg (funds db.tables))) [
      | inl agreed ↦
          let (res, went) =
            transfer_tx-Succeeds arg db (accepts-IsPayable arg db.tables apart agreed) rests
              clear in
          absurd (cc)
      | inr denied ↦ (
        λ id.
            rw (denied, if◌then◌else◌)
              (ap (λ t. funds t id) (exec_tx_atomic (transfer_body arg) db e last h)),
        sym denied,
      )
    ]
