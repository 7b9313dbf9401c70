-- ===== src/Db/Store/Runs.antt =====
-- Any sequence of the calls that the handlers make of the store, with any faults between them.
use go2bank.Prelude.{
  ℕ, String, ◌≡◌, refl, ◌∙◌, inl, inr, Option, List, [], ◌∷◌, ◌++◌, arith, if◌then◌else◌,
  Bool-cases,
}
use go2bank.Prelude.Int.{pos}
use go2bank.Db.Account.Rows.{find_account, balance}
use go2bank.Db.Error.{Error}
use go2bank.Db.Model.{Tables, Account, Db}
use go2bank.Db.Query.{statement-keeps}
use go2bank.Db.Store.Ledger.{
  IsReconciled, transfer_tx-IsReconciled, IsPayment, transfer_tx-HasNoDebt, IsSound,
}
use go2bank.Db.Account.{
  new_account, has_user, has_account, insert_account, CreateAccountParams, create_account,
}
use go2bank.Db.User.{
  CreateUserParams, create_user, UpdateUserParams, update_user, UpsertUserParams, upsert_user,
}
use go2bank.Db.Store.{TransferTxParams, transfer_tx}

-- `createAccount` opens every account at zero.
abbrev pub opening : String → String → CreateAccountParams
opening owner currency = record { owner = owner; balance = pos 0; currency = currency }

-- The calls that leave the balances and the entries, and what happens around the store.
pub data Upkeep (db : Db) : Db → Type 0 where
  opens : (owner currency : String) → Upkeep db (create_account (opening owner currency) db).1
  registers : (arg : CreateUserParams) → Upkeep db (create_user arg db).1
  updates : (arg : UpdateUserParams) → Upkeep db (update_user arg db).1
  upserts : (arg : UpsertUserParams) → Upkeep db (upsert_user arg db).1
  passes :
      (now : ℕ) (faults : List (Option Error))
      → Upkeep db (record db { now = now; faults = faults })

pub data Step (db : Db) : Db → Type 0 where
  transfers : (arg : TransferTxParams) → IsPayment arg → Step db (transfer_tx arg db).1
  keeps : {db' : Db} → Upkeep db db' → Step db db'

pub data Reach (db : Db) : Db → Type 0 where
  here : Reach db db
  next : {mid last : Db} → Reach db mid → Step mid last → Reach db last

-- Every balance and the entries are as in the tables `t`.
pub record Unmoved (t t' : Tables) : Type 0 where
  pub balances : (id : ℕ) → balance id t'.accounts ≡ balance id t.accounts
  pub entries : t'.entries ≡ t.entries

find_account-append :
    (id : ℕ) (rows : List Account) (new : Account)
    → new.balance ≡ pos 0
    → balance id (rows ++ new ∷ []) ≡ balance id rows
unfolding find_account
find_account-append id [] new e = ground arith
find_account-append id (row ∷ rows) new e = ground (arith, find_account-append id rows new e)

Unmoved-accounts :
    {t u v : Tables} → v.accounts ≡ u.accounts → v.entries ≡ u.entries → Unmoved t u → Unmoved t v
Unmoved-accounts a e s = record { balances = λ id. rw a (s.balances id); entries = e ∙ s.entries }

insert_account-Unmoved :
    (owner currency : String) (t : Tables) (d : Db)
    → Unmoved t d.tables
    → Unmoved t (insert_account (opening owner currency) d).1.tables
unfolding insert_account
insert_account-Unmoved owner currency t d h =
    elim (Bool-cases (has_account owner currency d.accounts)) [
      | inl taken ↦ rw (taken, if◌then◌else◌) h
      | inr free ↦
          rw (free, if◌then◌else◌)
            (elim (Bool-cases (has_user owner d.users)) [
              | inl known ↦
                  rw (known, if◌then◌else◌)
                    (record {
                      balances = λ id.
                          find_account-append id d.accounts (new_account (opening owner currency) d)
                            refl
                          ∙ h.balances id;
                      entries = h.entries;
                    })
              | inr unknown ↦ rw (unknown, if◌then◌else◌) h
            ])
    ]

pub Upkeep-Unmoved : {db db' : Db} → Upkeep db db' → Unmoved db.tables db'.tables
unfolding create_account create_user update_user upsert_user
Upkeep-Unmoved {db} step = kept step
  where
    same : Unmoved db.tables db.tables
    same = record { balances = λ id. refl; entries = refl }

    kept : {db' : Db} → Upkeep db db' → Unmoved db.tables db'.tables
    kept (opens owner currency) =
        statement-keeps (Unmoved db.tables) _ (insert_account-Unmoved owner currency db.tables) db
          same
    kept (registers arg) =
        statement-keeps (Unmoved db.tables) _
          (λ d h. Unmoved-accounts {u = d.tables} (ground arith) (ground arith) h) db same
    kept (updates arg) =
        statement-keeps (Unmoved db.tables) _
          (λ d h. Unmoved-accounts {u = d.tables} (ground arith) (ground arith) h) db same
    kept (upserts arg) =
        statement-keeps (Unmoved db.tables) _
          (λ d h. Unmoved-accounts {u = d.tables} (ground arith) (ground arith) h) db same
    kept (passes now faults) = same

Unmoved-IsReconciled : {t t' : Tables} → Unmoved t t' → IsReconciled t → IsReconciled t'
Unmoved-IsReconciled u h = λ id. rw (u.balances id, u.entries) (h id)

Step-IsSound : {db db' : Db} → Step db db' → IsSound db.tables → IsSound db'.tables
Step-IsSound {db} (transfers arg pay) s = record {
  reconciled = transfer_tx-IsReconciled arg db s.reconciled;
  no_debt = transfer_tx-HasNoDebt arg db pay s.no_debt;
}
Step-IsSound (keeps step) s =
    let u = Upkeep-Unmoved step in
    record {
      reconciled = Unmoved-IsReconciled u s.reconciled;
      no_debt = λ id. rw (u.balances id) (s.no_debt id);
    }

-- From sound books, whatever sequence of transfers whose two amounts are not negative, openings, registrations and changes of users,
-- with any faults, every balance is the sum of the account's entries and no account is below zero,
-- as long as the transfers run one at a time.
pub Reach-IsSound : {db db' : Db} → Reach db db' → IsSound db.tables → IsSound db'.tables
Reach-IsSound here s = s
Reach-IsSound (next r st) s = Step-IsSound st (Reach-IsSound r s)
