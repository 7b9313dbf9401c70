-- ===== src/Db/Account/Opening.antt =====
-- What `CreateAccount` adds.
use go2bank.Prelude.{◌≡◌, refl, inl, inr, true, false, [], ◌∷◌, ◌++◌, if◌then◌else◌, Bool-cases}
use go2bank.Db.Account.{CreateAccountParams, create_account, insert_account, has_user, has_account}
use go2bank.Db.Model.{Account, Tables, Db}
use go2bank.Db.Query.Outcome.{Settles, statement-Settles}

pub record Opened (arg : CreateAccountParams) (t : Tables) (new : Account) (t' : Tables)
    : Type 0 where
  pub first_in_currency : has_account arg.owner arg.currency t.accounts ≡ false
  pub known : has_user arg.owner t.users ≡ true
  pub owner : new.owner ≡ arg.owner
  pub balance : new.balance ≡ arg.balance
  pub currency : new.currency ≡ arg.currency
  pub tables : t' ≡ record t { accounts = t.accounts ++ new ∷ [] }

insert_account-Settles :
    (arg : CreateAccountParams) (d : Db) → Settles (Opened arg) d.tables (insert_account arg d)
unfolding insert_account
insert_account-Settles arg d = elim (Bool-cases (has_account arg.owner arg.currency d.accounts)) [
  | inl taken ↦ rw (taken, if◌then◌else◌) refl
  | inr free ↦
      rw (free, if◌then◌else◌)
        (elim (Bool-cases (has_user arg.owner d.users)) [
          | inl known ↦
              rw (known, if◌then◌else◌)
                (record {
                  first_in_currency = free;
                  known = known;
                  owner = refl;
                  balance = refl;
                  currency = refl;
                  tables = refl;
                })
          | inr unknown ↦ rw (unknown, if◌then◌else◌) refl
        ])
]

pub create_account-Settles :
    (arg : CreateAccountParams) (db : Db) → Settles (Opened arg) db.tables (create_account arg db)
unfolding create_account
create_account-Settles arg db =
    statement-Settles (Opened arg) _ (λ d. insert_account-Settles arg d) db
