-- ===== src/Db/Store/Going.antt =====
-- Queries that succeed in an open transaction, where no fault meets them.
use go2bank.Prelude.{ℕ, ◌+◌, ◌≡◌, refl, ◌∙◌, ◌≢◌, true, some, [], ◌∷◌, ◌++◌}
use go2bank.Prelude.Int.{ℤ, ◌+ℤ◌}
use go2bank.Prelude.Word.{in_int64}
use go2bank.Db.Query.Outcome.{statement-ok_of}
use go2bank.Db.Store.{add_money, read_funds}
use go2bank.Db.Account.{
  lock, get_account, put_accounts, answered, AddAccountBalanceParams, add_account_balance,
}
use go2bank.Db.Account.Rows.{
  find_account-replace_ne, find_account-id, find_account, replace_account,
}
use go2bank.Db.Entry.{create_entry, CreateEntryParams, new_entry}
use go2bank.Db.Model.{Account, active, Db}
use go2bank.Db.Query.{pure, Query, ok, ◌>>=◌}
use go2bank.Db.Transfer.{CreateTransferParams, create_transfer, new_transfer}

-- `q` succeeds, in an open transaction that no fault meets, and stays in one.
pub record Goes {A : Type 0} (q : Query A) (db : Db) (Post : A → Db → Type 0) : Type 0 where
  pub result : A
  pub after : Db
  pub ran : q db ≡ (ok result, after)
  pub clear : after.faults ≡ []
  pub live : after.tx ≡ active
  pub post : Post result after

pub Goes-bind :
    {A B : Type 0} {P : A → Db → Type 0} {Q : B → Db → Type 0} (m : Query A) (f : A → Query B)
    (db : Db)
    → Goes m db P
    → ((a : A) (mid : Db) → mid.faults ≡ [] → mid.tx ≡ active → P a mid → Goes (f a) mid Q)
    → Goes (m >>= f) db Q
unfolding ◌>>=◌
Goes-bind m f db g k =
    let n = k g.result g.after g.clear g.live g.post in
    record {
      result = n.result;
      after = n.after;
      ran = rw g.ran n.ran;
      clear = n.clear;
      live = n.live;
      post = n.post;
    }

-- The accounts stay as they are.
abbrev Keeps : {A : Type 0} → Db → A → Db → Type 0
Keeps db a after = after.accounts ≡ db.accounts

abbrev get_body : ℕ → Query Account
get_body id db = (answered (find_account id db.accounts), db)

module _ (db : Db) (clear : db.faults ≡ []) (live : db.tx ≡ active) where
  pub create_transfer-Goes :
      (arg : CreateTransferParams) (a b : Account)
      → find_account arg.from_account_id db.accounts ≡ some a
      → find_account arg.to_account_id db.accounts ≡ some b
      → Goes (create_transfer arg) db (Keeps db)
  unfolding create_transfer
  create_transfer-Goes arg a b x y = record {
    result = new_transfer arg db;
    after = record db {
      tables = record db.tables { transfers = db.transfers ++ new_transfer arg db ∷ [] };
      transfer_seq = db.transfer_seq + 1;
    };
    ran = statement-ok_of _ db _ _ clear live (rw (x, y) refl);
    clear = clear;
    live = live;
    post = refl;
  }

  pub create_entry-Goes :
      (arg : CreateEntryParams) (a : Account)
      → find_account arg.account_id db.accounts ≡ some a
      → Goes (create_entry arg) db (Keeps db)
  unfolding create_entry
  create_entry-Goes arg a x = record {
    result = new_entry arg db;
    after = record db {
      tables = record db.tables { entries = db.entries ++ new_entry arg db ∷ [] };
      entry_seq = db.entry_seq + 1;
    };
    ran = statement-ok_of _ db _ _ clear live (rw x refl);
    clear = clear;
    live = live;
    post = refl;
  }

  pub add_account_balance-Goes :
      (arg : AddAccountBalanceParams) (a : Account)
      → find_account arg.id db.accounts ≡ some a
      → in_int64 (a.balance +ℤ arg.amount) ≡ true
      → Goes (add_account_balance arg) db (λ new after.
        after.accounts
        ≡ replace_account (record a { balance = a.balance +ℤ arg.amount }) db.accounts)
  unfolding add_account_balance
  add_account_balance-Goes arg a x fits = record {
    result = record a { balance = a.balance +ℤ arg.amount };
    after =
        put_accounts (replace_account (record a { balance = a.balance +ℤ arg.amount }) db.accounts)
          (lock a.id db);
    ran = statement-ok_of _ db _ _ clear live (rw (x, fits) refl);
    clear = clear;
    live = live;
    post = refl;
  }

  pub read_funds-Goes :
      (id : ℕ) (a : Account)
      → find_account id db.accounts ≡ some a
      → Goes
          (read_funds id)
          db
          (λ funds after. (funds ≡ a.balance) × (after.accounts ≡ db.accounts))
  unfolding read_funds get_account
  read_funds-Goes id a x =
      let e = statement-ok_of (get_body id) db db a clear live (rw x refl) in
      record {
        result = a.balance;
        after = db;
        ran = rw e refl;
        clear = clear;
        live = live;
        post = (refl, refl);
      }

pub pure-Goes :
    {A : Type 0} (a : A) (db : Db)
    → db.faults ≡ []
    → db.tx ≡ active
    → Goes (pure a) db (λ _ _. Unit)
pure-Goes a db clear live = record {
  result = a;
  after = db;
  ran = refl;
  clear = clear;
  live = live;
  post = tt;
}

pub add_money-Goes :
    (id1 : ℕ) (amount1 : ℤ) (id2 : ℕ) (amount2 : ℤ) (a b : Account) (db : Db)
    → db.faults ≡ []
    → db.tx ≡ active
    → id2 ≢ id1
    → find_account id1 db.accounts ≡ some a
    → find_account id2 db.accounts ≡ some b
    → in_int64 (a.balance +ℤ amount1) ≡ true
    → in_int64 (b.balance +ℤ amount2) ≡ true
    → Goes (add_money id1 amount1 id2 amount2) db (λ _ _. Unit)
unfolding add_money
add_money-Goes id1 amount1 id2 amount2 a b db clear live apart x y fits1 fits2 =
    Goes-bind _ _ db
      (add_account_balance-Goes db clear live (record { amount = amount1; id = id1 }) a x fits1)
      λ account1 mid c l p.
        let same : a.id ≡ id1 = find_account-id id1 a db.accounts x in
        let e =
          find_account-replace_ne id2 (record a { balance = a.balance +ℤ amount1 }) db.accounts
            (rw same apart) in
        Goes-bind _ _ mid
          (add_account_balance-Goes mid c l (record { amount = amount2; id = id2 }) b (rw p (e ∙ y))
            fits2)
          λ account2 last c2 l2 p2. pure-Goes (account1, account2) last c2 l2
