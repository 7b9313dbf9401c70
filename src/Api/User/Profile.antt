-- ===== src/Api/User/Profile.antt =====
-- What `getUser` shows.
use go2bank.Prelude.{String, ◌≡◌, refl, ◌≢◌, ◌⊎◌, inr, some, List, [], ◌∷◌, ◌++◌, map, arith}
use go2bank.Prelude.Int.{pos}
use go2bank.Api.Gin.{GetUserResponse, Exit, json, World, profile, returned}
use go2bank.Api.Reading.{
  Reads, fetch-Reads, done-Reads, respond-Reads, Same-trans, query-Reads, Refused, bind-Reads,
  must_get-Reads,
}
use go2bank.Api.User.{or_status, get_user_handler}
use go2bank.Db.Account.{list_accounts}
use go2bank.Db.Account.Rows.{owned_by}
use go2bank.Db.Error.{Error}
use go2bank.Db.Model.{Db, User, failed, Account, idle, Tables}
use go2bank.Db.Page.{page}
use go2bank.Db.Query.{ok, statement-HasRead, Result, HasRead, err}
use go2bank.Db.User.{user_of-ok, get_user-HasRead, find_user, user_of}
use go2bank.Token.{Payload}

abbrev pub first_five : String → Tables → Result (List Account)
first_five owner t = page (λ row. row.id) (pos 5) (pos 0) (owned_by owner t.accounts)

first_five-HasRead :
    (owner : String) (db : Db)
    → db.tx ≢ failed
    → HasRead
        (first_five owner db.tables)
        db
        (list_accounts (record { owner = owner; limit = pos 5; offset = pos 0 }) db)
unfolding list_accounts
first_five-HasRead owner db h = statement-HasRead (first_five owner db.tables) _ db (λ fs. refl) h

-- What is shown of a user and of accounts: no password, and no time at which an account was made.
abbrev pub shown : User → List Account → GetUserResponse
shown found rows = record {
  username = found.username;
  full_name = found.full_name;
  email = found.email;
  password_changed_at = found.password_changed_at;
  created_at = found.created_at;
  accounts =
      map
        (λ (a : Account). record {
          id = a.id;
          owner = a.owner;
          balance = a.balance;
          currency = a.currency;
          created_at = 0;
        })
        rows;
}

module _ {S : Type 0} where
  rows-Reads :
      (r : Result (List Account)) (owner : String) (t : Tables) (w : World S)
      → w.db.tx ≡ idle
      → (r ≡ first_five owner t) ⊎ ((e : Error) × (r ≡ err e))
      → Reads (or_status 500 r) w (λ rows. first_five owner t ≡ ok rows)
  unfolding or_status
  rows-Reads (ok rows) owner t w i c = done-Reads rows w i (ground arith)
  rows-Reads (err e) owner t w i c = respond-Reads 500 _ w (omega arith)

  -- The answer 200 with the signed-in user's own row and first accounts.
  pub record ShowsProfile (w : World S) (o : Exit Unit × World S) : Type 0 where
    pub auth : Payload
    pub found : User
    pub rows : List Account
    pub signed_in : w.payload ≡ some auth
    pub is_user : find_user auth.username w.db.users ≡ some found
    pub is_page : first_five found.username w.db.tables ≡ ok rows
    pub ended : o.0 ≡ returned
    pub tables : o.1.db.tables ≡ w.db.tables
    pub calls : o.1.calls ≡ w.calls ++ json 200 (profile (shown found rows)) ∷ []

  -- A request for the signed-in user is refused, or answered 200 with that user's row, without the
  -- password, and the user's accounts of the lowest five ids; no table changes.
  pub get_user_handler-safe :
      (w : World S)
      → w.db.tx ≡ idle
      → Refused w (get_user_handler w) ⊎ ShowsProfile w (get_user_handler w)
  unfolding get_user_handler
  get_user_handler-safe w i =
      bind-Reads (ShowsProfile w) _ _ w (must_get-Reads w i) λ auth w1 s1 signed_in.
        bind-Reads (ShowsProfile w) _ _ w1
          (fetch-Reads _ (λ t. user_of (find_user auth.username t.users))
            (get_user-HasRead auth.username) w1 s1.idle_still)
          λ found w2 t2 row.
            let s2 = Same-trans s1 t2 in
            bind-Reads (ShowsProfile w) _ _ w2
              (query-Reads _ (first_five found.username) (first_five-HasRead found.username) w2
                s2.idle_still)
              λ r w3 t3 c.
                let s3 = Same-trans s2 t3 in
                bind-Reads (ShowsProfile w) _ _ w3
                  (rows-Reads r found.username w2.db.tables w3 s3.idle_still c)
                  λ rows w4 t4 is_page.
                    let s4 = Same-trans s3 t4 in
                    inr (record {
                      auth = auth;
                      found = found;
                      rows = rows;
                      signed_in = signed_in;
                      is_user = user_of-ok _ found (rw (← s1.tables) row);
                      is_page = rw (← s2.tables) is_page;
                      ended = refl;
                      tables = s4.tables;
                      calls = rw (← s4.calls) refl;
                    })
