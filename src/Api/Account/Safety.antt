-- ===== src/Api/Account/Safety.antt =====
-- What `createAccount` opens, and whose account `getAccount` shows.
use go2bank.Prelude.{
  ◌≡◌, refl, ◌⊎◌, inl, inr, true, ◌||◌, Option, none, some, [], ◌∷◌, ◌++◌, arith, eq_iff, ◌==◌,
  nat_eq, string_eq, if◌then◌else◌, Bool-cases,
}
use go2bank.Prelude.Int.{ℤ}
use go2bank.Api.Account.{CreateAccountRequest, get_account_handler, created, create_account_handler}
use go2bank.Api.Binding.{to_id, is_currency}
use go2bank.Api.Gin.{World, error, json, account, respond, returned, Exit}
use go2bank.Api.Reading.{
  fetch-Reads, Same-trans, should_bind-Reads, Refused, bind-Reads, must_get-Reads, Same,
}
use go2bank.Api.Writing.{Finished, query-Finished, Finished-Same, Closes}
use go2bank.Db.Account.{get_account-HasRead, CreateAccountParams, answered}
use go2bank.Db.Account.Opening.{create_account-Settles, Opened}
use go2bank.Db.Account.Rows.{find_account}
use go2bank.Db.Error.{foreign_key_violation, error_code, message, unique_violation}
use go2bank.Db.Model.{idle, Account}
use go2bank.Db.Query.{ok}
use go2bank.Db.Store.Runs.{opening}
use go2bank.Token.{Payload}

answered-ok : (found : Option Account) (row : Account) → answered found ≡ ok row → found ≡ some row
answered-ok none row h = cc
answered-ok (some r) row h = cc

module _ {S : Type 0} where
  pub record Opens (body : Option CreateAccountRequest) (w : World S) (o : Exit Unit × World S)
      : Type 0 where
    pub auth : Payload
    pub req : CreateAccountRequest
    pub signed_in : w.payload ≡ some auth
    pub asked : body ≡ some req
    pub supported : is_currency req.currency ≡ true
    pub finished : Finished 200 account (Opened (opening auth.username req.currency)) w o

  created-Closes : (arg : CreateAccountParams) → Closes 200 account (Opened arg) (created {S = S})
  unfolding created
  created-Closes arg = record {
    on_ok = λ a w. refl;
    status = λ e.
        if error_code e == foreign_key_violation || error_code e == unique_violation
        then 409
        else 500;
    text = error;
    is_error = λ e. ground arith;
    on_err = λ e w. refl;
  }

  -- A request to open an account is refused with every table left, or it opens one account with
  -- balance zero, of the signed-in user, in a supported currency in which that user had none, and
  -- is answered 200 with it.
  pub create_account_handler-safe :
      (body : Option CreateAccountRequest) (w : World S)
      → w.db.tx ≡ idle
      → let out = create_account_handler body w in Refused w out ⊎ Opens body w out
  unfolding create_account_handler
  create_account_handler-safe body w i =
      bind-Reads (Opens body w) _ _ w (should_bind-Reads _ body w i) λ req w1 s1 bound.
        bind-Reads (Opens body w) _ _ w1 (must_get-Reads w1 s1.idle_still) λ auth w2 t2 signed_in.
          elim (query-Finished 200 account (Opened (opening auth.username req.currency)) _ created
            w2 (created-Closes (opening auth.username req.currency))
            (create_account-Settles (opening auth.username req.currency) w2.db)) [
              | inl refused ↦ inl refused
              | inr done_well ↦ inr (record {
                auth = auth;
                req = req;
                signed_in = rw (← s1.payload) signed_in;
                asked = bound.0;
                supported = bound.1;
                finished = Finished-Same (Same-trans s1 t2) done_well;
              })
            ]

  -- The account that is shown.
  pub record Shows (uri : Option ℤ) (w : World S) (o : Exit Unit × World S) : Type 0 where
    pub auth : Payload
    pub id : ℤ
    pub found : Account
    pub signed_in : w.payload ≡ some auth
    pub asked : uri ≡ some id
    pub is_row : find_account (to_id id) w.db.accounts ≡ some found
    pub owned : found.owner ≡ auth.username
    pub ended : o.0 ≡ returned
    pub tables : o.1.db.tables ≡ w.db.tables
    pub calls : o.1.calls ≡ w.calls ++ json 200 (account found) ∷ []

  shown_cases :
      (uri : Option ℤ) (w w1 : World S) (auth : Payload) (id : ℤ) (found : Account)
      → w.payload ≡ some auth
      → uri ≡ some id
      → find_account (to_id id) w.db.accounts ≡ some found
      → Same w w1
      → let out =
          (if found.owner == auth.username
              then respond 200 (account found)
              else respond 401 (error (message "account doesn't belong to the authenticated user")))
            w1 in
        Refused w1 out ⊎ Shows uri w out
  shown_cases uri w w1 auth id found signed asked row s =
      elim (Bool-cases (found.owner == auth.username)) [
        | inl mine ↦
            rw (mine, if◌then◌else◌)
              (inr (record {
                auth = auth;
                id = id;
                found = found;
                signed_in = signed;
                asked = asked;
                is_row = row;
                owned = (eq_iff found.owner auth.username).0 mine;
                ended = refl;
                tables = s.tables;
                calls = rw (← s.calls) refl;
              }))
        | inr other ↦
            rw (other, if◌then◌else◌)
              (inl (record {
                code = 401;
                body = _;
                is_error = omega arith;
                tables = refl;
                calls = refl;
              }))
      ]

  -- No request for an account changes a table, and it is refused, or answered 200 with the account
  -- of that id, which belongs to the signed-in user.
  pub get_account_handler-safe :
      (uri : Option ℤ) (w : World S)
      → w.db.tx ≡ idle
      → let out = get_account_handler uri w in Refused w out ⊎ Shows uri w out
  unfolding get_account_handler
  get_account_handler-safe uri w i =
      bind-Reads (Shows uri w) _ _ w (should_bind-Reads _ uri w i) λ id w1 s1 bound.
        bind-Reads (Shows uri w) _ _ w1
          (fetch-Reads _ (λ t. answered (find_account (to_id id) t.accounts))
            (get_account-HasRead (to_id id)) w1 s1.idle_still)
          λ found w2 t2 row.
            let s2 = Same-trans s1 t2 in
            bind-Reads (Shows uri w) _ _ w2 (must_get-Reads w2 s2.idle_still)
              λ auth w3 t3 signed_in.
                shown_cases uri w w3 auth id found (rw (← s2.payload) signed_in) bound.0
                  (answered-ok _ found (rw (← s1.tables) row)) (Same-trans s2 t3)
