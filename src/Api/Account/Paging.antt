-- ===== src/Api/Account/Paging.antt =====
-- The pages of `listAccounts`, and the offset that it computes in int32.
use go2bank.Prelude.{
  ℕ, ◌+◌, ◌*◌, ◌≤◌, ◌<◌, String, ◌≡◌, refl, ◌∙◌, ◌≢◌, ◌⊎◌, inl, inr, true, Option, some, List, [],
  ◌∷◌, ◌++◌, arith,
}
use go2bank.Prelude.Int.{pos, ◌-ℤ◌, ◌*ℤ◌, ltb_ℤ}
use go2bank.Prelude.Word.{wrap, int32_mod, mul_int32}
use go2bank.Api.Gin.{accounts, Exit, json, World, returned}
use go2bank.Api.Reading.{
  must_get-Reads, Same-trans, should_bind-Reads, Refused, Same, query-Reads, bind-Reads,
}
use go2bank.Db.Account.{list_accounts}
use go2bank.Db.Account.Rows.{owned_by}
use go2bank.Db.Error.{Error}
use go2bank.Db.Model.{idle, failed, Tables, Db, Account}
use go2bank.Db.Page.{page}
use go2bank.Db.Query.{HasRead, err, statement-HasRead, Result, ok}
use go2bank.Token.{valid, Payload}
use go2bank.Api.Account.{list_accounts_handler, listed, binds_list, offset_of, ListAccountsRequest}

abbrev pub page_request : ℕ → ℕ → ListAccountsRequest
page_request n size = record { page_id = pos (n + 1); page_size = pos size }

minus_one : (n : ℕ) → pos (n + 1) -ℤ pos 1 ≡ pos n
unfolding ◌-ℤ◌
minus_one n = ground arith

times_pos : (a b : ℕ) → pos a *ℤ pos b ≡ pos (a * b)
unfolding ◌*ℤ◌
times_pos a b = ground arith

wrap_small : (n : ℕ) → n < 2147483648 → wrap int32_mod (pos n) ≡ pos n
unfolding wrap
wrap_small n h = ground arith

wrap_large :
    (n : ℕ) → 2147483648 ≤ n → n < 4294967296 → ltb_ℤ (wrap int32_mod (pos n)) (pos 0) ≡ true
unfolding wrap ltb_ℤ
wrap_large n h k = ground arith

offset_of-wrap :
    (n size : ℕ)
    → n + 1 < 2147483648
    → offset_of (page_request n size) ≡ wrap int32_mod (pos (n * size))
unfolding mul_int32
offset_of-wrap n size h = rw (minus_one n, wrap_small n (omega arith), times_pos n size) refl

-- Page n + 1 begins at n * size, as long as that is an int32.
pub offset_of_exact :
    (n size : ℕ)
    → n + 1 < 2147483648
    → n * size < 2147483648
    → offset_of (page_request n size) ≡ pos (n * size)
offset_of_exact n size h k = offset_of-wrap n size h ∙ wrap_small (n * size) k

pub offset_of_wraps :
    (n size : ℕ)
    → n + 1 < 2147483648
    → 2147483648 ≤ n * size
    → n * size < 4294967296
    → ltb_ℤ (offset_of (page_request n size)) (pos 0) ≡ true
offset_of_wraps n size h k l = rw (offset_of-wrap n size h) (wrap_large (n * size) k l)

abbrev pub page_of : String → ListAccountsRequest → Tables → Result (List Account)
page_of owner req t = page (λ row. row.id) req.page_size (offset_of req) (owned_by owner t.accounts)

list_accounts-HasRead :
    (owner : String) (req : ListAccountsRequest) (db : Db)
    → db.tx ≢ failed
    → HasRead
        (page_of owner req db.tables)
        db
        (list_accounts (record { owner = owner; limit = req.page_size; offset = offset_of req }) db)
unfolding list_accounts
list_accounts-HasRead owner req db h =
    statement-HasRead (page_of owner req db.tables) _ db (λ fs. refl) h

module _ {S : Type 0} where
  -- One answer 200 with a page of the accounts of the signed-in user.
  pub record ShowsPage (params : Option ListAccountsRequest) (w : World S) (o : Exit Unit × World S)
      : Type 0 where
    pub auth : Payload
    pub req : ListAccountsRequest
    pub rows : List Account
    pub signed_in : w.payload ≡ some auth
    pub asked : params ≡ some req
    pub in_range : binds_list req ≡ true
    pub is_page : page_of auth.username req w.db.tables ≡ ok rows
    pub ended : o.0 ≡ returned
    pub tables : o.1.db.tables ≡ w.db.tables
    pub calls : o.1.calls ≡ w.calls ++ json 200 (accounts rows) ∷ []

  module _ (params : Option ListAccountsRequest) (w : World S) where
    listed_cases :
        (w1 : World S) (auth : Payload) (req : ListAccountsRequest) (r : Result (List Account))
        → w.payload ≡ some auth
        → params ≡ some req
        → binds_list req ≡ true
        → (r ≡ page_of auth.username req w.db.tables) ⊎ ((e : Error) × (r ≡ err e))
        → Same w w1
        → Refused w1 (listed r w1) ⊎ ShowsPage params w (listed r w1)
    unfolding listed
    listed_cases w1 auth req (ok rows) signed asked valid c s = inr (record {
      auth = auth;
      req = req;
      rows = rows;
      signed_in = signed;
      asked = asked;
      in_range = valid;
      is_page = ground arith;
      ended = refl;
      tables = s.tables;
      calls = rw (← s.calls) refl;
    })
    listed_cases w1 auth req (err e) signed asked valid c s =
        inl (record { code = 500; body = _; is_error = omega arith; tables = refl; calls = refl })

    -- The answer is the page at the offset that the code computes.
    pub list_accounts_handler-paged :
        w.db.tx ≡ idle
        → let out = list_accounts_handler params w in Refused w out ⊎ ShowsPage params w out
    unfolding list_accounts_handler
    list_accounts_handler-paged i =
        bind-Reads (ShowsPage params w) _ _ w (should_bind-Reads binds_list params w i)
          λ req w1 s1 bound.
            bind-Reads (ShowsPage params w) _ _ w1 (must_get-Reads w1 s1.idle_still)
              λ auth w2 t2 signed_in.
                let s2 = Same-trans s1 t2 in
                bind-Reads (ShowsPage params w) _ _ w2
                  (query-Reads _ (page_of auth.username req)
                    (list_accounts-HasRead auth.username req) w2 s2.idle_still)
                  λ r w3 t3 c.
                    listed_cases w3 auth req r (rw (← s1.payload) signed_in) bound.0 bound.1
                      (rw (← s2.tables) c) (Same-trans s2 t3)
