-- ===== src/Api/Account.antt =====
-- api/account.go
pub mod Safety
pub mod Paging
pub mod Pages
mod Tests
use go2bank.Prelude.{String, Bool, ◌&&◌, ◌||◌, Option, List, ◌==◌, nat_eq, string_eq, if◌then◌else◌}
use go2bank.Prelude.Int.{ℤ, pos, ◌-ℤ◌, leb_ℤ}
use go2bank.Prelude.Word.{wrap, int32_mod, mul_int32}
use go2bank.Api.Transfer.Safety.{params}
use go2bank.Db.Account.Rows.{balance}
use go2bank.Api.Gin.{
  ◌>>◌, Handler, ◌>>=◌, respond, must_get, query, fetch, error, account, accounts,
}
use go2bank.Api.Binding.{at_least, to_id, is_currency, should_bind}
use go2bank.Db.Error.{message, error_code, foreign_key_violation, unique_violation}
use go2bank.Db.Model.{Account}
use go2bank.Db.Query.{Result, ok, err}
use go2bank.Db.Account.{create_account, get_account, list_accounts}

pub record CreateAccountRequest : Type 0 where
  pub currency : String

module _ {S : Type 0} where
  pub created : Result Account → Handler S Unit
  created (ok a) = respond 200 (account a)
  created (err e) =
      respond
        (if error_code e == foreign_key_violation || error_code e == unique_violation
          then 409
          else 500)
        (error e)

  -- `createAccount`
  unfoldable pub create_account_handler : Option CreateAccountRequest → Handler S Unit
  unfolding created
  create_account_handler body = do
    req ← should_bind (λ r. is_currency r.currency) body
    auth ← must_get
    r ← query (
        create_account (record { owner = auth.username; balance = pos 0; currency = req.currency }))
    created r

  -- `getAccount`
  unfoldable pub get_account_handler : Option ℤ → Handler S Unit
  get_account_handler uri = do
    id ← should_bind (at_least (pos 1)) uri
    found ← fetch (get_account (to_id id))
    auth ← must_get
    if found.owner == auth.username
        then respond 200 (account found)
        else respond 401 (error (message "account doesn't belong to the authenticated user"))

pub record ListAccountsRequest : Type 0 where
  pub page_id : ℤ
  pub page_size : ℤ

abbrev pub binds_list : ListAccountsRequest → Bool
binds_list r =
    at_least (pos 1) r.page_id && at_least (pos 5) r.page_size && leb_ℤ r.page_size (pos 10)

-- The offset, computed in int32.
abbrev pub offset_of : ListAccountsRequest → ℤ
offset_of r = mul_int32 (wrap int32_mod (r.page_id -ℤ pos 1)) r.page_size

module _ {S : Type 0} where
  pub listed : Result (List Account) → Handler S Unit
  listed (ok rows) = respond 200 (accounts rows)
  listed (err e) = respond 500 (error e)

  -- `listAccounts`
  unfoldable pub list_accounts_handler : Option ListAccountsRequest → Handler S Unit
  unfolding listed
  list_accounts_handler params = do
    req ← should_bind binds_list params
    auth ← must_get
    r ← query (
        list_accounts
          (record { owner = auth.username; limit = req.page_size; offset = offset_of req }))
    listed r
