-- ===== src/Api/Account/Tests.antt =====
-- An account is opened, and shown to its owner.
use go2bank.Prelude.{◌≡◌, refl, ◌⊎◌, true, some, [], ◌∷◌, arith, take}
use go2bank.Prelude.Int.{pos, ltb_ℤ, leb_ℤ}
use go2bank.Api.Account.Paging.{page_request}
use go2bank.Api.Account.Pages.{
  list_accounts_handler-safe, ShowsRows, list_accounts_handler_wraps, first_pages_lem, first_pages,
}
use go2bank.Db.Page.{order_by}
use go2bank.Api.Account.{
  offset_of, binds_list, ListAccountsRequest, create_account_handler, list_accounts_handler,
  get_account_handler, CreateAccountRequest,
}
use go2bank.Api.Account.Safety.{Shows, create_account_handler-safe, Opens, get_account_handler-safe}
use go2bank.Api.Binding.{is_currency, should_bind}
use go2bank.Api.Reading.{Refused}
use go2bank.Db.Account.{create_account, list_accounts, insert_account, get_account}
use go2bank.Db.Account.Rows.{owned_by, find_account}
use go2bank.Db.Error.{message}
use go2bank.Db.Query.{statement}
use go2bank.Samples.{bank, ann_account, ann_world}
use go2bank.Util.{is_supported_currency}
use go2bank.Api.Gin.{fetch, error, account, json, ◌>>=◌ as handler_bind}

abbrev in_euros : CreateAccountRequest
in_euros = record { currency = "EUR" }

handler_code : Unit {0}
unfolding create_account_handler should_bind handler_bind statement create_account insert_account
    is_currency is_supported_currency get_account_handler fetch get_account find_account
    list_accounts_handler list_accounts leb_ℤ
handler_code = tt

opens_in_euros :
    (create_account_handler (some in_euros) ann_world).1.calls
    ≡ json 200 (
        account
          (record { id = 3; owner = "ann"; balance = pos 0; currency = "EUR"; created_at = 9 }))
      ∷ []
unfolding handler_code
opens_in_euros = refl

shows_own :
    (get_account_handler (some (pos 1)) ann_world).1.calls ≡ json 200 (account ann_account) ∷ []
unfolding handler_code
shows_own = refl

hides_other :
    (get_account_handler (some (pos 2)) ann_world).1.calls
    ≡ json 401 (error (message "account doesn't belong to the authenticated user")) ∷ []
unfolding handler_code
hides_other = refl

create_account_handler-safe_example :
    Refused ann_world (create_account_handler (some in_euros) ann_world)
    ⊎ Opens (some in_euros) ann_world (create_account_handler (some in_euros) ann_world)
create_account_handler-safe_example = create_account_handler-safe (some in_euros) ann_world refl

get_account_handler-safe_example :
    Refused ann_world (get_account_handler (some (pos 1)) ann_world)
    ⊎ Shows (some (pos 1)) ann_world (get_account_handler (some (pos 1)) ann_world)
get_account_handler-safe_example = get_account_handler-safe (some (pos 1)) ann_world refl

abbrev first_page : ListAccountsRequest
first_page = record { page_id = pos 1; page_size = pos 5 }

list_accounts_handler-safe_example :
    Refused ann_world (list_accounts_handler (some first_page) ann_world)
    ⊎ ShowsRows (some first_page) ann_world (list_accounts_handler (some first_page) ann_world)
list_accounts_handler-safe_example = list_accounts_handler-safe (some first_page) ann_world refl

first_pages_lem_example :
    first_pages "ann" 5 bank.tables 2
    ≡ take 10 (order_by (λ row. row.id) (owned_by "ann" bank.accounts))
first_pages_lem_example = first_pages_lem "ann" 5 bank.tables 2 (omega arith) (omega arith)

list_accounts_handler_wraps_example :
    (binds_list (page_request 300000000 10) ≡ true)
    × (ltb_ℤ (offset_of (page_request 300000000 10)) (pos 0) ≡ true)
    × Refused ann_world (list_accounts_handler (some (page_request 300000000 10)) ann_world)
list_accounts_handler_wraps_example =
    list_accounts_handler_wraps 300000000 10 ann_world (omega arith) (omega arith) (omega arith)
      (omega arith) (omega arith) refl
