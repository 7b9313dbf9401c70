-- ===== src/Api/Transfer/Tests.antt =====
-- A transfer through the handler, and two that are refused.
use go2bank.Prelude.{◌≡◌, refl, ◌⊎◌, none, some, [], ◌∷◌}
use go2bank.Prelude.Int.{pos, ◌+ℤ◌, ltb_ℤ, leb_ℤ}
use go2bank.Prelude.Word.{neg_int64, in_int64}
use go2bank.Api.Transfer.Panics.{SecondFails, currency_exchange_panics}
use go2bank.Db.Error.{message, Error}
use go2bank.Api.Binding.{is_currency, is_otp, should_bind}
use go2bank.Api.Reading.{Refused}
use go2bank.Api.Transfer.Safety.{Success, create_transfer_handler-safe}
use go2bank.Db.Currency.{get_exchange_rate, find_rate}
use go2bank.Samples.{lenient, request, bank, bob_account, thousandths, ann_world, ann_account}
use go2bank.Util.{is_supported_currency}
use go2bank.Api.Gin.{World, panicked, fetch, ◌>>=◌ as handler_bind, returned}
use go2bank.Db.Query.{◌>>=◌ as query_bind}
use go2bank.Api.Transfer.{create_transfer_handler, currency_exchange, valid_account, binds_transfer}
use go2bank.Db.Store.{transfer_tx, move_money, add_money}
use go2bank.Db.Account.{add_account_balance, get_account}
use go2bank.Db.Account.Rows.{find_account, replace_account}
use go2bank.Db.Entry.{create_entry}
use go2bank.Db.Transfer.{create_transfer}
use go2bank.Db.Query.{statement}

unfoldable pub handler_code : Unit {0}
unfolding create_transfer_handler handler_bind should_bind binds_transfer is_currency
    is_supported_currency is_otp fetch valid_account currency_exchange get_exchange_rate find_rate
    transfer_tx query_bind statement move_money add_money add_account_balance get_account
    find_account replace_account create_entry create_transfer neg_int64 in_int64 ltb_ℤ leb_ℤ ◌+ℤ◌
handler_code = tt

paid :
    (create_transfer_handler lenient thousandths (some request) ann_world).1.db.accounts
    ≡ record ann_account { balance = pos 70 } ∷ record bob_account { balance = pos 20 } ∷ []
unfolding handler_code
paid = refl

-- Another's account: 401, and nothing moves.
not_owner :
    let (r, w) =
      create_transfer_handler lenient thousandths
        (some (record request { from_account_id = pos 2; currency = "EUR" }))
        ann_world in
    (r ≡ returned) × (w.db.tables ≡ bank.tables)
unfolding handler_code
not_owner = (refl, refl)

create_transfer_handler-safe_example :
    Refused ann_world (create_transfer_handler lenient thousandths (some request) ann_world)
    ⊎ Success lenient thousandths
        (some request)
        ann_world
        (create_transfer_handler lenient thousandths (some request) ann_world)
create_transfer_handler-safe_example =
    create_transfer_handler-safe lenient thousandths (some request) ann_world refl

abbrev broken_pipe : Error
broken_pipe = message "broken pipe"

-- The first query goes through, and the second does not.
abbrev second_breaks : World Unit
second_breaks = record ann_world { db = record bank { faults = none ∷ some broken_pipe ∷ [] } }

breaks : SecondFails "USD" "EUR" second_breaks.db
unfolding handler_code
breaks = record { rate = 1; found = refl; why = broken_pipe; failing = refl; other = refl }

currency_exchange_panics_example :
    let o = currency_exchange thousandths "USD" "EUR" (pos 30) second_breaks in
    (o.0 ≡ panicked → SecondFails "USD" "EUR" second_breaks.db)
    × (SecondFails "USD" "EUR" second_breaks.db → (o.0 ≡ panicked) × (o.1.calls ≡ []))
currency_exchange_panics_example =
    currency_exchange_panics thousandths "USD" "EUR" (pos 30) second_breaks
