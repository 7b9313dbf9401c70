-- ===== src/Api/Transfer.antt =====
-- api/transfer.go
pub mod Safety
pub mod Panics
pub mod Tests
use go2bank.Prelude.{ℕ, String, Bool, ◌&&◌, Option, ◌==◌, nat_eq, string_eq, if◌then◌else◌}
use go2bank.Prelude.Int.{ℤ, pos, ltb_ℤ}
use go2bank.Api.Gin.{
  account, Handler, ◌>>=◌, done, panic, respond, must_get, query, fetch, error, transferred,
}
use go2bank.Api.Binding.{Validator, at_least, to_id, is_currency, is_otp, should_bind}
use go2bank.Db.Error.{currency_mismatch, message, is_record_not_found, is_insufficient_balance}
use go2bank.Db.Model.{Account}
use go2bank.Db.Query.{Result, ok, err}
use go2bank.Db.Account.{get_account}
use go2bank.Db.Currency.{get_exchange_rate}
use go2bank.Db.Store.{TransferTxResult, transfer_tx}

-- Go's float64, by its bit patterns: the operations that the exchange uses.
pub record Float64 : Type 0 where
  pub from_int64 : ℤ → ℕ
  pub mul : ℕ → ℕ → ℕ
  pub div : ℕ → ℕ → ℕ
  pub to_int64 : ℕ → ℤ

pub record TransferRequest : Type 0 where
  pub from_account_id : ℤ
  pub to_account_id : ℤ
  pub amount : ℤ
  pub currency : String
  pub otp : String

unfoldable pub binds_transfer : Validator → TransferRequest → Bool
binds_transfer v r =
    at_least (pos 1) r.from_account_id
    && at_least (pos 1) r.to_account_id
    && ltb_ℤ (pos 0) r.amount
    && is_currency r.currency
    && is_otp v r.otp

-- `int64(float64(amount) * (fromExchangeRate / toExchangeRate))`
abbrev pub exchanged : Float64 → ℕ → ℕ → ℤ → ℤ
exchanged f from_rate to_rate amount =
    f.to_int64 (f.mul (f.from_int64 amount) (f.div from_rate to_rate))

module _ {S : Type 0} where
  pub in_currency : String → Account → Handler S Account
  in_currency currency found =
      if found.currency == currency
      then done found
      else respond 400 (error (currency_mismatch found.id found.currency currency))

  -- `validAccount`
  unfoldable pub valid_account : ℕ → String → Handler S Account
  unfolding in_currency
  valid_account id currency = do found ← fetch (get_account id); in_currency currency found

  -- The answer 500 for the second rate is made from `errFrom`, which is nil there: a panic.
  pub second_rate : Result ℕ → Handler S ℕ
  second_rate (ok rate) = done rate
  second_rate (err e) = if is_record_not_found e then respond 404 (error e) else panic

  -- `currencyExchange`
  unfoldable pub currency_exchange : Float64 → String → String → ℤ → Handler S ℤ
  unfolding second_rate
  currency_exchange f from_currency to_currency amount = do
    from_rate ← fetch (get_exchange_rate from_currency)
    r ← query (get_exchange_rate to_currency)
    to_rate ← second_rate r
    done (exchanged f from_rate to_rate amount)

  pub finished : Result TransferTxResult → Handler S Unit
  finished (ok result) = respond 200 (transferred result)
  finished (err e) = respond (if is_insufficient_balance e then 400 else 500) (error e)

  -- The part of `createTransfer` after the owner has been checked.
  pub move : Float64 → TransferRequest → Account → Handler S Unit
  unfolding finished
  move f req from_account = do
    to_account ← fetch (get_account (to_id req.to_account_id))
    after_exchange ← currency_exchange f from_account.currency to_account.currency req.amount
    r ← query (
        transfer_tx (record {
          from_account_id = to_id req.from_account_id;
          to_account_id = to_id req.to_account_id;
          from_amount = req.amount;
          to_amount = after_exchange;
        }))
    finished r

  -- `createTransfer`
  unfoldable pub create_transfer_handler :
      Validator → Float64 → Option TransferRequest → Handler S Unit
  unfolding move
  create_transfer_handler v f body = do
    req ← should_bind (binds_transfer v) body
    from_account ← valid_account (to_id req.from_account_id) req.currency
    auth ← must_get
    if from_account.owner == auth.username
        then move f req from_account
        else respond 401 (error (message "from account doesn't belong to the authenticated user"))
