-- ===== src/Api/Transfer/Safety.antt =====
-- What a request for a transfer can do: it is refused and changes no table, or it pays from an
-- account of the signed-in user, once, and says so.
use go2bank.Prelude.{
  ℕ, String, ◌≡◌, refl, sym, ap, ◌∙◌, ◌⊎◌, inl, inr, true, Option, some, [], ◌∷◌, ◌++◌, arith,
  eq_iff, ◌==◌, nat_eq, string_eq, if◌then◌else◌, Bool-cases,
}
use go2bank.Prelude.Int.{ℤ}
use go2bank.Db.Store.Atomic.{exec_tx_atomic}
use go2bank.Db.Store.Booking.{transfer_tx-Booked, Booked}
use go2bank.Token.{Payload}
use go2bank.Api.Rows.{find-Reads, rate-Reads, rate_query-Reads}
use go2bank.Db.Currency.{find_rate}
use go2bank.Db.Error.{is_record_not_found}
use go2bank.Api.Binding.{Validator, to_id}
use go2bank.Api.Reading.{
  should_bind-Reads, must_get-Reads, bind-Reads, Same, Same-trans, Refused, Reads-mono, panic-Reads,
  Reads-bind, done-Reads, respond-Reads, Reads,
}
use go2bank.Db.Account.Rows.{find_account}
use go2bank.Db.Model.{Db, Tables, idle, Account}
use go2bank.Db.Store.{TransferTxResult, transfer_body, transfer_tx, TransferTxParams}
use go2bank.Api.Gin.{◌>>=◌, query, transferred, json, Exit, World, returned}
use go2bank.Api.Transfer.{
  create_transfer_handler, move, Float64, TransferRequest, binds_transfer, exchanged, in_currency,
  valid_account, second_rate, currency_exchange, finished,
}
use go2bank.Db.Query.{ok, err, Result}

-- The arguments of `TransferTx` that the handler builds.
abbrev pub params : TransferRequest → ℤ → TransferTxParams
params req to_amount = record {
  from_account_id = to_id req.from_account_id;
  to_account_id = to_id req.to_account_id;
  from_amount = req.amount;
  to_amount = to_amount;
}

-- The amount that comes to the second account: by the rates of the table.
pub record Exchanged (f : Float64) (from_currency to_currency : String) (amount : ℤ) (t : Tables)
    (out : ℤ) : Type 0 where
  pub from_rate : ℕ
  pub to_rate : ℕ
  pub from_found : find_rate from_currency t.currencies ≡ some from_rate
  pub to_found : find_rate to_currency t.currencies ≡ some to_rate
  pub amount_is : out ≡ exchanged f from_rate to_rate amount

-- The request was valid, the signed-in user owns the first account, whose currency is the
-- request's, and the amount that was exchanged has been booked.
pub record Paid (v : Validator) (f : Float64) (body : Option TransferRequest)
    (payload : Option Payload) (t : Tables) (result : TransferTxResult) (t' : Tables) : Type 0 where
  pub req : TransferRequest
  pub auth : Payload
  pub from_account : Account
  pub to_account : Account
  pub to_amount : ℤ
  pub sent : body ≡ some req
  pub valid : binds_transfer v req ≡ true
  pub signed_in : payload ≡ some auth
  pub from_found : find_account (to_id req.from_account_id) t.accounts ≡ some from_account
  pub to_found : find_account (to_id req.to_account_id) t.accounts ≡ some to_account
  pub owned : from_account.owner ≡ auth.username
  pub denominated : from_account.currency ≡ req.currency
  pub converted : Exchanged f from_account.currency to_account.currency req.amount t to_amount
  pub booked : Booked (params req to_amount) t result t'

module _ {S : Type 0} where
  in_currency-Reads :
      (currency : String) (row : Account) (w : World S)
      → w.db.tx ≡ idle
      → Reads (in_currency currency row) w (λ r. (r ≡ row) × (row.currency ≡ currency))
  unfolding in_currency
  in_currency-Reads currency row w i = elim (Bool-cases (row.currency == currency)) [
    | inl e ↦ rw (e, if◌then◌else◌) (done-Reads row w i (refl, (eq_iff _ _).0 e))
    | inr e ↦ rw (e, if◌then◌else◌) (respond-Reads 400 _ w (omega arith))
  ]

  valid_account-Reads :
      (id : ℕ) (currency : String) (w : World S)
      → w.db.tx ≡ idle
      → Reads
          (valid_account id currency)
          w
          (λ row. (find_account id w.db.accounts ≡ some row) × (row.currency ≡ currency))
  unfolding valid_account
  valid_account-Reads id currency w i = Reads-bind _ _ w (find-Reads id w i) λ row w' same found.
      Reads-mono (in_currency-Reads currency row w' same.idle_still)
        (λ r h. (found ∙ ap some (sym h.0), ap (λ (x : Account). x.currency) h.0 ∙ h.1))

  second_rate-Reads :
      (r : Result ℕ) (w : World S) → w.db.tx ≡ idle → Reads (second_rate r) w (λ rate. r ≡ ok rate)
  unfolding second_rate
  second_rate-Reads (ok rate) w i = done-Reads rate w i refl
  second_rate-Reads (err e) w i = elim (Bool-cases (is_record_not_found e)) [
    | inl missing ↦ rw (missing, if◌then◌else◌) (respond-Reads 404 _ w (omega arith))
    | inr other ↦ rw (other, if◌then◌else◌) (panic-Reads w)
  ]

  currency_exchange-Reads :
      (f : Float64) (from_currency to_currency : String) (amount : ℤ) (w : World S)
      → w.db.tx ≡ idle
      → Reads
          (currency_exchange f from_currency to_currency amount)
          w
          (Exchanged f from_currency to_currency amount w.db.tables)
  unfolding currency_exchange
  currency_exchange-Reads f from_currency to_currency amount w i =
      Reads-bind _ _ w (rate-Reads from_currency w i) λ from_rate w1 s1 from_found.
        Reads-bind _ _ w1 (rate_query-Reads to_currency w1 s1.idle_still) λ r w2 s2 c.
          Reads-bind _ _ w2 (second_rate-Reads r w2 s2.idle_still) λ to_rate w3 s3 is_ok.
            done-Reads _ w3 s3.idle_still (record {
              from_rate = from_rate;
              to_rate = to_rate;
              from_found = from_found;
              to_found = rw (← s1.tables) (c to_rate is_ok);
              amount_is = refl;
            })

  -- One answer 200 with the result of a payment.
  pub record Success (v : Validator) (f : Float64) (body : Option TransferRequest) (w : World S)
      (o : Exit Unit × World S) : Type 0 where
    pub result : TransferTxResult
    pub ended : o.0 ≡ returned
    pub calls : o.1.calls ≡ w.calls ++ json 200 (transferred result) ∷ []
    pub paid : Paid v f body w.payload w.db.tables result o.1.db.tables

  pub record IsDone (arg : TransferTxParams) (w : World S) (o : Exit Unit × World S) : Type 0 where
    pub result : TransferTxResult
    pub ended : o.0 ≡ returned
    pub calls : o.1.calls ≡ w.calls ++ json 200 (transferred result) ∷ []
    pub booked : Booked arg w.db.tables result o.1.db.tables

  finished-cases :
      (arg : TransferTxParams) (w : World S) (o : Result TransferTxResult × Db)
      → transfer_tx arg w.db ≡ o
      → let out = finished o.0 (record w { db = o.1 }) in Refused w out ⊎ IsDone arg w out
  unfolding finished transfer_tx
  finished-cases arg w (ok result, db) e = inr (record {
    result = result;
    ended = refl;
    calls = refl;
    booked = transfer_tx-Booked arg w.db result db e;
  })
  finished-cases arg w (err x, db) e = inl (record {
    code = _;
    body = _;
    is_error = ground arith;
    tables = exec_tx_atomic (transfer_body arg) w.db x db e;
    calls = refl;
  })

  transfer-IsDone :
      (arg : TransferTxParams) (w : World S)
      → let out = (query (transfer_tx arg) >>= finished) w in Refused w out ⊎ IsDone arg w out
  unfolding ◌>>=◌
  transfer-IsDone arg w = finished-cases arg w (transfer_tx arg w.db) refl

  -- The end of the handler, in a world that has only been read since `w`.
  module _ (v : Validator) (f : Float64) (w : World S) (req : TransferRequest) (auth : Payload)
      (from_account : Account) (valid : binds_transfer v req ≡ true)
      (signed_in : w.payload ≡ some auth)
      (from_found : find_account (to_id req.from_account_id) w.db.accounts ≡ some from_account)
      (owned : from_account.owner ≡ auth.username)
      (denominated : from_account.currency ≡ req.currency) where
    move-safe :
        (w1 : World S)
        → Same w w1
        → Refused w1 (move f req from_account w1)
          ⊎ Success v f (some req) w (move f req from_account w1)
    unfolding move
    move-safe w1 s1 =
        bind-Reads (Success v f (some req) w) _ _ w1 (find-Reads _ w1 s1.idle_still)
          λ to_account w2 s2 to_found.
            bind-Reads (Success v f (some req) w) _ _ w2
              (currency_exchange-Reads f _ _ _ w2 s2.idle_still)
              λ out w3 s3 converted.
                let s = Same-trans (Same-trans s1 s2) s3 in
                elim (transfer-IsDone (params req out) w3) [
                  | inl refused ↦ inl refused
                  | inr d ↦ inr (record {
                    result = d.result;
                    ended = d.ended;
                    calls = rw (← s.calls) d.calls;
                    paid = record {
                      req = req;
                      auth = auth;
                      from_account = from_account;
                      to_account = to_account;
                      to_amount = out;
                      sent = refl;
                      valid = valid;
                      signed_in = signed_in;
                      from_found = from_found;
                      to_found = rw (← s1.tables) to_found;
                      owned = owned;
                      denominated = denominated;
                      converted = (let e = Same-trans s1 s2 in rw (← e.tables) converted);
                      booked = rw (← s.tables) d.booked;
                    };
                  })
                ]

  -- A request for a transfer ends in one of two ways. It is refused: one answer with a status of 400
  -- or more, or a panic with no answer, and every table is left. Or it is paid: the body passed the
  -- binding checks, the signed-in user owns the first account, its currency is the request's, the
  -- second account exists, the amount is converted by the two rates of the table, exactly that
  -- transfer has been booked, and the one answer is 200 with its result.
  pub create_transfer_handler-safe :
      (v : Validator) (f : Float64) (body : Option TransferRequest) (w : World S)
      → w.db.tx ≡ idle
      → Refused w (create_transfer_handler v f body w)
        ⊎ Success v f body w (create_transfer_handler v f body w)
  unfolding create_transfer_handler
  create_transfer_handler-safe v f body w i =
      bind-Reads (Success v f body w) _ _ w (should_bind-Reads _ body w i)
        λ req w1 s1 (sent, valid).
          bind-Reads (Success v f body w) _ _ w1 (valid_account-Reads _ _ w1 s1.idle_still)
            λ from_account w2 s2 (found, denominated).
              bind-Reads (Success v f body w) _ _ w2 (must_get-Reads w2 s2.idle_still)
                λ auth w3 s3 signed_in. elim (Bool-cases (from_account.owner == auth.username)) [
                  | inl own ↦
                      let s = Same-trans s1 s2 in
                      rw (own, if◌then◌else◌, sent)
                        (move-safe v f w req auth from_account valid (rw (← s.payload) signed_in)
                          (rw (← s1.tables) found) ((eq_iff _ _).0 own) denominated w3
                          (Same-trans s s3))
                  | inr other ↦
                      rw (other, if◌then◌else◌)
                        (inl (record {
                          code = _;
                          body = _;
                          is_error = omega arith;
                          tables = refl;
                          calls = refl;
                        }))
                ]
