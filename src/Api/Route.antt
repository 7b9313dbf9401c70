-- ===== src/Api/Route.antt =====
-- The route POST /api/auth/transfers of api/server.go: its middlewares, but for the csrf check, and
-- its handler.
mod Tests
use go2bank.Prelude.{
  ℕ, ◌/◌, String, count, ◌≡◌, sym, ap, ◌∙◌, ◌≢◌, ◌⊎◌, inl, inr, Bool, true, Option, some, arith,
}
use go2bank.Prelude.Int.{ℤ}
use go2bank.Redis.Sparing.{IsKeyed, Spares-get}
use Prim.Native.String.{◌++◌ as append}
use text.Mathlib.TextLemmas.{length-append}
use go2bank.Db.Store.Locks.Progress.{left}
use go2bank.Token.Sample.{maker}
use go2bank.Api.Middleware.Rate.{rate_limit_middleware-safe, Admits}
use go2bank.Db.Query.{ok}
use go2bank.Api.Binding.{Validator}
use go2bank.Api.Gin.{user, World, Exit, panicked, Handler, returned, next}
use go2bank.Api.Middleware.{
  rate_key, otp_key, auth_middleware, verify_otp_middleware, rate_limit_middleware,
}
use go2bank.Api.Middleware.Auth.{auth_middleware-safe, IsTokenOf, Authorizes}
use go2bank.Api.Middleware.Otp.{verify_otp_middleware-safe, Confirms}
use go2bank.Api.Reading.{Refused}
use go2bank.Api.Session.{seconds, Request}
use go2bank.Api.Transfer.{TransferRequest, Float64, create_transfer_handler}
use go2bank.Api.Transfer.Safety.{create_transfer_handler-safe, Paid}
use go2bank.Db.Model.{Db, idle}
use go2bank.Db.Store.{TransferTxResult}
use go2bank.Redis.{IsMap, KvStore}
use go2bank.Token.{Maker, Payload, verify_token, Paseto}

-- What the route's middlewares take from the server and the request. Both durations are
-- `config.APILimitDuration`.
pub record Setting : Type 0 where
  pub rfc3339 : ℕ → String
  pub verify_time : String → ℤ → String → ℕ → Bool
  pub max_requests : ℕ
  pub limit_duration : ℕ
  pub now : ℕ
  pub current : ℕ
  pub score : ℕ
  pub member : ℕ
  pub otp_now : ℕ

module _ {S : Type 0} (kv : KvStore S) (paseto : Paseto) (maker : Maker) (v : Validator)
    (f : Float64) (setting : Setting) (request : Request) (otp : Option String)
    (body : Option TransferRequest) where
  abbrev pub after_limit : Handler S Unit
  after_limit =
      verify_otp_middleware kv setting.verify_time setting.limit_duration setting.otp_now otp
        (create_transfer_handler v f body)

  abbrev pub after_auth : Handler S Unit
  after_auth =
      rate_limit_middleware kv setting.rfc3339 "verifyOTP" setting.max_requests
        (setting.limit_duration / 1000000) request setting.current setting.score setting.member
        after_limit

  -- POST /api/auth/transfers
  unfoldable pub transfer_route : Handler S Unit
  transfer_route = auth_middleware paseto maker setting.now request after_auth

  -- Who has paid: the user of a token that verifies, with a code of the secret that was stored for
  -- that user when the request came.
  pub record Entitled (w : World S) (o : Exit Unit × World S) : Type 0 where
    pub token : String
    pub payload : Payload
    pub secret : String
    pub code : String
    pub result : TransferTxResult
    pub sent : IsTokenOf request (request.cookie "access_token") token
    pub verified : verify_token paseto maker setting.now token ≡ inl payload
    pub stored : (kv.get (otp_key kv payload.username) w.kv).0 ≡ ok secret
    pub sent_code : otp ≡ some code
    pub confirmed :
        setting.verify_time secret (seconds setting.limit_duration) code setting.otp_now ≡ true
    pub paid : Paid v f body (some payload) w.db.tables result o.1.db.tables

  Refused-tables :
      (w : World S) (o : Exit Unit × World S) → Refused w o → o.1.db.tables ≡ w.db.tables
  Refused-tables w (next a, w') r = absurd r
  Refused-tables w (returned, w') r = r.tables
  Refused-tables w (panicked, w') r = r.tables

  abbrev Passes : World S → Exit Unit × World S → Type 0
  Passes w o = (o.1.db.tables ≡ w.db.tables) ⊎ Entitled w o

  from_otp :
      (w w2 : World S) (o o1 : Exit Unit × World S)
      (a : Authorizes paseto maker setting.now request after_auth w o)
      (c : Confirms kv setting.verify_time setting.limit_duration setting.otp_now otp
        (create_transfer_handler v f body)
        w2
        o1)
      → w2.db ≡ w.db
      → w2.payload ≡ some a.payload
      → (kv.get (otp_key kv a.payload.username) w2.kv).0
        ≡ (kv.get (otp_key kv a.payload.username) w.kv).0
      → o.1.db ≡ o1.1.db
      → w.db.tx ≡ idle
      → Passes w o
  from_otp w w2 o o1 a c db signed_in unwritten same i =
      let db_at : c.at.db ≡ w.db = c.stays.db ∙ db in
      let payload_at : c.at.payload ≡ some a.payload = c.stays.payload ∙ signed_in in
      let db_out = same ∙ c.ran in
      let user : c.auth ≡ a.payload = cc (c.signed_in, signed_in) in
      elim (create_transfer_handler-safe v f body c.at (rw db_at i)) [
        | inl refused ↦ inl (
            ap (λ (d : Db). d.tables) db_out
            ∙ Refused-tables c.at _ refused
            ∙ ap (λ (d : Db). d.tables) db_at)
        | inr success ↦ inr (record {
          token = a.token;
          payload = a.payload;
          secret = c.secret;
          code = c.otp;
          result = success.result;
          sent = a.sent;
          verified = a.verified;
          stored = sym unwritten ∙ rw (← user) c.stored;
          sent_code = c.sent;
          confirmed = c.verified;
          paid = rw (db_out, ← db_at, ← payload_at) success.paid;
        })
      ]

  -- The key of the limit is longer than that of the secret.
  otp_key≢rate_key :
      (username : String) → otp_key kv username ≢ rate_key kv request username "verifyOTP"
  otp_key≢rate_key username h =
      let e = ap count h in
      let a = length-append "otp:" username in
      let b = length-append request.client_ip (append ":" (append username ":verifyOTP")) in
      let c = length-append ":" (append username ":verifyOTP") in
      let d = length-append username ":verifyOTP" in absurd (omega (arith, e, a, b, c, d))

  -- The limit of the rate has left the secret.
  unwritten_until :
      IsMap kv
      → IsKeyed kv
      → (w : World S) (o o1 : Exit Unit × World S)
        (a : Authorizes paseto maker setting.now request after_auth w o)
        (l : Admits kv "verifyOTP" setting.max_requests
          (setting.limit_duration / 1000000)
          request
          setting.current
          after_limit
          a.at
          o1)
      → (kv.get (otp_key kv a.payload.username) l.at.kv).0
        ≡ (kv.get (otp_key kv a.payload.username) w.kv).0
  unwritten_until m k w o o1 a l =
      let user : l.auth ≡ a.payload = cc (l.signed_in, a.signed_in) in
      let left = Spares-get m k (
        l.spares (otp_key kv a.payload.username) (rw user (otp_key≢rate_key a.payload.username))) in
      left ∙ ap (λ t. (kv.get (otp_key kv a.payload.username) t).0) a.kv

  from_limit :
      IsMap kv
      → IsKeyed kv
      → (w : World S) (o o1 : Exit Unit × World S)
        (a : Authorizes paseto maker setting.now request after_auth w o)
        (l : Admits kv "verifyOTP" setting.max_requests
          (setting.limit_duration / 1000000)
          request
          setting.current
          after_limit
          a.at
          o1)
      → o.1 ≡ o1.1
      → w.db.tx ≡ idle
      → Passes w o
  from_limit m k w o o1 a l same i =
      elim (verify_otp_middleware-safe kv setting.verify_time setting.limit_duration setting.otp_now
        otp (create_transfer_handler v f body) l.at) [
          | inl left ↦ inl (
              ap (λ (d : World S). d.db.tables) (same ∙ l.ran)
              ∙ ap (λ (d : Db). d.tables) (left ∙ l.stays.db ∙ a.db))
          | inr c ↦
              from_otp w l.at o _ a c (l.stays.db ∙ a.db) (l.stays.payload ∙ a.signed_in)
                (unwritten_until m k w o o1 a l) (ap (λ (d : World S). d.db) (same ∙ l.ran)) i
        ]

  from_auth :
      IsMap kv
      → IsKeyed kv
      → (w : World S) (o : Exit Unit × World S)
      → Authorizes paseto maker setting.now request after_auth w o
      → w.db.tx ≡ idle
      → Passes w o
  from_auth m k w o a i =
      elim (rate_limit_middleware-safe kv setting.rfc3339 "verifyOTP" setting.max_requests
        (setting.limit_duration / 1000000) request setting.current setting.score setting.member
        after_limit a.at) [
          | inl left ↦
              inl
                (ap (λ (d : World S). d.db.tables) a.ran ∙ ap (λ (d : Db). d.tables) (left ∙ a.db))
          | inr l ↦ from_limit m k w o _ a l a.ran i
        ]

  -- A request to POST /api/auth/transfers leaves every table, or it has paid one valid transfer,
  -- from an account of the user whom a token of the request names, with a one-time code of the
  -- secret that was stored for that user when the request came. The store of values is a map, and
  -- a command on one key leaves the value at another.
  pub transfer_route-safe :
      IsMap kv
      → IsKeyed kv
      → (w : World S) → w.db.tx ≡ idle
      → let o = transfer_route w in (o.1.db.tables ≡ w.db.tables) ⊎ Entitled w o
  unfolding transfer_route
  transfer_route-safe m k w i =
      elim (auth_middleware-safe paseto maker setting.now request after_auth w) [
        | inl left ↦ inl (ap (λ (d : Db). d.tables) left)
        | inr a ↦ from_auth m k w _ a i
      ]
