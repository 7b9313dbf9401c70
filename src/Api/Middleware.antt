-- ===== src/Api/Middleware.antt =====
-- api/middleware.go, but for the two csrf middlewares, which stand in Api.Server. `next` is the rest
-- of the chain, which `ctx.Next()` runs.
pub mod Auth
pub mod Otp
pub mod Rate
pub mod Admission
pub mod Once
pub mod Window
mod Tests
use go2bank.Prelude.{
  ℕ, ◌+◌, ◌-◌, ◌*◌, ◌/◌, String, count, ◌⊎◌, inl, inr, Bool, not, ◌&&◌, ◌||◌, Option, none, some,
  List, [], ◌∷◌, ltb, leb, ◌==◌, nat_eq, string_eq, if◌then◌else◌, length,
}
use go2bank.Prelude.Int.{ℤ, pos, ◌-ℤ◌}
use go2bank.Api.Gin.{
  json, panic, abort, World, error, panicked, Body, header, Exit, must_get, done, stop, call,
  Handler, ◌>>=◌, ◌>>◌, next,
}
use go2bank.Api.Session.{seconds, on_kv, Request}
use go2bank.Api.Validator.{decimal}
use go2bank.Db.Error.{message, Error, invalid_request}
use go2bank.Db.Query.{ok, err, Result}
use go2bank.Redis.{KvStore}
use go2bank.Token.{Payload, valid, verify_token, Paseto, Maker}
use Prim.Native.Char.{code}
use Prim.Native.String.{slice, ◌++◌ as append}

-- `unicode.IsSpace`
abbrev pub is_space : ℕ → Bool
is_space c =
    leb 9 c && leb c 13
    || c == 32
    || c == 133
    || c == 160
    || c == 5760
    || leb 8192 c && leb c 8202
    || c == 8232
    || c == 8233
    || c == 8239
    || c == 8287
    || c == 12288

abbrev pub flush : String → List String → List String
flush word rest = if word == "" then rest else word ∷ rest

unfoldable pub fields_after : String → String → List String
fields_after word String.[] = flush word []
fields_after word (String.◌∷◌ c s) =
    let ended = fields_after "" s in
    let longer = fields_after (append word (String.◌∷◌ c String.[])) s in
    if is_space (code c) then flush word ended else longer

-- `strings.Fields`
abbrev pub fields : String → List String
fields s = fields_after "" s

abbrev lower_case : String
lower_case = "abcdefghijklmnopqrstuvwxyz"

abbrev is_upper : ℕ → Bool
is_upper c = leb 65 c && leb c 90

-- `strings.ToLower`, of the letters of ASCII.
unfoldable pub to_lower : String → String
to_lower String.[] = String.[]
to_lower (String.◌∷◌ c s) =
    append
      (if is_upper (code c)
        then slice lower_case (code c - 65) (code c - 64)
        else String.◌∷◌ c String.[])
      (to_lower s)

module _ {S : Type 0} where
  -- `ctx.AbortWithStatusJSON(code, body)`; the handler goes on unless it returns.
  abbrev pub abort_with : ℕ → Body → Handler S Unit
  abort_with code body = do call abort; call (json code body)

  abbrev pub abort_with_return : {A : Type 0} → ℕ → Body → Handler S A
  abort_with_return code body = do abort_with code body; stop

  -- `ctx.JSON(code, body)`, `ctx.Abort()` and `return`.
  abbrev pub json_and_abort : {A : Type 0} → ℕ → Body → Handler S A
  json_and_abort code body = do call (json code body); call abort; stop

  -- `xs[i]`, a panic out of range.
  pub nth : List String → ℕ → Handler S String
  nth [] i = panic
  nth (x ∷ xs) i = let later = nth xs (i - 1) in if i == 0 then done x else later

  -- `ctx.Next()`
  abbrev pub resume : Exit Unit × World S → Exit Unit × World S
  resume (panicked, w) = (panicked, w)
  resume (_, w) = (next tt, w)

  abbrev pub ctx_next : Handler S Unit → Handler S Unit
  ctx_next rest w = resume (rest w)

  pub short_header : List String → Handler S Unit
  short_header parts =
      if ltb (length parts) 2
      then abort_with 401 (error (message "invalid authorization header"))
      else done tt

  pub must_be_bearer : String → Handler S Unit
  must_be_bearer authorization_type =
      if authorization_type == "bearer"
      then done tt
      else abort_with_return 401
          (error (message (append "unsupported authorization type " authorization_type)))

  -- The access token in a header of these parts. One of fewer than two is answered 401, and
  -- read on.
  unfoldable pub token_in : List String → Handler S String
  unfolding short_header must_be_bearer nth
  token_in parts = do
    short_header parts
    first ← nth parts 0
    must_be_bearer (to_lower first)
    nth parts 1

  pub access_token_of : Request → Option String → Handler S String
  access_token_of request (some cookie) = done cookie
  access_token_of request none =
      if request.header "authorization" == ""
      then abort_with_return 401 (error (message "authorization header is not provided"))
      else token_in (fields (request.header "authorization"))

  abbrev pub set_payload : Payload → Handler S Unit
  set_payload p w = (next tt, record w { payload = some p })

  pub or_abort : {A : Type 0} → A ⊎ Error → Handler S A
  or_abort (inl a) = done a
  or_abort (inr e) = abort_with_return 401 (error e)

  -- `authMiddleware`, at the time `now`.
  unfoldable pub auth_middleware : Paseto → Maker → ℕ → Request → Handler S Unit → Handler S Unit
  unfolding access_token_of or_abort
  auth_middleware paseto maker now request rest = do
    access_token ← access_token_of request (request.cookie "access_token")
    payload ← or_abort (verify_token paseto maker now access_token)
    set_payload payload
    ctx_next rest

  module _ (kv : KvStore S) where
    pub or_bad_body : Option String → Handler S String
    or_bad_body none = json_and_abort 401 (error invalid_request)
    or_bad_body (some otp) = done otp

    pub or_expired_otp : Result String → Handler S String
    or_expired_otp (ok secret) = done secret
    or_expired_otp (err e) = json_and_abort 401 (error (message "OTP has been expired"))

    pub check_otp : Bool → Handler S Unit
    check_otp valid = if valid then done tt else json_and_abort 401 (error (message "invalid OTP"))

    abbrev pub otp_key : String → String
    otp_key username = append "otp:" username

    -- `verifyOTPMiddleware`. `verify_time` is the library gotp's, of a secret, the seconds of a
    -- step, a code and the time; a body that does not decode is `none`.
    unfoldable pub verify_otp_middleware :
        (String → ℤ → String → ℕ → Bool) → ℕ → ℕ → Option String → Handler S Unit → Handler S Unit
    unfolding or_bad_body or_expired_otp check_otp
    verify_otp_middleware verify_time otp_duration now body rest = do
      otp ← or_bad_body body
      auth ← must_get
      stored ← on_kv kv (kv.get (otp_key auth.username))
      secret ← or_expired_otp stored
      check_otp (verify_time secret (seconds otp_duration) otp now)
      ctx_next rest
      deleted ← on_kv kv (kv.del (otp_key auth.username))
      done tt

    abbrev first_in : List ℕ → ℕ → ℕ
    first_in [] current = current
    first_in (first ∷ _) current = first

    -- `windows, _ := …`: an error leaves no window.
    abbrev pub first_request : Result (List ℕ) → ℕ → ℕ
    first_request (ok windows) current = first_in windows current
    first_request (err e) current = current

    pub or_no_count : Result ℕ → Handler S ℕ
    or_no_count (ok n) = done n
    or_no_count (err e) =
        json_and_abort 500 (error (message "failed to calculate number of API requests"))

    pub reject : ℕ → ℕ → Handler S Unit
    reject next_reset current = do
      call (header "X-RateLimit-Retry-After" (decimal ((next_reset - current) / 1000)))
      json_and_abort 429 (error (message "API Limit Reached"))

    pub reject_over : ℕ → ℕ → ℕ → ℕ → Handler S Unit
    unfolding reject
    reject_over count max_requests next_reset current =
        if ltb max_requests count then reject next_reset current else done tt

    abbrev pub rate_key : Request → String → String → String
    rate_key request username api_name =
        append request.client_ip (append ":" (append username (append ":" api_name)))

    -- The requests in the window before this one, once the older ones are deleted.
    pub count_requests : String → ℕ → ℕ → Handler S ℕ
    unfolding or_no_count
    count_requests key window current = do
      trimmed ← on_kv kv (kv.zrem_range_by_score key (pos 0) (pos current -ℤ pos window))
      counted ← on_kv kv (kv.zcard key)
      or_no_count counted

    pub set_headers : (ℕ → String) → ℕ → ℕ → ℕ → Handler S Unit
    set_headers rfc3339 max_requests count next_reset = do
      call (header "X-RateLimit-Limit" (decimal max_requests))
      call (header "X-RateLimit-Remaining" (decimal (max_requests - count)))
      call (header "X-RateLimit-Reset" (rfc3339 (next_reset / 1000)))

    -- The headers, and the time at which the window of the first request ends.
    pub announce : (ℕ → String) → String → ℕ → ℕ → ℕ → ℕ → Handler S ℕ
    unfolding set_headers
    announce rfc3339 key max_requests window current count = do
      windows ← on_kv kv (kv.zrange key (pos 0) (pos 0))
      set_headers rfc3339 max_requests count (first_request windows current + window)
      done (first_request windows current + window)

    pub record_request : String → ℕ → ℕ → ℕ → Handler S Unit
    record_request key window score member = do
      added ← on_kv kv (kv.zadd key score member)
      kept ← on_kv kv (kv.expire key (window * 1000000))
      done tt

    -- `rateLimitMiddleware`, in milliseconds. The clock is read three times: `current`, then
    -- `score` and `member`. `rfc3339` is how the library time prints a number of seconds.
    unfoldable pub rate_limit_middleware :
        (ℕ → String) → String → ℕ → ℕ → Request → ℕ → ℕ → ℕ → Handler S Unit → Handler S Unit
    unfolding count_requests announce reject_over record_request
    rate_limit_middleware rfc3339 api_name max_requests window request current score member rest =
        do
          auth ← must_get
          count ← count_requests (rate_key request auth.username api_name) window current
          next_reset ←
              announce rfc3339 (rate_key request auth.username api_name) max_requests window current
                count
          reject_over count max_requests next_reset current
          record_request (rate_key request auth.username api_name) window score member
          ctx_next rest
