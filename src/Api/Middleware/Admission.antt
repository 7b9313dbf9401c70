-- ===== src/Api/Middleware/Admission.antt =====
-- What `rateLimitMiddleware` does for a request within the limit.
use go2bank.Prelude.{
  ℕ, ◌+◌, ◌-◌, ◌*◌, ◌/◌, ◌≤◌, String, count, ◌≡◌, refl, false, some, [], ◌∷◌, ◌++◌, arith, ltb,
}
use go2bank.Prelude.Int.{pos, ◌-ℤ◌}
use go2bank.Api.Gin.{header, World, Handler, ◌>>=◌}
use go2bank.Api.Middleware.{first_request, rate_key, rate_limit_middleware, ctx_next}
use go2bank.Api.Session.{Request}
use go2bank.Api.Validator.{decimal}
use go2bank.Db.Query.{ok}
use go2bank.Redis.{KvStore}
use go2bank.Token.{Payload}

module _ {S : Type 0} (kv : KvStore S) (rfc3339 : ℕ → String) (api_name : String)
    (max_requests window : ℕ) (request : Request) (current score member : ℕ) where
  abbrev pub key_of : Payload → String
  key_of auth = rate_key kv request auth.username api_name

  -- The state after the old requests are deleted, and after those of the window are counted.
  abbrev pub trimmed_at : Payload → S → S
  trimmed_at auth s = (kv.zrem_range_by_score (key_of auth) (pos 0) (pos current -ℤ pos window) s).1

  abbrev counted_at : Payload → S → S
  counted_at auth s = (kv.zcard (key_of auth) (trimmed_at auth s)).1

  abbrev reset_at : Payload → S → ℕ
  reset_at auth s =
      first_request kv (kv.zrange (key_of auth) (pos 0) (pos 0) (counted_at auth s)).0 current
      + window

  abbrev recorded_at : Payload → S → S
  recorded_at auth s =
      let s3 = (kv.zrange (key_of auth) (pos 0) (pos 0) (counted_at auth s)).1 in
      let s4 = (kv.zadd (key_of auth) score member s3).1 in
      (kv.expire (key_of auth) (window * 1000000) s4).1

  -- The world in which the rest of the chain runs: three headers, and the request recorded.
  abbrev pub admitted : Payload → ℕ → World S → World S
  admitted auth count w = record w {
    kv = recorded_at auth w.kv;
    calls =
        ((w.calls ++ header "X-RateLimit-Limit" (decimal max_requests) ∷ [])
          ++ header "X-RateLimit-Remaining" (decimal (max_requests - count)) ∷ [])
        ++ header "X-RateLimit-Reset" (rfc3339 (reset_at auth w.kv / 1000)) ∷ [];
  }

  -- A request of a signed-in user goes on to the rest of the chain if at most `max_requests`
  -- requests stand in the window before it: it is recorded, and the three headers are set.
  pub rate_limit_middleware-admitted :
      (rest : Handler S Unit) (w : World S) (auth : Payload) (count : ℕ)
      → w.payload ≡ some auth
      → (kv.zcard (key_of auth) (trimmed_at auth w.kv)).0 ≡ ok count
      → count ≤ max_requests
      → rate_limit_middleware kv rfc3339 api_name max_requests window request current score member
          rest w
        ≡ ctx_next rest (admitted auth count w)
  unfolding rate_limit_middleware ◌>>=◌
  rate_limit_middleware-admitted rest w auth count signed_in counted in_limit =
      let e : ltb max_requests count ≡ false = ground arith in rw (signed_in, counted, e) refl
