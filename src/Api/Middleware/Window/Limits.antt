-- ===== src/Api/Middleware/Window/Limits.antt =====
-- How many requests `rateLimitMiddleware` lets through.
use go2bank.Prelude.{ℕ, ◌+◌, ◌≤◌, ◌<◌, String, ◌≡◌, ap, ◌∙◌, inl, Bool, true, some, List, length}
use go2bank.Api.Gin.{World}
use go2bank.Api.Middleware.{rate_key}
use go2bank.Api.Middleware.Window.{kept, log_run-length, repeat, log_run-burst}
use go2bank.Api.Middleware.Window.Refines.{requests_at, rate_limit_middleware-refines}
use go2bank.Api.Session.{Request}
use go2bank.Redis.{IsSortedSet, KvStore}
use go2bank.Token.{Payload}

module _ {S : Type 0} (kv : KvStore S) (is_set : IsSortedSet kv) (rfc3339 : ℕ → String)
    (api_name : String) (max_requests window : ℕ) (request : Request) (w : World S) (auth : Payload)
    (signed_in : w.payload ≡ some auth) where
  abbrev times : S → List ℕ
  times = is_set.members (rate_key kv request auth.username api_name)

  abbrev asked : List ℕ → S → List Bool × S
  asked = requests_at kv rfc3339 api_name max_requests window request w

  -- The set of a key that starts with at most one member more than `max_requests` never gets
  -- more, whatever requests come.
  pub rate_limit_middleware-bounds :
      (ts : List ℕ) (s : S)
      → length (times s) ≤ max_requests + 1
      → length (times (asked ts s).1) ≤ max_requests + 1
  rate_limit_middleware-bounds ts s few =
      let same =
        ap (λ o. o.1)
          (rate_limit_middleware-refines kv rfc3339 api_name max_requests window request w is_set
            auth signed_in ts s) in
      rw same (log_run-length max_requests window ts (times s) few)

  -- If fewer than `max_requests` requests stand in the window, then all the requests of one
  -- millisecond are let through, however many they are: a set has one member for them all.
  pub rate_limit_middleware-burst :
      (n t : ℕ) (s : S)
      → 0 < window
      → length (kept window t (times s)) < max_requests
      → (asked (repeat n t) s).0 ≡ repeat n true
  rate_limit_middleware-burst n t s lasts few =
      ap (λ o. o.0)
        (rate_limit_middleware-refines kv rfc3339 api_name max_requests window request w is_set auth
          signed_in (repeat n t) s)
      ∙ log_run-burst n max_requests window t (times s) lasts (inl few)
