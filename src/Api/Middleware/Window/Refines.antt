-- ===== src/Api/Middleware/Window/Refines.antt =====
-- `rateLimitMiddleware` as a log of the times of the requests.
use go2bank.Prelude.{
  ℕ, ◌*◌, String, ◌≡◌, refl, ap, ◌∙◌, inl, inr, Bool, true, false, some, List, [], ◌∷◌, arith, ltb,
  if◌then◌else◌, Bool-cases, length,
}
use go2bank.Prelude.Int.{pos, ◌-ℤ◌}
use go2bank.Api.Middleware.Window.{log_run, kept, log_step}
use go2bank.Api.Middleware.Admission.{rate_limit_middleware-admitted}
use go2bank.Db.Query.{ok}
use go2bank.Api.Gin.{World, returned, Exit, done, panicked, ◌>>=◌, next}
use go2bank.Api.Middleware.{rate_key, rate_limit_middleware}
use go2bank.Api.Session.{Request}
use go2bank.Token.{Payload}
use go2bank.Redis.{KvStore, IsSortedSet, insert}

abbrev pub goes_on : Exit Unit → Bool
goes_on (next _) = true
goes_on returned = false
goes_on panicked = false

module _ {S : Type 0} (kv : KvStore S) (rfc3339 : ℕ → String) (api_name : String)
    (max_requests window : ℕ) (request : Request) (w : World S) where
  -- A request of the user, at a time that every reading of the clock gives: whether it reaches the
  -- handler.
  abbrev pub answer_at : ℕ → S → Exit Unit × World S
  answer_at t s =
      rate_limit_middleware kv rfc3339 api_name max_requests window request t t t (done tt)
        (record w { kv = s })

  abbrev pub request_at : ℕ → S → Bool × S
  request_at t s = let o = answer_at t s in (goes_on o.0, o.1.kv)

  -- Requests one after another.
  unfoldable pub requests_at : List ℕ → S → List Bool × S
  requests_at [] s = ([], s)
  requests_at (t ∷ ts) s =
      let (through, s') = request_at t s in
      let (others, last) = requests_at ts s' in (through ∷ others, last)

  module _ (is_set : IsSortedSet kv) (auth : Payload) (signed_in : w.payload ≡ some auth) where
    abbrev key : String
    key = rate_key kv request auth.username api_name

    abbrev trim : ℕ → S → S
    trim t s = (kv.zrem_range_by_score key (pos 0) (pos t -ℤ pos window) s).1

    abbrev looked : ℕ → S → S
    looked t s = (kv.zrange key (pos 0) (pos 0) (kv.zcard key (trim t s)).1).1

    abbrev remaining : ℕ → S → List ℕ
    remaining t s = kept window t (is_set.members key s)

    counted-remaining : (t : ℕ) (s : S) → (kv.zcard key (trim t s)).0 ≡ ok (length (remaining t s))
    counted-remaining t s =
        let trimmed = is_set.zrem-members key (pos t -ℤ pos window) s in
        is_set.zcard-members key (trim t s) ∙ ap (λ ms. ok (length ms)) trimmed

    looked-remaining : (t : ℕ) (s : S) → is_set.members key (looked t s) ≡ remaining t s
    looked-remaining t s =
        is_set.zrange-reads key (pos 0) (pos 0) (kv.zcard key (trim t s)).1
        ∙ is_set.zcard-reads key (trim t s)
        ∙ is_set.zrem-members key (pos t -ℤ pos window) s

    rejected :
        (t : ℕ) (s : S)
        → ltb max_requests (length (remaining t s)) ≡ true
        → (goes_on (answer_at t s).0 ≡ false) × ((answer_at t s).1.kv ≡ looked t s)
    unfolding rate_limit_middleware ◌>>=◌
    rejected t s over = (
      rw (signed_in, counted-remaining t s, over, if◌then◌else◌) refl,
      rw (signed_in, counted-remaining t s, over, if◌then◌else◌) refl,
    )

    admitted-members :
        (t : ℕ) (s : S)
        → ltb max_requests (length (remaining t s)) ≡ false
        → (goes_on (answer_at t s).0 ≡ true)
          × (is_set.members key (answer_at t s).1.kv ≡ insert t (remaining t s))
    admitted-members t s within =
        let e =
          rate_limit_middleware-admitted kv rfc3339 api_name max_requests window request t t t
            (done tt) (record w { kv = s }) auth (length (remaining t s)) signed_in
            (counted-remaining t s) (ground (arith, within)) in
        let added = (kv.zadd key t t (looked t s)).1 in
        (
          ap (λ o. goes_on o.0) e,
          ap (λ o. is_set.members key o.1.kv) e
              ∙ is_set.expire-reads key (window * 1000000) added
              ∙ is_set.zadd-members key t (looked t s)
              ∙ ap (insert t) (looked-remaining t s),
        )

    request_at-log_step :
        (t : ℕ) (s : S)
        → log_step max_requests window t (is_set.members key s)
          ≡ (goes_on (answer_at t s).0, is_set.members key (answer_at t s).1.kv)
    unfolding log_step
    request_at-log_step t s = elim (Bool-cases (ltb max_requests (length (remaining t s)))) [
      | inl e ↦
          let (r, m) = rejected t s e in rw (r, m, looked-remaining t s, e, if◌then◌else◌) refl
      | inr e ↦ let (r, m) = admitted-members t s e in rw (r, m, e, if◌then◌else◌) refl
    ]

    -- The limit of the rate is a log of the times of the requests: requests of a user one after
    -- another get the answers of the log, and the set of the key holds its times.
    pub rate_limit_middleware-refines :
        (ts : List ℕ) (s : S)
        → let o = requests_at ts s in
          (o.0, is_set.members key o.1) ≡ log_run max_requests window ts (is_set.members key s)
    unfolding requests_at log_run
    rate_limit_middleware-refines [] s = refl
    rate_limit_middleware-refines (t ∷ ts) s =
        rw (request_at-log_step t s, ← rate_limit_middleware-refines ts (answer_at t s).1.kv) refl
