-- ===== src/Api/Middleware/Rate.antt =====
-- When `rateLimitMiddleware` runs the rest of the chain.
use go2bank.Prelude.{
  ℕ, ◌*◌, ◌≤◌, String, ◌≡◌, refl, ◌∙◌, ◌≢◌, ◌⊎◌, inl, inr, some, arith, ltb, if◌then◌else◌,
  Bool-cases,
}
use go2bank.Prelude.Int.{pos, ◌-ℤ◌}
use go2bank.Redis.Sparing.{
  then_zrem, then_zadd, then_expire, then_zrange, then_zcard, Spares, no_call, Spares-trans,
}
use go2bank.Api.Gin.{Handler, Exit, World}
use go2bank.Api.Middleware.{
  announce, record_request, count_requests, set_headers, rate_key, reject, or_no_count,
  rate_limit_middleware, reject_over,
}
use go2bank.Api.Middleware.Auth.{resume-world}
use go2bank.Api.Quiet.{
  call-Still, Quiet-weaken, Stays-trans, bind-Quiet, done-Quiet, call-Quiet, json_and_abort-Quiet,
  Stays, Quiet, must_get-Quiet, Quiet-bind, on_kv-Quiet,
}
use go2bank.Api.Session.{Request}
use go2bank.Db.Query.{err, ok, Result}
use go2bank.Redis.{KvStore}
use go2bank.Token.{Payload}

module _ {S : Type 0} (kv : KvStore S) where
  or_no_count-Quiet :
      (r : Result ℕ) (w : World S)
      → Quiet (or_no_count kv r) w (λ n w'. (r ≡ ok n) × (w'.kv ≡ w.kv))
  unfolding or_no_count
  or_no_count-Quiet (ok n) w = done-Quiet n w (refl, refl)
  or_no_count-Quiet (err e) w = json_and_abort-Quiet 500 _ w

  reject-Quiet :
      {Fact : Unit → World S → Type 0} (next_reset current : ℕ) (w : World S)
      → Quiet (reject kv next_reset current) w Fact
  unfolding reject
  reject-Quiet next_reset current w =
      Quiet-bind _ _ w (call-Quiet _ w) λ _ w1 s1 _. json_and_abort-Quiet 429 _ w1

  reject_over-Quiet :
      (count max_requests next_reset current : ℕ) (w : World S)
      → Quiet
          (reject_over kv count max_requests next_reset current)
          w
          (λ _ w'. (count ≤ max_requests) × (w'.kv ≡ w.kv))
  unfolding reject_over
  reject_over-Quiet count max_requests next_reset current w =
      elim (Bool-cases (ltb max_requests count)) [
        | inl e ↦ rw (e, if◌then◌else◌) (reject-Quiet next_reset current w)
        | inr e ↦ rw (e, if◌then◌else◌) (done-Quiet tt w (ground arith, refl))
      ]

  -- The calls name no key but this one.
  abbrev Only : String → S → S → Type 0
  Only key s t = (other : String) → other ≢ key → Spares kv other s t

  Only-trans : {key : String} {s t u : S} → Only key s t → Only key t u → Only key s u
  Only-trans a b other apart = Spares-trans (a other apart) (b other apart)

  Only-refl : {key : String} {s t : S} → t ≡ s → Only key s t
  Only-refl e other apart = rw e no_call

  count_requests-Quiet :
      (key : String) (window current : ℕ) (w : World S)
      → Quiet (count_requests kv key window current) w (λ count w'.
        ((kv.zcard key (kv.zrem_range_by_score key (pos 0) (pos current -ℤ pos window) w.kv).1).0
          ≡ ok count)
        × Only key w.kv w'.kv)
  unfolding count_requests
  count_requests-Quiet key window current w =
      Quiet-bind _ _ w (on_kv-Quiet kv _ w) λ _ w1 s1 trimmed.
        Quiet-bind _ _ w1 (on_kv-Quiet kv (kv.zcard key) w1) λ counted w2 s2 got.
          Quiet-weaken (or_no_count-Quiet counted w2) λ n v h. (
            rw (← trimmed.1, ← got.0) h.0,
            Only-trans {s = w.kv} {t = w1.kv} {u = v.kv}
                (λ other apart.
                  rw trimmed.1 (then_zrem no_call key (pos 0) (pos current -ℤ pos window) apart))
                (λ other apart. rw (h.1, got.1) (then_zcard no_call key apart)),
          )

  set_headers-Quiet :
      (rfc3339 : ℕ → String) (max_requests count next_reset : ℕ) (w : World S)
      → Quiet (set_headers kv rfc3339 max_requests count next_reset) w (λ _ w'. w'.kv ≡ w.kv)
  unfolding set_headers
  set_headers-Quiet rfc3339 max_requests count next_reset w =
      Quiet-bind _ _ w (call-Still _ w) λ _ w1 s1 e1.
        Quiet-bind _ _ w1 (call-Still _ w1)
          λ _ w2 s2 e2. Quiet-weaken (call-Still _ w2) λ _ v e. e ∙ e2 ∙ e1

  announce-Quiet :
      (rfc3339 : ℕ → String) (key : String) (max_requests window current count : ℕ) (w : World S)
      → Quiet
          (announce kv rfc3339 key max_requests window current count)
          w
          (λ _ w'. Only key w.kv w'.kv)
  unfolding announce
  announce-Quiet rfc3339 key max_requests window current count w =
      Quiet-bind _ _ w (on_kv-Quiet kv _ w) λ windows w1 s1 got.
        Quiet-bind _ _ w1 (set_headers-Quiet rfc3339 max_requests count _ w1) λ _ w2 s2 e.
          done-Quiet _ w2
            (λ other apart. rw (e, got.1) (then_zrange no_call key (pos 0) (pos 0) apart))

  record_request-Quiet :
      (key : String) (window score member : ℕ) (w : World S)
      → Quiet (record_request kv key window score member) w (λ _ w'. Only key w.kv w'.kv)
  unfolding record_request
  record_request-Quiet key window score member w =
      Quiet-bind _ _ w (on_kv-Quiet kv _ w) λ _ w1 s1 added.
        Quiet-bind _ _ w1 (on_kv-Quiet kv _ w1) λ _ w2 s2 aged. done-Quiet tt w2 (λ other apart.
          rw (aged.1, added.1)
            (then_expire (then_zadd no_call key score member apart) key (window * 1000000) apart))

  -- The rest of the chain has run, with at most `max_requests` requests in the window before it.
  pub record Admits (api_name : String) (max_requests window : ℕ) (request : Request) (current : ℕ)
      (rest : Handler S Unit) (w : World S) (o : Exit Unit × World S) : Type 0 where
    pub auth : Payload
    pub count : ℕ
    pub at : World S
    pub signed_in : w.payload ≡ some auth
    pub counted :
        let key = rate_key kv request auth.username api_name in
        (kv.zcard key (kv.zrem_range_by_score key (pos 0) (pos current -ℤ pos window) w.kv).1).0
        ≡ ok count
    pub in_limit : count ≤ max_requests
    pub spares : Only (rate_key kv request auth.username api_name) w.kv at.kv
    pub stays : Stays w at
    pub ran : o.1 ≡ (rest at).1

  -- The limit of the rate leaves the store as it is, or it has run the rest of the chain for a
  -- signed-in user, in whose set at most `max_requests` members stood after those that are a window
  -- old were removed. A member is a millisecond: the requests of one millisecond are one member.
  pub rate_limit_middleware-safe :
      (rfc3339 : ℕ → String) (api_name : String) (max_requests window : ℕ) (request : Request)
      (current score member : ℕ) (rest : Handler S Unit) (w : World S)
      → let out =
          rate_limit_middleware kv rfc3339 api_name max_requests window request current score member
            rest w in
        (out.1.db ≡ w.db) ⊎ Admits api_name max_requests window request current rest w out
  unfolding rate_limit_middleware
  rate_limit_middleware-safe rfc3339 api_name max_requests window request current score member rest
        w =
      bind-Quiet (Admits api_name max_requests window request current rest w) _ _ w
        (must_get-Quiet w)
        λ auth w1 s1 signed_in.
          bind-Quiet (Admits api_name max_requests window request current rest w) _ _ w1
            (count_requests-Quiet (rate_key kv request auth.username api_name) window current w1)
            λ count w2 s2 counted.
              bind-Quiet (Admits api_name max_requests window request current rest w) _ _ w2
                (announce-Quiet rfc3339 (rate_key kv request auth.username api_name) max_requests
                  window current count w2)
                λ next_reset w3 s3 told.
                  bind-Quiet (Admits api_name max_requests window request current rest w) _ _ w3
                    (reject_over-Quiet count max_requests next_reset current w3)
                    λ _ w4 s4 in_limit.
                      bind-Quiet (Admits api_name max_requests window request current rest w) _ _ w4
                        (record_request-Quiet (rate_key kv request auth.username api_name) window
                          score member w4)
                        λ _ w5 s5 recorded. inr (record {
                          auth = auth;
                          count = count;
                          at = w5;
                          signed_in = signed_in.0;
                          counted = rw (← signed_in.1) counted.0;
                          spares = Only-trans (Only-refl signed_in.1) (
                              Only-trans counted.1
                                (Only-trans told (Only-trans (Only-refl in_limit.1) recorded)));
                          in_limit = in_limit.0;
                          stays =
                              Stays-trans (Stays-trans s1 s2) (Stays-trans (Stays-trans s3 s4) s5);
                          ran = resume-world _;
                        })
