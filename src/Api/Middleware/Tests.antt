-- ===== src/Api/Middleware/Tests.antt =====
-- Each middleware at a request that it lets through.
use go2bank.Prelude.{
  ℕ, String, count, ◌≡◌, refl, ap, ◌⊎◌, Bool, ◌&&◌, none, some, [], ◌∷◌, arith, ◌==◌, nat_eq,
  string_eq, if◌then◌else◌,
}
use go2bank.Prelude.Int.{ℤ, ◌-ℤ◌, ltb_ℤ, leb_ℤ}
use go2bank.Redis.Memory.Sorted.{memory-IsKeyed}
use go2bank.Redis.Sparing.{then_zadd, Spares, no_call}
use go2bank.Api.Middleware.Once.{verify_otp_middleware-once}
use go2bank.Api.Middleware.{
  token_in, rate_limit_middleware, to_lower, fields_after, auth_middleware, verify_otp_middleware,
}
use go2bank.Api.Middleware.Auth.{auth_middleware-safe, Authorizes}
use go2bank.Api.Middleware.Otp.{Confirms, verify_otp_middleware-safe}
use go2bank.Api.Middleware.Rate.{Admits, rate_limit_middleware-safe}
use go2bank.Api.Session.{Request}
use go2bank.Api.Validator.{decimal}
use go2bank.Db.Error.{message}
use go2bank.Redis.Memory.{memory-IsMap, remove, Memory, memory, lookup}
use go2bank.Samples.{ann_payload, bank}
use go2bank.Token.{verify_token, valid}
use go2bank.Token.Sample.{toy, is_ann, maker}
use go2bank.Api.Gin.{
  returned, abort, Exit, panicked, World, json, notice, error, respond, Handler, next,
  ◌>>=◌ as handler_bind,
}

abbrev reply : Handler Memory Unit
reply = respond 200 (notice "message" "reached")

abbrev with_cookie : Request
with_cookie = record {
  cookie = λ name. if name == "access_token" then some "sealed" else none;
  header = λ _. "";
  client_ip = "::1";
}

abbrev one_field : Request
one_field = record {
  cookie = λ _. none;
  header = λ name. if name == "authorization" then "Bearer" else "";
  client_ip = "::1";
}

abbrev seeded : World Memory
seeded = record {
  db = bank;
  kv = record { values = ("otp:ann", "seed") ∷ []; windows = [] };
  payload = some ann_payload;
  calls = [];
}

abbrev verify_seed : String → ℤ → String → ℕ → Bool
verify_seed secret _ code _ = secret == "seed" && code == "123456"

middleware_code : Unit {0}
unfolding auth_middleware token_in fields_after to_lower verify_token valid is_ann handler_bind
    rate_limit_middleware decimal lookup remove leb_ℤ ltb_ℤ ◌-ℤ◌
middleware_code = tt

reaches : (auth_middleware toy maker 800 with_cookie reply seeded).0 ≡ next tt
unfolding middleware_code
reaches = refl

-- A header with the one word Bearer: the answer 401 is written, and then the index panics.
panics_on_one_field :
    let (r, w) = auth_middleware toy maker 800 one_field reply seeded in
    (r ≡ panicked)
    × (w.calls ≡ abort ∷ json 401 (error (message "invalid authorization header")) ∷ [])
unfolding middleware_code
panics_on_one_field = (refl, refl)

abbrev limited : ℕ → World Memory → Exit Unit × World Memory
limited current w =
    rate_limit_middleware memory (λ _. "2025") "test" 1 1000 with_cookie current current current
      reply w

-- With a limit of one request in a second, a second one passes, and the third does not.
second_passes : (limited 5200 (limited 5100 seeded).1).0 ≡ next tt
unfolding middleware_code
second_passes = refl

third_is_rejected : (limited 5300 (limited 5200 (limited 5100 seeded).1).1).0 ≡ returned
unfolding middleware_code
third_is_rejected = refl

auth_middleware-safe_example :
    ((auth_middleware toy maker 800 with_cookie reply seeded).1.db ≡ bank)
    ⊎ Authorizes toy maker 800 with_cookie reply seeded
        (auth_middleware toy maker 800 with_cookie reply seeded)
auth_middleware-safe_example = auth_middleware-safe toy maker 800 with_cookie reply seeded

rate_limit_middleware-safe_example :
    ((limited 5100 seeded).1.db ≡ bank)
    ⊎ Admits memory "test" 1 1000 with_cookie 5100 reply seeded (limited 5100 seeded)
rate_limit_middleware-safe_example =
    rate_limit_middleware-safe memory (λ _. "2025") "test" 1 1000 with_cookie 5100 5100 5100 reply
      seeded

verify_otp_middleware-safe_example :
    ((verify_otp_middleware memory verify_seed 60000000000 100 (some "123456") reply seeded).1.db
      ≡ bank)
    ⊎ Confirms memory verify_seed 60000000000 100
        (some "123456")
        reply
        seeded
        (verify_otp_middleware memory verify_seed 60000000000 100 (some "123456") reply seeded)
verify_otp_middleware-safe_example =
    verify_otp_middleware-safe memory verify_seed 60000000000 100 (some "123456") reply seeded

-- The code of `ann` is used once.
abbrev used : World Memory
used = (verify_otp_middleware memory verify_seed 60000000000 100 (some "123456") reply seeded).1

-- Another request has been counted since.
abbrev counted : World Memory
counted = record seeded { kv = (memory.zadd "::1:ann:test" 5100 5100 used.kv).1 }

spared : Spares memory "otp:ann" used.kv counted.kv
spared =
    then_zadd no_call "::1:ann:test" 5100 5100 λ h. let e = ap count h in absurd (omega (arith, e))

verify_otp_middleware-once_example :
    let o =
      verify_otp_middleware memory verify_seed 60000000000 101 (some "123456") reply counted in
    (o.0 ≡ returned) × (o.1.db ≡ bank)
unfolding middleware_code
verify_otp_middleware-once_example =
    verify_otp_middleware-once memory memory-IsMap verify_seed 60000000000 memory-IsKeyed 100 101
      "123456" "seed" "123456" ann_payload reply reply seeded counted refl refl refl
      (λ h. absurd (cc)) refl spared refl
