-- ===== src/Api/Route/Tests.antt =====
-- A transfer through the whole route, and what the middlewares refuse.
use go2bank.Prelude.{
  String, ◌≡◌, refl, ◌⊎◌, ◌&&◌, Option, none, some, [], ◌∷◌, ◌==◌, nat_eq, string_eq, if◌then◌else◌,
}
use go2bank.Prelude.Int.{pos}
use go2bank.Redis.Memory.Sorted.{memory-IsKeyed}
use go2bank.Api.Middleware.{
  fields_after, verify_otp_middleware, auth_middleware, token_in, to_lower, rate_limit_middleware,
}
use go2bank.Api.Route.{Setting, transfer_route-safe, transfer_route, Entitled}
use go2bank.Api.Session.{Request}
use go2bank.Api.Validator.{decimal}
use go2bank.Redis.Memory.{memory-IsMap, lookup, Memory, remove, memory}
use go2bank.Samples.{ann_account, bank, bob_account, thousandths, request, lenient}
use go2bank.Token.{verify_token}
use go2bank.Token.Sample.{is_ann, toy, maker}
use go2bank.Api.Gin.{World, Exit}
use go2bank.Api.Transfer.Tests.{handler_code}

abbrev setting : Setting
setting = record {
  rfc3339 = λ _. "2025";
  verify_time = λ secret _ code _. secret == "seed" && code == "123456";
  max_requests = 2;
  limit_duration = 60000000000;
  now = 800;
  current = 100000;
  score = 100000;
  member = 100000;
  otp_now = 100;
}

abbrev with_bearer : Request
with_bearer = record {
  cookie = λ _. none;
  header = λ name. if name == "authorization" then "Bearer sealed" else "";
  client_ip = "::1";
}

abbrev start : World Memory
start = record {
  db = bank;
  kv = record { values = ("otp:ann", "seed") ∷ []; windows = [] };
  payload = none;
  calls = [];
}

abbrev run : Request → Option String → Exit Unit × World Memory
run sent otp =
    transfer_route memory toy maker lenient thousandths setting sent otp (some request) start

route_code : Unit {0}
unfolding handler_code transfer_route auth_middleware token_in fields_after to_lower verify_token
    rate_limit_middleware verify_otp_middleware decimal lookup remove is_ann
route_code = tt

pays :
    (run with_bearer (some "123456")).1.db.accounts
    ≡ record ann_account { balance = pos 70 } ∷ record bob_account { balance = pos 20 } ∷ []
unfolding route_code
pays = refl

-- The secret is deleted afterwards, so that the code serves once.
forgets : (run with_bearer (some "123456")).1.kv.values ≡ []
unfolding route_code
forgets = refl

wrong_code : (run with_bearer (some "000000")).1.db.tables ≡ bank.tables
unfolding route_code
wrong_code = refl

transfer_route-safe_example :
    ((run with_bearer (some "123456")).1.db.tables ≡ bank.tables)
    ⊎ Entitled memory toy maker lenient thousandths setting with_bearer
        (some "123456")
        (some request)
        start
        (run with_bearer (some "123456"))
transfer_route-safe_example =
    transfer_route-safe memory toy maker lenient thousandths setting with_bearer (some "123456")
      (some request) memory-IsMap memory-IsKeyed start refl
