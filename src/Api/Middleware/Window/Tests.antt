-- ===== src/Api/Middleware/Window/Tests.antt =====
-- Requests of one user under a limit of one request in a second.
use go2bank.Prelude.{ℕ, ◌≤◌, ◌≡◌, refl, Bool, true, false, none, some, List, [], ◌∷◌, arith, length}
use go2bank.Prelude.Int.{◌-ℤ◌, leb_ℤ}
use go2bank.Api.Gin.{◌>>=◌ as handler_bind}
use go2bank.Api.Gin.{World}
use go2bank.Api.Middleware.{rate_limit_middleware}
use go2bank.Api.Middleware.Window.{log_run, repeat}
use go2bank.Api.Middleware.Window.Limits.{rate_limit_middleware-burst, rate_limit_middleware-bounds}
use go2bank.Api.Middleware.Window.Refines.{requests_at, rate_limit_middleware-refines}
use go2bank.Api.Session.{Request}
use go2bank.Api.Validator.{decimal}
use go2bank.Redis.Memory.{Memory, remove, lookup, window_at, memory}
use go2bank.Redis.Memory.Sorted.{memory-IsSortedSet}
use go2bank.Samples.{bank, ann_payload}

abbrev caller : Request
caller = record { cookie = λ _. none; header = λ _. ""; client_ip = "::1" }

abbrev empty : Memory
empty = record { values = []; windows = [] }

abbrev signed_in : World Memory
signed_in = record { db = bank; kv = empty; payload = some ann_payload; calls = [] }

abbrev run : List ℕ → List Bool × Memory
run ts = requests_at memory (λ _. "2025") "test" 1 1000 caller signed_in ts empty

window_code : Unit {0}
unfolding rate_limit_middleware decimal lookup remove leb_ℤ ◌-ℤ◌ requests_at log_run handler_bind
window_code = tt

answers : (run (5100 ∷ 5200 ∷ 5300 ∷ 6150 ∷ [])).0 ≡ true ∷ true ∷ false ∷ true ∷ []
unfolding window_code
answers = refl

rate_limit_middleware-refines_example :
    let o = run (5100 ∷ 5200 ∷ 5300 ∷ 6150 ∷ []) in
    (o.0, window_at "::1:ann:test" o.1) ≡ log_run 1 1000 (5100 ∷ 5200 ∷ 5300 ∷ 6150 ∷ []) []
unfolding memory-IsSortedSet lookup
rate_limit_middleware-refines_example =
    rate_limit_middleware-refines memory (λ _. "2025") "test" 1 1000 caller signed_in
      memory-IsSortedSet ann_payload refl (5100 ∷ 5200 ∷ 5300 ∷ 6150 ∷ []) empty

rate_limit_middleware-bounds_example :
    length (window_at "::1:ann:test" (run (5100 ∷ 5200 ∷ 5300 ∷ [])).1) ≤ 2
unfolding memory-IsSortedSet lookup
rate_limit_middleware-bounds_example =
    rate_limit_middleware-bounds memory memory-IsSortedSet (λ _. "2025") "test" 1 1000 caller
      signed_in ann_payload refl (5100 ∷ 5200 ∷ 5300 ∷ []) empty (omega arith)

rate_limit_middleware-burst_example : (run (repeat 4 5100)).0 ≡ repeat 4 true
unfolding memory-IsSortedSet lookup
rate_limit_middleware-burst_example =
    rate_limit_middleware-burst memory memory-IsSortedSet (λ _. "2025") "test" 1 1000 caller
      signed_in ann_payload refl 4 5100 empty (omega arith) (omega arith)
