-- ===== src/Api/Middleware/Window.antt =====
-- The log of requests that `rateLimitMiddleware` keeps, as a specification: how many stand in a
-- window, and requests of one millisecond.
pub mod Refines
pub mod Limits
mod Tests
use go2bank.Prelude.{
  ℕ, zero, suc, ◌+◌, ◌≤◌, ◌<◌, ◌≡◌, refl, ap, ◌∙◌, ◌⊎◌, inl, inr, Bool, true, false, not, List, [],
  ◌∷◌, ◌++◌, arith, ltb, ◌==◌, nat_eq, string_eq, if◌then◌else◌, Bool-cases, length, filter, any,
  length-append,
}
use go2bank.Prelude.Int.{pos, ◌-ℤ◌, leb_ℤ, leb_ℤ_iff, -ℤ_parts}
use go2bank.Api.Middleware.Admission.{rate_limit_middleware-admitted}
use go2bank.Db.Query.{ok}
use go2bank.Api.Gin.{World, returned, Exit, done, panicked, ◌>>=◌, next}
use go2bank.Api.Middleware.{rate_key, rate_limit_middleware}
use go2bank.Api.Session.{Request}
use go2bank.Token.{Payload}
use go2bank.Redis.{KvStore, IsSortedSet, insert}

filter-length-le : (p : ℕ → Bool) (xs : List ℕ) → length (filter p xs) ≤ length xs
filter-length-le p [] = omega arith
filter-length-le p (x ∷ xs) = let k = filter-length-le p xs in ground (arith, k)

filter_twice : (p : ℕ → Bool) (xs : List ℕ) → filter p (filter p xs) ≡ filter p xs
filter_twice p [] = refl
filter_twice p (x ∷ xs) = elim (Bool-cases (p x)) [
  | inl e ↦ rw (e, if◌then◌else◌, e, if◌then◌else◌, filter_twice p xs) refl
  | inr e ↦ rw (e, if◌then◌else◌) (filter_twice p xs)
]

filter-snoc :
    (p : ℕ → Bool) (xs : List ℕ) (x : ℕ)
    → p x ≡ true
    → filter p (xs ++ x ∷ []) ≡ filter p xs ++ x ∷ []
filter-snoc p [] x h = rw (h, if◌then◌else◌) refl
filter-snoc p (y ∷ xs) x h = elim (Bool-cases (p y)) [
  | inl e ↦ rw (e, if◌then◌else◌, filter-snoc p xs x h) refl
  | inr e ↦ rw (e, if◌then◌else◌) (filter-snoc p xs x h)
]

insert-length-le : (x : ℕ) (xs : List ℕ) → length (insert x xs) ≤ length xs + 1
insert-length-le x xs = elim (Bool-cases (any (λ m. m == x) xs)) [
  | inl e ↦ rw (e, if◌then◌else◌) (omega arith)
  | inr e ↦ rw (e, if◌then◌else◌) (omega (arith, length-append xs (x ∷ [])))
]

any-snoc : (x : ℕ) (xs : List ℕ) → any (λ m. m == x) (xs ++ x ∷ []) ≡ true
any-snoc x [] = ground arith
any-snoc x (y ∷ xs) = ground (arith, any-snoc x xs)

-- The requests of a window as a log of their times: a request first forgets those that are
-- `window` old, and is let through if at most `max_requests` are remaining.
abbrev pub in_window : ℕ → ℕ → ℕ → Bool
in_window window current n = not (leb_ℤ (pos n) (pos current -ℤ pos window))

abbrev pub kept : ℕ → ℕ → List ℕ → List ℕ
kept window current log = filter (in_window window current) log

pub log_step : ℕ → ℕ → ℕ → List ℕ → Bool × List ℕ
log_step max_requests window current log =
    if ltb max_requests (length (kept window current log))
    then (false, kept window current log)
    else (true, insert current (kept window current log))

unfoldable pub log_run : ℕ → ℕ → List ℕ → List ℕ → List Bool × List ℕ
unfolding log_step
log_run max_requests window [] log = ([], log)
log_run max_requests window (t ∷ ts) log =
    let (through, log') = log_step max_requests window t log in
    let (others, last) = log_run max_requests window ts log' in (through ∷ others, last)

log_step-length :
    (max_requests window t : ℕ) (log : List ℕ)
    → length log ≤ max_requests + 1
    → length (log_step max_requests window t log).1 ≤ max_requests + 1
unfolding log_step
log_step-length max_requests window t log few =
    let k = filter-length-le (in_window window t) log in
    let i = insert-length-le t (kept window t log) in
    elim (Bool-cases (ltb max_requests (length (kept window t log)))) [
      | inl e ↦ rw (e, if◌then◌else◌) (omega (arith, k))
      | inr e ↦ rw (e, if◌then◌else◌) (ground (arith, i, e))
    ]

pub log_run-length :
    (max_requests window : ℕ) (ts log : List ℕ)
    → length log ≤ max_requests + 1
    → length (log_run max_requests window ts log).1 ≤ max_requests + 1
unfolding log_run
log_run-length max_requests window [] log few = few
log_run-length max_requests window (t ∷ ts) log few =
    log_run-length max_requests window ts (log_step max_requests window t log).1
      (log_step-length max_requests window t log few)

pub repeat : {A : Type 0} → ℕ → A → List A
repeat zero a = []
repeat (suc n) a = a ∷ repeat n a

now-in_window : (window t : ℕ) → 0 < window → in_window window t t ≡ true
now-in_window window t lasts =
    let p = leb_ℤ_iff (pos t) (pos t -ℤ pos window) in
    let q = -ℤ_parts (pos t) (pos window) in ground (arith, p, q)

-- Room for one more request at `t`, or one already there.
abbrev Fits : ℕ → ℕ → ℕ → List ℕ → Type 0
Fits max_requests window t log =
    (length (kept window t log) < max_requests)
    ⊎ ((length (kept window t log) ≤ max_requests) × (any (λ m. m == t) (kept window t log) ≡ true))

kept-snoc :
    (window t : ℕ) (log : List ℕ)
    → 0 < window
    → kept window t (kept window t log ++ t ∷ []) ≡ kept window t log ++ t ∷ []
kept-snoc window t log lasts =
    filter-snoc (in_window window t) (kept window t log) t (now-in_window window t lasts)
    ∙ ap (λ ns. ns ++ t ∷ []) (filter_twice (in_window window t) log)

Fits-insert :
    (max_requests window t : ℕ) (log : List ℕ)
    → 0 < window
    → Fits max_requests window t log
    → Fits max_requests window t (insert t (kept window t log))
Fits-insert max_requests window t log lasts fits =
    elim (Bool-cases (any (λ m. m == t) (kept window t log))) [
      | inl e ↦ rw (e, if◌then◌else◌, filter_twice (in_window window t) log) fits
      | inr e ↦
          rw (e, if◌then◌else◌, kept-snoc window t log lasts)
            (inr (
              elim fits [
                | inl h ↦ omega (arith, h, length-append (kept window t log) (t ∷ []))
                | inr h ↦ let there = h.1 in absurd (cc)
              ],
              any-snoc t (kept window t log),
            ))
    ]

log_step-Fits :
    (max_requests window t : ℕ) (log : List ℕ)
    → 0 < window
    → Fits max_requests window t log
    → ((log_step max_requests window t log).0 ≡ true)
      × Fits max_requests window t (log_step max_requests window t log).1
unfolding log_step
log_step-Fits max_requests window t log lasts fits =
    let within : ltb max_requests (length (kept window t log)) ≡ false = elim fits [
      | inl h ↦ ground (arith, h)
      | inr h ↦ let few = h.0 in ground (arith, few)
    ] in
    rw (within, if◌then◌else◌) (refl, Fits-insert max_requests window t log lasts fits)

pub log_run-burst :
    (n max_requests window t : ℕ) (log : List ℕ)
    → 0 < window
    → Fits max_requests window t log
    → (log_run max_requests window (repeat n t) log).0 ≡ repeat n true
unfolding log_run repeat
log_run-burst zero max_requests window t log lasts fits = refl
log_run-burst (suc n) max_requests window t log lasts fits =
    let (through, still) = log_step-Fits max_requests window t log lasts fits in
    rw (through, log_run-burst n max_requests window t _ lasts still) refl
