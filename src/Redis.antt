-- ===== src/Redis.antt =====
-- redis/redis.go: the interface of the key-value store. Its methods pass every call on to the
-- client go-redis, whose server is the state `S`. The members of a sorted set are the numbers that
-- the code puts in; the bounds of a range of scores are numbers, which the code prints.
pub mod Client
pub mod Sparing
pub mod Memory
use go2bank.Prelude.{
  ℕ, ◌+◌, String, ◌≡◌, ◌≢◌, not, Option, none, List, [], ◌∷◌, ◌++◌, ◌==◌, nat_eq, string_eq,
  if◌then◌else◌, length, filter, any,
}
use go2bank.Prelude.Int.{ℤ, pos, leb_ℤ}
use go2bank.Db.Error.{Error, message}
use go2bank.Db.Query.{err, Result, ok}

-- The interface `Store`. An expiration is in nanoseconds.
pub record KvStore (S : Type 0) : Type 0 where
  pub set : String → String → ℕ → S → Option Error × S
  pub get : String → S → Result String × S
  pub del : String → S → Option Error × S
  pub exists : String → S → Result ℕ × S
  pub zrem_range_by_score : String → ℤ → ℤ → S → Option Error × S
  pub zcard : String → S → Result ℕ × S
  pub zadd : String → ℕ → ℕ → S → Option Error × S
  pub zrange : String → ℤ → ℤ → S → Result (List ℕ) × S
  pub expire : String → ℕ → S → Option Error × S

-- What the server documents of keys and values, for calls that go through. Nothing is said of the
-- passing of time.
pub record IsMap {S : Type 0} (kv : KvStore S) : Type 0 where
  pub get-set :
      (key value : String) (time : ℕ) (s s' : S)
      → kv.set key value time s ≡ (none, s')
      → (kv.get key s').0 ≡ ok value
  pub get-set_other :
      (key value other : String) (time : ℕ) (s : S)
      → other ≢ key
      → (kv.get other (kv.set key value time s).1).0 ≡ (kv.get other s).0
  pub get-del :
      (key : String) (s s' : S)
      → kv.del key s ≡ (none, s')
      → (kv.get key s').0 ≡ err (message "redis: nil")
  pub get-del_other :
      (key other : String) (s : S)
      → other ≢ key
      → (kv.get other (kv.del key s).1).0 ≡ (kv.get other s).0
  pub exists_of_get :
      (key value : String) (s : S)
      → (kv.get key s).0 ≡ ok value
      → (n : ℕ) × ((kv.exists key s).0 ≡ ok (n + 1))
  pub get-reads : (key : String) (s : S) → (kv.get key s).1 ≡ s
  pub exists-reads : (key : String) (s : S) → (kv.exists key s).1 ≡ s

-- A member that is already there stays one member.
abbrev pub insert : ℕ → List ℕ → List ℕ
insert n ns = if any (λ m. m == n) ns then ns else ns ++ n ∷ []

-- What the server documents of a sorted set of numbers that are their own scores, while its calls
-- go through and no key expires.
pub record IsSortedSet {S : Type 0} (kv : KvStore S) : Type 0 where
  pub members : String → S → List ℕ
  pub zcard-members : (key : String) (s : S) → (kv.zcard key s).0 ≡ ok (length (members key s))
  pub zcard-reads : (key : String) (s : S) → members key (kv.zcard key s).1 ≡ members key s
  pub zrange-reads :
      (key : String) (first last : ℤ) (s : S)
      → members key (kv.zrange key first last s).1 ≡ members key s
  pub zrem-members :
      (key : String) (high : ℤ) (s : S)
      → members key (kv.zrem_range_by_score key (pos 0) high s).1
        ≡ filter (λ n. not (leb_ℤ (pos n) high)) (members key s)
  pub zadd-members :
      (key : String) (n : ℕ) (s : S) → members key (kv.zadd key n n s).1 ≡ insert n (members key s)
  pub expire-reads :
      (key : String) (time : ℕ) (s : S) → members key (kv.expire key time s).1 ≡ members key s

-- A call that returned no error, by its state.
pub pair_path : {S : Type 0} (o : Option Error × S) → o.0 ≡ none → o ≡ (none, o.1)
pair_path (a, s) e = cc
