-- ===== src/Redis/Client.antt =====
-- The methods of `RedisStore`, over the commands of the client go-redis.
use go2bank.Prelude.{
  ℕ, String, ◌≡◌, refl, sym, ap, ◌∙◌, ◌≢◌, Bool, Option, none, some, List, [], ◌∷◌,
}
use go2bank.Prelude.Int.{ℤ}
use go2bank.Db.Error.{message, Error}
use go2bank.Db.Query.{err, ok, Result}
use go2bank.Redis.{IsMap, KvStore}
use go2bank.Redis.Sparing.{IsKeyed}

-- A command that was run: its value, and its error.
pub record Cmd (A : Type 0) : Type 0 where
  pub value : A
  pub failed : Option Error

-- `Result()`: the code reads the value only where there is no error.
abbrev pub cmd_result : {A : Type 0} → Cmd A → Result A
cmd_result c = elim c.failed [ none ↦ ok c.value | some e ↦ err e ]

-- A member of a sorted set, `redis.Z`.
pub record Z : Type 0 where
  pub score : ℕ
  pub member : ℕ

pub record RedisClient (S : Type 0) : Type 0 where
  pub set : String → String → ℕ → S → Cmd String × S
  pub get : String → S → Cmd String × S
  pub del : List String → S → Cmd ℕ × S
  pub exists : List String → S → Cmd ℕ × S
  pub zrem_range_by_score : String → ℤ → ℤ → S → Cmd ℕ × S
  pub zcard : String → S → Cmd ℕ × S
  pub zadd : String → List Z → S → Cmd ℕ × S
  pub zrange : String → ℤ → ℤ → S → Cmd (List ℕ) × S
  pub expire : String → ℕ → S → Cmd Bool × S

module _ {S : Type 0} where
  abbrev pub error_of : {A : Type 0} → Cmd A × S → Option Error × S
  error_of (c, s) = (c.failed, s)

  abbrev pub result_of : {A : Type 0} → Cmd A × S → Result A × S
  result_of (c, s) = (cmd_result c, s)

  module _ (client : RedisClient S) where
    abbrev pub set : String → String → ℕ → S → Option Error × S
    set key value expiration s = error_of (client.set key value expiration s)

    abbrev pub get : String → S → Result String × S
    get key s = result_of (client.get key s)

    abbrev pub del : String → S → Option Error × S
    del key s = error_of (client.del (key ∷ []) s)

    abbrev pub exists : String → S → Result ℕ × S
    exists key s = result_of (client.exists (key ∷ []) s)

    abbrev pub zrem_range_by_score : String → ℤ → ℤ → S → Option Error × S
    zrem_range_by_score key first last s = error_of (client.zrem_range_by_score key first last s)

    abbrev pub zcard : String → S → Result ℕ × S
    zcard key s = result_of (client.zcard key s)

    abbrev pub zadd : String → List Z → S → Option Error × S
    zadd key members s = error_of (client.zadd key members s)

    abbrev pub zrange : String → ℤ → ℤ → S → Result (List ℕ) × S
    zrange key first last s = result_of (client.zrange key first last s)

    abbrev pub expire : String → ℕ → S → Option Error × S
    expire key window_size s = error_of (client.expire key window_size s)

    -- `NewRedisStore`. The code adds one member at a time.
    abbrev pub new_redis_store : KvStore S
    new_redis_store = record {
      set = set;
      get = get;
      del = del;
      exists = exists;
      zrem_range_by_score = zrem_range_by_score;
      zcard = zcard;
      zadd = λ key score member. zadd key (record { score = score; member = member } ∷ []);
      zrange = zrange;
      expire = expire;
    }

abbrev pub value_of : Option String → Result String
value_of none = err (message "redis: nil")
value_of (some v) = ok v

-- What the server documents of its commands on keys with values.
pub record IsRedis {S : Type 0} (client : RedisClient S) : Type 0 where
  pub stored : String → S → Option String
  pub get-stored :
      (key : String) (s : S) → cmd_result (client.get key s).0 ≡ value_of (stored key s)
  pub get-reads : (key : String) (s : S) → (client.get key s).1 ≡ s
  pub exists-stored :
      (key v : String) (s : S)
      → stored key s ≡ some v
      → cmd_result (client.exists (key ∷ []) s).0 ≡ ok 1
  pub exists-reads : (keys : List String) (s : S) → (client.exists keys s).1 ≡ s
  pub set-stored :
      (key value : String) (time : ℕ) (s : S)
      → (client.set key value time s).0.failed ≡ none
      → stored key (client.set key value time s).1 ≡ some value
  pub set-stored_other :
      (key value other : String) (time : ℕ) (s : S)
      → other ≢ key
      → stored other (client.set key value time s).1 ≡ stored other s
  pub del-stored :
      (key : String) (s : S)
      → (client.del (key ∷ []) s).0.failed ≡ none
      → stored key (client.del (key ∷ []) s).1 ≡ none
  pub del-stored_other :
      (key other : String) (s : S)
      → other ≢ key
      → stored other (client.del (key ∷ []) s).1 ≡ stored other s
  -- Of the commands on sorted sets, and on the age of a key.
  pub zrem_range_by_score-stored_other :
      (key other : String) (low high : ℤ) (s : S)
      → other ≢ key
      → stored other (client.zrem_range_by_score key low high s).1 ≡ stored other s
  pub zcard-reads : (key : String) (s : S) → (client.zcard key s).1 ≡ s
  pub zadd-stored_other :
      (key other : String) (members : List Z) (s : S)
      → other ≢ key
      → stored other (client.zadd key members s).1 ≡ stored other s
  pub zrange-reads :
      (key : String) (first last : ℤ) (s : S) → (client.zrange key first last s).1 ≡ s
  pub expire-stored_other :
      (key other : String) (time : ℕ) (s : S)
      → other ≢ key
      → stored other (client.expire key time s).1 ≡ stored other s

value_of-ok : (o : Option String) (v : String) → value_of o ≡ ok v → o ≡ some v
value_of-ok none v h = absurd (cc)
value_of-ok (some x) v h = cc

module _ {S : Type 0} (client : RedisClient S) (is_redis : IsRedis client) where
  -- The store over a client of such a server is a map.
  pub new_redis_store-IsMap : IsMap (new_redis_store client)
  new_redis_store-IsMap = record {
    get-set = λ key value time s s' h.
        let same = ap (λ (o : Option Error × S). o.1) h in
        let kept = is_redis.set-stored key value time s (ap (λ (o : Option Error × S). o.0) h) in
        rw (← same, is_redis.get-stored, kept) refl;
    get-set_other = λ key value other time s h.
        rw
          (
            is_redis.get-stored,
            is_redis.get-stored,
            is_redis.set-stored_other key value other time s h,
          )
          refl;
    get-del = λ key s s' h.
        let same = ap (λ (o : Option Error × S). o.1) h in
        let gone = is_redis.del-stored key s (ap (λ (o : Option Error × S). o.0) h) in
        rw (← same, is_redis.get-stored, gone) refl;
    get-del_other = λ key other s h.
        rw (is_redis.get-stored, is_redis.get-stored, is_redis.del-stored_other key other s h) refl;
    exists_of_get = λ key value s h. (
      0,
      is_redis.exists-stored key value s
          (value_of-ok (is_redis.stored key s) value (sym (is_redis.get-stored key s) ∙ h)),
    );
    get-reads = λ key s. is_redis.get-reads key s;
    exists-reads = λ key s. is_redis.exists-reads (key ∷ []) s;
  }

  same_value :
      (other : String) (s s' : S)
      → is_redis.stored other s' ≡ is_redis.stored other s
      → cmd_result (client.get other s').0 ≡ cmd_result (client.get other s).0
  same_value other s s' h = rw (is_redis.get-stored, is_redis.get-stored, h) refl

  -- On the store over such a client, a command on one key leaves the values at others.
  pub new_redis_store-IsKeyed : IsKeyed (new_redis_store client)
  new_redis_store-IsKeyed = record {
    get-zrem_other = λ key other low high s h.
        same_value other s _ (is_redis.zrem_range_by_score-stored_other key other low high s h);
    get-zcard_other =
        λ key other s h. ap (λ t. cmd_result (client.get other t).0) (is_redis.zcard-reads key s);
    get-zadd_other = λ key other score member s h.
        same_value other s _ (is_redis.zadd-stored_other key other _ s h);
    get-zrange_other = λ key other first last s h.
        ap (λ t. cmd_result (client.get other t).0) (is_redis.zrange-reads key first last s);
    get-expire_other = λ key other time s h.
        same_value other s _ (is_redis.expire-stored_other key other time s h);
  }
