-- ===== src/Redis/Sparing.antt =====
-- Calls of the key-value store that do not write one key: what is read there stays.
use go2bank.Prelude.{ℕ, String, ◌≡◌, refl, ap, ◌∙◌, ◌≢◌}
use go2bank.Prelude.Int.{ℤ}
use go2bank.Redis.{KvStore, IsMap}

-- What the server documents of sorted sets and of the age of keys: a command on one key leaves the
-- value at every other key.
pub record IsKeyed {S : Type 0} (kv : KvStore S) : Type 0 where
  pub get-zrem_other :
      (key other : String) (low high : ℤ) (s : S)
      → other ≢ key
      → (kv.get other (kv.zrem_range_by_score key low high s).1).0 ≡ (kv.get other s).0
  pub get-zcard_other :
      (key other : String) (s : S)
      → other ≢ key
      → (kv.get other (kv.zcard key s).1).0 ≡ (kv.get other s).0
  pub get-zadd_other :
      (key other : String) (score member : ℕ) (s : S)
      → other ≢ key
      → (kv.get other (kv.zadd key score member s).1).0 ≡ (kv.get other s).0
  pub get-zrange_other :
      (key other : String) (first last : ℤ) (s : S)
      → other ≢ key
      → (kv.get other (kv.zrange key first last s).1).0 ≡ (kv.get other s).0
  pub get-expire_other :
      (key other : String) (time : ℕ) (s : S)
      → other ≢ key
      → (kv.get other (kv.expire key time s).1).0 ≡ (kv.get other s).0

-- The states that any calls reach which read the key at most, and write what they like elsewhere.
pub data Spares {S : Type 0} (kv : KvStore S) (key : String) (s : S) : S → Type 0 where
  no_call : Spares kv key s s
  then_get : {t : S} → Spares kv key s t → (other : String) → Spares kv key s (kv.get other t).1
  then_exists :
      {t : S} → Spares kv key s t → (other : String) → Spares kv key s (kv.exists other t).1
  then_set :
      {t : S}
      → Spares kv key s t
      → (other value : String) (time : ℕ) → key ≢ other
      → Spares kv key s (kv.set other value time t).1
  then_del :
      {t : S}
      → Spares kv key s t
      → (other : String) → key ≢ other
      → Spares kv key s (kv.del other t).1
  then_zrem :
      {t : S}
      → Spares kv key s t
      → (other : String) (low high : ℤ) → key ≢ other
      → Spares kv key s (kv.zrem_range_by_score other low high t).1
  then_zcard :
      {t : S}
      → Spares kv key s t
      → (other : String) → key ≢ other
      → Spares kv key s (kv.zcard other t).1
  then_zadd :
      {t : S}
      → Spares kv key s t
      → (other : String) (score member : ℕ) → key ≢ other
      → Spares kv key s (kv.zadd other score member t).1
  then_zrange :
      {t : S}
      → Spares kv key s t
      → (other : String) (first last : ℤ) → key ≢ other
      → Spares kv key s (kv.zrange other first last t).1
  then_expire :
      {t : S}
      → Spares kv key s t
      → (other : String) (time : ℕ) → key ≢ other
      → Spares kv key s (kv.expire other time t).1

-- The calls leave what is read at the key.
pub Spares-get :
    {S : Type 0} {kv : KvStore S} {key : String} {s t : S}
    → IsMap kv
    → IsKeyed kv
    → Spares kv key s t
    → (kv.get key t).0 ≡ (kv.get key s).0
Spares-get m k no_call = refl
Spares-get {kv} {key} m k (then_get {t} r other) =
    ap (λ x. (kv.get key x).0) (m.get-reads other t) ∙ Spares-get m k r
Spares-get {kv} {key} m k (then_exists {t} r other) =
    ap (λ x. (kv.get key x).0) (m.exists-reads other t) ∙ Spares-get m k r
Spares-get m k (then_set {t} r other value time apart) =
    m.get-set_other other value _ time t apart ∙ Spares-get m k r
Spares-get m k (then_del {t} r other apart) = m.get-del_other other _ t apart ∙ Spares-get m k r
Spares-get m k (then_zrem {t} r other low high apart) =
    k.get-zrem_other other _ low high t apart ∙ Spares-get m k r
Spares-get m k (then_zcard {t} r other apart) = k.get-zcard_other other _ t apart ∙ Spares-get m k r
Spares-get m k (then_zadd {t} r other score member apart) =
    k.get-zadd_other other _ score member t apart ∙ Spares-get m k r
Spares-get m k (then_zrange {t} r other first last apart) =
    k.get-zrange_other other _ first last t apart ∙ Spares-get m k r
Spares-get m k (then_expire {t} r other time apart) =
    k.get-expire_other other _ time t apart ∙ Spares-get m k r

pub Spares-trans :
    {S : Type 0} {kv : KvStore S} {key : String} {s t u : S}
    → Spares kv key s t
    → Spares kv key t u
    → Spares kv key s u
Spares-trans r no_call = r
Spares-trans r (then_get q other) = then_get (Spares-trans r q) other
Spares-trans r (then_exists q other) = then_exists (Spares-trans r q) other
Spares-trans r (then_set q other value time h) = then_set (Spares-trans r q) other value time h
Spares-trans r (then_del q other h) = then_del (Spares-trans r q) other h
Spares-trans r (then_zrem q other low high h) = then_zrem (Spares-trans r q) other low high h
Spares-trans r (then_zcard q other h) = then_zcard (Spares-trans r q) other h
Spares-trans r (then_zadd q other score member h) =
    then_zadd (Spares-trans r q) other score member h
Spares-trans r (then_zrange q other first last h) =
    then_zrange (Spares-trans r q) other first last h
Spares-trans r (then_expire q other time h) = then_expire (Spares-trans r q) other time h
