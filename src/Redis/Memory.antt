-- ===== src/Redis/Memory.antt =====
-- A key-value store in memory: an instance of the interface, for the tests.
pub mod Sorted
use go2bank.Prelude.{
  ℕ, ◌+◌, ◌-◌, String, ◌≡◌, refl, ap, ◌≢◌, Bool, not, ◌&&◌, Option, none, some, List, [], ◌∷◌,
  arith, eq_iff, ◌==◌, nat_eq, string_eq, if◌then◌else◌, length, take, drop, filter,
}
use go2bank.Prelude.Int.{ℤ, pos, pos_part, leb_ℤ}
use go2bank.Db.Error.{Error, message}
use go2bank.Db.Query.{Result, ok, err}
use go2bank.Redis.{insert, IsMap, KvStore}

module _ {V : Type 0} where
  unfoldable pub lookup : String → List (String × V) → Option V
  lookup key [] = none
  lookup key ((k, v) ∷ rest) = if k == key then some v else lookup key rest

  unfoldable pub remove : String → List (String × V) → List (String × V)
  remove key [] = []
  remove key ((k, v) ∷ rest) =
      let others = remove key rest in if k == key then others else (k, v) ∷ others

  pub lookup-remove :
      (key : String) (rows : List (String × V)) → lookup key (remove key rows) ≡ none
  unfolding lookup remove
  lookup-remove key [] = refl
  lookup-remove key ((k, v) ∷ rest) = ground (arith, eq_iff k key, lookup-remove key rest)

  pub lookup-remove_other :
      (key other : String) (rows : List (String × V))
      → other ≢ key
      → lookup other (remove key rows) ≡ lookup other rows
  unfolding lookup remove
  lookup-remove_other key other [] h = refl
  lookup-remove_other key other ((k, v) ∷ rest) h =
      ground (arith, eq_iff k key, eq_iff k other, lookup-remove_other key other rest h)

pub record Memory : Type 0 where
  pub values : List (String × String)
  pub windows : List (String × List ℕ)

abbrev pub window_at : String → Memory → List ℕ
window_at key m = elim (lookup key m.windows) [ none ↦ [] | some w ↦ w ]

abbrev pub put_window : String → List ℕ → Memory → Memory
put_window key window m = record m { windows = (key, window) ∷ remove key m.windows }

abbrev value_at : Option String → Result String
value_at none = err (message "redis: nil")
value_at (some v) = ok v

abbrev count_of : Option String → ℕ
count_of none = 0
count_of (some _) = 1

abbrev pub outside : ℤ → ℤ → ℕ → Bool
outside low high score = not (leb_ℤ low (pos score) && leb_ℤ (pos score) high)

abbrev pub memory : KvStore Memory
memory = record {
  set = λ key value _ m. (none, record m { values = (key, value) ∷ remove key m.values });
  get = λ key m. (value_at (lookup key m.values), m);
  del = λ key m. (none, record m { values = remove key m.values });
  exists = λ key m. (ok (count_of (lookup key m.values)), m);
  zrem_range_by_score =
      λ key low high m. (none, put_window key (filter (outside low high) (window_at key m)) m);
  zcard = λ key m. (ok (length (window_at key m)), m);
  zadd = λ key score member m. (none, put_window key (insert member (window_at key m)) m);
  zrange = λ key first last m.
      (ok (take (pos_part last + 1 - pos_part first) (drop (pos_part first) (window_at key m))), m);
  expire = λ key _ m. (none, m);
}

exists_of_value :
    (found : Option String) (value : String)
    → value_at found ≡ ok value
    → (n : ℕ) × (◌≡◌ {A = Result ℕ} (ok (count_of found)) (ok (n + 1)))
exists_of_value none value h = absurd (cc)
exists_of_value (some v) value h = (0, refl)

pub memory-IsMap : IsMap memory
unfolding lookup
memory-IsMap = record {
  get-set = λ key value time s s' h.
      let e = ap (λ (o : Option Error × Memory). o.1) h in
      rw (← e) (ground (arith, eq_iff key key));
  get-set_other = λ key value other time s h.
      ground (arith, eq_iff key other, lookup-remove_other key other s.values h);
  get-del = λ key s s' h.
      let e = ap (λ (o : Option Error × Memory). o.1) h in
      rw (← e) (ap value_at (lookup-remove key s.values));
  get-del_other = λ key other s h. ap value_at (lookup-remove_other key other s.values h);
  exists_of_get = λ key value s h. exists_of_value (lookup key s.values) value h;
  get-reads = λ key s. refl;
  exists-reads = λ key s. refl;
}
