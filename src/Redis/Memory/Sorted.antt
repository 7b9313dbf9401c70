-- ===== src/Redis/Memory/Sorted.antt =====
-- The sorted sets of the store in memory.
use go2bank.Prelude.{ℕ, String, ◌≡◌, refl, ◌∙◌, not, List, arith, eq_iff, filter}
use go2bank.Prelude.Int.{ℤ, pos, leb_ℤ}
use go2bank.Redis.Sparing.{IsKeyed}
use go2bank.Redis.{insert, IsSortedSet}
use go2bank.Redis.Memory.{lookup, memory, Memory, outside, put_window, window_at}

window_at-put_window :
    (key : String) (ns : List ℕ) (m : Memory) → window_at key (put_window key ns m) ≡ ns
unfolding lookup
window_at-put_window key ns m = ground (arith, eq_iff key key)

outside-high : (high : ℤ) (n : ℕ) → outside (pos 0) high n ≡ not (leb_ℤ (pos n) high)
unfolding leb_ℤ
outside-high high n = ground arith

filter-outside :
    (high : ℤ) (ns : List ℕ)
    → filter (outside (pos 0) high) ns ≡ filter (λ n. not (leb_ℤ (pos n) high)) ns
filter-outside high ns = λ i. filter (λ n. outside-high high n i) ns

unfoldable pub memory-IsSortedSet : IsSortedSet memory
unfolding window_at-put_window filter-outside outside-high
memory-IsSortedSet = record {
  members = window_at;
  zcard-members = λ key s. refl;
  zcard-reads = λ key s. refl;
  zrange-reads = λ key first last s. refl;
  zrem-members = λ key high s. window_at-put_window key _ s ∙ filter-outside high (window_at key s);
  zadd-members = λ key n s. window_at-put_window key (insert n (window_at key s)) s;
  expire-reads = λ key time s. refl;
}

-- The values and the windows of the store in memory are apart.
pub memory-IsKeyed : IsKeyed memory
memory-IsKeyed = record {
  get-zrem_other = λ key other low high s h. refl;
  get-zcard_other = λ key other s h. refl;
  get-zadd_other = λ key other score member s h. refl;
  get-zrange_other = λ key other first last s h. refl;
  get-expire_other = λ key other time s h. refl;
}
