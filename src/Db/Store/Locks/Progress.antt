-- ===== src/Db/Store/Locks/Progress.antt =====
-- Transfers that wait for each other's locks always come to an end.
-- A row that comes after the first rows of all that wait for their second is free.
use go2bank.Prelude.{
  ℕ, ◌+◌, ◌≤◌, ◌<◌, ◌≡◌, refl, subst, ◌⊎◌, inl, inr, Bool, true, false, not, List, [], ◌∷◌, ◌++◌,
  arith, ◌==◌, nat_eq, string_eq, if◌then◌else◌, any,
}
use go2bank.Db.Store.Locks.{
  updated, locks_first, is_second, Phase, first-le-second, is_updated, locks_second, Txn, moves,
  first_locked, held, may_lock, second_locked, waits_second, is_first, LockStep, LockRun, ended,
  ends, holds, waits_first, stays,
}
use go2bank.Db.Store.Locks.Choice.{
  All-map, All-without, find-Greatest, All-of_any, any-eq-false, Greatest, All,
}

held_later :
    (p : Phase) (one two id : ℕ)
    → is_updated p ≡ false
    → (is_second p ≡ true → one < id)
    → held p one two id ≡ false
held_later waits_first one two id u m = refl
held_later waits_second one two id u m = let k = m refl in ground (arith, k)
held_later updated one two id u m = cc
held_later ended one two id u m = refl

held_first :
    (p : Phase) (one two id : ℕ)
    → is_updated p ≡ false
    → is_second p ≡ false
    → held p one two id ≡ false
held_first waits_first one two id u m = refl
held_first waits_second one two id u m = cc
held_first updated one two id u m = cc
held_first ended one two id u m = refl

-- No transaction of `others` has the lock of the second row of `t`, where `t` is of those that wait
-- for their second row one whose first row has the largest id.
others_free :
    (t : Txn) (others : List Txn)
    → first_locked t.arg < second_locked t.arg
    → All (λ u. is_updated u.phase ≡ false) others
    → All (λ u. is_second u.phase ≡ true → first_locked u.arg ≤ first_locked t.arg) others
    → any (holds (second_locked t.arg)) others ≡ false
others_free t others later calm most = any-eq-false (holds (second_locked t.arg)) others (
    All-map others
      (λ u i m.
        held_later u.phase (first_locked u.arg) (second_locked u.arg) _ i
          λ e. let k = m e in omega (arith, later, k))
      calm most)

not_first :
    (p : Phase) → is_updated p ≡ false → is_second p ≡ false → is_first p ≡ false → p ≡ ended
not_first p u s f = ground arith

may_lock_free :
    (own other : Bool) → (own ≡ false → other ≡ false) → (if own then true else not other) ≡ true
may_lock_free true other h = refl
may_lock_free false other h = rw (h refl) refl

calm_others :
    (q : Txn → Bool) (m : Txn → ℕ) (p : Txn → Bool) (ts : List Txn) (g : Greatest q m ts)
    → any p ts ≡ false
    → All (λ u. p u ≡ false) (g.before ++ g.after)
calm_others q m p ts g calm =
    All-without (λ u. p u ≡ false) g.before g.t g.after
      (subst (All (λ u. p u ≡ false)) g.splits (All-of_any p ts calm))

later_lem :
    (t : Txn)
    → t.phase ≡ waits_second
    → holds (second_locked t.arg) t ≡ false
    → first_locked t.arg < second_locked t.arg
later_lem t p h =
    let k = first-le-second t.arg in
    let e : (first_locked t.arg == second_locked t.arg) ≡ false = rw p at h in ground (arith, k)

may_lock_second :
    (ts : List Txn)
    → any (λ t. is_updated t.phase) ts ≡ false
    → (g : Greatest (λ t. is_second t.phase) (λ t. first_locked t.arg) ts)
    → g.t.phase ≡ waits_second
    → may_lock g.t (second_locked g.t.arg) (g.before ++ g.after) ≡ true
may_lock_second ts calm g p = may_lock_free _ _ λ other.
    others_free g.t (g.before ++ g.after) (later_lem g.t p other)
      (calm_others _ _ (λ u. is_updated u.phase) ts g calm)
      (All-without _ g.before g.t g.after (subst (All _) g.splits g.greatest))

may_lock_first :
    (ts : List Txn)
    → any (λ t. is_updated t.phase) ts ≡ false
    → any (λ t. is_second t.phase) ts ≡ false
    → (g : Greatest (λ t. is_first t.phase) (λ t. 0) ts)
    → may_lock g.t (first_locked g.t.arg) (g.before ++ g.after) ≡ true
may_lock_first ts calm none_second g = may_lock_free _ _ λ other.
    any-eq-false (holds (first_locked g.t.arg)) (g.before ++ g.after) (
      All-map (g.before ++ g.after) (λ u i j. held_first u.phase _ _ _ i j)
        (calm_others _ _ (λ u. is_updated u.phase) ts g calm)
        (calm_others _ _ (λ u. is_second u.phase) ts g none_second))

nothing_left :
    (ts : List Txn)
    → any (λ t. is_updated t.phase) ts ≡ false
    → any (λ t. is_second t.phase) ts ≡ false
    → any (λ t. is_first t.phase) ts ≡ false
    → All (λ t. t.phase ≡ ended) ts
nothing_left ts a b c =
    All-map {Q = λ u. (is_second u.phase ≡ false) × (is_first u.phase ≡ false)} ts
      (λ u i jk. not_first u.phase i jk.0 jk.1) (All-of_any _ ts a)
      (All-map ts (λ u j k. (j, k)) (All-of_any _ ts b) (All-of_any _ ts c))

-- Whatever transfers have which locks, one of them can go on, or all have ended.
step_or_ended :
    (ts : List Txn) → ((last : List Txn) × LockStep ts last) ⊎ All (λ t. t.phase ≡ ended) ts
step_or_ended ts = elim (find-Greatest (λ t. is_updated t.phase) (λ t. 0) ts) [
  | inr g ↦ inl (_, ends g.before g.t g.after g.splits (ground (arith, g.fits)))
  | inl calm ↦ elim (find-Greatest (λ t. is_second t.phase) (λ t. first_locked t.arg) ts) [
    | inr g ↦
        let p : g.t.phase ≡ waits_second = ground (arith, g.fits) in
        inl (_, locks_second g.before g.t g.after g.splits p (may_lock_second ts calm g p))
    | inl none_second ↦ elim (find-Greatest (λ t. is_first t.phase) (λ t. 0) ts) [
      | inr g ↦ inl (
        _,
        locks_first g.before g.t g.after g.splits (ground (arith, g.fits))
            (may_lock_first ts calm none_second g),
      )
      | inl none_first ↦ inr (nothing_left ts calm none_second none_first)
    ]
  ]
]

-- The locks and the commit that a transaction has before it.
abbrev pub left : Phase → ℕ
left waits_first = 3
left waits_second = 2
left updated = 1
left ended = 0

pub work : List Txn → ℕ
work [] = 0
work (t ∷ ts) = left t.phase + work ts

work-append :
    (before : List Txn) (t : Txn) (after : List Txn)
    → work (before ++ t ∷ after) ≡ left t.phase + work (before ++ after)
unfolding work
work-append [] t after = refl
work-append (u ∷ before) t after = omega (arith, work-append before t after)

work-step : {ts last : List Txn} → LockStep ts last → work ts ≡ work last + 1
work-step (locks_first before t after e p free) =
    rw
      (
        e,
        work-append before t after,
        work-append before (record t { phase = waits_second }) after,
        p,
      )
      (omega arith)
work-step (locks_second before t after e p free) =
    rw (e, work-append before t after, work-append before (record t { phase = updated }) after, p)
      (omega arith)
work-step (ends before t after e p) =
    rw (e, work-append before t after, work-append before (record t { phase = ended }) after, p)
      (omega arith)

work-run : {ts : List Txn} {n : ℕ} {last : List Txn} → LockRun ts n last → work ts ≡ work last + n
work-run stays = omega arith
work-run (moves r step) = omega (arith, work-run r, work-step step)

work-eq-zero : (ts : List Txn) → All (λ t. t.phase ≡ ended) ts → work ts ≡ 0
unfolding work
work-eq-zero [] h = refl
work-eq-zero (t ∷ ts) h = rw (h.0, work-eq-zero ts h.1) (omega arith)

-- However the transactions of any transfers, also of one account in both directions or of an account
-- to itself, take turns at locking their rows, there is no deadlock: at every point one of them can
-- go on, or all have ended, and they have all ended after as many steps as there are locks and
-- commits left at the start.
pub LockRun-ends :
    {ts : List Txn} {n : ℕ} {last : List Txn}
    → LockRun ts n last
    → ((n < work ts) × (after : List Txn) × LockStep last after)
      ⊎ ((n ≡ work ts) × All (λ t. t.phase ≡ ended) last)
LockRun-ends {ts} {n} {last} r = elim (step_or_ended last) [
  | inl (after, step) ↦ inl (omega (arith, work-run r, work-step step), after, step)
  | inr done ↦ inr (omega (arith, work-run r, work-eq-zero last done), done)
]
