-- ===== src/Db/Store/Locks/Choice.antt =====
-- One of the transactions that a test selects, with the largest id.
use go2bank.Prelude.{
  ℕ, ◌≤◌, ◌≡◌, refl, ap, ◌⊎◌, inl, inr, Bool, true, false, ◌&&◌, List, [], ◌∷◌, ◌++◌, arith, ltb,
  if◌then◌else◌, Bool-cases, any,
}
use go2bank.Db.Store.Locks.{Txn}

abbrev pub All : (Txn → Type 0) → List Txn → Type 0
All P [] = Unit
All P (t ∷ ts) = P t × All P ts

pub All-map :
    {P Q R : Txn → Type 0} (ts : List Txn)
    → ((t : Txn) → P t → Q t → R t)
    → All P ts
    → All Q ts
    → All R ts
All-map [] k p q = tt
All-map (t ∷ ts) k p q = (k t p.0 q.0, All-map ts k p.1 q.1)

-- An element out of the middle.
pub All-without :
    (P : Txn → Type 0) (before : List Txn) (t : Txn) (after : List Txn)
    → All P (before ++ t ∷ after)
    → All P (before ++ after)
All-without P [] t after h = h.1
All-without P (u ∷ before) t after h = (h.0, All-without P before t after h.1)

pub any-eq-false : (q : Txn → Bool) (ts : List Txn) → All (λ t. q t ≡ false) ts → any q ts ≡ false
any-eq-false q [] h = refl
any-eq-false q (t ∷ ts) h = rw h.0 (any-eq-false q ts h.1)

pub All-of_any : (q : Txn → Bool) (ts : List Txn) → any q ts ≡ false → All (λ t. q t ≡ false) ts
All-of_any q [] h = tt
All-of_any q (t ∷ ts) h = elim (Bool-cases (q t)) [
  | inl e ↦ absurd (ground (arith))
  | inr e ↦ (e, All-of_any q ts (rw (e, if◌then◌else◌) at h))
]

-- A transaction of the list with what `q` asks, and the largest `m` of those.
pub record Greatest (q : Txn → Bool) (m : Txn → ℕ) (ts : List Txn) : Type 0 where
  pub before : List Txn
  pub t : Txn
  pub after : List Txn
  pub splits : ts ≡ before ++ t ∷ after
  pub fits : q t ≡ true
  pub greatest : All (λ u. q u ≡ true → m u ≤ m t) ts

All-le :
    (q : Txn → Bool) (m : Txn → ℕ) (a b : ℕ) (ts : List Txn)
    → a ≤ b
    → All (λ u. q u ≡ true → m u ≤ a) ts
    → All (λ u. q u ≡ true → m u ≤ b) ts
All-le q m a b [] le h = tt
All-le q m a b (t ∷ ts) le h = (λ e. let k = h.0 e in omega (arith, le), All-le q m a b ts le h.1)

pub find-Greatest :
    (q : Txn → Bool) (m : Txn → ℕ) (ts : List Txn) → (any q ts ≡ false) ⊎ Greatest q m ts
find-Greatest q m [] = inl refl
find-Greatest q m (t ∷ ts) = elim (find-Greatest q m ts) [
  | inl never ↦ elim (Bool-cases (q t)) [
    | inl e ↦ inr (record {
      before = [];
      t = t;
      after = ts;
      splits = refl;
      fits = e;
      greatest = (
        λ _. omega arith,
        All-map {P = λ u. q u ≡ false} ts (λ u f _ e'. absurd (cc)) (All-of_any q ts never)
            (All-of_any q ts never),
      );
    })
    | inr e ↦ inl (rw e never)
  ]
  | inr g ↦ elim (Bool-cases (q t && ltb (m g.t) (m t))) [
    | inl e ↦ inr (record {
      before = [];
      t = t;
      after = ts;
      splits = refl;
      fits = ground arith;
      greatest = (λ _. omega arith, All-le q m (m g.t) (m t) ts (ground arith) g.greatest);
    })
    | inr e ↦ inr (record {
      before = t ∷ g.before;
      t = g.t;
      after = g.after;
      splits = ap (λ us. t ∷ us) g.splits;
      fits = g.fits;
      greatest = (λ e'. ground arith, g.greatest);
    })
  ]
]
