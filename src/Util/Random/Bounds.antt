-- ===== src/Util/Random/Bounds.antt =====
-- What comes of the random generator.
use go2bank.Prelude.{
  ℕ, zero, suc, ◌+◌, ◌≤◌, ◌<◌, String, len, count, ◌≡◌, refl, inl, inr, Bool, true, false, ◌&&◌,
  some, [], ◌∷◌, arith, leb, ◌==◌, nat_eq, string_eq, if◌then◌else◌, Bool-cases, nat_beq_iff,
}
use go2bank.Prelude.Int.{pos, ◌+ℤ◌, ◌-ℤ◌, leb_ℤ}
use go2bank.Prelude.Word.{wrap}
use go2bank.Util.{eur, is_supported_currency, usd, cad}
use go2bank.Util.Random.{
  random_int, IsRand, random_currency, random_money, random_string, currency_at, Rand, alphabet,
  char_at,
}
use Prim.Native.String.{◌++◌ as append}
use Prim.Native.Char.{code}
use text.Mathlib.TextLemmas.{nil-append, cons-append, length-append}

-- What holds at each of the first numbers holds below their bound.
abbrev pub Upto : (ℕ → Type 0) → ℕ → Type 0
Upto P zero = Unit
Upto P (suc n) = Upto P n × P n

pub upto : (P : ℕ → Type 0) (n : ℕ) → Upto P n → (k : ℕ) → k < n → P k
upto P zero h k lt = absurd (omega arith)
upto P (suc n) h k lt = elim (Bool-cases (k == n)) [
  | inl e ↦ let same : k ≡ n = (nat_beq_iff k n).0 e in rw same h.1
  | inr e ↦ upto P n h.0 k (ground arith)
]

-- A test of every character, by its code.
pub all_codes : (ℕ → Bool) → String → Bool
all_codes p String.[] = true
all_codes p (String.◌∷◌ c s) = if p (code c) then all_codes p s else false

abbrev pub is_lower : ℕ → Bool
is_lower c = leb 97 c && leb c 122

all_codes-append :
    (p : ℕ → Bool) (s t : String)
    → all_codes p s ≡ true
    → all_codes p t ≡ true
    → all_codes p (append s t) ≡ true
unfolding all_codes
all_codes-append p String.[] t h k = rw (nil-append t) k
all_codes-append p (String.◌∷◌ c s) t h k =
    rw (cons-append c s t) (ground (arith, all_codes-append p s t))

letter :
    (k : ℕ)
    → k < 26
    → (count (char_at k alphabet) ≡ 1) × (all_codes is_lower (char_at k alphabet) ≡ true)
unfolding char_at all_codes
letter =
    upto (λ k. (count (char_at k alphabet) ≡ 1) × (all_codes is_lower (char_at k alphabet) ≡ true))
      26
      (
        (
          (
            (
              (
                (
                  (
                    (
                      (
                        (
                          (
                            (
                              (
                                (
                                  (
                                    (
                                      (
                                        (
                                          (
                                            (
                                              (
                                                (
                                                  (
                                                    (
                                                      ((tt, (refl, refl)), (refl, refl)),
                                                      (refl, refl),
                                                    ),
                                                    (refl, refl),
                                                  ),
                                                  (refl, refl),
                                                ),
                                                (refl, refl),
                                              ),
                                              (refl, refl),
                                            ),
                                            (refl, refl),
                                          ),
                                          (refl, refl),
                                        ),
                                        (refl, refl),
                                      ),
                                      (refl, refl),
                                    ),
                                    (refl, refl),
                                  ),
                                  (refl, refl),
                                ),
                                (refl, refl),
                              ),
                              (refl, refl),
                            ),
                            (refl, refl),
                          ),
                          (refl, refl),
                        ),
                        (refl, refl),
                      ),
                      (refl, refl),
                    ),
                    (refl, refl),
                  ),
                  (refl, refl),
                ),
                (refl, refl),
              ),
              (refl, refl),
            ),
            (refl, refl),
          ),
          (refl, refl),
        ),
        (refl, refl),
      )

module _ {R : Type 0} (rand : Rand R) (is_rand : IsRand rand) where
  -- `RandomString(n)` has `n` characters, all of them small letters, whatever is drawn.
  pub random_string-IsLower :
      (n : ℕ) (r : R)
      → let s = (random_string rand n r).0 in (count s ≡ n) × (all_codes is_lower s ≡ true)
  unfolding random_string all_codes
  random_string-IsLower zero r = (refl, refl)
  random_string-IsLower (suc n) r =
      let (k, r') = rand.int63n (len alphabet) r in
      let (one, lower) = letter k (is_rand.below 26 r (omega arith)) in
      let (more, rest) = random_string-IsLower n r' in
      (
        omega (arith, length-append (char_at k alphabet) (random_string rand n r').0, one, more),
        all_codes-append is_lower (char_at k alphabet) (random_string rand n r').0 lower rest,
      )

  -- `RandomMoney` gives an amount from 5000 to 10000, and does not panic.
  pub random_money-bounds :
      (r : R) → (n : ℕ) × ((random_money rand r).0 ≡ some (pos n)) × (5000 ≤ n) × (n ≤ 10000)
  unfolding random_int wrap ◌-ℤ◌ ◌+ℤ◌ leb_ℤ
  random_money-bounds r =
      let k = is_rand.below 5001 r (omega arith) in
      ((rand.int63n 5001 r).0 + 5000, ground arith, omega arith, omega (arith, k))

  -- `RandomCurrency` gives a supported currency.
  pub random_currency-supported : (r : R) → is_supported_currency (random_currency rand r).0 ≡ true
  unfolding random_currency is_supported_currency
  random_currency-supported r =
      upto (λ k. is_supported_currency (currency_at rand k (usd ∷ eur ∷ cad ∷ [])) ≡ true) 3
        (((tt, refl), refl), refl) (rand.int63n 3 r).0 (is_rand.below 3 r (omega arith))
