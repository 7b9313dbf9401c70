-- ===== src/Util/Random/Ids.antt =====
-- Ids in hexadecimal: their length, and that different bytes give different ids.
use go2bank.Prelude.{
  ℕ, ◌-◌, ◌*◌, ◌/◌, ◌%◌, ◌<◌, String, count, ◌≡◌, refl, ap, List, [], ◌∷◌, arith, ltb,
  if◌then◌else◌, length,
}
use go2bank.Util.Random.{IsRand, Rand, random_id, char_at, hex, AreBytes}
use go2bank.Util.Random.Bounds.{upto}
use Prim.Native.String.{◌++◌ as append}
use Prim.Native.Char.{code}
use text.Mathlib.TextLemmas.{append_inj, length-append}

hex_value : ℕ → ℕ
hex_value c = if ltb c 58 then c - 48 else c - 87

text_value : String → ℕ
unfolding hex_value
text_value String.[] = 0
text_value (String.◌∷◌ c s) = hex_value (code c)

digit_value :
    (k : ℕ)
    → k < 16
    → (count (char_at k "0123456789abcdef") ≡ 1) × (text_value (char_at k "0123456789abcdef") ≡ k)
unfolding char_at text_value hex_value
digit_value =
    upto
      (λ k.
        (count (char_at k "0123456789abcdef") ≡ 1)
        × (text_value (char_at k "0123456789abcdef") ≡ k))
      16
      (
        (
          (
            (
              (
                (
                  (
                    (
                      (
                        (
                          (
                            (
                              ((((tt, (refl, refl)), (refl, refl)), (refl, refl)), (refl, refl)),
                              (refl, refl),
                            ),
                            (refl, refl),
                          ),
                          (refl, refl),
                        ),
                        (refl, refl),
                      ),
                      (refl, refl),
                    ),
                    (refl, refl),
                  ),
                  (refl, refl),
                ),
                (refl, refl),
              ),
              (refl, refl),
            ),
            (refl, refl),
          ),
          (refl, refl),
        ),
        (refl, refl),
      )

hex_digit-injective :
    (i j : ℕ)
    → i < 16
    → j < 16
    → char_at i "0123456789abcdef" ≡ char_at j "0123456789abcdef"
    → i ≡ j
hex_digit-injective i j hi hj h = let a = (digit_value i hi).1 in let b = (digit_value j hj).1 in cc

count-hex : (bs : List ℕ) → AreBytes bs → count (hex bs) ≡ 2 * length bs
unfolding hex
count-hex [] h = refl
count-hex (b ∷ bs) h =
    let high = char_at (b / 16) "0123456789abcdef" in
    let low = char_at (b % 16) "0123456789abcdef" in
    let small = h.0 in
    let x = (digit_value (b / 16) (omega arith)).0 in
    let y = (digit_value (b % 16) (omega arith)).0 in
    omega (
      arith,
      length-append high (append low (hex bs)),
      length-append low (hex bs),
      x,
      y,
      count-hex bs h.1,
    )

hex-injective : (xs ys : List ℕ) → AreBytes xs → AreBytes ys → hex xs ≡ hex ys → xs ≡ ys
unfolding hex
hex-injective [] [] h k e = refl
hex-injective [] (y ∷ ys) h k e =
    let c = count-hex (y ∷ ys) k in let d = ap count e in absurd (omega (arith, c, d))
hex-injective (x ∷ xs) [] h k e =
    let c = count-hex (x ∷ xs) h in let d = ap count e in absurd (omega (arith, c, d))
hex-injective (x ∷ xs) (y ∷ ys) h k e =
    let small = h.0 in
    let small' = k.0 in
    let (one, a) = digit_value (x / 16) (omega arith) in
    let (one', a') = digit_value (y / 16) (omega arith) in
    let (two, b) = digit_value (x % 16) (omega arith) in
    let (two', b') = digit_value (y % 16) (omega arith) in
    let (high, rest) = append_inj e (omega (arith, one, one')) in
    let (low, more) = append_inj rest (omega (arith, two, two')) in
    let p : x / 16 ≡ y / 16 = hex_digit-injective _ _ (omega arith) (omega arith) high in
    let q : x % 16 ≡ y % 16 = hex_digit-injective _ _ (omega arith) (omega arith) low in
    let same : x ≡ y = omega (arith, p, q) in rw (same, hex-injective xs ys h.1 k.1 more) refl

module _ {R : Type 0} (rand : Rand R) (is_rand : IsRand rand) where
  -- `RandomID` gives 32 characters, and two draws that give the same id have drawn the same 16
  -- bytes. The generator answers with as many bytes as it is asked for.
  pub random_id-injective :
      (r s : R)
      → (count (random_id rand r).0 ≡ 32)
        × ((random_id rand r).0 ≡ (random_id rand s).0 → (rand.read 16 r).0 ≡ (rand.read 16 s).0)
  unfolding random_id
  random_id-injective r s =
      let n = is_rand.all_read 16 r in
      let c = count-hex (rand.read 16 r).0 (is_rand.bytes 16 r) in
      (
        omega (arith, n, c),
        hex-injective (rand.read 16 r).0 (rand.read 16 s).0 (is_rand.bytes 16 r)
            (is_rand.bytes 16 s),
      )
