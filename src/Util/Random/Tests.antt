-- ===== src/Util/Random/Tests.antt =====
-- The random values, by a generator that counts.
use go2bank.Prelude.{
  ℕ, zero, suc, ◌+◌, ◌%◌, count, ◌≡◌, refl, none, some, List, [], ◌∷◌, arith, length,
}
use go2bank.Prelude.Int.{pos, ◌+ℤ◌, ◌-ℤ◌, leb_ℤ}
use go2bank.Prelude.Word.{wrap}
use native.Mathlib.Nat.{mod-lt}
use go2bank.Util.Random.{
  base32, by_fives, random_int, char_at, random_money, random_string, Rand, random_id,
  random_currency, AreBytes, IsRand, bits, random_base32_secret, random_owner, hex,
}
use go2bank.Util.Random.Ids.{random_id-injective}

unfoldable copies : ℕ → ℕ → List ℕ
copies zero r = []
copies (suc n) r = r % 256 ∷ copies n r

abbrev counting : Rand ℕ
counting = record { int63n = λ n r. (r % n, r + 1); read = λ n r. (copies n r, r + 1) }

length-copies : (n r : ℕ) → length (copies n r) ≡ n
unfolding copies
length-copies zero r = refl
length-copies (suc n) r = let k = length-copies n r in omega (arith, k)

copies-AreBytes : (n r : ℕ) → AreBytes (copies n r)
unfolding copies
copies-AreBytes zero r = tt
copies-AreBytes (suc n) r = (omega arith, copies-AreBytes n r)

counting-IsRand : IsRand counting
counting-IsRand = record {
  below = λ n r some_n. mod-lt r some_n;
  all_read = length-copies;
  bytes = copies-AreBytes;
}

random_code : Unit {0}
unfolding random_int leb_ℤ wrap ◌+ℤ◌ ◌-ℤ◌ base32 random_string random_currency random_id
    random_base32_secret char_at hex bits by_fives copies
random_code = tt

owner : (random_owner counting 3).0 ≡ "defghi"
unfolding random_code
owner = refl

money : (random_money counting 7).0 ≡ some (pos 5007)
unfolding random_code
money = refl

-- The panic of `Int63n`, where the bounds are crossed.
no_number : (random_int counting (pos 2) (pos 1) 7).0 ≡ none
unfolding random_code
no_number = refl

secret : (random_base32_secret counting 3 102).0 ≡ "MZTGM"
unfolding random_code
secret = refl

random_id-injective_example :
    (count (random_id counting 3).0 ≡ 32)
    × ((random_id counting 3).0 ≡ (random_id counting 259).0
        → (counting.read 16 3).0 ≡ (counting.read 16 259).0)
random_id-injective_example = random_id-injective counting counting-IsRand 3 259
