-- ===== src/Util/Random.antt =====
-- util/random.go. The generator of math/rand is an argument, with its state; base32 and hex are
-- the standard library's.
pub mod Bounds
pub mod Ids
mod Tests
use go2bank.Prelude.{
  ℕ, zero, suc, ◌+◌, ◌-◌, ◌*◌, ◌/◌, ◌%◌, ◌<◌, String, len, ◌≡◌, Option, none, some, List, [], ◌∷◌,
  ◌++◌, ◌==◌, nat_eq, string_eq, if◌then◌else◌, length,
}
use go2bank.Prelude.Int.{ℤ, pos, pos_part, ◌+ℤ◌, ◌-ℤ◌, leb_ℤ}
use go2bank.Prelude.Word.{wrap, int64_mod}
use go2bank.Util.{usd, cad, eur}
use Prim.Native.String.{◌++◌ as append}

-- `rand.Int63n`, of a positive bound, and `rand.Read`.
pub record Rand (R : Type 0) : Type 0 where
  pub int63n : ℕ → R → ℕ × R
  pub read : ℕ → R → List ℕ × R

abbrev pub AreBytes : List ℕ → Type 0
AreBytes [] = Unit
AreBytes (b ∷ bs) = (b < 256) × AreBytes bs

-- What the library documents of them.
pub record IsRand {R : Type 0} (rand : Rand R) : Type 0 where
  pub below : (n : ℕ) (r : R) → 0 < n → (rand.int63n n r).0 < n
  pub all_read : (n : ℕ) (r : R) → length (rand.read n r).0 ≡ n
  pub bytes : (n : ℕ) (r : R) → AreBytes (rand.read n r).0

-- The text of the `i`-th character, which a random index always finds.
unfoldable pub char_at : ℕ → String → String
char_at i String.[] = ""
char_at i (String.◌∷◌ c s) =
    let later = char_at (i - 1) s in if i == 0 then String.◌∷◌ c String.[] else later

abbrev pub alphabet : String
alphabet = "abcdefghijklmnopqrstuvwxyz"

-- `hex.EncodeToString`
unfoldable pub hex : List ℕ → String
hex [] = ""
hex (b ∷ bs) =
    append (char_at (b / 16) "0123456789abcdef")
      (append (char_at (b % 16) "0123456789abcdef") (hex bs))

-- The bits of a byte, the highest first.
abbrev byte_bits : ℕ → List ℕ
byte_bits b =
    b / 128 % 2
    ∷ b / 64 % 2
    ∷ b / 32 % 2
    ∷ b / 16 % 2
    ∷ b / 8 % 2
    ∷ b / 4 % 2
    ∷ b / 2 % 2
    ∷ b % 2
    ∷ []

pub bits : List ℕ → List ℕ
bits [] = []
bits (b ∷ bs) = byte_bits b ++ bits bs

base32_char : ℕ → String
base32_char n = char_at n "ABCDEFGHIJKLMNOPQRSTUVWXYZ234567"

-- Five bits to a character, the last ones filled up with zeros.
pub by_fives : List ℕ → String
unfolding base32_char
by_fives [] = ""
by_fives (a ∷ []) = base32_char (16 * a)
by_fives (a ∷ b ∷ []) = base32_char (16 * a + 8 * b)
by_fives (a ∷ b ∷ c ∷ []) = base32_char (16 * a + 8 * b + 4 * c)
by_fives (a ∷ b ∷ c ∷ d ∷ []) = base32_char (16 * a + 8 * b + 4 * c + 2 * d)
by_fives (a ∷ b ∷ c ∷ d ∷ e ∷ rest) =
    append (base32_char (16 * a + 8 * b + 4 * c + 2 * d + e)) (by_fives rest)

-- `base32.StdEncoding.WithPadding(base32.NoPadding).EncodeToString`
unfoldable pub base32 : List ℕ → String
unfolding bits by_fives
base32 bs = by_fives (bits bs)

module _ {R : Type 0} (rand : Rand R) where
  -- `RandomInt`, in int64; no value is the panic of `Int63n`.
  unfoldable pub random_int : ℤ → ℤ → R → Option ℤ × R
  random_int least most r =
      let n = wrap int64_mod (wrap int64_mod (most -ℤ least) +ℤ pos 1) in
      if leb_ℤ n (pos 0)
      then (none, r)
      else let (k, r') = rand.int63n (pos_part n) r in (some (wrap int64_mod (least +ℤ pos k)), r')

  -- `RandomString`
  unfoldable pub random_string : ℕ → R → String × R
  random_string zero r = ("", r)
  random_string (suc n) r =
      let (k, r') = rand.int63n (len alphabet) r in
      let (s, r'') = random_string n r' in (append (char_at k alphabet) s, r'')

  abbrev pub random_owner : R → String × R
  random_owner = random_string 6

  abbrev pub random_money : R → Option ℤ × R
  random_money = random_int (pos 5000) (pos 10000)

  pub currency_at : ℕ → List String → String
  currency_at i [] = ""
  currency_at i (c ∷ cs) = let later = currency_at (i - 1) cs in if i == 0 then c else later

  -- `RandomCurrency`
  unfoldable pub random_currency : R → String × R
  unfolding currency_at
  random_currency r = let (k, r') = rand.int63n 3 r in (currency_at k (usd ∷ eur ∷ cad ∷ []), r')

  abbrev pub random_email : R → String × R
  random_email r = let (s, r') = random_string 6 r in (append s "@email.com", r')

  -- `RandomID`
  unfoldable pub random_id : R → String × R
  random_id r = let (bs, r') = rand.read 16 r in (hex bs, r')

  -- `RandomBase32Secret`
  unfoldable pub random_base32_secret : ℕ → R → String × R
  random_base32_secret length r = let (bs, r') = rand.read length r in (base32 bs, r')
