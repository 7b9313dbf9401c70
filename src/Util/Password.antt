-- ===== src/Util/Password.antt =====
-- util/password.go. The library bcrypt is not the program's own code: a salt goes in, and a hash
-- comes out, or none where the password is too long for it.
use go2bank.Prelude.{ℕ, String, len, ◌≡◌, Bool, true, Option, none, some, ltb, if◌then◌else◌}
use go2bank.Db.Error.{message, Error}
use go2bank.Db.Query.{err, Result, ok}

pub record Bcrypt : Type 0 where
  pub generate : ℕ → String → Option String
  pub matches : String → String → Bool
  pub matches-generate :
      (salt : ℕ) (password hash : String)
      → generate salt password ≡ some hash
      → matches hash password ≡ true
  pub too_long :
      (salt : ℕ) (password : String) → ltb 72 (len password) ≡ true → generate salt password ≡ none

hashed_as : Option String → Result String
hashed_as none = err (message "failed to hash password: bcrypt: password length exceeds 72 bytes")
hashed_as (some hash) = ok hash

-- `HashPassword`
unfoldable pub hash_password : Bcrypt → ℕ → String → Result String
unfolding hashed_as
hash_password b salt password = hashed_as (b.generate salt password)

-- `CheckPassword`; `none` is a nil error.
unfoldable pub check_password : Bcrypt → String → String → Option Error
check_password b password hash =
    if b.matches hash password
    then none
    else some (message "crypto/bcrypt: hashedPassword is not the hash of the given password")
