-- ===== src/Token.antt =====
-- The package token: payloads of access tokens and the maker that seals and opens them.
-- Encryption, the uuid source and the clock are not the program's own code.
pub mod Sample
mod Tests
use go2bank.Prelude.{
  ℕ, String, len, ◌≡◌, ◌⊎◌, inl, inr, Option, none, some, arith, ◌==◌, nat_eq, string_eq,
  if◌then◌else◌,
}
use go2bank.Prelude.Int.{ℤ, pos, ◌+ℤ◌, ltb_ℤ, leb_ℤ}
use go2bank.Db.Error.{Error, message}

-- token/payload.go; times are numbers of nanoseconds; a negative duration, which makes a
-- token that has expired, may lead to before the first of them.
pub record Payload : Type 0 where
  pub id : String
  pub username : String
  pub role : String
  pub issued_at : ℕ
  pub expired_at : ℤ

abbrev pub err_invalid_token : Error
err_invalid_token = message "token is invalid"

abbrev pub err_expired_token : Error
err_expired_token = message "token has expired"

-- `NewPayload`. The clock is read twice, for `issued` and then for `expiry`; a uuid that cannot be
-- drawn is `none`, with the source's error `e`.
unfoldable pub new_payload : String → String → ℤ → Option String → Error → ℕ → ℕ → Payload ⊎ Error
new_payload username role duration none e issued expiry = inr e
new_payload username role duration (some id) e issued expiry = inl (record {
  id = id;
  username = username;
  role = role;
  issued_at = issued;
  expired_at = pos expiry +ℤ duration;
})

-- `Payload.Valid`, at the time `now`.
unfoldable pub valid : ℕ → Payload → Option Error
valid now payload = if ltb_ℤ payload.expired_at (pos now) then some err_expired_token else none

-- The library paseto: an encrypted token opens under the key that sealed it.
pub record Paseto : Type 0 where
  pub encrypt : String → Payload → String ⊎ Error
  pub decrypt : String → String → Option Payload
  pub decrypt-encrypt :
      (key : String) (payload : Payload) (token : String)
      → encrypt key payload ≡ inl token
      → decrypt key token ≡ some payload

pub record Maker : Type 0 where
  pub symmetric_key : String

-- `NewPasetoMaker`: chacha20poly1305.KeySize is 32.
unfoldable pub new_paseto_maker : String → Option Maker
new_paseto_maker key = if len key == 32 then some (record { symmetric_key = key }) else none

module _ (paseto : Paseto) (maker : Maker) where
  seal : Payload ⊎ Error → (String × Payload) ⊎ Error
  seal (inl payload) = elim (paseto.encrypt maker.symmetric_key payload) [
    | inl token ↦ inl (token, payload)
    | inr e ↦ inr e
  ]
  seal (inr e) = inr e

  -- `PasetoMaker.CreateToken`
  unfoldable pub create_token :
      String → String → ℤ → Option String → Error → ℕ → ℕ → (String × Payload) ⊎ Error
  unfolding new_payload seal
  create_token username role duration id e issued expiry =
      seal (new_payload username role duration id e issued expiry)

  check : ℕ → Option Payload → Payload ⊎ Error
  unfolding valid
  check now none = inr err_invalid_token
  check now (some payload) = elim (valid now payload) [ none ↦ inl payload | some e ↦ inr e ]

  -- `PasetoMaker.VerifyToken`
  unfoldable pub verify_token : ℕ → String → Payload ⊎ Error
  unfolding check
  verify_token now token = check now (paseto.decrypt maker.symmetric_key token)

  -- A token verifies exactly as long as the clock has not passed the time of its making plus its
  -- duration, and then gives back the user name and the role that it was made for.
  pub verify_token-create_token :
      (username role : String) (duration : ℤ) (id : String) (e : Error) (issued expiry now : ℕ)
      (token : String) (payload : Payload)
      → create_token username role duration (some id) e issued expiry ≡ inl (token, payload)
      → (payload.username ≡ username)
        × (payload.role ≡ role)
        × (verify_token now token ≡ (
            if leb_ℤ (pos now) (pos expiry +ℤ duration)
            then inl payload
            else inr err_expired_token))
  unfolding create_token verify_token ltb_ℤ leb_ℤ
  verify_token-create_token username role duration id e issued expiry now token payload h =
      ground (arith, paseto.decrypt-encrypt maker.symmetric_key payload token)
