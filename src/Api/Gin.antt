-- ===== src/Api/Gin.antt =====
-- What a handler sees and does: the store, the key-value store, the payload that the
-- authentication has put into the context, and the calls on gin.Context in their order.
-- A handler ends early by `return`, or by a panic.
use go2bank.Prelude.{ℕ, String, ◌≡◌, refl, Option, none, some, List, [], ◌∷◌, ◌++◌, if◌then◌else◌}
use go2bank.Prelude.Int.{ℤ}
use go2bank.Db.Error.{Error, is_record_not_found}
use go2bank.Db.Model.{Account, Db}
use go2bank.Db.Query.{Query, Result, ok, err}
use go2bank.Db.Store.{TransferTxResult}
use go2bank.Token.{Payload}

-- `newUserResponse`, and the answer of `getUser`.
pub record UserResponse : Type 0 where
  pub username : String
  pub full_name : String
  pub email : String
  pub password_changed_at : ℕ
  pub created_at : ℕ

pub record GetUserResponse : Type 0 where
  pub username : String
  pub full_name : String
  pub email : String
  pub password_changed_at : ℕ
  pub created_at : ℕ
  pub accounts : List Account

pub record FieldViolation : Type 0 where
  pub field : String
  pub description : String

-- The values that the handlers answer with. `error` is `errorResponse`.
pub data Body : Type 0 where
  error : Error → Body
  notice : String → String → Body
  account : Account → Body
  accounts : List Account → Body
  transferred : TransferTxResult → Body
  user : UserResponse → Body
  profile : GetUserResponse → Body
  invalid_update : List FieldViolation → Body

-- A cookie's name, value and age in seconds; -1 deletes it.
pub data Call : Type 0 where
  json : ℕ → Body → Call
  abort : Call
  set_same_site_lax : Call
  set_cookie : String → String → ℤ → Call
  header : String → String → Call
  redirect : ℕ → String → Call

pub record World (S : Type 0) : Type 0 where
  pub db : Db
  pub kv : S
  pub payload : Option Payload
  pub calls : List Call

pub data Exit (A : Type 0) : Type 0 where
  next : A → Exit A
  returned panicked : Exit A

abbrev pub Handler : Type 0 → Type 0 → Type 0
Handler S A = World S → Exit A × World S

module _ {S : Type 0} where
  abbrev pub go_on : {A B : Type 0} → Exit A → (A → Handler S B) → Handler S B
  go_on (next a) f w = f a w
  go_on returned f w = (returned, w)
  go_on panicked f w = (panicked, w)

  infixl 5 ◌>>=◌ ◌>>◌
  -- Shut, so that a proof reads a block step by step.
  unfoldable pub ◌>>=◌ : {A B : Type 0} → Handler S A → (A → Handler S B) → Handler S B
  ◌>>=◌ m f w = let (r, w') = m w in go_on r f w'

  abbrev pub ◌>>◌ : {A B : Type 0} → Handler S A → Handler S B → Handler S B
  m >> k = m >>= λ _. k

  abbrev pub done : {A : Type 0} → A → Handler S A
  done a w = (next a, w)

  abbrev pub call : Call → Handler S Unit
  call c w = (next tt, record w { calls = w.calls ++ c ∷ [] })

  abbrev pub stop : {A : Type 0} → Handler S A
  stop w = (returned, w)

  abbrev pub panic : {A : Type 0} → Handler S A
  panic w = (panicked, w)

  -- `ctx.JSON(code, body)` and `return`.
  abbrev pub respond : {A : Type 0} → ℕ → Body → Handler S A
  respond code body w = (returned, record w { calls = w.calls ++ json code body ∷ [] })

  abbrev pub granted : Option Payload → Handler S Payload
  granted none w = (panicked, w)
  granted (some p) w = (next p, w)

  -- `ctx.MustGet(authorizationPayloadKey)`: it panics where the key is not set.
  abbrev pub must_get : Handler S Payload
  must_get w = granted w.payload w

  -- A query of the store, with its error as a value.
  abbrev pub query : {A : Type 0} → Query A → Handler S (Result A)
  query q w = let (r, db) = q w.db in (next r, record w { db = db })

  -- The branches `if err != nil`: 404 for a missing record, or else 500.
  abbrev pub or_not_found : {A : Type 0} → Result A → Handler S A
  or_not_found (ok a) = done a
  or_not_found (err e) = respond (if is_record_not_found e then 404 else 500) (error e)

  unfoldable pub fetch : {A : Type 0} → Query A → Handler S A
  fetch q = do r ← query q; or_not_found r

  -- The rule of a block: what it does if the first part ends it, and if it goes on.
  pub bind-post :
      {A B : Type 0} (Q : Exit B × World S → Type 0) (m : Handler S A) (f : A → Handler S B)
      (w : World S)
      → ((w' : World S) → m w ≡ (returned, w') → Q (returned, w'))
      → ((w' : World S) → m w ≡ (panicked, w') → Q (panicked, w'))
      → ((a : A) (w' : World S) → m w ≡ (next a, w') → Q (f a w'))
      → Q ((m >>= f) w)
  unfolding ◌>>=◌
  bind-post {A} {B} Q m f w r p n = cases (m w) refl
    where
      cases : (o : Exit A × World S) → m w ≡ o → Q (go_on o.0 f o.1)
      cases (next a, w') e = n a w' e
      cases (returned, w') e = r w' e
      cases (panicked, w') e = p w' e

  go_on-next :
      {A B : Type 0} (o : Exit A × World S) (f : A → Handler S B) {b : B} {w' : World S}
      → go_on o.0 f o.1 ≡ (next b, w')
      → (a : A) × (mid : World S) × (o ≡ (next a, mid)) × (f a mid ≡ (next b, w'))
  go_on-next (next a, mid) f h = (a, mid, refl, h)
  go_on-next (returned, mid) f h = cc
  go_on-next (panicked, mid) f h = cc

  -- Inversion of a block that went on, with what is left to prove in the scope of the first part.
  pub bind_next_rec :
      {A B : Type 0} {P : Type 0} (m : Handler S A) (f : A → Handler S B) (w : World S) {b : B}
      {w' : World S}
      → (m >>= f) w ≡ (next b, w')
      → ((a : A) (mid : World S) → m w ≡ (next a, mid) → f a mid ≡ (next b, w') → P)
      → P
  unfolding ◌>>=◌
  bind_next_rec m f w h k = let (a, mid, first, rest) = go_on-next (m w) f h in k a mid first rest

  pub next-injective :
      {A : Type 0} {a b : A} {w w' : World S}
      → ◌≡◌ {A = Exit A × World S} (next a, w) (next b, w')
      → (a ≡ b) × (w ≡ w')
  next-injective h = (cc, cc)
