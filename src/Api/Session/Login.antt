-- ===== src/Api/Session/Login.antt =====
-- Who signs in by `loginUser`.
use go2bank.Prelude.{
  ℕ, ◌≤◌, String, ◌≡◌, refl, ◌⊎◌, inl, inr, true, Option, none, some, arith, Bool-cases,
}
use go2bank.Util.Config.{Config}
use go2bank.Api.Binding.{Validator}
use go2bank.Api.Gin.{World}
use go2bank.Api.Reading.{
  respond-Reads, Refused, should_bind-Reads, Reads, done-Reads, bind-Reads, fetch-Reads,
}
use go2bank.Api.Session.{
  unless_error, login_user_handler, binds_login, Draw, Request, LoginUserRequest,
}
use go2bank.Db.Error.{Error}
use go2bank.Db.Model.{idle, User}
use go2bank.Db.User.{user_of-ok, find_user, user_of, get_user-HasRead}
use go2bank.Redis.{KvStore}
use go2bank.Token.{Maker, Paseto}
use go2bank.Util.Password.{Bcrypt, check_password}

check_password-none :
    (b : Bcrypt) (password hash : String)
    → check_password b password hash ≡ none
    → b.matches hash password ≡ true
unfolding check_password
check_password-none b password hash h = elim (Bool-cases (b.matches hash password)) [
  | inl e ↦ e
  | inr e ↦ absurd (ground arith)
]

module _ {S : Type 0} (kv : KvStore S) where
  unless_error-Reads :
      (code : ℕ) (e : Option Error) (w : World S)
      → w.db.tx ≡ idle
      → 400 ≤ code
      → Reads (unless_error kv code e) w (λ _. e ≡ none)
  unfolding unless_error
  unless_error-Reads code none w i h = done-Reads tt w i refl
  unless_error-Reads code (some e) w i h = respond-Reads code _ w h

  -- A valid request, of a user whose stored hash the password matches.
  pub record LogsIn (v : Validator) (b : Bcrypt) (body : Option LoginUserRequest) (w : World S)
      : Type 0 where
    pub req : LoginUserRequest
    pub found : User
    pub asked : body ≡ some req
    pub is_valid : binds_login v req ≡ true
    pub is_user : find_user req.username w.db.users ≡ some found
    pub matches : b.matches found.hashed_password req.password ≡ true

  -- A login is refused, with one answer of status 400 or more and neither a cookie nor a change of
  -- a table, or it is valid and the password matches the stored hash of the user.
  pub login_user_handler-safe :
      (v : Validator) (b : Bcrypt) (paseto : Paseto) (maker : Maker) (config : Config)
      (request : Request) (draw : Draw) (body : Option LoginUserRequest) (w : World S)
      → w.db.tx ≡ idle
      → Refused w (login_user_handler kv v b paseto maker config request draw body w)
        ⊎ LogsIn v b body w
  unfolding login_user_handler
  login_user_handler-safe v b paseto maker config request draw body w i =
      bind-Reads (λ _. LogsIn v b body w) _ _ w (should_bind-Reads (binds_login v) body w i)
        λ req w1 s1 bound.
          bind-Reads (λ _. LogsIn v b body w) _ _ w1
            (fetch-Reads _ (λ t. user_of (find_user req.username t.users))
              (get_user-HasRead req.username) w1 s1.idle_still)
            λ found w2 t2 row.
              bind-Reads (λ _. LogsIn v b body w) _ _ w2
                (unless_error-Reads 401 (check_password b req.password found.hashed_password) w2
                  t2.idle_still (omega arith))
                λ _ w3 t3 right. inr (record {
                  req = req;
                  found = found;
                  asked = bound.0;
                  is_valid = bound.1;
                  is_user = user_of-ok _ found (rw (← s1.tables) row);
                  matches = check_password-none b req.password found.hashed_password right;
                })
