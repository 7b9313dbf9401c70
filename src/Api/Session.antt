-- ===== src/Api/Session.antt =====
-- Sessions: `loginUser` and `logoutUser` of api/user.go, `renewAccessToken` of api/renew.go.
pub mod Leaving
pub mod Renewal
pub mod Checked
pub mod Asking
pub mod Renewed
pub mod Logout
pub mod Login
mod Tests
use go2bank.Prelude.{
  ℕ, ◌/◌, String, count, ◌⊎◌, inl, inr, Bool, true, false, ◌&&◌, Option, none, some, leb, ◌==◌,
  nat_eq, string_eq, if◌then◌else◌,
}
use go2bank.Prelude.Int.{ℤ, pos, negsuc}
use go2bank.Util.Config.{Config}
use go2bank.Api.Binding.{required, should_bind, Validator}
use go2bank.Api.Gin.{
  user, call, error, notice, set_cookie, fetch, respond, Handler, set_same_site_lax, done, ◌>>=◌,
  ◌>>◌, next,
}
use go2bank.Db.Error.{Error, message}
use go2bank.Db.Query.{err, Result, ok}
use go2bank.Db.User.{get_user}
use go2bank.Redis.{KvStore}
use go2bank.Token.{create_token, Maker, Paseto}
use go2bank.Util.Password.{check_password, Bcrypt}
use Prim.Native.String.{◌++◌ as append}

-- What a handler reads of the request beside its body.
pub record Request : Type 0 where
  pub cookie : String → Option String
  pub header : String → String
  pub client_ip : String

-- What a request draws: a uuid for the token, the clock, and an id for the session.
pub record Draw : Type 0 where
  pub uuid : Option String
  pub uuid_error : Error
  pub issued : ℕ
  pub expiry : ℕ
  pub session_id : String

pub record LoginUserRequest : Type 0 where
  pub username : String
  pub password : String

unfoldable pub binds_login : Validator → LoginUserRequest → Bool
binds_login v r =
    required r.username && v.alphanum r.username && required r.password && leb 6 (count r.password)

-- `int(d.Seconds())`
abbrev pub seconds : ℕ → ℤ
seconds d = pos (d / 1000000000)

abbrev pub sid_key : String → String
sid_key sid = append "sid:" sid

abbrev pub user_agent_key : String → String
user_agent_key sid = append (sid_key sid) ":user_agent"

abbrev pub ip_key : String → String
ip_key sid = append (sid_key sid) ":ip"

-- `err1 != nil || err2 != nil || err3 != nil`
abbrev pub any_error : Option Error → Option Error → Option Error → Bool
any_error none none none = false
any_error _ _ _ = true

module _ {S : Type 0} (kv : KvStore S) where
  -- A call of the key-value store.
  abbrev pub on_kv : {A : Type 0} → (S → A × S) → Handler S A
  on_kv op w = let (a, s) = op w.kv in (next a, record w { kv = s })

  unfoldable pub check_errors : String → Option Error → Option Error → Option Error → Handler S Unit
  check_errors text e1 e2 e3 =
      if any_error e1 e2 e3 then respond 500 (error (message text)) else done tt

  -- Three values of a session, all of them set before an error is looked at.
  unfoldable pub save_session : String → Request → String → String → ℕ → Handler S Unit
  unfolding check_errors
  save_session text request sid username duration = do
    e1 ← on_kv (kv.set (sid_key sid) username duration)
    e2 ← on_kv (kv.set (user_agent_key sid) (request.header "User-Agent") duration)
    e3 ← on_kv (kv.set (ip_key sid) request.client_ip duration)
    check_errors text e1 e2 e3

  unfoldable pub delete_session : String → String → Handler S Unit
  unfolding check_errors
  delete_session text sid = do
    e1 ← on_kv (kv.del (sid_key sid))
    e2 ← on_kv (kv.del (user_agent_key sid))
    e3 ← on_kv (kv.del (ip_key sid))
    check_errors text e1 e2 e3

  unfoldable pub or_error : {A : Type 0} → ℕ → A ⊎ Error → Handler S A
  or_error code (inl a) = done a
  or_error code (inr e) = respond code (error e)

  pub unless_error : ℕ → Option Error → Handler S Unit
  unless_error code none = done tt
  unless_error code (some e) = respond code (error e)

  -- `loginUser`
  unfoldable pub login_user_handler :
      Validator
      → Bcrypt
      → Paseto
      → Maker
      → Config
      → Request
      → Draw
      → Option LoginUserRequest
      → Handler S Unit
  unfolding unless_error or_error
  login_user_handler v b paseto maker config request draw body = do
    req ← should_bind (binds_login v) body
    found ← fetch (get_user req.username)
    unless_error 401 (check_password b req.password found.hashed_password)
    token ← or_error 500 (
        create_token paseto maker req.username found.role (pos config.access_token_duration)
          draw.uuid draw.uuid_error draw.issued draw.expiry)
    call set_same_site_lax
    call (set_cookie "sid" draw.session_id (seconds config.refresh_token_duration))
    save_session "failed to set session in redis when logging in" request draw.session_id
        found.username config.refresh_token_duration
    call (set_cookie "access_token" token.0 (seconds config.access_token_duration))
    respond 200 (notice "message" "login successfully")

  pub clear_session : Option String → Handler S Unit
  clear_session none = done tt
  clear_session (some sid) = do
    delete_session "failed to delete session in redis when logging out" sid
    call (set_cookie "sid" "" (negsuc 0))
    call (set_cookie "access_token" "" (negsuc 0))
    call (set_cookie "_gorilla_csrf" "" (negsuc 0))

  -- `logoutUser`
  unfoldable pub logout_user_handler : Request → Handler S Unit
  unfolding clear_session
  logout_user_handler request = do
    clear_session (request.cookie "sid")
    respond 200 (notice "message" "logout successfully")

  abbrev expired : Error
  expired = message "refresh token has been expired"

  pub or_expired : Option String → Handler S String
  or_expired none = respond 401 (error expired)
  or_expired (some sid) = done sid

  pub check_exists : Result ℕ → Handler S Unit
  check_exists (ok n) = if leb n 0 then respond 401 (error expired) else done tt
  check_exists (err e) = respond 401 (error expired)

  pub or_unauthorized : Result String → Handler S String
  or_unauthorized (ok s) = done s
  or_unauthorized (err e) = respond 401 (error e)

  -- The value in `x, _ := kvStore.Get(…)`: an error leaves "".
  abbrev pub text_of : Result String → String
  text_of (ok s) = s
  text_of (err e) = ""

  pub check_same : String → String → String → Handler S Unit
  check_same stored current text =
      if stored == current then done tt else respond 401 (error (message text))

  -- The part of `renewAccessToken` that reads and tests.
  unfoldable pub check_session : Request → Handler S (String × String)
  unfolding or_expired check_exists or_unauthorized check_same
  check_session request = do
    sid ← or_expired (request.cookie "sid")
    n ← on_kv (kv.exists (sid_key sid))
    check_exists n
    found ← on_kv (kv.get (sid_key sid))
    username ← or_unauthorized found
    stored_user_agent ← on_kv (kv.get (user_agent_key sid))
    stored_ip ← on_kv (kv.get (ip_key sid))
    check_same (text_of stored_user_agent) (request.header "User-Agent") "mismatched user agent"
    check_same (text_of stored_ip) request.client_ip "mismatched IP"
    done (sid, username)

  -- `renewAccessToken`
  unfoldable pub renew_access_token_handler :
      Paseto → Maker → Config → Request → Draw → Handler S Unit
  renew_access_token_handler paseto maker config request draw = do
    session ← check_session request
    found ← fetch (get_user session.1)
    token ← or_error 500 (
        create_token paseto maker found.username found.role (pos config.access_token_duration)
          draw.uuid draw.uuid_error draw.issued draw.expiry)
    delete_session "failed to delete session in redis when renewing access token" session.0
    call set_same_site_lax
    call (set_cookie "sid" draw.session_id (seconds config.refresh_token_duration))
    save_session "failed to set session in redis when renewing access token" request draw.session_id
        found.username config.refresh_token_duration
    call (set_cookie "access_token" token.0 (seconds config.access_token_duration))
    respond 200 (notice "status" "success")
