-- ===== src/Api/Oauth.antt =====
-- api/oauth.go: `googleOAuth`, over an interface of the two calls to Google's servers, which
-- Api.Oauth.Client fills.
pub mod Safety
pub mod Client
pub mod Panics
mod Tests
use go2bank.Prelude.{String, not, ◌==◌, nat_eq, string_eq, if◌then◌else◌}
use go2bank.Prelude.Int.{pos}
use go2bank.Util.Config.{Config}
use go2bank.Api.Gin.{
  panic, Handler, set_same_site_lax, set_cookie, call, done, error, redirect, respond, query, ◌>>=◌,
  ◌>>◌,
}
use go2bank.Api.Session.{or_error, Request, Draw, save_session, seconds}
use go2bank.Db.Error.{message, error_code, Error, unique_violation}
use go2bank.Db.Model.{User}
use go2bank.Db.Query.{err, ok, Result}
use go2bank.Db.User.{upsert_user, UpsertUserParams}
use go2bank.Redis.{KvStore}
use go2bank.Token.{create_token, Maker, Paseto}
use go2bank.Token.Sample.{maker}
use Prim.Native.String.{◌++◌ as append}

-- What the code takes from `GoogleOauthToken` and `GoogleUserResult`.
pub record GoogleOauthToken : Type 0 where
  pub access_token : String
  pub id_token : String

pub record GoogleUser : Type 0 where
  pub email : String
  pub name : String
  pub given_name : String
  pub family_name : String

-- How a call ends: with a value, with an error, or by a panic.
pub data Answer (A : Type 0) : Type 0 where
  got : A → Answer A
  failed_with : Error → Answer A
  crashed : Answer A

pub record Google : Type 0 where
  pub get_oauth_token : String → Answer GoogleOauthToken
  pub get_user : String → String → Answer GoogleUser

abbrev pub google_params : GoogleUser → UpsertUserParams
google_params u = record {
  username = append u.name "-google";
  hashed_password = "";
  full_name = append u.given_name (append " " u.family_name);
  email = u.email;
  provider = "Google";
}

module _ {S : Type 0} (kv : KvStore S) where
  pub require_code : String → Handler S Unit
  require_code code =
      if code == ""
      then respond 401 (error (message "authorization code not provided"))
      else done tt

  -- The branches `if err != nil` after a call to Google.
  pub or_bad_gateway : {A : Type 0} → Answer A → Handler S A
  or_bad_gateway (got a) = done a
  or_bad_gateway (failed_with e) = respond 502 (error e)
  or_bad_gateway crashed = panic

  pub upserted : Result User → Handler S User
  upserted (ok u) = done u
  upserted (err e) = respond (if error_code e == unique_violation then 409 else 500) (error e)

  -- The session and the cookies of a user who has signed in.
  pub sign_in : Paseto → Maker → Config → Request → Draw → User → String → Handler S Unit
  sign_in paseto maker config request draw u location = do
    token ← or_error kv 500 (
        create_token paseto maker u.username u.role (pos config.access_token_duration) draw.uuid
          draw.uuid_error draw.issued draw.expiry)
    call set_same_site_lax
    call (set_cookie "sid" draw.session_id (seconds config.refresh_token_duration))
    save_session kv "failed to set session in redis when logging in" request draw.session_id
        u.username config.refresh_token_duration
    call (set_cookie "access_token" token.0 (seconds config.access_token_duration))
    call (redirect 307 location)

  -- `googleOAuth`, of the query's `code` and `state`; `origin` is `AllowedOrigins[0]`.
  unfoldable pub google_oauth_handler :
      Google → Paseto → Maker → Config → String → Request → Draw → String → String → Handler S Unit
  unfolding require_code or_bad_gateway upserted sign_in
  google_oauth_handler google paseto maker config origin request draw code state = do
    require_code code
    tokens ← or_bad_gateway (google.get_oauth_token code)
    google_user ← or_bad_gateway (google.get_user tokens.access_token tokens.id_token)
    r ← query (upsert_user (google_params google_user))
    u ← upserted r
    sign_in paseto maker config request draw u (append origin (if state == "" then "/" else state))
