-- ===== src/Api/Oauth/Client.antt =====
-- api/oauth.go: the calls to Google's servers, and `testGoogleOAuth`, which sends the user there.
use go2bank.Prelude.{
  ℕ, String, ◌⊎◌, inl, inr, Option, none, some, List, [], ◌∷◌, ◌==◌, nat_eq, string_eq,
  if◌then◌else◌,
}
use go2bank.Util.Config.{Config}
use go2bank.Api.Gin.{redirect, error, call, Handler, respond}
use go2bank.Api.Middleware.{fields}
use go2bank.Api.Oauth.{failed_with, got, GoogleUser, GoogleOauthToken, Answer, Google, crashed}
use go2bank.Db.Error.{Error, message}
use Prim.Native.String.{◌++◌ as append}

pub record HttpRequest : Type 0 where
  pub method : String
  pub url : String
  pub body : String
  pub header : String × String
  pub timeout : ℕ

-- The body of a response may fail while it is read.
pub record HttpResponse : Type 0 where
  pub status : ℕ
  pub body : String ⊎ Error

-- A value of a decoded object, by whether `.(string)` gives a text.
pub data Json : Type 0 where
  text : String → Json
  no_text : Json

-- The libraries: a query string of go-querystring and net/url, the error of `http.NewRequest`, the
-- client of net/http with the servers behind it, and a decoder of objects of encoding/json.
pub record Web : Type 0 where
  pub encode : List (String × String) → String ⊎ Error
  pub new_request_error : String → Option Error
  pub send : HttpRequest → HttpResponse ⊎ Error
  pub unmarshal : String → List (String × Json) ⊎ Error

abbrev pub answered : {A : Type 0} → A ⊎ Error → Answer A
answered (inl a) = got a
answered (inr e) = failed_with e

abbrev pub continue_with : {A B : Type 0} → Answer A → (A → Answer B) → Answer B
continue_with (got a) f = f a
continue_with (failed_with e) f = failed_with e
continue_with crashed f = crashed

-- `fields[key].(string)`, a panic unless there is a text.
unfoldable pub text_at : String → List (String × Json) → Answer String
text_at key [] = crashed
text_at key ((k, text t) ∷ rest) = if k == key then got t else text_at key rest
text_at key ((k, no_text) ∷ rest) = if k == key then crashed else text_at key rest

module _ (web : Web) where
  pub check_status : String → HttpResponse → Answer HttpResponse
  check_status refusal res = if res.status == 200 then got res else failed_with (message refusal)

  unless_refused : Option Error → HttpRequest → Answer HttpResponse
  unless_refused none req = answered (web.send req)
  unless_refused (some e) req = failed_with e

  -- What both calls do with a request: build it, send it, and decode the answer.
  unfoldable pub fetch_object : HttpRequest → String → Answer (List (String × Json))
  unfolding check_status unless_refused
  fetch_object req refusal =
      continue_with (unless_refused (web.new_request_error req.url) req) λ res.
        continue_with (check_status refusal res)
          λ res. continue_with (answered res.body) λ body. answered (web.unmarshal body)

  abbrev pub token_options : Config → String → List (String × String)
  token_options config code =
      ("grant_type", "authorization_code")
      ∷ ("code", code)
      ∷ ("client_id", config.google_client_id)
      ∷ ("client_secret", config.google_client_secret)
      ∷ ("redirect_uri", config.google_oauth_redirect_url)
      ∷ []

  -- `GetGoogleOauthToken`; the timeout is in seconds.
  unfoldable pub get_google_oauth_token : Config → String → Answer GoogleOauthToken
  get_google_oauth_token config code =
      continue_with (answered (web.encode (token_options config code))) λ query.
        continue_with
          (fetch_object
            (record {
              method = "POST";
              url = "https://oauth2.googleapis.com/token";
              body = query;
              header = ("Content-Type", "application/x-www-form-urlencoded");
              timeout = 30;
            })
            "could not retrieve token")
          λ fields. continue_with (text_at "access_token" fields) λ access_token.
            continue_with (text_at "id_token" fields)
              λ id_token. got (record { access_token = access_token; id_token = id_token })

  abbrev pub user_request : String → String → HttpRequest
  user_request access_token id_token = record {
    method = "GET";
    url =
        append "https://www.googleapis.com/oauth2/v1/userinfo?alt=json&access_token=" access_token;
    body = "";
    header = ("Authorization", append "Bearer " id_token);
    timeout = 30;
  }

  -- `GoogleUserResult`, of the decoded fields.
  unfoldable pub user_of_fields : List (String × Json) → Answer GoogleUser
  user_of_fields fields = continue_with (text_at "email" fields) λ email.
      continue_with (text_at "name" fields) λ name.
        continue_with (text_at "given_name" fields) λ given_name.
          continue_with (text_at "family_name" fields) λ family_name. got (record {
            email = email;
            name = name;
            given_name = given_name;
            family_name = family_name;
          })

  -- `GetGoogleUser`
  unfoldable pub get_google_user : String → String → Answer GoogleUser
  get_google_user access_token id_token =
      continue_with (fetch_object (user_request access_token id_token) "could not retrieve user")
        user_of_fields

  -- The interface of `googleOAuth`, by these two calls.
  abbrev pub web_google : Config → Google
  web_google config = record {
    get_oauth_token = get_google_oauth_token config;
    get_user = get_google_user;
  }

  abbrev pub consent_options : Config → String → List (String × String)
  consent_options config from =
      ("redirect_uri", config.google_oauth_redirect_url)
      ∷ ("client_id", config.google_client_id)
      ∷ ("access_type", "offline")
      ∷ ("response_type", "code")
      ∷ ("prompt", "consent")
      ∷ (
        "scope",
        "https://www.googleapis.com/auth/userinfo.profile https://www.googleapis.com/auth/userinfo.email",
      )
      ∷ ("state", from)
      ∷ []

  abbrev default_query : Option String → String → String
  default_query none fallback = fallback
  default_query (some value) fallback = value

  pub to_consent : {S : Type 0} → String ⊎ Error → Handler S Unit
  to_consent (inr e) = respond 400 (error e)
  to_consent (inl v) =
      call (redirect 302 (append "https://accounts.google.com/o/oauth2/v2/auth?" v))

  -- `testGoogleOAuth`, of the query's `from`.
  unfoldable pub test_google_oauth_handler : {S : Type 0} → Config → Option String → Handler S Unit
  unfolding to_consent
  test_google_oauth_handler config from =
      to_consent (web.encode (consent_options config (default_query from "/api/users/logout")))
