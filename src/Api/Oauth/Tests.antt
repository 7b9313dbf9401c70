-- ===== src/Api/Oauth/Tests.antt =====
-- Two people whom Google shows by one name.
use go2bank.Prelude.{
  String, count, ◌≡◌, refl, ap, ◌⊎◌, inl, inr, none, some, List, [], ◌∷◌, map, arith, ◌==◌, nat_eq,
  string_eq, if◌then◌else◌,
}
use go2bank.Util.Config.{Config, zero_config}
use go2bank.Api.Oauth.Panics.{LacksText, AnswersUser, asks_family_name, google_oauth_handler-panics}
use go2bank.Api.Oauth.Client.{
  Web, test_google_oauth_handler, web_google, text_at, Json, get_google_oauth_token, fetch_object,
  text,
}
use go2bank.Api.Oauth.{got, google_oauth_handler, Google, GoogleUser}
use go2bank.Api.Oauth.Safety.{google_oauth_handler-safe, SignsIn}
use go2bank.Api.Session.{or_error, Request, Draw}
use go2bank.Prelude.Int.{◌+ℤ◌}
use go2bank.Db.Error.{no_rows}
use go2bank.Db.Model.{User}
use go2bank.Db.Query.{statement}
use go2bank.Db.User.{find_user, email_taken, upsert_user, replace_user}
use go2bank.Redis.Memory.{Memory, memory}
use go2bank.Samples.{bank}
use go2bank.Token.{new_payload, create_token}
use go2bank.Token.Sample.{is_ann, toy, maker}
use go2bank.Api.Gin.{redirect, panicked, World, Exit, ◌>>=◌ as handler_bind}

abbrev eve : String → GoogleUser
eve email = record { email = email; name = "eve"; given_name = "Eve"; family_name = "Low" }

-- The code is the user's email.
abbrev google : Google
google = record {
  get_oauth_token = λ code. got (record { access_token = code; id_token = code });
  get_user = λ email _. got (eve email);
}

abbrev config : Config
config = record zero_config { access_token_duration = 900; refresh_token_duration = 1000 }

abbrev draw : Draw
draw = record { uuid = some "t1"; uuid_error = no_rows; issued = 1; expiry = 5; session_id = "s1" }

abbrev client : Request
client = record { cookie = λ _. none; header = λ _. ""; client_ip = "::1" }

abbrev empty : World Memory
empty = record { db = bank; kv = record { values = []; windows = [] }; payload = none; calls = [] }

abbrev visit : String → World Memory → Exit Unit × World Memory
visit email w =
    google_oauth_handler memory google toy maker config "https://bank" client draw email "" w

oauth_code : Unit {0}
unfolding google_oauth_handler handler_bind upsert_user statement find_user email_taken replace_user
    create_token new_payload is_ann ◌+ℤ◌ or_error
oauth_code = tt

-- The second one signs in as the same user, whose email becomes that of the second.
one_user_for_both :
    let first = (visit "eve1@x.org" empty).1.db.users in
    let second = (visit "eve2@x.org" (visit "eve1@x.org" empty).1).1.db.users in
    (map (λ (u : User). u.username) first ≡ "ann" ∷ "bob" ∷ "eve-google" ∷ [])
    × (map (λ (u : User). u.username) second ≡ "ann" ∷ "bob" ∷ "eve-google" ∷ [])
    × (map (λ (u : User). u.email) second ≡ "ann@x.org" ∷ "bob@x.org" ∷ "eve2@x.org" ∷ [])
unfolding oauth_code
one_user_for_both = (refl, refl, refl)

google_oauth_handler-safe_example :
    ((visit "eve1@x.org" empty).1.db.tables ≡ bank.tables)
    ⊎ SignsIn memory google "eve1@x.org" empty (visit "eve1@x.org" empty)
google_oauth_handler-safe_example =
    google_oauth_handler-safe memory google "eve1@x.org" toy maker config "https://bank" client draw
      "" empty

-- Google's servers: a pair of tokens, and a user with no family name.
abbrev nameless : List (String × Json)
nameless = ("email", text "bo@x.org") ∷ ("name", text "Bo") ∷ ("given_name", text "Bo") ∷ []

abbrev google_config : Config
google_config = record zero_config {
  google_client_id = "id";
  google_client_secret = "s";
  google_oauth_redirect_url = "https://bank/api";
}

abbrev web : Web
web = record {
  encode = λ _. inl "q";
  new_request_error = λ _. none;
  send = λ req. inl (record { status = 200; body = inl req.method });
  unmarshal = λ body. inl (
      if body == "POST"
      then ("access_token", text "a") ∷ ("id_token", text "i") ∷ []
      else nameless);
}

web-AnswersUser : AnswersUser web "a" "i" nameless
web-AnswersUser = record { body = "GET"; well_formed = refl; sent = refl; decoded = refl }

got_tokens :
    get_google_oauth_token web google_config "4/x"
    ≡ got (record { access_token = "a"; id_token = "i" })
unfolding get_google_oauth_token fetch_object text_at
got_tokens = refl

no_family_name : LacksText "family_name" nameless
unfolding LacksText
no_family_name = inr (
  λ h. let e = ap count h in absurd (omega (arith, e)),
  inr (
    λ h. let e = ap count h in absurd (omega (arith, e)),
    inr (λ h. let e = ap count h in absurd (omega (arith, e)), tt),
  ),
)

google_oauth_handler-panics_example :
    google_oauth_handler memory
      (web_google web google_config)
      toy
      maker
      config
      "https://bank"
      client
      draw
      "4/x"
      ""
      empty
    ≡ (panicked, empty)
google_oauth_handler-panics_example =
    google_oauth_handler-panics memory web google_config toy maker config "https://bank" client draw
      "4/x" "" (record { access_token = "a"; id_token = "i" }) nameless "family_name" empty refl
      got_tokens web-AnswersUser asks_family_name no_family_name

-- The way to Google without `from`.
goes_to_google :
    (test_google_oauth_handler web google_config none empty).1.calls
    ≡ redirect 302 "https://accounts.google.com/o/oauth2/v2/auth?q" ∷ []
unfolding test_google_oauth_handler
goes_to_google = refl
