-- ===== src/Api/Oauth/Panics.antt =====
-- What Google leaves out of its answer brings the sign-in down.
use go2bank.Prelude.{
  String, ◌≡◌, refl, ◌≢◌, ◌⊎◌, inl, inr, false, none, List, [], ◌∷◌, arith, eq_iff, ◌==◌, nat_eq,
  string_eq, if◌then◌else◌, Bool-cases,
}
use go2bank.Api.User.Safety.{given}
use go2bank.Util.Config.{Config}
use go2bank.Api.Gin.{panicked, World, ◌>>=◌}
use go2bank.Api.Middleware.{fields}
use go2bank.Api.Oauth.{got, GoogleOauthToken, google_oauth_handler, Answer, crashed}
use go2bank.Api.Oauth.Client.{
  continue_with, no_text, get_google_oauth_token, Json, web_google, text_at, user_request, Web,
  user_of_fields, text, fetch_object, get_google_user,
}
use go2bank.Api.Session.{Draw, Request}
use go2bank.Redis.{KvStore}
use go2bank.Token.{Maker, Paseto}

-- The texts that `GetGoogleUser` takes from the answer.
pub data IsUserField : String → Type 0 where
  asks_email : IsUserField "email"
  asks_name : IsUserField "name"
  asks_given_name : IsUserField "given_name"
  asks_family_name : IsUserField "family_name"

-- No error comes of reading a field: there is a text, or a panic.
text_at-cases :
    (key : String) (fields : List (String × Json))
    → (text_at key fields ≡ crashed) ⊎ ((t : String) × (text_at key fields ≡ got t))
unfolding text_at
text_at-cases key [] = inl refl
text_at-cases key ((k, text t) ∷ rest) = elim (Bool-cases (k == key)) [
  | inl e ↦ rw (e, if◌then◌else◌) (inr (t, refl))
  | inr e ↦ rw (e, if◌then◌else◌) (text_at-cases key rest)
]
text_at-cases key ((k, no_text) ∷ rest) = elim (Bool-cases (k == key)) [
  | inl e ↦ rw (e, if◌then◌else◌) (inl refl)
  | inr e ↦ rw (e, if◌then◌else◌) (text_at-cases key rest)
]

continue_with-crashed :
    {B : Type 0} (key : String) (fields : List (String × Json)) (f : String → Answer B)
    → ((t : String) → f t ≡ crashed)
    → continue_with (text_at key fields) f ≡ crashed
continue_with-crashed key fields f h = elim (text_at-cases key fields) [
  | inl e ↦ rw e refl
  | inr (t, e) ↦ rw e (h t)
]

user_of_fields-crashed :
    (web : Web) (fields : List (String × Json)) (key : String)
    → IsUserField key
    → text_at key fields ≡ crashed
    → user_of_fields web fields ≡ crashed
unfolding user_of_fields
user_of_fields-crashed web fields _ asks_email h = rw h refl
user_of_fields-crashed web fields _ asks_name h =
    continue_with-crashed "email" fields _ λ a. rw h refl
user_of_fields-crashed web fields _ asks_given_name h =
    continue_with-crashed "email" fields _ λ a. continue_with-crashed "name" fields _ λ b. rw h refl
user_of_fields-crashed web fields _ asks_family_name h = continue_with-crashed "email" fields _ λ a.
    continue_with-crashed "name" fields _
      λ b. continue_with-crashed "given_name" fields _ λ c. rw h refl

-- The first field of the key holds no text, or there is none.
unfoldable pub LacksText : String → List (String × Json) → Type 0
LacksText key [] = Unit
LacksText key ((k, value) ∷ rest) =
    ((k ≡ key) × (value ≡ no_text)) ⊎ ((k ≢ key) × LacksText key rest)

text_at-LacksText :
    (key : String) (fields : List (String × Json))
    → LacksText key fields
    → text_at key fields ≡ crashed
unfolding text_at LacksText
text_at-LacksText key [] h = refl
text_at-LacksText key ((k, text t) ∷ rest) (inl (same, textless)) = absurd (cc)
text_at-LacksText key ((k, no_text) ∷ rest) (inl (same, textless)) =
    ground (arith, eq_iff k key, same)
text_at-LacksText key ((k, text t) ∷ rest) (inr (apart, h)) =
    ground (arith, eq_iff k key, text_at-LacksText key rest h)
text_at-LacksText key ((k, no_text) ∷ rest) (inr (apart, h)) =
    ground (arith, eq_iff k key, text_at-LacksText key rest h)

-- Google's answer with the user: status 200, and an object of these fields.
pub record AnswersUser (web : Web) (access_token id_token : String) (fields : List (String × Json))
    : Type 0 where
  pub body : String
  pub well_formed : web.new_request_error (user_request web access_token id_token).url ≡ none
  pub sent :
      web.send (user_request web access_token id_token)
      ≡ inl (record { status = 200; body = inl body })
  pub decoded : web.unmarshal body ≡ inl fields

get_google_user-fields :
    (web : Web) (access_token id_token : String) (fields : List (String × Json))
    → AnswersUser web access_token id_token fields
    → get_google_user web access_token id_token ≡ user_of_fields web fields
unfolding get_google_user fetch_object
get_google_user-fields web access_token id_token fields a =
    rw (a.well_formed, a.sent, a.decoded) refl

module _ {S : Type 0} (kv : KvStore S) where
  -- Where Google names a user with no text for one of the email, the name, the given name and the
  -- family name, the sign-in panics: it gives no answer and changes nothing.
  pub google_oauth_handler-panics :
      (web : Web) (google_config : Config) (paseto : Paseto) (maker : Maker) (config : Config)
      (origin : String) (request : Request) (draw : Draw) (code state : String)
      (tokens : GoogleOauthToken) (fields : List (String × Json)) (key : String) (w : World S)
      → (code == "") ≡ false
      → get_google_oauth_token web google_config code ≡ got tokens
      → AnswersUser web tokens.access_token tokens.id_token fields
      → IsUserField key
      → LacksText key fields
      → google_oauth_handler kv
          (web_google web google_config)
          paseto
          maker
          config
          origin
          request
          draw
          code
          state
          w
        ≡ (panicked, w)
  unfolding google_oauth_handler ◌>>=◌
  google_oauth_handler-panics web google_config paseto maker config origin request draw code state
        tokens fields key w given got_tokens a is_field h =
      rw
        (
          given,
          got_tokens,
          get_google_user-fields web _ _ fields a,
          user_of_fields-crashed web fields key is_field (text_at-LacksText key fields h),
        )
        refl
