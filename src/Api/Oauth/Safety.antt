-- ===== src/Api/Oauth/Safety.antt =====
-- Which user signs in through Google.
use go2bank.Prelude.{
  String, ◌≡◌, refl, ap, ◌∙◌, ◌⊎◌, inl, inr, ◌==◌, nat_eq, string_eq, if◌then◌else◌, Bool-cases,
}
use go2bank.Util.Config.{Config}
use go2bank.Api.Session.Leaving.{save_session-Quiet, or_error-Quiet, respond-Quiet}
use Prim.Native.String.{◌++◌ as append}
use go2bank.Api.Gin.{query, World, panicked, returned, Exit, ◌>>=◌, next}
use go2bank.Api.Oauth.{
  failed_with, got, Answer, or_bad_gateway, crashed, google_oauth_handler, Google, GoogleUser,
  require_code, upserted, GoogleOauthToken, sign_in,
}
use go2bank.Api.Quiet.{
  panic-Quiet, bind-Quiet, Stays-trans, Quiet, Quiet-bind, done-Quiet, QuietTo, call-Quiet,
}
use go2bank.Api.Session.{Draw, Request}
use go2bank.Db.Model.{User, Db}
use go2bank.Db.Query.{err, Result, ok}
use go2bank.Db.Query.Outcome.{Settles}
use go2bank.Db.User.{upsert_user, UpsertUserParams}
use go2bank.Db.User.Changes.{upsert_user-Settles, Upserted}
use go2bank.Redis.{KvStore}
use go2bank.Token.{Maker, Paseto}

-- The user that a profile stands for: its display name with `-google` after it, the given and
-- the family name with a space between, the email, and an empty hash of a password.
abbrev pub google_row : GoogleUser → UpsertUserParams
google_row u = record {
  username = append u.name "-google";
  hashed_password = "";
  full_name = append u.given_name (append " " u.family_name);
  email = u.email;
  provider = "Google";
}

module _ {S : Type 0} (kv : KvStore S) where
  require_code-Quiet : (code : String) (w : World S) → Quiet (require_code kv code) w (λ _ _. Unit)
  unfolding require_code
  require_code-Quiet code w = elim (Bool-cases (code == "")) [
    | inl e ↦ rw (e, if◌then◌else◌) (respond-Quiet kv 401 _ w)
    | inr e ↦ rw (e, if◌then◌else◌) (done-Quiet tt w tt)
  ]

  or_bad_gateway-Quiet :
      {A : Type 0} (r : Answer A) (w : World S) → Quiet (or_bad_gateway kv r) w (λ a _. r ≡ got a)
  unfolding or_bad_gateway
  or_bad_gateway-Quiet (got a) w = done-Quiet a w refl
  or_bad_gateway-Quiet (failed_with e) w = respond-Quiet kv 502 _ w
  or_bad_gateway-Quiet crashed w = panic-Quiet w

  sign_in-Quiet :
      (paseto : Paseto) (maker : Maker) (config : Config) (request : Request) (draw : Draw)
      (u : User) (location : String) (w : World S)
      → Quiet (sign_in kv paseto maker config request draw u location) w (λ _ _. Unit)
  unfolding sign_in
  sign_in-Quiet paseto maker config request draw u location w =
      Quiet-bind _ _ w (or_error-Quiet kv 500 _ w) λ token w1 s1 _.
        Quiet-bind _ _ w1 (call-Quiet _ w1) λ _ w2 s2 _.
          Quiet-bind _ _ w2 (call-Quiet _ w2) λ _ w3 s3 _.
            Quiet-bind _ _ w3 (save_session-Quiet kv _ request draw.session_id u.username _ w3)
              λ _ w4 s4 _. Quiet-bind _ _ w4 (call-Quiet _ w4) λ _ w5 s5 _. call-Quiet _ w5

  QuietTo-db :
      {A : Type 0} (Fact : A → World S → Type 0) (w : World S) (o : Exit A × World S)
      → QuietTo w Fact o
      → o.1.db ≡ w.db
  QuietTo-db Fact w (next a, v) q = q.0.db
  QuietTo-db Fact w (returned, v) q = q
  QuietTo-db Fact w (panicked, v) q = q

  module _ (google : Google) (code : String) where
    -- The users' table has the row of a user whom Google has named for this code.
    pub record SignsIn (w : World S) (o : Exit Unit × World S) : Type 0 where
      pub tokens : GoogleOauthToken
      pub google_user : GoogleUser
      pub new : User
      pub got_tokens : google.get_oauth_token code ≡ got tokens
      pub got_user : google.get_user tokens.access_token tokens.id_token ≡ got google_user
      pub changed : Upserted (google_row google_user) w.db.tables new o.1.db.tables

    module _ (paseto : Paseto) (maker : Maker) (config : Config) (request : Request) (draw : Draw)
        (location : String) where
      after_upsert :
          (arg : UpsertUserParams) (w : World S) (o : Result User × Db)
          → Settles (Upserted arg) w.db.tables o
          → let out =
              (upserted kv o.0 >>= λ u. sign_in kv paseto maker config request draw u location)
                (record w { db = o.1 }) in
            (out.1.db.tables ≡ w.db.tables)
            ⊎ ((new : User) × Upserted arg w.db.tables new out.1.db.tables)
      unfolding upserted ◌>>=◌
      after_upsert arg w (ok u, d) h =
          let q = sign_in-Quiet paseto maker config request draw u location (record w { db = d }) in
          inr (u, rw (QuietTo-db (λ _ _. Unit) (record w { db = d }) _ q.at) h)
      after_upsert arg w (err e, d) h = inl h

      upsert_part :
          (arg : UpsertUserParams) (w : World S)
          → let out =
              (query (upsert_user arg) >>= λ r.
              upserted kv r >>= λ u. sign_in kv paseto maker config request draw u location)
                w in
            (out.1.db.tables ≡ w.db.tables)
            ⊎ ((new : User) × Upserted arg w.db.tables new out.1.db.tables)
      unfolding ◌>>=◌
      upsert_part arg w = after_upsert arg w (upsert_user arg w.db) (upsert_user-Settles arg w.db)

      SignsIn-of :
          (w w3 : World S) (o : Exit Unit × World S) (tokens : GoogleOauthToken)
          (google_user : GoogleUser)
          → google.get_oauth_token code ≡ got tokens
          → google.get_user tokens.access_token tokens.id_token ≡ got google_user
          → w3.db ≡ w.db
          → (o.1.db.tables ≡ w3.db.tables)
            ⊎ ((new : User) × Upserted (google_row google_user) w3.db.tables new o.1.db.tables)
          → (o.1.db ≡ w3.db) ⊎ ((o.1.db.tables ≡ w.db.tables) ⊎ SignsIn w o)
      SignsIn-of w w3 o tokens google_user t u same (inl h) =
          inr (inl (h ∙ ap (λ (d : Db). d.tables) same))
      SignsIn-of w w3 o tokens google_user t u same (inr (new, changed)) = inr (
          inr (record {
            tokens = tokens;
            google_user = google_user;
            new = new;
            got_tokens = t;
            got_user = u;
            changed = rw (← same) changed;
          }))

    abbrev Ends : World S → Exit Unit × World S → Type 0
    Ends w o = (o.1.db.tables ≡ w.db.tables) ⊎ SignsIn w o

    flatten : (w : World S) (o : Exit Unit × World S) → (o.1.db ≡ w.db) ⊎ Ends w o → Ends w o
    flatten w o (inl h) = inl (ap (λ (d : Db). d.tables) h)
    flatten w o (inr h) = h

    -- A sign-in through Google leaves every table, or the code has led Google to name a user, and
    -- the one change is to the row whose name is Google's display name with `-google` after it. That
    -- row then has the full name and the email of Google and an empty password: it is a new
    -- depositor, or whoever had that name before, who keeps the role.
    pub google_oauth_handler-safe :
        (paseto : Paseto) (maker : Maker) (config : Config) (origin : String) (request : Request)
        (draw : Draw) (state : String) (w : World S)
        → let out =
            google_oauth_handler kv google paseto maker config origin request draw code state w in
          (out.1.db.tables ≡ w.db.tables) ⊎ SignsIn w out
    unfolding google_oauth_handler
    google_oauth_handler-safe paseto maker config origin request draw state w = flatten w _ (
        bind-Quiet (Ends w) _ _ w (require_code-Quiet code w) λ _ w1 s1 _.
          bind-Quiet (Ends w) _ _ w1 (or_bad_gateway-Quiet (google.get_oauth_token code) w1)
            λ tokens w2 s2 got_tokens.
              bind-Quiet (Ends w) _ _ w2
                (or_bad_gateway-Quiet (google.get_user tokens.access_token tokens.id_token) w2)
                λ google_user w3 s3 got_user.
                  SignsIn-of paseto maker config request draw
                    (append origin (if state == "" then "/" else state)) w w3 _ tokens google_user
                    got_tokens got_user (Stays-trans (Stays-trans s1 s2) s3).db
                    (upsert_part paseto maker config request draw
                      (append origin (if state == "" then "/" else state)) (google_row google_user)
                      w3))
