-- ===== src/Api/User.antt =====
-- api/user.go: `createUser`, `getUser` and `updateUser`.
pub mod Safety
pub mod Valid
pub mod Profile
mod Tests
use go2bank.Prelude.{
  ℕ, String, count, Bool, true, false, ◌&&◌, ◌||◌, Option, none, some, List, [], ◌∷◌, map, leb,
  ◌==◌, nat_eq, string_eq, if◌then◌else◌,
}
use go2bank.Prelude.Int.{pos}
use go2bank.Api.Binding.{Validator, required, should_bind}
use go2bank.Api.Gin.{
  ◌>>=◌, ◌>>◌, Body, fetch, done, query, Handler, invalid_update, GetUserResponse, user, profile,
  error, FieldViolation, respond, must_get, UserResponse,
}
use go2bank.Api.Validator.{UpdateUserRequest, validate_update_user_request}
use go2bank.Db.Account.{list_accounts}
use go2bank.Db.Error.{unique_violation, message, error_code}
use go2bank.Db.Model.{Account, User}
use go2bank.Db.Query.{err, Result, ok}
use go2bank.Db.User.{update_user, get_user, UpdateUserParams, create_user}
use go2bank.Token.{Payload}
use go2bank.Util.{banker_role, role_check, depositor_role}
use go2bank.Util.Password.{Bcrypt, hash_password}

pub record CreateUserRequest : Type 0 where
  pub username : String
  pub full_name : String
  pub email : String
  pub password : String

unfoldable pub binds_create_user : Validator → CreateUserRequest → Bool
binds_create_user v r =
    required r.username
    && v.alphanum r.username
    && required r.full_name
    && required r.email
    && v.email r.email
    && required r.password
    && leb 6 (count r.password)

-- `newUserResponse`
abbrev pub new_user_response : User → UserResponse
new_user_response u = record {
  username = u.username;
  full_name = u.full_name;
  email = u.email;
  password_changed_at = u.password_changed_at;
  created_at = u.created_at;
}

-- The copy of an account leaves out the time of its making.
abbrev pub in_profile : Account → Account
in_profile a = record a { created_at = 0 }

abbrev pub get_user_response : User → List Account → GetUserResponse
get_user_response u rows = record {
  username = u.username;
  full_name = u.full_name;
  email = u.email;
  password_changed_at = u.password_changed_at;
  created_at = u.created_at;
  accounts = map in_profile rows;
}

abbrev pub is_clean : List FieldViolation → Bool
is_clean [] = true
is_clean (_ ∷ _) = false

abbrev pub update_params : UpdateUserRequest → Option String → ℕ → UpdateUserParams
update_params req hashed now = record {
  hashed_password = hashed;
  password_changed_at = elim hashed [ none ↦ none | some _ ↦ some now ];
  full_name = req.full_name;
  email = req.email;
  username = req.username;
}

abbrev pub may_update : Payload → UpdateUserRequest → Bool
may_update auth req = auth.role == banker_role || auth.username == req.username

module _ {S : Type 0} where
  pub or_status : {A : Type 0} → ℕ → Result A → Handler S A
  or_status code (ok a) = done a
  or_status code (err e) = respond code (error e)

  pub registered : Result User → Handler S Unit
  registered (ok u) = respond 201 (user (new_user_response u))
  registered (err e) = respond (if error_code e == unique_violation then 409 else 500) (error e)

  -- `createUser`; the salt is what bcrypt draws.
  unfoldable pub create_user_handler :
      Validator → Bcrypt → ℕ → Option CreateUserRequest → Handler S Unit
  unfolding or_status registered
  create_user_handler v b salt body = do
    req ← should_bind (binds_create_user v) body
    hashed ← or_status 500 (hash_password b salt req.password)
    r ← query (
        create_user (record {
          username = req.username;
          hashed_password = hashed;
          full_name = req.full_name;
          email = req.email;
        }))
    registered r

  -- `getUser`
  unfoldable pub get_user_handler : Handler S Unit
  unfolding or_status
  get_user_handler = do
    auth ← must_get
    found ← fetch (get_user auth.username)
    r ← query (list_accounts (record { owner = found.username; limit = pos 5; offset = pos 0 }))
    rows ← or_status 500 r
    respond 200 (profile (get_user_response found rows))

  pub guard : Bool → ℕ → Body → Handler S Unit
  guard true code body = done tt
  guard false code body = respond code body

  -- The hash of a new password, if the request has one.
  pub new_password : Bcrypt → ℕ → Option String → Handler S (Option String)
  unfolding or_status
  new_password b salt none = done none
  new_password b salt (some password) = do
    hashed ← or_status 401 (hash_password b salt password)
    done (some hashed)

  -- `updateUser`; `now` is the time that it reads for a new password.
  unfoldable pub update_user_handler :
      Validator → (String → Bool) → Bcrypt → ℕ → ℕ → Option UpdateUserRequest → Handler S Unit
  unfolding guard new_password
  update_user_handler v parses b salt now body = do
    auth ← must_get
    guard (role_check auth.role (banker_role ∷ depositor_role ∷ [])) 403
        (error (message "no permission"))
    req ← should_bind (λ r. required r.username && v.alphanum r.username) body
    guard (is_clean (validate_update_user_request parses req)) 400
        (invalid_update (validate_update_user_request parses req))
    guard (may_update auth req) 403 (error (message "no permission"))
    hashed ← new_password b salt req.password
    changed ← fetch (update_user (update_params req hashed now))
    respond 200 (user (new_user_response changed))
