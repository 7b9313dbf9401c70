-- ===== src/Api/User/Safety.antt =====
-- What `createUser` and `updateUser` change, and for whom.
use go2bank.Prelude.{
  ℕ, ◌≤◌, String, ◌≡◌, refl, ◌⊎◌, inl, inr, Bool, true, false, Option, none, some, arith, ◌==◌,
  nat_eq, string_eq, if◌then◌else◌,
}
use go2bank.Api.User.Valid.{IsValidUpdate}
use go2bank.Db.Error.{error_code, unique_violation}
use go2bank.Db.User.{replace_user, find_user, email_taken, CreateUserParams}
use go2bank.Api.Binding.{Validator}
use go2bank.Api.Gin.{UserResponse, error, World, user, Exit}
use go2bank.Api.Reading.{
  done-Reads, Refused, Same-trans, Reads, should_bind-Reads, bind-Reads, respond-Reads,
}
use go2bank.Api.User.{
  CreateUserRequest, binds_create_user, registered, create_user_handler, or_status,
}
use go2bank.Api.Validator.{UpdateUserRequest}
use go2bank.Api.Writing.{query-Finished, Closes, Finished, Finished-Same}
use go2bank.Db.Model.{Tables, User, idle}
use go2bank.Db.Query.{ok, err, Result}
use go2bank.Db.User.Changes.{create_user-Settles, Registered}
use go2bank.Token.{Payload}
use go2bank.Util.Password.{Bcrypt, hash_password}

hash_password-ok :
    (b : Bcrypt) (salt : ℕ) (password hash : String)
    → hash_password b salt password ≡ ok hash
    → b.generate salt password ≡ some hash
unfolding hash_password
hash_password-ok b salt password hash h = ground arith

-- The new hash is that of the new password, where there is one.
abbrev pub IsNewHash : Bcrypt → ℕ → Option String → Option String → Type 0
IsNewHash b salt none hashed = hashed ≡ none
IsNewHash b salt (some password) hashed =
    (hash : String) × (b.generate salt password ≡ some hash) × (hashed ≡ some hash)

abbrev pub create_params : CreateUserRequest → String → CreateUserParams
create_params req hash = record {
  username = req.username;
  hashed_password = hash;
  full_name = req.full_name;
  email = req.email;
}

-- What an answer shows of a user: all but the password and the role.
abbrev pub public_part : User → UserResponse
public_part u = record {
  username = u.username;
  full_name = u.full_name;
  email = u.email;
  password_changed_at = u.password_changed_at;
  created_at = u.created_at;
}

abbrev pub given : {A : Type 0} → Option A → A → A
given none old = old
given (some new) old = new

-- When a new password is set, the time of the change.
abbrev pub changed_at : Option String → ℕ → ℕ → ℕ
changed_at none now old = old
changed_at (some _) now old = now

-- The row of the user of the request has each new value that it gives, and keeps the others.
pub record Rewritten (req : UpdateUserRequest) (hashed : Option String) (now : ℕ) (t : Tables)
    (new : User) (t' : Tables) : Type 0 where
  pub old : User
  pub found : find_user req.username t.users ≡ some old
  pub email_free : email_taken old.username new.email t.users ≡ false
  pub is_new : new ≡ record old {
    full_name = given req.full_name old.full_name;
    email = given req.email old.email;
    hashed_password = given hashed old.hashed_password;
    password_changed_at = changed_at hashed now old.password_changed_at;
  }
  pub tables : t' ≡ record t { users = replace_user new t.users }

module _ {S : Type 0} where
  or_status-Reads :
      {A : Type 0} (code : ℕ) (r : Result A) (w : World S)
      → w.db.tx ≡ idle
      → 400 ≤ code
      → Reads (or_status code r) w (λ a. r ≡ ok a)
  unfolding or_status
  or_status-Reads code (ok a) w i h = done-Reads a w i refl
  or_status-Reads code (err e) w i h = respond-Reads code _ w h

  -- Who asked for an update, and what was changed.
  pub record Updates (v : Validator) (parses : String → Bool) (b : Bcrypt) (salt now : ℕ)
      (body : Option UpdateUserRequest) (w : World S) (o : Exit Unit × World S) : Type 0 where
    pub auth : Payload
    pub req : UpdateUserRequest
    pub hashed : Option String
    pub signed_in : w.payload ≡ some auth
    pub asked : body ≡ some req
    pub valid : IsValidUpdate parses req
    pub allowed : (auth.role ≡ "banker") ⊎ (auth.username ≡ req.username)
    pub is_new_hash : IsNewHash b salt req.password hashed
    pub finished : Finished 200 (λ u. user (public_part u)) (Rewritten req hashed now) w o

  -- A registration that was carried out.
  pub record Registers (v : Validator) (b : Bcrypt) (salt : ℕ) (body : Option CreateUserRequest)
      (w : World S) (o : Exit Unit × World S) : Type 0 where
    pub req : CreateUserRequest
    pub hash : String
    pub asked : body ≡ some req
    pub is_valid : binds_create_user v req ≡ true
    pub is_hash : b.generate salt req.password ≡ some hash
    pub finished :
        Finished 201 (λ u. user (public_part u)) (Registered (create_params req hash)) w o

  registered-Closes :
      (arg : CreateUserParams)
      → Closes 201 (λ u. user (public_part u)) (Registered arg) (registered {S = S})
  unfolding registered
  registered-Closes arg = record {
    on_ok = λ a w. refl;
    status = λ e. if error_code e == unique_violation then 409 else 500;
    text = error;
    is_error = λ e. ground arith;
    on_err = λ e w. refl;
  }

  -- A registration is refused with every table left, or it is valid, of a user name and an email
  -- that were free, and adds one user, a depositor, with a hash of the password; its answer is 201.
  pub create_user_handler-safe :
      (v : Validator) (b : Bcrypt) (salt : ℕ) (body : Option CreateUserRequest) (w : World S)
      → w.db.tx ≡ idle
      → let out = create_user_handler v b salt body w in
        Refused w out ⊎ Registers v b salt body w out
  unfolding create_user_handler
  create_user_handler-safe v b salt body w i =
      bind-Reads (Registers v b salt body w) _ _ w (should_bind-Reads _ body w i) λ req w1 s1 bound.
        bind-Reads (Registers v b salt body w) _ _ w1
          (or_status-Reads 500 (hash_password b salt req.password) w1 s1.idle_still (omega arith))
          λ hash w2 t2 hashed.
            elim (query-Finished 201 (λ u. user (public_part u))
              (Registered (create_params req hash)) _ registered w2
              (registered-Closes (create_params req hash))
              (create_user-Settles (create_params req hash) w2.db)) [
                | inl refused ↦ inl refused
                | inr done_well ↦ inr (record {
                  req = req;
                  hash = hash;
                  asked = bound.0;
                  is_valid = bound.1;
                  is_hash = hash_password-ok b salt req.password hash hashed;
                  finished = Finished-Same (Same-trans s1 t2) done_well;
                })
              ]
