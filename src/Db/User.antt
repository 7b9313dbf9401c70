-- ===== src/Db/User.antt =====
-- db/sqlc/user.sql.go: the table of users. Its key is the username, and emails are unique.
pub mod Changes
use go2bank.Prelude.{
  ℕ, String, ◌≡◌, refl, ◌≢◌, Bool, true, false, not, ◌&&◌, Option, none, some, List, [], ◌∷◌, ◌++◌,
  ◌==◌, nat_eq, string_eq, if◌then◌else◌,
}
use go2bank.Db.Error.{no_rows, pg_error, unique_violation}
use go2bank.Db.Model.{failed, User, Db}
use go2bank.Db.Query.{statement-HasRead, Result, HasRead, Query, ok, err, statement}

pub record CreateUserParams : Type 0 where
  pub username : String
  pub hashed_password : String
  pub full_name : String
  pub email : String

unfoldable pub find_user : String → List User → Option User
find_user name [] = none
find_user name (row ∷ rows) = if row.username == name then some row else find_user name rows

-- Some row has this email, but for that of the user `name`.
unfoldable pub email_taken : String → String → List User → Bool
email_taken name email [] = false
email_taken name email (row ∷ rows) =
    if row.email == email && not (row.username == name) then true else email_taken name email rows

abbrev put_users : List User → Db → Db
put_users rows db = record db { tables = record db.tables { users = rows } }

-- The columns that the statement does not give take the defaults of the migrations; the password
-- was last changed at 0001-01-01, which is no later than any time that the code compares.
abbrev pub new_user : CreateUserParams → String → Db → User
new_user arg provider db = record {
  username = arg.username;
  hashed_password = arg.hashed_password;
  full_name = arg.full_name;
  email = arg.email;
  password_changed_at = 0;
  created_at = db.now;
  role = "depositor";
  provider = provider;
}

-- An insert of a row with a new key.
pub insert_user : User → Query User
insert_user row db =
    if email_taken row.username row.email db.users
    then (err (pg_error unique_violation), db)
    else (ok row, put_users (db.users ++ row ∷ []) db)

pub create_row : CreateUserParams → Option User → Query User
create_row arg (some _) db = (err (pg_error unique_violation), db)
create_row arg none db = insert_user (new_user arg "local" db) db

-- `CreateUser`
unfoldable pub create_user : CreateUserParams → Query User
unfolding create_row insert_user
create_user arg = statement λ db. create_row arg (find_user arg.username db.users) db

abbrev pub user_of : Option User → Result User
user_of none = err no_rows
user_of (some row) = ok row

-- `GetUser`
unfoldable pub get_user : String → Query User
get_user name = statement λ db. (user_of (find_user name db.users), db)

pub user_of-ok : (found : Option User) (u : User) → user_of found ≡ ok u → found ≡ some u
user_of-ok none u h = cc
user_of-ok (some v) u h = cc

pub get_user-HasRead :
    (name : String) (db : Db)
    → db.tx ≢ failed
    → HasRead (user_of (find_user name db.users)) db (get_user name db)
unfolding get_user
get_user-HasRead name db h =
    statement-HasRead (user_of (find_user name db.users)) _ db (λ fs. refl) h

-- A pgtype.Text or pgtype.Timestamptz that is not valid is NULL, here `none`.
pub record UpdateUserParams : Type 0 where
  pub hashed_password : Option String
  pub password_changed_at : Option ℕ
  pub full_name : Option String
  pub email : Option String
  pub username : String

abbrev pub coalesce : {A : Type 0} → Option A → A → A
coalesce none old = old
coalesce (some new) _ = new

unfoldable pub replace_user : User → List User → List User
replace_user new [] = []
replace_user new (row ∷ rows) =
    (if row.username == new.username then new else row) ∷ replace_user new rows

-- An update of the row with the key of `row`.
pub write_user : User → Query User
write_user row db =
    if email_taken row.username row.email db.users
    then (err (pg_error unique_violation), db)
    else (ok row, put_users (replace_user row db.users) db)

abbrev pub updated : UpdateUserParams → User → User
updated arg old = record old {
  hashed_password = coalesce arg.hashed_password old.hashed_password;
  password_changed_at = coalesce arg.password_changed_at old.password_changed_at;
  full_name = coalesce arg.full_name old.full_name;
  email = coalesce arg.email old.email;
}

pub update_row : UpdateUserParams → Option User → Query User
update_row arg none db = (err no_rows, db)
update_row arg (some old) db = write_user (updated arg old) db

-- `UpdateUser`
unfoldable pub update_user : UpdateUserParams → Query User
unfolding update_row write_user
update_user arg = statement λ db. update_row arg (find_user arg.username db.users) db

pub record UpsertUserParams : Type 0 where
  pub username : String
  pub hashed_password : String
  pub full_name : String
  pub email : String
  pub provider : String

abbrev pub as_create : UpsertUserParams → CreateUserParams
as_create arg = record {
  username = arg.username;
  hashed_password = arg.hashed_password;
  full_name = arg.full_name;
  email = arg.email;
}

-- ON CONFLICT (username) DO UPDATE: the role and the provider of the row stay.
pub upsert_row : UpsertUserParams → Option User → Query User
upsert_row arg none db = insert_user (new_user (as_create arg) arg.provider db) db
upsert_row arg (some old) db =
    write_user
      (record old {
        email = arg.email;
        full_name = arg.full_name;
        hashed_password = arg.hashed_password;
      })
      db

-- `UpsertUser`
unfoldable pub upsert_user : UpsertUserParams → Query User
unfolding upsert_row insert_user write_user
upsert_user arg = statement λ db. upsert_row arg (find_user arg.username db.users) db
