-- ===== src/Db/User/Changes.antt =====
-- What the statements on the table of users change.
use go2bank.Prelude.{
  String, ◌≡◌, refl, ◌≢◌, ◌⊎◌, inl, inr, false, Option, none, some, List, [], ◌∷◌, ◌++◌, arith,
  eq_iff, if◌then◌else◌, Bool-cases,
}
use go2bank.Db.Model.{User, Tables, Db}
use go2bank.Db.Query.Outcome.{statement-Settles, Settles}
use go2bank.Db.User.{
  upsert_row, upsert_user, UpsertUserParams, as_create, insert_user, update_user, email_taken,
  create_user, updated, create_row, find_user, CreateUserParams, write_user, update_row,
  UpdateUserParams, replace_user, new_user,
}

pub record Registered (arg : CreateUserParams) (t : Tables) (new : User) (t' : Tables)
    : Type 0 where
  pub absent : find_user arg.username t.users ≡ none
  pub email_free : email_taken arg.username arg.email t.users ≡ false
  pub username : new.username ≡ arg.username
  pub hashed_password : new.hashed_password ≡ arg.hashed_password
  pub email : new.email ≡ arg.email
  pub role : new.role ≡ "depositor"
  pub tables : t' ≡ record t { users = t.users ++ new ∷ [] }

pub record Changed (arg : UpdateUserParams) (t : Tables) (new : User) (t' : Tables) : Type 0 where
  pub old : User
  pub found : find_user arg.username t.users ≡ some old
  pub email_free : email_taken old.username new.email t.users ≡ false
  pub is_new : new ≡ updated arg old
  pub tables : t' ≡ record t { users = replace_user new t.users }

insert_user-Settles :
    (arg : CreateUserParams) (d : Db)
    → find_user arg.username d.users ≡ none
    → Settles (Registered arg) d.tables (insert_user (new_user arg "local" d) d)
unfolding insert_user
insert_user-Settles arg d absent = elim (Bool-cases (email_taken arg.username arg.email d.users)) [
  | inl e ↦ rw (e, if◌then◌else◌) refl
  | inr e ↦
      rw (e, if◌then◌else◌)
        (record {
          absent = absent;
          email_free = e;
          username = refl;
          hashed_password = refl;
          email = refl;
          role = refl;
          tables = refl;
        })
]

create_row-Settles :
    (arg : CreateUserParams) (d : Db) (found : Option User)
    → find_user arg.username d.users ≡ found
    → Settles (Registered arg) d.tables (create_row arg found d)
unfolding create_row
create_row-Settles arg d none e = insert_user-Settles arg d e
create_row-Settles arg d (some u) e = refl

pub create_user-Settles :
    (arg : CreateUserParams) (db : Db) → Settles (Registered arg) db.tables (create_user arg db)
unfolding create_user
create_user-Settles arg db =
    statement-Settles (Registered arg) _ (λ d. create_row-Settles arg d _ refl) db

update_row-Settles :
    (arg : UpdateUserParams) (d : Db) (found : Option User)
    → find_user arg.username d.users ≡ found
    → Settles (Changed arg) d.tables (update_row arg found d)
unfolding update_row write_user
update_row-Settles arg d none e = refl
update_row-Settles arg d (some old) e =
    elim (Bool-cases (email_taken old.username (updated arg old).email d.users)) [
      | inl t ↦ rw (t, if◌then◌else◌) refl
      | inr free ↦
          rw (free, if◌then◌else◌)
            (record { old = old; found = e; email_free = free; is_new = refl; tables = refl })
    ]

pub update_user-Settles :
    (arg : UpdateUserParams) (db : Db) → Settles (Changed arg) db.tables (update_user arg db)
unfolding update_user
update_user-Settles arg db =
    statement-Settles (Changed arg) _ (λ d. update_row-Settles arg d _ refl) db

pub find_user-username :
    (name : String) (rows : List User) (row : User)
    → find_user name rows ≡ some row
    → row.username ≡ name
unfolding find_user
find_user-username name [] row h = cc
find_user-username name (u ∷ rows) row h =
    ground (arith, eq_iff u.username name, find_user-username name rows row)

-- Updating one user leaves every other.
pub find_user-replace_user :
    (name : String) (new : User) (rows : List User)
    → name ≢ new.username
    → find_user name (replace_user new rows) ≡ find_user name rows
unfolding find_user replace_user
find_user-replace_user name new [] h = refl
find_user-replace_user name new (u ∷ rows) h = ground (
  arith,
  eq_iff u.username new.username,
  eq_iff u.username name,
  eq_iff new.username name,
  find_user-replace_user name new rows h,
)

-- The row of a user who is new, or that of the user who had the name, with a new email, full name
-- and password.
pub record Upserted (arg : UpsertUserParams) (t : Tables) (new : User) (t' : Tables) : Type 0 where
  pub username : new.username ≡ arg.username
  pub email : new.email ≡ arg.email
  pub full_name : new.full_name ≡ arg.full_name
  pub hashed_password : new.hashed_password ≡ arg.hashed_password
  pub old_or_new :
      ((find_user arg.username t.users ≡ none)
        × (new.role ≡ "depositor")
        × (t' ≡ record t { users = t.users ++ new ∷ [] }))
      ⊎ ((old : User) × (find_user arg.username t.users ≡ some old)
          × (new.role ≡ old.role)
          × (t' ≡ record t { users = replace_user new t.users }))

insert_user-Upserted :
    (arg : UpsertUserParams) (d : Db)
    → find_user arg.username d.users ≡ none
    → Settles (Upserted arg) d.tables (insert_user (new_user (as_create arg) arg.provider d) d)
unfolding insert_user
insert_user-Upserted arg d absent = elim (Bool-cases (email_taken arg.username arg.email d.users)) [
  | inl e ↦ rw (e, if◌then◌else◌) refl
  | inr e ↦
      rw (e, if◌then◌else◌)
        (record {
          username = refl;
          email = refl;
          full_name = refl;
          hashed_password = refl;
          old_or_new = inl (absent, refl, refl);
        })
]

abbrev overwritten : UpsertUserParams → User → User
overwritten arg old = record old {
  email = arg.email;
  full_name = arg.full_name;
  hashed_password = arg.hashed_password;
}

write_user-Upserted :
    (arg : UpsertUserParams) (d : Db) (old : User)
    → find_user arg.username d.users ≡ some old
    → Settles (Upserted arg) d.tables (write_user (overwritten arg old) d)
unfolding write_user
write_user-Upserted arg d old e = elim (Bool-cases (email_taken old.username arg.email d.users)) [
  | inl taken ↦ rw (taken, if◌then◌else◌) refl
  | inr free ↦
      rw (free, if◌then◌else◌)
        (record {
          username = find_user-username arg.username d.users old e;
          email = refl;
          full_name = refl;
          hashed_password = refl;
          old_or_new = inr (old, e, refl, refl);
        })
]

upsert_row-Settles :
    (arg : UpsertUserParams) (d : Db) (found : Option User)
    → find_user arg.username d.users ≡ found
    → Settles (Upserted arg) d.tables (upsert_row arg found d)
unfolding upsert_row
upsert_row-Settles arg d none e = insert_user-Upserted arg d e
upsert_row-Settles arg d (some old) e = write_user-Upserted arg d old e

pub upsert_user-Settles :
    (arg : UpsertUserParams) (db : Db) → Settles (Upserted arg) db.tables (upsert_user arg db)
unfolding upsert_user
upsert_user-Settles arg db =
    statement-Settles (Upserted arg) _ (λ d. upsert_row-Settles arg d _ refl) db
