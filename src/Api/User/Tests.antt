-- ===== src/Api/User/Tests.antt =====
-- A registration, and an update by the user and by somebody else.
use go2bank.Prelude.{◌≡◌, refl, ◌⊎◌, true, none, some, [], ◌∷◌}
use go2bank.Api.User.Profile.{get_user_handler-safe, ShowsProfile}
use go2bank.Api.Binding.{should_bind}
use go2bank.Api.Reading.{Refused}
use go2bank.Api.User.{
  get_user_handler, CreateUserRequest, new_password, registered, or_status, create_user_handler,
  binds_create_user, update_user_handler, guard,
}
use go2bank.Api.User.Safety.{create_user_handler-safe, Registers}
use go2bank.Api.Validator.{
  validate_update_user_request, validate_username, validate_full_name, validate_string, each_code,
  UpdateUserRequest,
}
use go2bank.Db.Error.{message}
use go2bank.Db.Query.{statement}
use go2bank.Db.User.{find_user, email_taken, update_user, create_user, replace_user}
use go2bank.Samples.{plain, bob, ann, lenient, ann_world}
use go2bank.Util.{role_check}
use go2bank.Util.Password.{hash_password}
use go2bank.Api.Gin.{fetch, error, user, json, ◌>>=◌ as handler_bind}

abbrev carol : CreateUserRequest
carol = record { username = "carol"; full_name = "Carol"; email = "c@x.org"; password = "secret" }

abbrev rename : UpdateUserRequest
rename = record { username = "ann"; full_name = some "Ann Roy"; email = none; password = none }

handler_code : Unit {0}
unfolding create_user_handler binds_create_user should_bind handler_bind hash_password statement
    create_user find_user email_taken update_user_handler role_check validate_update_user_request
    validate_username validate_full_name validate_string each_code fetch update_user replace_user
    guard or_status registered new_password
handler_code = tt

registers_carol :
    (create_user_handler lenient plain 7 (some carol) ann_world).1.calls
    ≡ json 201 (
        user (record {
          username = "carol";
          full_name = "Carol";
          email = "c@x.org";
          password_changed_at = 0;
          created_at = 9;
        }))
      ∷ []
unfolding handler_code
registers_carol = refl

renames_ann :
    (update_user_handler lenient (λ _. true) plain 7 10 (some rename) ann_world).1.db.users
    ≡ record ann { full_name = "Ann Roy" } ∷ bob ∷ []
unfolding handler_code
renames_ann = refl

-- A depositor cannot change another user.
not_bob :
    (update_user_handler lenient
      (λ _. true)
      plain
      7
      10
      (some (record rename { username = "bob" }))
      ann_world).1.calls
    ≡ json 403 (error (message "no permission")) ∷ []
unfolding handler_code
not_bob = refl

create_user_handler-safe_example :
    Refused ann_world (create_user_handler lenient plain 7 (some carol) ann_world)
    ⊎ Registers lenient plain 7
        (some carol)
        ann_world
        (create_user_handler lenient plain 7 (some carol) ann_world)
create_user_handler-safe_example =
    create_user_handler-safe lenient plain 7 (some carol) ann_world refl

get_user_handler-safe_example :
    Refused ann_world (get_user_handler ann_world)
    ⊎ ShowsProfile ann_world (get_user_handler ann_world)
get_user_handler-safe_example = get_user_handler-safe ann_world refl
