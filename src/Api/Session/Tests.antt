-- ===== src/Api/Session/Tests.antt =====
-- A session is saved, renewed and ended.
use go2bank.Prelude.{
  String, count, ◌≡◌, refl, ap, ◌⊎◌, none, some, [], ◌∷◌, arith, ◌==◌, nat_eq, string_eq,
  if◌then◌else◌,
}
use go2bank.Redis.Memory.Sorted.{memory-IsKeyed}
use go2bank.Redis.Sparing.{Spares, no_call, then_set}
use go2bank.Util.Config.{Config, zero_config}
use go2bank.Api.Session.Logout.{LoggedOut, logout_user_handler-safe, NoSession}
use go2bank.Api.Session.Renewed.{renew_access_token_handler-safe, Renewed, HalfRenewed}
use go2bank.Api.Reading.{Refused}
use go2bank.Api.Session.Login.{LogsIn, login_user_handler-safe}
use go2bank.Api.Binding.{should_bind}
use go2bank.Api.Session.{
  logout_user_handler, renew_access_token_handler, save_session, check_errors, binds_login,
  or_error, check_session, login_user_handler, Draw, Request, delete_session,
}
use go2bank.Api.Session.Renewal.{check_session-delete_session, check_session-save_session}
use go2bank.Prelude.Int.{◌+ℤ◌}
use go2bank.Db.Error.{no_rows}
use go2bank.Db.Query.{statement}
use go2bank.Db.User.{find_user, get_user}
use go2bank.Redis.Memory.{Memory, memory, lookup, remove, memory-IsMap}
use go2bank.Samples.{bank, lenient, ann, plain}
use go2bank.Token.{create_token}
use go2bank.Token.Sample.{is_ann, maker, toy}
use go2bank.Util.Password.{check_password}
use go2bank.Api.Gin.{Exit, World, returned, fetch, next, ◌>>=◌ as handler_bind}

abbrev client : Request
client = record {
  cookie = λ name. if name == "sid" then some "s1" else none;
  header = λ _. "curl";
  client_ip = "::1";
}

abbrev fresh : World Memory
fresh = record { db = bank; kv = record { values = []; windows = [] }; payload = none; calls = [] }

abbrev after_save : Exit Unit × World Memory
after_save = save_session memory "failed" client "s1" "ann" 1000 fresh

abbrev after_delete : Exit Unit × World Memory
after_delete = delete_session memory "failed" "s1" after_save.1

session_code : Unit {0}
unfolding save_session delete_session check_session handler_bind lookup remove login_user_handler
    binds_login should_bind fetch get_user statement find_user check_password create_token is_ann
    or_error check_errors ◌+ℤ◌
session_code = tt

abbrev config : Config
config = record zero_config { access_token_duration = 895; refresh_token_duration = 1000 }

abbrev draw : Draw
draw = record { uuid = some "t1"; uuid_error = no_rows; issued = 1; expiry = 5; session_id = "s1" }

abbrev sign_in_as : String → Exit Unit × World Memory
sign_in_as password =
    login_user_handler memory lenient plain toy maker config client draw
      (some (record { username = "ann"; password = password }))
      (record fresh {
        db = record bank {
          tables = record bank.tables { users = record ann { hashed_password = "secret" } ∷ [] };
        };
      })

-- The password is right: the session stands under its id.
signs_in : lookup "sid:s1" (sign_in_as "secret").1.kv.values ≡ some "ann"
unfolding session_code
signs_in = refl

wrong_password : (sign_in_as "secreT").1.kv.values ≡ []
unfolding session_code
wrong_password = refl

saved : save_session memory "failed" client "s1" "ann" 1000 fresh ≡ (next tt, after_save.1)
unfolding session_code
saved = refl

deleted : delete_session memory "failed" "s1" after_save.1 ≡ (next tt, after_delete.1)
unfolding session_code
deleted = refl

check_session-save_session_example :
    check_session memory client after_save.1 ≡ (next ("s1", "ann"), after_save.1)
check_session-save_session_example =
    check_session-save_session memory memory-IsMap client client "failed" "s1" "ann" 1000 fresh
      after_save.1 saved refl refl refl

-- Another session has been written since.
abbrev later_on : World Memory
later_on = record after_delete.1 { kv = (memory.set "sid:s20" "bob" 60 after_delete.1.kv).1 }

spared : Spares memory "sid:s1" after_delete.1.kv later_on.kv
spared = then_set no_call "sid:s20" "bob" 60 λ h. let e = ap count h in absurd (omega (arith, e))

check_session-delete_session_example : (check_session memory client later_on).0 ≡ returned
check_session-delete_session_example =
    check_session-delete_session memory memory-IsMap memory-IsKeyed client "failed" "s1"
      after_save.1 after_delete.1 later_on deleted spared refl

login_user_handler-safe_example :
    Refused fresh (
      login_user_handler memory lenient plain toy maker config client draw
        (some (record { username = "ann"; password = "secret" }))
        fresh)
    ⊎ LogsIn memory lenient plain (some (record { username = "ann"; password = "secret" })) fresh
login_user_handler-safe_example =
    login_user_handler-safe memory lenient plain toy maker config client draw
      (some (record { username = "ann"; password = "secret" })) fresh refl

-- The session s1 of `ann` is renewed under another id.
abbrev standing : World Memory
standing = record fresh { kv = after_save.1.kv }

abbrev second_draw : Draw
second_draw = record draw { session_id = "s2" }

renew_access_token_handler-safe_example :
    let o = renew_access_token_handler memory toy maker config client second_draw standing in
    Refused standing o
    ⊎ (HalfRenewed memory config client second_draw standing o
        ⊎ Renewed memory config client second_draw standing o)
renew_access_token_handler-safe_example =
    renew_access_token_handler-safe memory config client second_draw memory-IsMap toy maker standing
      refl

renews :
    let o = renew_access_token_handler memory toy maker config client second_draw standing in
    (lookup "sid:s1" o.1.kv.values ≡ none) × (lookup "sid:s2" o.1.kv.values ≡ some "ann")
unfolding session_code renew_access_token_handler
renews = (refl, refl)

logout_user_handler-safe_example :
    let o = logout_user_handler memory client standing in
    Refused standing o ⊎ (NoSession memory client standing o ⊎ LoggedOut memory client standing o)
logout_user_handler-safe_example =
    logout_user_handler-safe memory client memory-IsMap memory-IsKeyed standing refl
