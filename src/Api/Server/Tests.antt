-- ===== src/Api/Server/Tests.antt =====
-- A server for the sample bank.
use go2bank.Prelude.{
  String, ◌≡◌, refl, inl, inr, true, false, none, some, [], map, ◌==◌, nat_eq, string_eq, any,
}
use go2bank.Prelude.Int.{pos}
use go2bank.Util.Config.{zero_config}
use go2bank.Api.Server.Setup.{Parts, Input, Moment, Route}
use go2bank.Api.Server.Cors.{cors_config}
use go2bank.Api.Gin.{done}
use go2bank.Api.Oauth.Client.{Web}
use go2bank.Api.Quiet.{done-Quiet}
use go2bank.Api.Server.{new_server, routes}
use go2bank.Api.Server.Guarded.{new_server-IsGuarded, AllRoutes, IsGuarded}
use go2bank.Db.Error.{message, no_rows}
use go2bank.Token.{new_paseto_maker}
use go2bank.Samples.{lenient, thousandths, plain}
use go2bank.Token.Sample.{toy}
use go2bank.Redis.Memory.{memory, Memory}

abbrev web : Web
web = record {
  encode = λ _. inl "q";
  new_request_error = λ _. none;
  send = λ req. inl (record { status = 200; body = inl "" });
  unmarshal = λ _. inl [];
}

abbrev parts : Parts Memory
parts = record {
  kv = memory;
  paseto = toy;
  validator = lenient;
  float64 = thousandths;
  bcrypt = plain;
  parses_address = λ _. true;
  config = record zero_config { access_token_duration = 900; refresh_token_duration = 1000 };
  web = web;
  first_origin = "https://bank";
  enqueue = λ _ s. (none, s);
}

abbrev input : Input
input = record {
  create_user = none;
  login = none;
  update_user = none;
  create_account = none;
  account_id = some (pos 1);
  list_accounts = none;
  otp = none;
  transfer = none;
  code = "";
  state = "";
  from = none;
}

abbrev moment : Moment Memory
moment = record {
  request = record { cookie = λ _. none; header = λ _. ""; client_ip = "::1" };
  setting = record {
    rfc3339 = λ _. "2025";
    verify_time = λ _ _ _ _. false;
    max_requests = 100;
    limit_duration = 300000000000;
    now = 800;
    current = 100000;
    score = 100000;
    member = 100000;
    otp_now = 100;
  };
  draw = record { uuid = none; uuid_error = no_rows; issued = 1; expiry = 5; session_id = "s1" };
  salt = 1;
  csrf_verify = done tt;
  csrf_token = "csrf";
}

abbrev key : String
key = "bc05920a321d1e018d3c3de228c0b544"

made :
    new_server parts key input moment
    ≡ inl (routes parts (record { symmetric_key = key }) input moment)
unfolding new_server new_paseto_maker
made = refl

-- A key of another length.
short_key : new_server parts "short" input moment ≡ inr (message "cannot create token maker")
unfolding new_server new_paseto_maker
short_key = refl

new_server-IsGuarded_example :
    AllRoutes
      (IsGuarded parts input moment (record { symmetric_key = key }))
      (routes parts (record { symmetric_key = key }) input moment)
new_server-IsGuarded_example =
    new_server-IsGuarded parts input moment key _ made (λ w. done-Quiet tt w tt)

-- Every method of a route is one that a browser of another origin may send.
methods_allowed :
    map
      (λ (r : Route Memory). any (λ m. m == r.method) (cors_config []).allow_methods)
      (routes parts (record { symmetric_key = key }) input moment)
    ≡ map (λ (r : Route Memory). true) (routes parts (record { symmetric_key = key }) input moment)
unfolding routes
methods_allowed = refl
