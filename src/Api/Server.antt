-- ===== src/Api/Server.antt =====
-- api/server.go: `NewServer`, its routes, and the csrf middlewares of api/middleware.go, whose check
-- is a library's. A router is left out: a request runs the chain of the route that it matches.
pub mod Setup
pub mod Cors
pub mod Guarded
mod Tests
use go2bank.Prelude.{ℕ, ◌/◌, String, ◌⊎◌, inl, inr, Option, none, some, List, [], ◌∷◌, ◌++◌}
use go2bank.Prelude.Int.{pos}
use Setup.{Parts, Input, Moment, Route}
use go2bank.Api.Account.{
  CreateAccountRequest, list_accounts_handler, get_account_handler, ListAccountsRequest,
  create_account_handler,
}
use go2bank.Api.Binding.{Validator}
use go2bank.Api.Gin.{done, notice, respond, header, call, Handler, ◌>>=◌, ◌>>◌}
use go2bank.Api.Middleware.{set_payload, auth_middleware, rate_limit_middleware, ctx_next}
use go2bank.Api.Oauth.{google_oauth_handler}
use go2bank.Api.Oauth.Client.{web_google, Web, test_google_oauth_handler}
use go2bank.Api.Route.{after_auth, Setting}
use go2bank.Api.Session.{
  renew_access_token_handler, login_user_handler, Request, LoginUserRequest, logout_user_handler,
  Draw,
}
use go2bank.Api.Transfer.{TransferRequest, Float64}
use go2bank.Api.User.{get_user_handler, create_user_handler, CreateUserRequest, update_user_handler}
use go2bank.Api.Validator.{UpdateUserRequest}
use go2bank.Db.Error.{message, Error}
use go2bank.Redis.{KvStore}
use go2bank.Token.{Paseto, Maker, Payload, new_paseto_maker}
use go2bank.Util.Password.{Bcrypt}
use go2bank.Worker.{send_otp_handler, Task}

-- The payload of the route for load tests, of which only the name is set.
abbrev pub test_payload : Payload
test_payload = record {
  id = "00000000-0000-0000-0000-000000000000";
  username = "test";
  role = "";
  issued_at = 0;
  expired_at = pos 0;
}

module _ {S : Type 0} where
  -- `csrfTokenMiddleware`
  abbrev pub csrf_token_middleware : String → Handler S Unit
  csrf_token_middleware token = call (header "X-CSRF-Token" token)

  -- The four handlers that only show the csrf token.
  abbrev pub fetch_csrf_token : Handler S Unit
  fetch_csrf_token = respond 200 (notice "message" "fetch csrf token successfully")

  module _ (parts : Parts S) (maker : Maker) (input : Input) (moment : Moment S) where
    -- The middlewares of the group /api/auth, and the rest of a chain.
    pub auth_group : Handler S Unit → Handler S Unit
    auth_group rest = do
      moment.csrf_verify
      csrf_token_middleware moment.csrf_token
      auth_middleware parts.paseto maker moment.setting.now moment.request rest

    pub limited : String → ℕ → ℕ → Handler S Unit → Handler S Unit
    limited api_name max_requests window rest =
        rate_limit_middleware parts.kv moment.setting.rfc3339 api_name max_requests window
          moment.request moment.setting.current moment.setting.score moment.setting.member rest

    send_otp_chain : Handler S Unit
    unfolding limited
    send_otp_chain =
        limited "sendOTP" moment.setting.max_requests (moment.setting.limit_duration / 1000000)
          (send_otp_handler parts.kv parts.enqueue)

    transfer_chain : Handler S Unit
    transfer_chain =
        after_auth parts.kv parts.paseto maker parts.validator parts.float64 moment.setting
          moment.request input.otp input.transfer

    -- The payload is put into the context with no token.
    stress_test : Handler S Unit
    unfolding limited
    stress_test = do set_payload test_payload; ctx_next (limited "test" 1000 30000 (done tt))

    pub public_routes : List (Route S)
    unfolding stress_test
    public_routes =
        record {
          method = "POST";
          path = "/api/users";
          chain = create_user_handler parts.validator parts.bcrypt moment.salt input.create_user;
        }
        ∷ record {
          method = "POST";
          path = "/api/users/login";
          chain =
              login_user_handler parts.kv parts.validator parts.bcrypt parts.paseto maker
                parts.config moment.request moment.draw input.login;
        }
        ∷ record {
          method = "GET";
          path = "/api/tokens/renew_access";
          chain =
              renew_access_token_handler parts.kv parts.paseto maker parts.config moment.request
                moment.draw;
        }
        ∷ record {
          method = "GET";
          path = "/api/users/logout";
          chain = logout_user_handler parts.kv moment.request;
        }
        ∷ record { method = "GET"; path = "/api/stress_test"; chain = stress_test }
        ∷ record {
          method = "GET";
          path = "/api/oauth/google";
          chain =
              google_oauth_handler parts.kv (web_google parts.web parts.config) parts.paseto maker
                parts.config parts.first_origin moment.request moment.draw input.code input.state;
        }
        ∷ record {
          method = "GET";
          path = "/api/test/oauth/google";
          chain = test_google_oauth_handler parts.web parts.config input.from;
        }
        ∷ []

    pub auth_routes : List (Route S)
    unfolding auth_group send_otp_chain transfer_chain
    auth_routes =
        record {
          method = "GET";
          path = "/api/auth/users/update";
          chain = auth_group fetch_csrf_token;
        }
        ∷ record {
          method = "PATCH";
          path = "/api/auth/users/update";
          chain = auth_group (
              update_user_handler parts.validator parts.parses_address parts.bcrypt moment.salt
                moment.setting.now input.update_user);
        }
        ∷ record {
          method = "GET";
          path = "/api/auth/users/me";
          chain = auth_group get_user_handler;
        }
        ∷ record {
          method = "GET";
          path = "/api/auth/accounts";
          chain = auth_group fetch_csrf_token;
        }
        ∷ record {
          method = "POST";
          path = "/api/auth/accounts";
          chain = auth_group (create_account_handler input.create_account);
        }
        ∷ record {
          method = "GET";
          path = "/api/auth/accounts/:id";
          chain = auth_group (get_account_handler input.account_id);
        }
        ∷ record {
          method = "GET";
          path = "/api/auth/accounts/all";
          chain = auth_group (list_accounts_handler input.list_accounts);
        }
        ∷ record {
          method = "GET";
          path = "/api/auth/transfers/sendOTP";
          chain = auth_group send_otp_chain;
        }
        ∷ record {
          method = "GET";
          path = "/api/auth/transfers";
          chain = auth_group fetch_csrf_token;
        }
        ∷ record {
          method = "POST";
          path = "/api/auth/transfers";
          chain = auth_group transfer_chain;
        }
        ∷ []

    unfoldable pub routes : List (Route S)
    unfolding public_routes auth_routes
    routes = public_routes ++ auth_routes

  unfoldable pub served : Parts S → Input → Moment S → Option Maker → List (Route S) ⊎ Error
  served parts input moment none = inr (message "cannot create token maker")
  served parts input moment (some maker) = inl (routes parts maker input moment)

  -- `NewServer`: the routes, or the error of the token maker, of which the first words are kept.
  unfoldable pub new_server : Parts S → String → Input → Moment S → List (Route S) ⊎ Error
  unfolding served
  new_server parts key input moment = served parts input moment (new_paseto_maker key)
