-- ===== src/Api/Server/Setup.antt =====
-- What a server is made of, and what a request and its moment bring.
use go2bank.Prelude.{ℕ, String, Bool, Option}
use go2bank.Prelude.Int.{ℤ}
use go2bank.Util.Config.{Config}
use go2bank.Api.Account.{CreateAccountRequest, ListAccountsRequest}
use go2bank.Api.Binding.{Validator}
use go2bank.Api.Gin.{Handler}
use go2bank.Api.Oauth.Client.{Web}
use go2bank.Api.Route.{Setting}
use go2bank.Api.Session.{Draw, Request, LoginUserRequest}
use go2bank.Api.Transfer.{Float64, TransferRequest}
use go2bank.Api.User.{CreateUserRequest}
use go2bank.Api.Validator.{UpdateUserRequest}
use go2bank.Db.Error.{Error}
use go2bank.Redis.{KvStore}
use go2bank.Token.{Paseto}
use go2bank.Util.Password.{Bcrypt}
use go2bank.Worker.{Task}

-- What a server is made of, beside the key of its tokens.
pub record Parts (S : Type 0) : Type 0 where
  pub kv : KvStore S
  pub paseto : Paseto
  pub validator : Validator
  pub float64 : Float64
  pub bcrypt : Bcrypt
  pub parses_address : String → Bool
  pub config : Config
  pub web : Web
  pub first_origin : String
  pub enqueue : Task → S → Option Error × S

-- What the handlers decode of a request, each for itself.
pub record Input : Type 0 where
  pub create_user : Option CreateUserRequest
  pub login : Option LoginUserRequest
  pub update_user : Option UpdateUserRequest
  pub create_account : Option CreateAccountRequest
  pub account_id : Option ℤ
  pub list_accounts : Option ListAccountsRequest
  pub otp : Option String
  pub transfer : Option TransferRequest
  pub code : String
  pub state : String
  pub from : Option String

-- What is drawn and read from the clock while a request is served, and what the csrf library makes
-- of the request: it goes on, or it has answered; and the token that it gives out.
pub record Moment (S : Type 0) : Type 0 where
  pub request : Request
  pub setting : Setting
  pub draw : Draw
  pub salt : ℕ
  pub csrf_verify : Handler S Unit
  pub csrf_token : String

pub record Route (S : Type 0) : Type 0 where
  pub method : String
  pub path : String
  pub chain : Handler S Unit
