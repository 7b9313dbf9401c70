-- ===== src/Util/Config.antt =====
-- util/config.go. The library viper reads the file and the environment.
use go2bank.Prelude.{ℕ, String, Option, none, some, List, []}
use go2bank.Db.Error.{Error}

-- Durations are in nanoseconds.
pub record Config : Type 0 where
  pub db_source : String
  pub allowed_origins : List String
  pub http_server_address : String
  pub token_symmetric_key : String
  pub access_token_duration : ℕ
  pub refresh_token_duration : ℕ
  pub redis_url : String
  pub migration_url : String
  pub email_sender_name : String
  pub email_sender_address : String
  pub email_sender_password : String
  pub api_limit_bound : ℕ
  pub api_limit_duration : ℕ
  pub google_client_id : String
  pub google_client_secret : String
  pub google_oauth_redirect_url : String

-- The file `app.env` of a path, read or not, and the fields filled from it and the environment.
pub record Viper : Type 0 where
  pub read_in_config : String → Option Error
  pub unmarshal : String → Config × Option Error

-- What a variable of the type holds first.
abbrev pub zero_config : Config
zero_config = record {
  db_source = "";
  allowed_origins = [];
  http_server_address = "";
  token_symmetric_key = "";
  access_token_duration = 0;
  refresh_token_duration = 0;
  redis_url = "";
  migration_url = "";
  email_sender_name = "";
  email_sender_address = "";
  email_sender_password = "";
  api_limit_bound = 0;
  api_limit_duration = 0;
  google_client_id = "";
  google_client_secret = "";
  google_oauth_redirect_url = "";
}

-- `LoadConfig`
abbrev pub load_config : Viper → String → Config × Option Error
load_config viper path = elim (viper.read_in_config path) [
  | none ↦ viper.unmarshal path
  | some e ↦ (zero_config, some e)
]
