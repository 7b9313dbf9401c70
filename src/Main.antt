-- ===== src/Main.antt =====
-- main.go: the start of the program. What the libraries answer is an argument; `Main.Group` has the
-- three goroutines that run from then on.
pub mod Group
pub mod Boot
mod Tests
use go2bank.Prelude.{ℕ, String, Option, none, some, List}
use go2bank.Api.Oauth.Client.{text}
use go2bank.Api.Server.{routes}
use go2bank.Api.Server.Setup.{Route, Moment, Input, Parts}
use go2bank.Db.Error.{Error}
use go2bank.Db.Query.{ok, err, Result}
use go2bank.Mail.{new_gmail_sender}
use go2bank.Redis.{KvStore}
use go2bank.Redis.Client.{RedisClient, new_redis_store}
use go2bank.Token.{new_paseto_maker, Maker}
use go2bank.Util.Config.{Config, load_config, Viper}
use go2bank.Worker.{Task, distribute_task_send_verify_email}
use go2bank.Worker.Processor.{new_redis_task_processor, start}

-- The program goes on, has ended by `log.Fatal`, or by a nil pointer.
pub data Start (A : Type 0) : Type 0 where
  started : A → Start A
  fatal : String → Start A
  crashed : Start A

infixl 5 ◌>>=◌ ◌>>◌
unfoldable pub ◌>>=◌ : {A B : Type 0} → Start A → (A → Start B) → Start B
started a >>= f = f a
fatal line >>= f = fatal line
crashed >>= f = crashed

abbrev pub ◌>>◌ : {A B : Type 0} → Start A → Start B → Start B
m >> k = m >>= λ _. k

pub or_fatal : String → Option Error → Start Unit
or_fatal line none = started tt
or_fatal line (some e) = fatal line

-- `redis.Options`, and `asynq.RedisClientOpt`.
pub record RedisOptions : Type 0 where
  pub addr : String
  pub db : ℕ

-- `migration.Up()`
pub data Migrated : Type 0 where
  up no_change : Migrated
  failed : Error → Migrated

-- What the libraries answer.
pub record Libraries (S : Type 0) : Type 0 where
  pub viper : Viper
  pub new_pool : String → Option Error
  pub new_migration : String → String → Option Error
  pub migrate_up : String → String → Migrated
  pub parse_url : String → Result RedisOptions
  pub new_client : RedisOptions → RedisClient S
  pub start_worker : RedisOptions → List (String × ℕ) → Option Error
  pub enqueue : RedisOptions → Task → S → Option Error × S
  pub parts : Parts S

module _ {S : Type 0} (lib : Libraries S) where
  pub migrated : Migrated → Start Unit
  migrated up = started tt
  migrated no_change = started tt
  migrated (failed e) = fatal "failed to run migrate up"

  -- `runDBMigration`
  pub run_db_migration : String → String → Start Unit
  unfolding migrated or_fatal
  run_db_migration migration_url db_source = do
    or_fatal "cannot create new migrate instance" (lib.new_migration migration_url db_source)
    migrated (lib.migrate_up migration_url db_source)

  -- `connOpts, _ := redis.ParseURL(…)` and `connOpts.DB = 0`: of an address that does not parse
  -- the options are nil.
  pub redis_options : Result RedisOptions → Start RedisOptions
  redis_options (ok options) = started (record options { db = 0 })
  redis_options (err e) = crashed

  -- `runTaskProcessor`, up to its goroutine.
  pub run_task_processor : Config → RedisOptions → KvStore S → Start Unit
  unfolding or_fatal
  run_task_processor config redis_opt kv_store =
      let mailer =
        new_gmail_sender config.email_sender_name config.email_sender_address
          config.email_sender_password in
      let processor = new_redis_task_processor {S = S} {M = Unit} config kv_store mailer in
      or_fatal "failed to start task processor" (lib.start_worker redis_opt processor.queue_weights)

  -- The routes of a server for what a request and its moment bring.
  abbrev pub Routes : Type 0
  Routes = Input → Moment S → List (Route S)

  pub made : Parts S → Option Maker → Start Routes
  made parts none = fatal "cannot create server"
  made parts (some maker) = started (routes parts maker)

  -- `runGinServer`, up to its goroutines. `NewServer` fails where the key makes no token maker.
  pub run_gin_server : Config → KvStore S → (Task → S → Option Error × S) → Start Routes
  unfolding made
  run_gin_server config kv_store task_distributor =
      made (record lib.parts { kv = kv_store; config = config; enqueue = task_distributor })
        (new_paseto_maker config.token_symmetric_key)

  -- `main`, up to `waitGroup.Wait()`.
  unfoldable pub main : Start Routes
  unfolding run_db_migration redis_options run_task_processor run_gin_server or_fatal
  main =
      let (config, failed_load) = load_config lib.viper "." in
      do
        or_fatal "cannot load config" failed_load
        or_fatal "cannot connect to db" (lib.new_pool config.db_source)
        run_db_migration config.migration_url config.db_source
        options ← redis_options (lib.parse_url config.redis_url)
        run_task_processor config (record { addr = options.addr; db = 1 })
            (new_redis_store (lib.new_client options))
        run_gin_server config (new_redis_store (lib.new_client options)) (
            distribute_task_send_verify_email
              (lib.enqueue (record { addr = options.addr; db = 1 })))
