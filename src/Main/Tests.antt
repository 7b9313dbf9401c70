-- ===== src/Main/Tests.antt =====
-- A start, and shutdowns.
use go2bank.Prelude.{
  ℕ, ◌<◌, ◌≡◌, refl, ◌⊎◌, inr, Bool, true, false, ◌||◌, Option, none, some, arith,
}
use go2bank.Api.Server.Setup.{Parts}
use go2bank.Db.Error.{Error, message}
use go2bank.Db.Query.{ok, Result, err}
use go2bank.Main.Boot.{main-crashes}
use go2bank.Main.Group.{
  IsErrGroup, ErrGroup, first_of, notify, listener_closed, new_group, interrupted, GroupStep,
  stop_listening, starts, steps, listener_failed, main_ends, server_closed, AllReturned,
  server_closes, listen_failed, Group, close_server, stop_worker, GroupRun, worker_stops,
}
use go2bank.Main.Group.Shutdown.{GroupRun-ends}
use go2bank.Redis.Client.{RedisClient}
use go2bank.Token.{new_paseto_maker}
use go2bank.Util.Config.{zero_config}
use go2bank.Main.{
  fatal, redis_options, main, migrated, Libraries, started, crashed, or_fatal, made, RedisOptions,
  Routes, run_db_migration, run_task_processor, run_gin_server, no_change, ◌>>=◌ as start_bind,
}

-- Whether the context is done, and the first error.
abbrev failing : Option Error → Bool
failing none = false
failing (some _) = true

abbrev pair_group : ErrGroup (Bool × Option Error)
pair_group = record {
  with_context = (false, none);
  go_returned = λ f g. (g.0 || failing f, first_of g.1 f);
  interrupt = λ g. (true, g.1);
  is_done = λ g. g.0;
  wait = λ g. g.1;
}

pair_group-IsErrGroup : IsErrGroup pair_group
pair_group-IsErrGroup = record {
  with_context-is_done = refl;
  wait-with_context = refl;
  wait-go_returned = λ f e. refl;
  is_done-failed = λ x e. ground arith;
  is_done-go_returned = λ e. ground arith;
  is_done-interrupt = λ e. refl;
  wait-interrupt = λ e. refl;
}

abbrev closed : Group (Bool × Option Error)
closed = stop_listening pair_group server_closed (
    close_server pair_group none
      (stop_worker pair_group (notify pair_group (new_group pair_group))))

-- A signal, and then each goroutine in turn.
closes : GroupRun pair_group 3 none closed
unfolding stop_listening close_server stop_worker
closes =
    steps
      (steps (steps (interrupted starts) (worker_stops refl refl)) (server_closes none refl refl))
      (listener_closed refl refl)

-- The listener fails, and the others follow.
abbrev broken : Group (Bool × Option Error)
broken = close_server pair_group none (
    stop_worker pair_group
      (stop_listening pair_group (listen_failed (message "in use")) (new_group pair_group)))

breaks : GroupRun pair_group 3 (some (message "in use")) broken
unfolding stop_listening close_server stop_worker
breaks =
    steps (steps (steps starts (listener_failed (message "in use") refl)) (worker_stops refl refl))
      (server_closes none refl refl)

ends_with_an_error : main_ends pair_group broken ≡ fatal "error from wait group"
unfolding main_ends stop_listening close_server stop_worker or_fatal
ends_with_an_error = refl

GroupRun-ends_example :
    ((pair_group.is_done closed.group ≡ false) × (◌≡◌ {A = ℕ} 3 0))
    ⊎ ((3 < 3)
        × (f : Option Error) × (g : Group (Bool × Option Error)) × GroupStep pair_group closed f g)
    ⊎ ((◌≡◌ {A = ℕ} 3 3)
        × AllReturned pair_group closed
        × (closed.worker_stopped ≡ true)
        × (closed.http_closed ≡ true)
        × (main_ends pair_group closed ≡ or_fatal "error from wait group" none))
GroupRun-ends_example =
    GroupRun-ends pair_group pair_group-IsErrGroup {n = 3} {e = none} {g = closed} closes

-- A start with a good configuration, but for the address of the key-value store.
abbrev lib : (Parts Unit) → RedisClient Unit → Result RedisOptions → Libraries Unit
lib parts client parsed = record {
  viper = record {
    read_in_config = λ _. none;
    unmarshal = λ _.
        (record zero_config { token_symmetric_key = "12345678901234567890123456789012" }, none);
  };
  new_pool = λ _. none;
  new_migration = λ _ _. none;
  migrate_up = λ _ _. no_change;
  parse_url = λ _. parsed;
  new_client = λ _. client;
  start_worker = λ _ _. none;
  enqueue = λ _ _ s. (none, s);
  parts = parts;
}

crashes_on_an_address :
    (parts : Parts Unit) (client : RedisClient Unit)
    → main (lib parts client (err (message "redis: invalid URL scheme"))) ≡ crashed
crashes_on_an_address parts client =
    main-crashes (lib parts client (err (message "redis: invalid URL scheme"))) _ _ refl refl refl
      (inr refl) refl

starts_up :
    (parts : Parts Unit) (client : RedisClient Unit)
    → (rs : Routes (lib parts client (ok (record { addr = "redis:6379"; db = 0 })))) × (main
          (lib parts client (ok (record { addr = "redis:6379"; db = 0 })))
        ≡ started rs)
unfolding main run_db_migration redis_options or_fatal migrated start_bind run_task_processor
    run_gin_server made new_paseto_maker
starts_up parts client = (_, refl)
