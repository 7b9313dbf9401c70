-- ===== src/Main/Boot.antt =====
-- What a program that has started has behind it.
use go2bank.Prelude.{String, ◌≡◌, refl, sym, ap, ◌⊎◌, inl, inr, Option, none, some}
use go2bank.Api.Server.Guarded.{IsGuarded, AllRoutes, IsAside, new_server-IsGuarded}
use go2bank.Redis.Client.{new_redis_store}
use go2bank.Worker.{distribute_task_send_verify_email}
use go2bank.Api.Server.{served, routes, new_server}
use go2bank.Api.Server.Setup.{Input, Parts, Moment}
use go2bank.Db.Error.{Error}
use go2bank.Db.Query.{Result, err, ok}
use go2bank.Token.{new_paseto_maker, Maker}
use go2bank.Util.Config.{load_config, Config}
use go2bank.Worker.Processor.{queues}
use go2bank.Main.{
  made, migrated, started, failed, run_gin_server, Routes, Migrated, redis_options, main, Start,
  run_task_processor, or_fatal, no_change, up, run_db_migration, fatal, RedisOptions, Libraries,
  crashed, ◌>>=◌ as start_bind,
}

bind-started :
    {A B : Type 0} (m : Start A) (f : A → Start B) {b : B}
    → start_bind m f ≡ started b
    → (a : A) × (m ≡ started a) × (f a ≡ started b)
unfolding start_bind
bind-started (started a) f h = (a, refl, h)
bind-started (fatal line) f h = cc
bind-started crashed f h = cc

or_fatal-started :
    (line : String) (e : Option Error) {u : Unit} → or_fatal line e ≡ started u → e ≡ none
unfolding or_fatal
or_fatal-started line none h = refl
or_fatal-started line (some e) h = cc

module _ {S : Type 0} (lib : Libraries S) where
  -- The schema is up to date.
  abbrev pub IsMigrated : Migrated → Type 0
  IsMigrated m = (m ≡ up) ⊎ (m ≡ no_change)

  migrated-started : (m : Migrated) {u : Unit} → migrated lib m ≡ started u → IsMigrated m
  unfolding migrated
  migrated-started up h = inl refl
  migrated-started no_change h = inr refl
  migrated-started (failed e) h = cc

  redis_options-started :
      (r : Result RedisOptions) {o : RedisOptions}
      → redis_options lib r ≡ started o
      → (parsed : RedisOptions) × (r ≡ ok parsed) × (o ≡ record parsed { db = 0 })
  unfolding redis_options
  redis_options-started (ok parsed) h = (parsed, refl, cc)
  redis_options-started (err e) h = cc

  made-started :
      (parts : Parts S) (m : Option Maker) {rs : Routes lib}
      → made lib parts m ≡ started rs
      → (input : Input) (moment : Moment S) → served parts input moment m ≡ inl (rs input moment)
  unfolding made served
  made-started parts none h input moment = cc
  made-started parts (some maker) {rs} h input moment =
      let same : routes parts maker ≡ rs = cc in ap (λ r. inl (r input moment)) same

  -- The configuration was read, the pool of connections made, the schema brought up to date, the
  -- address of the key-value store parsed, the processor started, and a server made: its routes
  -- are those of `NewServer` for every request.
  pub record Booted (rs : Routes lib) : Type 0 where
    pub config : Config
    pub loaded : load_config lib.viper "." ≡ (config, none)
    pub pooled : lib.new_pool config.db_source ≡ none
    pub migration : lib.new_migration config.migration_url config.db_source ≡ none
    pub schema : IsMigrated (lib.migrate_up config.migration_url config.db_source)
    pub options : RedisOptions
    pub parsed : lib.parse_url config.redis_url ≡ ok options
    pub worker : lib.start_worker (record { addr = options.addr; db = 1 }) queues ≡ none
    pub parts : Parts S
    pub configured : parts.config ≡ config
    pub serves :
        (input : Input) (moment : Moment S)
        → new_server parts config.token_symmetric_key input moment ≡ inl (rs input moment)

  -- A program that has started has gone through every step of the start without an error.
  pub main-Booted : (rs : Routes lib) → main lib ≡ started rs → Booted rs
  unfolding main run_db_migration run_task_processor run_gin_server new_server served
  main-Booted rs h =
      let config = (load_config lib.viper ".").0 in
      let (_, loaded, h1) = bind-started (or_fatal "cannot load config" _) _ h in
      let (_, pooled, h2) = bind-started (or_fatal "cannot connect to db" _) _ h1 in
      let (_, ran, h3) =
        bind-started (run_db_migration lib config.migration_url config.db_source) _ h2 in
      let (_, made_new, moved) =
        bind-started (or_fatal _ (lib.new_migration config.migration_url config.db_source)) _ ran in
      let (options, connected, h4) =
        bind-started (redis_options lib (lib.parse_url config.redis_url)) _ h3 in
      let (_, working, h5) = bind-started _ _ h4 in
      let (parsed, p, q) = redis_options-started _ connected in
      record {
        config = config;
        loaded = ap (λ e. (config, e)) (or_fatal-started _ _ loaded);
        pooled = or_fatal-started _ _ pooled;
        migration = or_fatal-started _ _ made_new;
        schema = migrated-started _ moved;
        options = parsed;
        parsed = p;
        worker = rw (ap (λ o. o.addr) (sym q)) (or_fatal-started _ _ working);
        parts = record lib.parts {
          kv = new_redis_store (lib.new_client options);
          config = config;
          enqueue =
              distribute_task_send_verify_email
                (lib.enqueue (record { addr = options.addr; db = 1 }));
        };
        configured = refl;
        serves = made-started _ (new_paseto_maker config.token_symmetric_key) h5;
      }

  -- In a program that has started, a request to any path below /api/auth leaves the store as it is,
  -- or carries an access token that verifies under the key of the configuration.
  pub main-IsGuarded :
      (rs : Routes lib)
      → main lib ≡ started rs
      → (input : Input) (moment : Moment S)
      → (b : Booted rs) × (IsAside b.parts input moment
          → AllRoutes
              (IsGuarded b.parts input moment
                (record { symmetric_key = b.config.token_symmetric_key }))
              (rs input moment))
  main-IsGuarded rs h input moment =
      let b = main-Booted rs h in
      (
        b,
        new_server-IsGuarded b.parts input moment b.config.token_symmetric_key (rs input moment)
            (b.serves input moment),
      )

  -- An address of the key-value store that does not parse is not reported: the program crashes on
  -- the options that are nil.
  pub main-crashes :
      (config : Config) (e : Error)
      → load_config lib.viper "." ≡ (config, none)
      → lib.new_pool config.db_source ≡ none
      → lib.new_migration config.migration_url config.db_source ≡ none
      → IsMigrated (lib.migrate_up config.migration_url config.db_source)
      → lib.parse_url config.redis_url ≡ err e
      → main lib ≡ crashed
  unfolding main run_db_migration redis_options or_fatal migrated start_bind
  main-crashes config e loaded pooled migration (inl m) bad =
      rw (loaded, pooled, migration, m, bad) refl
  main-crashes config e loaded pooled migration (inr m) bad =
      rw (loaded, pooled, migration, m, bad) refl
