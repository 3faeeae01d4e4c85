-- ===== src/Infrastructure/Persistence/Migrations/Environment.antt =====
-- backend/migrations/env.py, the script that alembic runs for its commands, with the tables that
-- backend/src/app/infrastructure/persistence/model_registry.py registers. What alembic, the engine and
-- the files do is an argument.
use ndma_edit.Prelude.{
  Text, List, [], ◌∷◌, Bool, true, false, Option, none, some, codes, ◌==◌, if◌then◌else◌, ◌≡◌, refl,
}
use ndma_edit.Outcome.{Outcome, ok, err, Error, ◌and_then◌}
use ndma_edit.Infrastructure.Settings.{Settings}
use ndma_edit.Infrastructure.Persistence.Migrations.{users_name, outbox_name}

-- The keyword arguments of `context.configure`; a `none` or a `false` is one that is not given.
pub record Configuration : Type 0 where
  pub url : Option Text
  pub on_connection : Bool
  pub target_metadata : List Text
  pub literal_binds : Bool
  pub paramstyle : Option Text
  pub compare_type : Bool

-- `Base.metadata`, by the names of its tables
abbrev pub target_metadata : List Text
target_metadata = users_name ∷ outbox_name ∷ []

abbrev pub offline_configuration : Option Text → Configuration
offline_configuration url = record {
  url = url;
  on_connection = false;
  target_metadata = target_metadata;
  literal_binds = true;
  paramstyle = some (codes "named");
  compare_type = false;
}

abbrev online_configuration : Configuration
online_configuration = record {
  url = none;
  on_connection = true;
  target_metadata = target_metadata;
  literal_binds = false;
  paramstyle = none;
  compare_type = true;
}

-- What `context`, its `config` and the engine do.
pub record Alembic (S : Type 0) : Type 0 where
  pub config_file_name : Option Text
  pub is_offline_mode : Bool
  pub file_config : Text → S → Outcome (Unit {0}) × S
  pub set_main_option : Text → Text → S → Outcome (Unit {0}) × S
  pub get_main_option : Text → S → Option Text
  pub configure : Configuration → S → Outcome (Unit {0}) × S
  -- `begin_transaction`, the body of its block, and the end of the block by what came of the body
  pub begin_transaction : S → Outcome (Unit {0}) × S
  pub run_migrations : S → Outcome (Unit {0}) × S
  pub end_transaction : Outcome (Unit {0}) → S → Outcome (Unit {0}) × S
  -- `async_engine_from_config` of a URL, `connect`, the end of its block, and `dispose`
  pub engine_from_config : Option Text → S → Outcome (Unit {0}) × S
  pub connect : S → Outcome (Unit {0}) × S
  pub close : Outcome (Unit {0}) → S → Outcome (Unit {0}) × S
  pub dispose : S → Outcome (Unit {0}) × S

abbrev url_option : Text
url_option = codes "sqlalchemy.url"

module _ {S : Type 0} (alembic : Alembic S) where
  -- The end of a `with` block, by what came of its body.
  abbrev ended :
      (Outcome (Unit {0}) → S → Outcome (Unit {0}) × S)
      → Outcome (Unit {0}) × S
      → Outcome (Unit {0}) × S
  ended leave (r, s) = leave r s

  -- `with context.begin_transaction(): context.run_migrations()`
  unfoldable pub migrate : S → Outcome (Unit {0}) × S
  migrate s = alembic.begin_transaction s and_then λ _ s1.
      ended alembic.end_transaction (alembic.run_migrations s1)

  unfoldable pub run_migrations_offline : S → Outcome (Unit {0}) × S
  unfolding migrate
  run_migrations_offline s =
      let url = alembic.get_main_option url_option s in
      alembic.configure (offline_configuration url) s and_then λ _. migrate

  unfoldable pub do_run_migrations : S → Outcome (Unit {0}) × S
  unfolding migrate
  do_run_migrations s = alembic.configure online_configuration s and_then λ _. migrate

  -- From the engine on.
  unfoldable pub connected : S → Outcome (Unit {0}) × S
  unfolding do_run_migrations
  connected s =
      (alembic.connect s and_then λ _ s1. ended alembic.close (do_run_migrations s1)) and_then λ _.
      alembic.dispose

  unfoldable pub run_async_migrations : S → Outcome (Unit {0}) × S
  unfolding connected
  run_async_migrations s =
      let url = alembic.get_main_option url_option s in
      alembic.engine_from_config url s and_then λ _. connected

  -- `run_migrations_online`, which runs the coroutine to its end
  unfoldable pub run_migrations_online : S → Outcome (Unit {0}) × S
  unfolding run_async_migrations
  run_migrations_online = run_async_migrations

  abbrev configured : Option Text → S → Outcome (Unit {0}) × S
  configured none s = (ok tt, s)
  configured (some name) s = alembic.file_config name s

  -- The script up to its functions.
  unfoldable pub prepared : Settings → S → Outcome (Unit {0}) × S
  prepared settings s = configured alembic.config_file_name s and_then λ _.
      alembic.set_main_option url_option settings.database.url

  -- The script.
  unfoldable pub env : Settings → S → Outcome (Unit {0}) × S
  unfolding run_migrations_offline run_migrations_online prepared
  env settings s = prepared settings s and_then λ _ s1.
      if alembic.is_offline_mode then run_migrations_offline s1 else run_migrations_online s1

module _ {S : Type 0} (alembic : Alembic S)
    (option_is_kept : (name value : Text) (s s1 : S)
      → alembic.set_main_option name value s ≡ (ok tt, s1)
      → alembic.get_main_option name s1 ≡ some value) where
  -- The migrations run against the database of the settings: once the logging is set up and the URL
  -- is taken, that URL is what the context is configured with, or what the engine is made of.
  pub env-url :
      (settings : Settings) (s s1 s2 : S)
      → configured alembic alembic.config_file_name s ≡ (ok tt, s1)
      → alembic.set_main_option url_option settings.database.url s1 ≡ (ok tt, s2)
      → env alembic settings s ≡ (
          if alembic.is_offline_mode
          then (alembic.configure (offline_configuration (some settings.database.url)) s2
              and_then λ _. migrate alembic)
          else (alembic.engine_from_config (some settings.database.url) s2 and_then λ _.
              connected alembic))
  unfolding env
  env-url settings s s1 s2 logs taken =
      let kept = option_is_kept url_option settings.database.url s1 s2 taken in
      rw (logs, taken, kept) refl

-- A percent sign that is neither doubled nor in front of a parenthesis, at which a
-- `ConfigParser` with interpolation refuses a value.
unfoldable pub has_raw_percent : Text → Bool
has_raw_percent [] = false
has_raw_percent (c ∷ []) = c == b'%'
has_raw_percent (c ∷ d ∷ s) =
    let later = has_raw_percent (d ∷ s) in
    let behind = has_raw_percent s in
    if c == b'%' then (if d == b'%' then behind else if d == b'(' then false else true) else later

module _ {S : Type 0} (alembic : Alembic S)
    -- `set_main_option` passes its value to such a parser.
    (percent_is_refused : (name value : Text) (s : S)
      → has_raw_percent value ≡ true
      → (e : Error) × (alembic.set_main_option name value s ≡ (err e, s))) where
  -- If the URL of the database has a raw percent sign, as one with an escaped password has, then no
  -- command of alembic gets to the migrations: the script raises, and has done nothing but set up the
  -- logging.
  pub env-raw_percent :
      (settings : Settings) (s s1 : S)
      → has_raw_percent settings.database.url ≡ true
      → configured alembic alembic.config_file_name s ≡ (ok tt, s1)
      → (e : Error) × (env alembic settings s ≡ (err e, s1))
  unfolding env
  env-raw_percent settings s s1 raw logs =
      let (e, refused) = percent_is_refused url_option settings.database.url s1 raw in
      (e, rw (logs, refused) refl)
