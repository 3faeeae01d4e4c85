-- ===== src/Composition.antt =====
-- backend/src/app/composition/container.py with the factories of
-- backend/src/app/infrastructure/persistence/database.py: what the web process opens, and the order in
-- which it lets go of it. Whether a third-party call raises is an argument.
pub mod Lifespan
use ndma_edit.Prelude.{ℕ, Text, Bool, true, false}
use ndma_edit.Outcome.{Outcome, ok, err, ◌and_then◌}
use ndma_edit.Infrastructure.Settings.{Settings, DatabaseSettings, RedisSettings, AuthSettings}

-- The arguments of `create_async_engine`.
pub record Engine : Type 0 where
  pub url : Text
  pub echo : Bool
  pub pool_size : ℕ
  pub max_overflow : ℕ
  pub pool_timeout : ℕ
  pub pool_pre_ping : Bool

-- `create_engine`
unfoldable pub create_engine : DatabaseSettings → Engine
create_engine settings = record {
  url = settings.url;
  echo = settings.echo;
  pool_size = settings.pool_size;
  max_overflow = settings.max_overflow;
  pool_timeout = settings.pool_timeout_seconds;
  pool_pre_ping = true;
}

-- `async_sessionmaker(bind=..., ...)`
pub record SessionFactory : Type 0 where
  pub bind : Engine
  pub expire_on_commit : Bool
  pub autoflush : Bool

-- `create_session_factory`
unfoldable pub create_session_factory : Engine → SessionFactory
create_session_factory engine = record {
  bind = engine;
  expire_on_commit = false;
  autoflush = false;
}

-- `Redis.from_url(url, decode_responses=...)`
pub record RedisClient : Type 0 where
  pub url : Text
  pub decode_responses : Bool

-- `Container`, without the mediator, which is the pipeline's model, and the password hasher.
pub record Container : Type 0 where
  pub settings : Settings
  pub engine : Engine
  pub session_factory : SessionFactory
  pub redis_client : RedisClient
  pub arq_pool : Text
  pub jwt_service : AuthSettings

-- What the process holds open.
pub record Resources : Type 0 where
  pub engine_open : Bool
  pub redis_open : Bool
  pub arq_open : Bool

-- What `create_pool`, and the three calls that close, do: they return or raise.
pub record Answers : Type 0 where
  pub create_pool : Outcome (Unit {0})
  pub arq_aclose : Outcome (Unit {0})
  pub redis_aclose : Outcome (Unit {0})
  pub engine_dispose : Outcome (Unit {0})

abbrev pub container_of : Settings → Container
container_of settings =
    let engine = create_engine settings.database in
    record {
      settings = settings;
      engine = engine;
      session_factory = create_session_factory engine;
      redis_client = record { url = settings.redis.url; decode_responses = true };
      arq_pool = settings.redis.url;
      jwt_service = settings.auth;
    }

abbrev opened : Settings → Resources → Outcome (Unit {0}) → Outcome Container × Resources
opened settings held (ok _) = (ok (container_of settings), record held { arq_open = true })
opened settings held (err e) = (err e, held)

-- `build_container`
unfoldable pub build_container : Answers → Settings → Resources → Outcome Container × Resources
unfolding create_engine create_session_factory
build_container answers settings held =
    opened settings (record held { engine_open = true; redis_open = true }) answers.create_pool

abbrev close_arq : Outcome (Unit {0}) → Resources → Outcome (Unit {0}) × Resources
close_arq (ok _) held = (ok tt, record held { arq_open = false })
close_arq (err e) held = (err e, held)

abbrev close_redis : Outcome (Unit {0}) → Resources → Outcome (Unit {0}) × Resources
close_redis (ok _) held = (ok tt, record held { redis_open = false })
close_redis (err e) held = (err e, held)

abbrev close_engine : Outcome (Unit {0}) → Resources → Outcome (Unit {0}) × Resources
close_engine (ok _) held = (ok tt, record held { engine_open = false })
close_engine (err e) held = (err e, held)

-- `shutdown_container`
unfoldable pub shutdown_container : Answers → Resources → Outcome (Unit {0}) × Resources
shutdown_container answers held = close_arq answers.arq_aclose held and_then λ _ held1.
    close_redis answers.redis_aclose held1 and_then λ _ held2.
    close_engine answers.engine_dispose held2
