-- ===== src/Lib.antt =====
-- A model of the NDMA-EDIt backend (backend/src/app), a FastAPI service that registers, renames,
-- deactivates and lists users, with theorems on what it does: most show it correct, and some show where
-- it does not do what it means to.
--
-- How the program works. A route (presentation/api/v1/users/router.py) builds a command or a query and
-- gives it to the mediator (application/common/mediator.py), which sends it through five behaviors:
-- logging, performance, validation, authorization, idempotency. Behind them a handler
-- (application/users/handlers) opens a unit of work, reads and writes users through the repository,
-- and commits. The commit writes the changed row and one outbox row for each domain event. A worker
-- relays the outbox to a Redis stream (persistence/outbox/relay.py), and a consumer
-- (infrastructure/messaging/redis_streams.py) hands each message to a handler. An exception that a
-- route lets through becomes a problem document (presentation/api/exception_handlers/handlers.py).
--
-- Which module models what, with paths below backend/src/app:
--   Prelude        names of the library and shared lemmas: tests, lists, Python strings as code points
--   Outcome        exceptions as values, for every layer
--   Runtime        `str.lower` and `uuid.UUID`, as parameters
--   Domain         domain/users and domain/shared: `Email`, `DisplayName`, the reserved names, and the
--                  `User` aggregate with its version and its buffer of events
--   Infrastructure.Persistence
--                  infrastructure/persistence: rows (Models), the mapper, the repository, the unit of
--                  work and the outbox. The state is a record `UnitOfWork`: what is committed, the
--                  session, and the lists of events by reference, since the unit of work and its
--                  repository share one list. `Database` is the interface of SQLAlchemy's session.
--                  Relay is one round of the outbox relay; what the broker, the clock, the other
--                  workers and the commit do in it is a `Round`.
--   Infrastructure.Caching
--                  infrastructure/caching: the idempotency store and the cache, over an interface of
--                  Redis; Runs, Lock and Replay join the store with the idempotency behavior
--   Infrastructure.Auth
--                  infrastructure/authentication/jwt.py, infrastructure/authorization/policies.py and
--                  presentation/api/dependencies/auth.py, over an interface of PyJWT
--   Infrastructure.Messaging
--                  infrastructure/messaging/redis_streams.py: publishing, the entries of one response
--                  (Delivery, Relayed), and the consumer as an object (Consumer): its task takes turns,
--                  and a `Turn` says what other clients do before it and whether `stop` is called in it.
--                  Welcome is the consumer of the worker with its handler.
--   Infrastructure.Settings, Observability, Mail, Worker
--                  infrastructure/configuration, observability, external/email and background_jobs:
--                  the settings with their defaults, logging with its redaction and telemetry, the
--                  senders of mail with their headers, and the worker process with its shutdown and
--                  schedule
--   Infrastructure.Persistence.Migrations
--                  migrations/versions (below backend): the schema, and that the rows fit into it;
--                  Environment is migrations/env.py, the script that alembic runs
--   Application    application: messages, contexts, DTOs, the five handlers (Users), the behaviors and
--                  the mediator (Pipeline). A step of the pipeline takes a request, its context and the
--                  state `App` (tables, Redis, log) to a result or an exception and the state after.
--   Composition    composition/container.py and the lifespan of main.py: what the process opens and
--                  closes
--   Presentation   presentation/api: the exception handlers with Starlette's choice of one, the routes
--                  with the request and response schemas, health, the middleware, and `create_app` of
--                  main.py with the stack of middleware that it makes (App)
--   Tests          concrete functions for every parameter, and the theorems at concrete inputs
--
-- Parameters. Third-party code is an interface with documented facts: SQLAlchemy and PostgreSQL
-- (`Database`), Redis (`Redis`, `Streams`, `Groups`), `json` (`JsonCodec`), PyJWT (`Jwt`), Starlette,
-- smtplib (`Smtp`), arq, and Python's `str.lower` and `uuid`. Clock readings and new ids are arguments.
--
-- Numbers. Times are microseconds in ℕ, and `int` values of the code that are never negative are ℕ;
-- OFFSET and LIMIT are ℤ until they are checked. Every loop of the model is structural recursion,
-- except two on fuel: `ancestors` follows base classes with four steps, and `decimal_digits` writes a
-- number with one step more than the number. Presentation/Exceptions/Fuel.antt has that more fuel
-- changes neither.
--
-- Redis may raise in each command of the idempotency store and of the streams, before its effect or
-- behind it; the cache is modelled over a Redis that answers.
--
-- Not modelled: statements of two database sessions that interleave within one transaction (of two
-- transactions on one row, the second UPDATE sees what the first committed), the expiry of Redis keys
-- between two operations, cancellation, password hashing, how FastAPI and pydantic decode JSON and the
-- environment, and the front end.
pub mod Prelude
pub mod Outcome
pub mod Runtime
pub mod Domain
pub mod Infrastructure
pub mod Application
pub mod Composition
pub mod Presentation
pub mod Tests
