-- ===== src/Lib.antt =====
-- bet-advise: a model of the sports betting advice and coupon backend, with its proofs.
--
-- The program is a NestJS monolith. A request passes the tenant middleware and two guards; handlers
-- read matches, evaluate advice from a prediction and an odds quote, and write it with an outbox row;
-- a worker relays the outbox rows to a queue, and a consumer takes messages from it and writes the
-- audit log. Coupon drafts bundle recommended advice under risk limits. An exception filter turns
-- what is thrown into responses; a cache, an object storage and a registry of providers stand beside.
--
-- The files and the code that they model, with paths from the repository's root:
--   Base, Base/*          shared names, text as UTF-16 code units, calls that return or throw, and
--                         JavaScript's numbers as an abstract arithmetic (Base/Number)
--   Matches, Matches/*    src/matches: Match, transitionTo, the mapper, the repository, the handlers
--   Odds                  src/odds/domain: OddsQuote
--   Analysis/*            src/analysis: PredictionValue, DeterministicPredictionModel,
--                         NoVigCalculator, FeatureProvenance
--   Advice, Advice/*      src/advice/domain/advice.entity.ts: Advice.create, Advice.evaluate, split
--                         at its gates into functions that call one another in the source's order;
--                         Advice/Repository and Advice/Handlers: src/advice/infrastructure and
--                         src/advice/application/handlers; Advice/Contract:
--                         src/advice/interfaces/module-api
--   Coupons, Coupons/*    src/coupons/domain/coupon-draft.entity.ts: CouponDraft.create
--   Outbox, Outbox/*      src/outbox: the table, the claim of processOutbox, relayEvent
--   Auth, Auth/*          src/auth: Principal, JwtAuthGuard, PermissionsGuard, JwtTokenService
--                         (Auth/Tokens/Issue: its constructor and the tokens that it signs)
--   Api, Api/*            src/bootstrap/api.module.ts, and the controllers and dtos of
--                         src/matches/interfaces/http, src/advice/interfaces/http and src/auth
--   Tenancy, Tenancy/*    src/shared/infrastructure/tenant: TenantContext, TenantMiddleware,
--                         TenantRlsSubscriber; Tenancy/Policy: the policies of
--                         src/shared/infrastructure/database/migrations
--   Policed               what these policies make of the queries of relay and consumer
--   Audit                 src/audit: the audit log's service and repository
--   Consumer, Consumer/*  src/shared/infrastructure/queue: the SQS consumer and its inbox
--                         (Consumer/Lifecycle: its start and stop)
--   Publisher/*           src/shared/infrastructure/queue/sqs-message-queue.adapter.ts
--   Pipeline              advice, its event, the relay, the publisher and the consumer in a row
--   Cache, Cache/*        src/shared/infrastructure/cache; Cache/Contract says what a cache promises
--   Filter, Filter/*      src/shared/interfaces/http/filters and src/shared/domain/domain-error.ts
--                         (Filter/Correlation: src/shared/interfaces/http/interceptors)
--   Identifiers/*         src/shared/domain/uuid.ts
--   Providers             src/providers/infrastructure: the registry and its adapters
--   Health, Health/*      src/shared/infrastructure/health
--   ObjectStorage         src/shared/infrastructure/storage: the S3 adapter and its keys
--   Tests/*               concrete inputs
--
-- How the code is read. Objects are records and methods are functions that return the new object or
-- throw. Dates are milliseconds; a clock reading is an argument. IEEE numbers are a parameter with
-- the operations that the code applies; where a theorem needs their order it says so by IsOrdered.
-- What the database, the queue, JSON.parse and jsonwebtoken answer is an argument: the claim's SQL
-- is written out over the rows of a table, the rows that others have locked are a parameter, each
-- relayed event and each message carries what happens around it, and TypeORM's `save` is a function
-- of which a theorem says what it relies on, as TypeORM documents it (a row whose id is there is
-- updated); a commit may be applied although its answer is lost; Redis, Terminus and
-- class-validator are parameters of the same kind. Loops run over lists, but for two: the splitting of a batch has as many rounds as
-- there are entries, and a round takes ten of them; the digits of an integer are at most 14, since a
-- number of JavaScript holds 53 bits. Regular expressions are written out as functions that give the
-- length of a match. `toLowerCase` is exact for the characters that become ASCII, and leaves the
-- others.
--
-- Not modelled: logging but for the line of the filter, the wiring of modules, the validation of
-- environment variables, the columns and indexes of the schema, the connection of the Redis client,
-- and the scripts of the local environment, which are wiring or pure input and output; the class
-- Result, which nothing uses. Ids are arguments of the operations that store them.
pub mod Base
pub mod Matches
pub mod ObjectStorage
pub mod Odds
pub mod Analysis
pub mod Advice
pub mod Consumer
pub mod Coupons
pub mod Outbox
pub mod Publisher
pub mod Pipeline
pub mod Policed
pub mod Providers
pub mod Health
pub mod Cache
pub mod Filter
pub mod Identifiers
pub mod Api
pub mod Audit
pub mod Auth
pub mod Tenancy
mod Tests
