-- ===== src/Lib.antt =====
-- Flatrent, an application for letting flats: invitations, tenancies and handovers on one side
-- (src/tenancy, a TypeORM database), maintenance requests on the other (src/maintenance, one DynamoDB
-- table), and accounts and refresh sessions beside them (src/auth, a TypeORM database of its own).
-- The first two sides change only their own store; each tells the other through an outbox
-- and a queue, and each keeps a projection of what it was told: the readiness of units for leasing,
-- and the access of tenants to units.
--
-- Modules and the code they model, with paths from the repository's root:
--   Base: results and calls that may throw, database tables as a parameter (Table) with a
--     list-backed instance, whole numbers, JavaScript string operations on character codes (on
--     ASCII for the change of case), lists.
--   Shared: src/shared/domain, the class AggregateRoot and the events it holds.
--   Shared.Journal, Shared.Versions: the rows of events and the optimistic lock, which the
--     persistence of src/tenancy and src/auth share in form.
--   Shared.Dispatch: the class LocalEventDispatcher of src/tenancy/infrastructure/messaging and of
--     src/auth/infrastructure/messaging, over tables and an event bus as parameters.
--   Shared.Http: src/shared/interfaces/http/http-exception.filter.ts.
--   Shared.Logging: src/shared/infrastructure/logging/json-logger.service.ts.
--   Shared.Metrics: src/shared/infrastructure/metrics and src/shared/infrastructure/health.
--   Shared.Validation: the check of a request's body by a zod schema, and the answer of a route, which
--     the controllers of src/auth and src/tenancy share.
--   Shared.Migrations: the statements of a migration and the database that runs them, and the tables
--     that both databases have.
--   Tenancy.Errors: the statuses, and everything that the module throws, with the messages.
--   Tenancy.Handover, Tenancy.Invitation, Tenancy.Lease: the aggregates of
--     src/tenancy/domain/model; one function per method, from the aggregate to its new value and the
--     error thrown, if any (end is end_tenancy).
--   Tenancy.Database, Tenancy.Repositories: src/tenancy/infrastructure/persistence, the entities and
--     mappers, findById and save of each repository, hasOverlappingTenancy, and
--     EventPersistenceHelper.
--   Tenancy.Readiness: src/tenancy/interfaces/sqs/maintenance-events.consumer.ts with its loop,
--     transaction, projection and metrics, and
--     src/tenancy/infrastructure/persistence/typeorm-rental-unit-readiness.adapter.ts.
--   Tenancy.Relay: src/tenancy/infrastructure/messaging/outbox-relay.service.ts; the topic says which
--     items it refuses, and the query of a batch and the update of a row are parameters.
--   Tenancy.UseCases: src/tenancy/application; one function per use case, a chain of calls on the
--     database.
--   Tenancy.Migrations: src/tenancy/infrastructure/persistence/migrations, and the tables that the
--     entities of that folder describe.
--   Tenancy.Controller: src/tenancy/interfaces/http/tenancy.controller.ts, each route from the body of
--     the request to the answer.
--   Tenancy.Listing: the list of a landlord's units, from repository to query.
--   Maintenance.Request: src/maintenance/domain, the aggregate and the emergency policy.
--   Maintenance.Dynamo, Maintenance.Repository: src/maintenance/infrastructure/persistence, the
--     items, findById, save with its conditional transaction, verifyActiveAccess.
--   Maintenance.UseCases: src/maintenance/application/commands.
--   Maintenance.Access: src/maintenance/interfaces/sqs/tenancy-events.consumer.ts.
--   Maintenance.Relay: src/maintenance/infrastructure/messaging/dynamodb-outbox-relay.service.ts.
--   Auth.Email, Auth.Errors, Auth.Account, Auth.Session: src/auth/domain, the address with its regular
--     expression, the account, the password policy and the refresh session.
--   Auth.Hasher: src/auth/infrastructure/security/argon2-password-hasher.ts, over the library.
--   Auth.Database, Auth.Repositories: src/auth/infrastructure/persistence.
--   Auth.Tokens: src/auth/infrastructure/security/jwt-token.service.ts, and the guard of the routes in
--     src/auth/interfaces/http/strategies.
--   Auth.Migrations: src/auth/infrastructure/persistence/migrations.
--   Auth.UseCases: src/auth/application, and the facade of src/auth/interfaces/module-api;
--     Auth.UseCases.Sessions.Races has the statements of two refreshes one by one.
--   Auth.Controller: src/auth/interfaces/http/auth.controller.ts.
--   Auth.Reactions: src/auth/infrastructure/messaging/durable-reaction-worker.ts, over a list of
--     executors.
--   Integration: the messages that the saves of one request publish, as the tenancy module's
--     consumer receives them, in order and each once; and the message of an activation, as the
--     maintenance module receives it.
-- In each of the parts, the modules below the model hold its proofs, and Tests the examples.
--
-- Conventions. A UUID and a date are natural numbers (dates in milliseconds). An Action takes the
-- state to a result and a state; what was written before a throw stays written, except under
-- transaction. The use cases pass no entity manager, so each statement of a repository is a write of
-- its own. The databases are parameters: a table answers a look-up by key with the newest row
-- written there, a query with some row that meets its condition, and may reject a write; DynamoDB
-- carries out all puts of a transaction if all their conditions hold, and may fail a read or a
-- write; a read that goes through is taken to see what was written last, which the code, as it asks
-- for no consistent read, cannot count on. Argon2 is a parameter: a hash verifies the password it was made from and no other, as far as
-- the code relies on it. The size of an item's text, clocks, salts and id generators are arguments.
-- Queues hand over batches; a message's body is no JSON, refused by the schema, or an envelope, and
-- which deletions succeed is an argument. All loops run over lists, so there is no fuel.
--
-- PostgreSQL runs a statement of a migration only if the table that it is about is there, or is not
-- there for a CREATE TABLE; dropping btree_gist takes the exclusion constraints over an equality along
-- and no others. jsonwebtoken verifies a token that was signed with the key exactly if its
-- claims meet the options. zod's tests on texts, and the texts of its issues, are arguments. The rows
-- of a body are fields that may be missing, and numbers in it are whole numbers.
--
-- Not modelled: the handlers between controllers and use cases, which only hand a command on, module
-- wiring, and the command line and the scripts for local operation; and, but for two refreshes of
-- one session and two runs of the maintenance relay, calls that interleave.
pub mod Base
pub mod Shared
pub mod Tenancy
pub mod Maintenance
pub mod Integration
pub mod Auth
