-- ===== src/Auth/Migrations.antt =====
-- The migration of the auth database, auth/infrastructure/persistence/migrations.
pub mod Entities
pub mod Fitting
use flatrent.Base.{true, false, none, List, [], ◌∷◌}
use flatrent.Shared.Migrations.{
  text, uuid, int, bigserial, boolean, timestamp, jsonb, varchar, number, literal, flag,
  empty_object, now, required, optional, defaulted, unique_column, TableDef, Exclusion, equal,
  overlap, create_extension, drop_extension, create_table, create_index, add_constraint, drop_table,
  Migration,
}
use flatrent.Shared.Migrations.Messaging.{
  domain_event_journal, local_event_dispatches, domain_reaction_deliveries, integration_outbox,
}

abbrev pub user_accounts : TableDef
user_accounts = record {
  name = "user_accounts";
  columns =
      required "id" uuid
      ∷ required "email" (varchar 255)
      ∷ required "password_hash" (varchar 255)
      ∷ required "role" (varchar 50)
      ∷ required "status" (varchar 50)
      ∷ defaulted "version" int (number 0)
      ∷ [];
  primary_key = "id" ∷ [];
  uniques = unique_column "email" ∷ [];
  indexes = [];
  exclusions = [];
}

abbrev pub refresh_sessions : TableDef
refresh_sessions = record {
  name = "refresh_sessions";
  columns =
      required "id" uuid
      ∷ required "user_id" uuid
      ∷ required "token_hash" (varchar 255)
      ∷ required "expires_at" timestamp
      ∷ defaulted "is_revoked" boolean (flag false)
      ∷ defaulted "version" int (number 0)
      ∷ [];
  primary_key = "id" ∷ [];
  uniques = unique_column "token_hash" ∷ [];
  indexes = [];
  exclusions = [];
}

abbrev pub create_auth_schema : Migration
create_auth_schema = record {
  name = "CreateAuthSchema1721382400000";
  up =
      create_table user_accounts
      ∷ create_table refresh_sessions
      ∷ create_index "refresh_sessions" (record {
        name = "idx_refresh_sessions_user_id";
        columns = "user_id" ∷ [];
        is_unique = false;
      })
      ∷ create_table (domain_event_journal "uq_journal_event_ordering")
      ∷ create_table local_event_dispatches
      ∷ create_table domain_reaction_deliveries
      ∷ create_table integration_outbox
      ∷ [];
  down =
      drop_table "integration_outbox"
      ∷ drop_table "domain_reaction_deliveries"
      ∷ drop_table "local_event_dispatches"
      ∷ drop_table "domain_event_journal"
      ∷ drop_table "refresh_sessions"
      ∷ drop_table "user_accounts"
      ∷ [];
}

-- The migrations of auth-data-source.ts.
abbrev pub auth_migrations : List Migration
auth_migrations = create_auth_schema ∷ []
