-- ===== src/Auth/Migrations/Entities.antt =====
-- The tables that the entities of auth/infrastructure/persistence describe by their decorators.
use flatrent.Base.{false, List, [], ◌∷◌}
use flatrent.Shared.Migrations.{
  uuid, int, boolean, timestamp, varchar, number, flag, required, defaulted, unique_column,
  TableDef,
}
use flatrent.Shared.Migrations.Messaging.{
  domain_event_journal_entity, local_event_dispatches_entity, domain_reaction_deliveries_entity,
  integration_outbox_entity,
}

-- user-account.entity.ts
abbrev pub user_accounts_entity : TableDef
user_accounts_entity = record {
  name = "user_accounts";
  columns =
      required "id" uuid
      ∷ required "email" (varchar 255)
      ∷ required "password_hash" (varchar 255)
      ∷ required "role" (varchar 50)
      ∷ required "status" (varchar 50)
      ∷ defaulted "version" int (number 0)
      ∷ [];
  primary_key = "id" ∷ [];
  uniques = unique_column "email" ∷ [];
  indexes = [];
  exclusions = [];
}

-- refresh-session.entity.ts
abbrev pub refresh_sessions_entity : TableDef
refresh_sessions_entity = record {
  name = "refresh_sessions";
  columns =
      required "id" uuid
      ∷ required "user_id" uuid
      ∷ required "token_hash" (varchar 255)
      ∷ required "expires_at" timestamp
      ∷ defaulted "is_revoked" boolean (flag false)
      ∷ defaulted "version" int (number 0)
      ∷ [];
  primary_key = "id" ∷ [];
  uniques = unique_column "token_hash" ∷ [];
  indexes =
      record { name = "idx_refresh_sessions_user_id"; columns = "user_id" ∷ []; is_unique = false }
      ∷ [];
  exclusions = [];
}

-- The entities of auth-data-source.ts.
abbrev pub auth_entities : List TableDef
auth_entities =
    user_accounts_entity
    ∷ refresh_sessions_entity
    ∷ domain_event_journal_entity "idx_journal_aggregate_event"
    ∷ local_event_dispatches_entity
    ∷ domain_reaction_deliveries_entity
    ∷ integration_outbox_entity
    ∷ []
