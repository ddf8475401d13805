-- ===== src/Tenancy/Migrations/Entities.antt =====
-- The tables that the entities of tenancy/infrastructure/persistence describe by their decorators.
use flatrent.Base.{true, false, List, [], ◌∷◌}
use flatrent.Shared.Migrations.{
  uuid, int, boolean, timestamp, jsonb, varchar, number, literal, flag, empty_object, now, required,
  optional, defaulted, TableDef,
}
use flatrent.Shared.Migrations.Messaging.{
  domain_event_journal_entity, local_event_dispatches_entity, domain_reaction_deliveries_entity,
  integration_outbox_entity,
}

-- rental-unit.entity.ts
abbrev pub rental_units_entity : TableDef
rental_units_entity = record {
  name = "rental_units";
  columns =
      required "id" uuid
      ∷ required "owner_id" uuid
      ∷ required "address" (varchar 255)
      ∷ defaulted "version" int (number 0)
      ∷ [];
  primary_key = "id" ∷ [];
  uniques = [];
  indexes =
      record { name = "idx_rental_units_owner_id"; columns = "owner_id" ∷ []; is_unique = false }
      ∷ [];
  exclusions = [];
}

-- tenancy-invitation.entity.ts
abbrev pub tenancy_invitations_entity : TableDef
tenancy_invitations_entity = record {
  name = "tenancy_invitations";
  columns =
      required "id" uuid
      ∷ required "rental_unit_id" uuid
      ∷ required "tenant_email" (varchar 255)
      ∷ required "expires_at" timestamp
      ∷ required "status" (varchar 50)
      ∷ defaulted "version" int (number 0)
      ∷ [];
  primary_key = "id" ∷ [];
  uniques = [];
  indexes =
      record {
        name = "idx_invitations_rental_unit_id";
        columns = "rental_unit_id" ∷ [];
        is_unique = false;
      }
      ∷ [];
  exclusions = [];
}

-- handover-protocol.entity.ts
abbrev pub handover_protocols_entity : TableDef
handover_protocols_entity = record {
  name = "handover_protocols";
  columns =
      required "id" uuid
      ∷ required "tenancy_id" uuid
      ∷ defaulted "meter_readings" jsonb empty_object
      ∷ defaulted "checklist" jsonb empty_object
      ∷ defaulted "is_closed" boolean (flag false)
      ∷ defaulted "version" int (number 0)
      ∷ [];
  primary_key = "id" ∷ [];
  uniques = [];
  indexes =
      record { name = "idx_handover_tenancy_id"; columns = "tenancy_id" ∷ []; is_unique = false }
      ∷ [];
  exclusions = [];
}

-- tenancy.entity.ts
abbrev pub tenancies_entity : TableDef
tenancies_entity = record {
  name = "tenancies";
  columns =
      required "id" uuid
      ∷ required "rental_unit_id" uuid
      ∷ required "tenant_id" uuid
      ∷ required "start_date" timestamp
      ∷ required "end_date" timestamp
      ∷ required "status" (varchar 50)
      ∷ optional "notice_date" timestamp
      ∷ defaulted "version" int (number 0)
      ∷ [];
  primary_key = "id" ∷ [];
  uniques = [];
  indexes =
      record {
        name = "idx_tenancies_rental_unit_id";
        columns = "rental_unit_id" ∷ [];
        is_unique = false;
      }
      ∷ record { name = "idx_tenancies_tenant_id"; columns = "tenant_id" ∷ []; is_unique = false }
      ∷ [];
  exclusions = [];
}

-- inbox.entity.ts
abbrev pub inbox_entity : TableDef
inbox_entity = record {
  name = "inbox";
  columns =
      required "consumer_name" (varchar 100)
      ∷ required "message_id" uuid
      ∷ required "event_type" (varchar 255)
      ∷ required "event_version" int
      ∷ required "payload_hash" (varchar 255)
      ∷ required "source_aggregate_id" uuid
      ∷ required "source_aggregate_version" int
      ∷ defaulted "status" (varchar 50) (literal "PENDING")
      ∷ defaulted "received_at" timestamp now
      ∷ optional "processed_at" timestamp
      ∷ [];
  primary_key = "consumer_name" ∷ "message_id" ∷ [];
  uniques = [];
  indexes = [];
  exclusions = [];
}

-- rental-unit-readiness-projection.entity.ts
abbrev pub rental_unit_readiness_projections_entity : TableDef
rental_unit_readiness_projections_entity = record {
  name = "rental_unit_readiness_projections";
  columns =
      required "rental_unit_id" uuid
      ∷ defaulted "is_ready" boolean (flag true)
      ∷ defaulted "last_processed_version" int (number 0)
      ∷ defaulted "status" (varchar 50) (literal "ACTIVE")
      ∷ [];
  primary_key = "rental_unit_id" ∷ [];
  uniques = [];
  indexes = [];
  exclusions = [];
}

-- The entities of tenancy-data-source.ts.
abbrev pub tenancy_entities : List TableDef
tenancy_entities =
    rental_units_entity
    ∷ tenancy_invitations_entity
    ∷ handover_protocols_entity
    ∷ tenancies_entity
    ∷ domain_event_journal_entity "idx_journal_aggregate_event_tenancy"
    ∷ local_event_dispatches_entity
    ∷ domain_reaction_deliveries_entity
    ∷ integration_outbox_entity
    ∷ inbox_entity
    ∷ rental_unit_readiness_projections_entity
    ∷ []
