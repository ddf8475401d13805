-- ===== src/Tenancy/Migrations.antt =====
-- The migrations of the tenancy database, tenancy/infrastructure/persistence/migrations.
pub mod Entities
pub mod Fitting
pub mod Exclusivity
use flatrent.Base.{true, false, none, List, [], ◌∷◌}
use flatrent.Shared.Migrations.{
  text, uuid, int, bigserial, boolean, timestamp, jsonb, varchar, number, literal, flag,
  empty_object, now, required, optional, defaulted, TableDef, Exclusion, equal, overlap,
  create_extension, drop_extension, create_table, create_index, add_constraint, drop_table,
  Migration,
}
use flatrent.Shared.Migrations.Messaging.{
  domain_event_journal, local_event_dispatches, domain_reaction_deliveries, integration_outbox,
}

abbrev pub rental_units : TableDef
rental_units = record {
  name = "rental_units";
  columns =
      required "id" uuid
      ∷ required "owner_id" uuid
      ∷ required "address" (varchar 255)
      ∷ defaulted "version" int (number 0)
      ∷ [];
  primary_key = "id" ∷ [];
  uniques = [];
  indexes = [];
  exclusions = [];
}

abbrev pub tenancy_invitations : TableDef
tenancy_invitations = record {
  name = "tenancy_invitations";
  columns =
      required "id" uuid
      ∷ required "rental_unit_id" uuid
      ∷ required "tenant_email" (varchar 255)
      ∷ required "expires_at" timestamp
      ∷ required "status" (varchar 50)
      ∷ defaulted "version" int (number 0)
      ∷ [];
  primary_key = "id" ∷ [];
  uniques = [];
  indexes = [];
  exclusions = [];
}

abbrev pub handover_protocols : TableDef
handover_protocols = record {
  name = "handover_protocols";
  columns =
      required "id" uuid
      ∷ required "tenancy_id" uuid
      ∷ defaulted "meter_readings" jsonb empty_object
      ∷ defaulted "checklist" jsonb empty_object
      ∷ defaulted "is_closed" boolean (flag false)
      ∷ defaulted "version" int (number 0)
      ∷ [];
  primary_key = "id" ∷ [];
  uniques = [];
  indexes = [];
  exclusions = [];
}

abbrev pub tenancies : TableDef
tenancies = record {
  name = "tenancies";
  columns =
      required "id" uuid
      ∷ required "rental_unit_id" uuid
      ∷ required "tenant_id" uuid
      ∷ required "start_date" timestamp
      ∷ required "end_date" timestamp
      ∷ required "status" (varchar 50)
      ∷ optional "notice_date" timestamp
      ∷ defaulted "version" int (number 0)
      ∷ [];
  primary_key = "id" ∷ [];
  uniques = [];
  indexes = [];
  exclusions = [];
}

abbrev pub tenancy_overlap_prevention : Exclusion
tenancy_overlap_prevention = record {
  name = "uq_tenancy_overlap_prevention";
  elements = equal "rental_unit_id" ∷ overlap "start_date" "end_date" ∷ [];
  statuses = "ACTIVE" ∷ "RESERVED" ∷ [];
}

abbrev pub inbox : TableDef
inbox = record {
  name = "inbox";
  columns =
      required "consumer_name" (varchar 100)
      ∷ required "message_id" uuid
      ∷ required "event_type" (varchar 255)
      ∷ required "event_version" int
      ∷ required "payload_hash" (varchar 255)
      ∷ required "source_aggregate_id" uuid
      ∷ required "source_aggregate_version" int
      ∷ defaulted "status" (varchar 50) (literal "PENDING")
      ∷ defaulted "received_at" timestamp now
      ∷ optional "processed_at" timestamp
      ∷ [];
  primary_key = "consumer_name" ∷ "message_id" ∷ [];
  uniques = [];
  indexes = [];
  exclusions = [];
}

abbrev pub create_tenancy_schema : Migration
create_tenancy_schema = record {
  name = "CreateTenancySchema1721382500000";
  up =
      create_extension "btree_gist"
      ∷ create_table rental_units
      ∷ create_index "rental_units" (record {
        name = "idx_rental_units_owner_id";
        columns = "owner_id" ∷ [];
        is_unique = false;
      })
      ∷ create_table tenancy_invitations
      ∷ create_index "tenancy_invitations" (record {
        name = "idx_invitations_rental_unit_id";
        columns = "rental_unit_id" ∷ [];
        is_unique = false;
      })
      ∷ create_table handover_protocols
      ∷ create_index "handover_protocols" (record {
        name = "idx_handover_tenancy_id";
        columns = "tenancy_id" ∷ [];
        is_unique = false;
      })
      ∷ create_table tenancies
      ∷ create_index "tenancies" (record {
        name = "idx_tenancies_rental_unit_id";
        columns = "rental_unit_id" ∷ [];
        is_unique = false;
      })
      ∷ create_index "tenancies" (record {
        name = "idx_tenancies_tenant_id";
        columns = "tenant_id" ∷ [];
        is_unique = false;
      })
      ∷ add_constraint "tenancies" tenancy_overlap_prevention
      ∷ create_table (domain_event_journal "uq_journal_event_ordering_tenancy")
      ∷ create_table local_event_dispatches
      ∷ create_table domain_reaction_deliveries
      ∷ create_table integration_outbox
      ∷ create_table inbox
      ∷ [];
  down =
      drop_table "inbox"
      ∷ drop_table "integration_outbox"
      ∷ drop_table "domain_reaction_deliveries"
      ∷ drop_table "local_event_dispatches"
      ∷ drop_table "domain_event_journal"
      ∷ drop_table "tenancies"
      ∷ drop_table "handover_protocols"
      ∷ drop_table "tenancy_invitations"
      ∷ drop_table "rental_units"
      ∷ drop_extension "btree_gist"
      ∷ [];
}

abbrev pub rental_unit_readiness_projections : TableDef
rental_unit_readiness_projections = record {
  name = "rental_unit_readiness_projections";
  columns =
      required "rental_unit_id" uuid
      ∷ defaulted "is_ready" boolean (flag true)
      ∷ defaulted "last_processed_version" int (number 0)
      ∷ defaulted "status" (varchar 50) (literal "ACTIVE")
      ∷ [];
  primary_key = "rental_unit_id" ∷ [];
  uniques = [];
  indexes = [];
  exclusions = [];
}

abbrev pub create_readiness_projection_table : Migration
create_readiness_projection_table = record {
  name = "CreateReadinessProjectionTable1721382600000";
  up = create_table rental_unit_readiness_projections ∷ [];
  down = drop_table "rental_unit_readiness_projections" ∷ [];
}

-- The migrations of tenancy-data-source.ts.
abbrev pub tenancy_migrations : List Migration
tenancy_migrations = create_tenancy_schema ∷ create_readiness_projection_table ∷ []
