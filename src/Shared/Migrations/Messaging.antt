-- ===== src/Shared/Migrations/Messaging.antt =====
-- The four tables that the migrations of both databases create with the same columns, and the tables
-- that their entities describe in both modules.
use flatrent.Base.{String, true, some, [], ◌∷◌}
use flatrent.Shared.Migrations.{
  text, uuid, int, bigserial, timestamp, varchar, number, literal, now, required, optional,
  defaulted, unique_column, TableDef,
}

-- The name of the constraint on the order of events is the module's own.
abbrev pub domain_event_journal : String → TableDef
domain_event_journal constraint = record {
  name = "domain_event_journal";
  columns =
      required "event_id" uuid
      ∷ required "commit_position" bigserial
      ∷ required "event_type" (varchar 255)
      ∷ required "event_version" int
      ∷ required "module" (varchar 50)
      ∷ required "aggregate_type" (varchar 100)
      ∷ required "aggregate_id" uuid
      ∷ required "aggregate_version" int
      ∷ required "event_index" int
      ∷ required "occurred_at" timestamp
      ∷ defaulted "committed_at" timestamp now
      ∷ optional "actor_id" uuid
      ∷ required "command_id" uuid
      ∷ required "correlation_id" uuid
      ∷ optional "causation_id" uuid
      ∷ required "payload_json" text
      ∷ [];
  primary_key = "event_id" ∷ [];
  uniques =
      unique_column "commit_position"
      ∷ record {
        name = some constraint;
        columns =
            "module" ∷ "aggregate_type" ∷ "aggregate_id" ∷ "aggregate_version" ∷ "event_index" ∷ [];
      }
      ∷ [];
  indexes = [];
  exclusions = [];
}

abbrev pub local_event_dispatches : TableDef
local_event_dispatches = record {
  name = "local_event_dispatches";
  columns =
      required "event_id" uuid
      ∷ defaulted "status" (varchar 50) (literal "PENDING")
      ∷ defaulted "attempt_count" int (number 0)
      ∷ required "available_at" timestamp
      ∷ optional "dispatched_at" timestamp
      ∷ optional "last_error" text
      ∷ [];
  primary_key = "event_id" ∷ [];
  uniques = [];
  indexes = [];
  exclusions = [];
}

abbrev pub domain_reaction_deliveries : TableDef
domain_reaction_deliveries = record {
  name = "domain_reaction_deliveries";
  columns =
      required "event_id" uuid
      ∷ required "reaction_id" (varchar 255)
      ∷ required "reaction_version" int
      ∷ defaulted "status" (varchar 50) (literal "PENDING")
      ∷ defaulted "attempt_count" int (number 0)
      ∷ required "available_at" timestamp
      ∷ optional "processed_at" timestamp
      ∷ optional "last_error" text
      ∷ [];
  primary_key = "event_id" ∷ "reaction_id" ∷ "reaction_version" ∷ [];
  uniques = [];
  indexes = [];
  exclusions = [];
}

abbrev pub integration_outbox : TableDef
integration_outbox = record {
  name = "integration_outbox";
  columns =
      required "message_id" uuid
      ∷ required "event_type" (varchar 255)
      ∷ required "event_version" int
      ∷ required "producer" (varchar 50)
      ∷ required "source_domain_event_id" uuid
      ∷ required "aggregate_type" (varchar 100)
      ∷ required "aggregate_id" uuid
      ∷ required "aggregate_version" int
      ∷ required "occurred_at" timestamp
      ∷ required "payload_json" text
      ∷ defaulted "status" (varchar 50) (literal "PENDING")
      ∷ defaulted "attempt_count" int (number 0)
      ∷ optional "last_error" text
      ∷ [];
  primary_key = "message_id" ∷ [];
  uniques = [];
  indexes = [];
  exclusions = [];
}

-- The entity describes the order of events by a unique index, whose name is the module's own.
abbrev pub domain_event_journal_entity : String → TableDef
domain_event_journal_entity index = record {
  name = "domain_event_journal";
  columns =
      required "event_id" uuid
      ∷ required "commit_position" bigserial
      ∷ required "event_type" (varchar 255)
      ∷ required "event_version" int
      ∷ required "module" (varchar 50)
      ∷ required "aggregate_type" (varchar 100)
      ∷ required "aggregate_id" uuid
      ∷ required "aggregate_version" int
      ∷ required "event_index" int
      ∷ required "occurred_at" timestamp
      ∷ defaulted "committed_at" timestamp now
      ∷ optional "actor_id" uuid
      ∷ required "command_id" uuid
      ∷ required "correlation_id" uuid
      ∷ optional "causation_id" uuid
      ∷ required "payload_json" text
      ∷ [];
  primary_key = "event_id" ∷ [];
  uniques = unique_column "commit_position" ∷ [];
  indexes =
      record {
        name = index;
        columns =
            "module" ∷ "aggregate_type" ∷ "aggregate_id" ∷ "aggregate_version" ∷ "event_index" ∷ [];
        is_unique = true;
      }
      ∷ [];
  exclusions = [];
}

abbrev pub local_event_dispatches_entity : TableDef
local_event_dispatches_entity = record {
  name = "local_event_dispatches";
  columns =
      required "event_id" uuid
      ∷ defaulted "status" (varchar 50) (literal "PENDING")
      ∷ defaulted "attempt_count" int (number 0)
      ∷ required "available_at" timestamp
      ∷ optional "dispatched_at" timestamp
      ∷ optional "last_error" text
      ∷ [];
  primary_key = "event_id" ∷ [];
  uniques = [];
  indexes = [];
  exclusions = [];
}

abbrev pub domain_reaction_deliveries_entity : TableDef
domain_reaction_deliveries_entity = record {
  name = "domain_reaction_deliveries";
  columns =
      required "event_id" uuid
      ∷ required "reaction_id" (varchar 255)
      ∷ required "reaction_version" int
      ∷ defaulted "status" (varchar 50) (literal "PENDING")
      ∷ defaulted "attempt_count" int (number 0)
      ∷ required "available_at" timestamp
      ∷ optional "processed_at" timestamp
      ∷ optional "last_error" text
      ∷ [];
  primary_key = "event_id" ∷ "reaction_id" ∷ "reaction_version" ∷ [];
  uniques = [];
  indexes = [];
  exclusions = [];
}

abbrev pub integration_outbox_entity : TableDef
integration_outbox_entity = record {
  name = "integration_outbox";
  columns =
      required "message_id" uuid
      ∷ required "event_type" (varchar 255)
      ∷ required "event_version" int
      ∷ required "producer" (varchar 50)
      ∷ required "source_domain_event_id" uuid
      ∷ required "aggregate_type" (varchar 100)
      ∷ required "aggregate_id" uuid
      ∷ required "aggregate_version" int
      ∷ required "occurred_at" timestamp
      ∷ required "payload_json" text
      ∷ defaulted "status" (varchar 50) (literal "PENDING")
      ∷ defaulted "attempt_count" int (number 0)
      ∷ optional "last_error" text
      ∷ [];
  primary_key = "message_id" ∷ [];
  uniques = [];
  indexes = [];
  exclusions = [];
}
