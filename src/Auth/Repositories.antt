-- ===== src/Auth/Repositories.antt =====
-- The TypeORM repositories, auth/infrastructure/persistence/typeorm-*.repository.ts,
-- event-persistence.helper.ts and reliable-reactions-catalog.ts. As in the tenancy module, the use
-- cases pass no `SaveOptions`, so each statement is a write of its own.
pub mod Reads
use text.Mathlib.Text.{◌==◌ as str_eq}
use flatrent.Base.{
  ℕ, suc, ◌+◌, String, Bool, true, false, ◌&&◌, Option, none, some, List, [], ◌∷◌, map, Uuid, Date,
  Result, ok, err, Action, Table, pure, lift, ◌>>=◌, ◌>>◌, ◌==◌, if◌then◌else◌,
}
use flatrent.Base.Text.{codes_eq}
use flatrent.Shared.{DomainEvent, acknowledge_committed_domain_events, increment_version}
use flatrent.Shared.Versions.{
  next_version, counted_version, version_of, increment_on_update, nil_uuid,
}
use flatrent.Auth.Errors.{Error, version_mismatch, database_failure, UserRole}
use flatrent.Auth.Account.{UserAccount, AuthPayload, user_registered, password_changed}
use flatrent.Auth.Session.{RefreshSession}
use flatrent.Auth.Database.{
  AuthSchema, AuthDb, UserAccountEntity, RefreshSessionEntity, AuthJournalEntity, AuthOutboxEntity,
  LocalEventDispatchEntity, DomainReactionDeliveryEntity, UserRegisteredMessage, DeliveryStatus,
  pending, save_user_row, save_session_row, save_journal_row, save_dispatch_row, save_delivery_row,
  save_outbox_row, user_to_entity, user_to_domain, session_to_entity, session_to_domain,
}

-- reliable-reactions-catalog.ts
pub record ReactionCatalogEntry : Type 0 where
  pub reaction_id : String
  pub version : ℕ

-- `AUTH_RELIABLE_REACTIONS_CATALOG[eventKey] || []`. The key is the type, ".v" and the version, and
-- determines both.
unfoldable pub reactions : String → ℕ → List ReactionCatalogEntry
reactions event_type event_version =
    if str_eq event_type "RefreshTokenReuseDetectedDomainEvent" && event_version == 1
    then record { reaction_id = "auth.audit-security-alert"; version = 1 } ∷ []
    else []

-- Lines 36 to 51.
abbrev pub journal_entry : ℕ → DomainEvent AuthPayload → AuthJournalEntity
journal_entry index event = record {
  event_id = event.event_id;
  event_type = event.event_type;
  event_version = event.event_version;
  module_name = "auth";
  aggregate_type = event.aggregate_type;
  aggregate_id = event.aggregate_id;
  aggregate_version = event.aggregate_version;
  event_index = index;
  occurred_at = event.occurred_at;
  actor_id = none;
  command_id = nil_uuid;
  correlation_id = nil_uuid;
  causation_id = none;
  payload_json = event.payload;
}

-- Lines 56 to 62.
abbrev pub dispatch_row : DomainEvent AuthPayload → LocalEventDispatchEntity
dispatch_row event = record {
  event_id = event.event_id;
  status = pending;
  attempt_count = 0;
  available_at = event.occurred_at;
  dispatched_at = none;
  last_error = none;
}

-- Lines 70 to 78.
abbrev pub delivery_row :
    DomainEvent AuthPayload → ReactionCatalogEntry → DomainReactionDeliveryEntity
delivery_row event rx = record {
  key = record {
    event_id = event.event_id;
    reaction_id = rx.reaction_id;
    reaction_version = rx.version;
  };
  status = pending;
  attempt_count = 0;
  available_at = event.occurred_at;
  processed_at = none;
  last_error = none;
}

-- Lines 86 to 103.
abbrev pub outbox_row : DomainEvent AuthPayload → List ℕ → UserRole → AuthOutboxEntity
outbox_row event email role = record {
  message_id = event.event_id;
  event_type = "UserRegistered.v1";
  event_version = 1;
  producer = "auth";
  source_domain_event_id = event.event_id;
  aggregate_type = event.aggregate_type;
  aggregate_id = event.aggregate_id;
  aggregate_version = event.aggregate_version;
  occurred_at = event.occurred_at;
  payload_json = record { user_id = event.aggregate_id; email = email; role = role };
  status = pending;
  attempt_count = 0;
  last_error = none;
}

module _ (M : AuthSchema) where
  unfoldable pub persist_deliveries :
      DomainEvent AuthPayload → List ReactionCatalogEntry → Action (AuthDb M) Error (Unit {0})
  persist_deliveries event [] = pure tt
  persist_deliveries event (rx ∷ rest) =
      save_delivery_row M (delivery_row event rx) >> persist_deliveries event rest

  -- Only a registration is also an integration event; its payload is a `UserRegisteredPayload`.
  abbrev pub persist_outbox : DomainEvent AuthPayload → Action (AuthDb M) Error (Unit {0})
  persist_outbox event db =
      if str_eq event.event_type "UserRegisteredDomainEvent"
      then elim (event.payload) [
        | user_registered email role ↦ save_outbox_row M (outbox_row event email role) db
        | password_changed user_id ↦ (ok tt, db)
      ]
      else (ok tt, db)

  -- `EventPersistenceHelper.persistEvents`
  abbrev pub persist_event : ℕ → DomainEvent AuthPayload → Action (AuthDb M) Error (Unit {0})
  persist_event index event = do
    save_journal_row M (journal_entry index event)
    save_dispatch_row M (dispatch_row event)
    persist_deliveries event (reactions event.event_type event.event_version)
    persist_outbox event

  unfoldable pub persist_events :
      ℕ → List (DomainEvent AuthPayload) → Action (AuthDb M) Error (Unit {0})
  unfolding persist_deliveries reactions
  persist_events index [] = pure tt
  persist_events index (event ∷ events) =
      persist_event index event >> persist_events (suc index) events

  abbrev pub loaded_user : Option UserAccountEntity → Result Error (Option UserAccount)
  loaded_user none = ok none
  loaded_user (some e) = elim (user_to_domain e) [ ok u ↦ ok (some u) | err x ↦ err x ]

  unfoldable pub find_user : Uuid → Action (AuthDb M) Error (Option UserAccount)
  unfolding user_to_domain
  find_user id db = (loaded_user (M.users.find_one db.users id), db)

  unfoldable pub find_user_by_email : List ℕ → Action (AuthDb M) Error (Option UserAccount)
  unfolding user_to_domain
  find_user_by_email email db =
      (loaded_user (M.users.get_one db.users (λ e. codes_eq e.email email)), db)

  unfoldable pub save_user : UserAccount → Action (AuthDb M) Error UserAccount
  save_user u = do
    version ← λ db. (
      counted_version version_mismatch u.aggregate_version
          (version_of (λ e. e.version) (M.users.find_one db.users u.id)),
      db,
    )
    save_user_row M (record (user_to_entity u) { version = version })
    persist_events 0 u.pending_events
    pure (record u {
      root = acknowledge_committed_domain_events (map (λ e. e.event_id) u.pending_events) u.root;
    })

  abbrev pub find_session : Uuid → Action (AuthDb M) Error (Option RefreshSession)
  find_session id db = elim (M.sessions.find_one db.sessions id) [
    | none ↦ (ok none, db)
    | some e ↦ (ok (some (session_to_domain e)), db)
  ]

  -- A session has no events to persist.
  unfoldable pub save_session : RefreshSession → Action (AuthDb M) Error RefreshSession
  save_session s db =
      let existing = M.sessions.find_one db.sessions s.id in
      (do
        version ← lift (
            next_version version_mismatch s.aggregate_version
              (version_of (λ e. e.version) existing))
        save_session_row M (record (session_to_entity s) { version = version })
        pure (increment_on_update (λ a. record a { root = increment_version a.root }) existing s))
        db

  -- `revokeAllByUserId`
  unfoldable pub revoke_all_by_user_id : Uuid → Action (AuthDb M) Error (Unit {0})
  revoke_all_by_user_id user_id db = elim (M.revoke_all db.sessions user_id) [
    | none ↦ (err database_failure, db)
    | some rows ↦ (ok tt, record db { sessions = rows })
  ]
