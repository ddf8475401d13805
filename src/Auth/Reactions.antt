-- ===== src/Auth/Reactions.antt =====
-- The worker of reliable reactions, auth/infrastructure/messaging/durable-reaction-worker.ts. An
-- executor may write to the database and throws a text. Clock readings, the jitter and the text that
-- names a missing executor are arguments.
pub mod Execution
pub mod Handling
pub mod Attempts
pub mod Termination
use Prim.Native.Nat.{◌^◌}
use text.Mathlib.Text.{◌==◌ as str_eq}
use flatrent.Base.{
  ℕ, ◌+◌, ◌*◌, String, Bool, true, false, ◌&&◌, Option, none, some, List, [], ◌∷◌, Date, Result, ok,
  err, Action, pure, transaction, leb, ◌==◌, if◌then◌else◌, ◌>>=◌, ◌>>◌,
}
use flatrent.Shared.{DomainEvent}
use flatrent.Shared.Dispatch.{event_of}
use flatrent.Auth.Errors.{Error}
use flatrent.Auth.Account.{AuthPayload}
use flatrent.Auth.Database.{
  AuthSchema, AuthDb, DomainReactionDeliveryEntity, DeliveryStatus, pending, processing, succeeded,
  retry, dead, save_delivery_row,
}

-- `ReactionExecutor`
pub record ReactionExecutor (M : AuthSchema) : Type 0 where
  pub reaction_id : String
  pub version : ℕ
  pub execute : DomainEvent AuthPayload → Action (AuthDb M) String (Unit {0})

-- AuditSecurityAlertReaction, which only logs.
abbrev pub audit_security_alert : (M : AuthSchema) → ReactionExecutor M
audit_security_alert M = record {
  reaction_id = "auth.audit-security-alert";
  version = 1;
  execute = λ event db. (ok tt, db);
}

-- The readings of one run: `new Date()` of the query, `new Date()` of a success, `Date.now()` of a
-- failure, and `Math.floor(Math.random() * 1000)`.
pub record Readings : Type 0 where
  pub now : Date
  pub processed : Date
  pub failed : Date
  pub jitter : ℕ

abbrev pub max_attempts : ℕ
max_attempts = 5

abbrev pub claimed : DomainReactionDeliveryEntity → DomainReactionDeliveryEntity
claimed r = record r { status = processing; attempt_count = r.attempt_count + 1 }

-- `now + backoffSec * 1000 + jitterMs`
abbrev pub backoff : ℕ → Readings → Date
backoff attempt_count t = t.failed + 2 ^ attempt_count * 1000 + t.jitter

module _ (M : AuthSchema) (driver : String) (missing : String → ℕ → String) where
  -- `this.executors.find(…)`
  abbrev pub matches : DomainReactionDeliveryEntity → ReactionExecutor M → Bool
  matches r ex = str_eq ex.reaction_id r.reaction_id && ex.version == r.reaction_version

  abbrev pub executor_of :
      List (ReactionExecutor M) → DomainReactionDeliveryEntity → Option (ReactionExecutor M)
  executor_of [] r = none
  executor_of (ex ∷ rest) r = if matches r ex then some ex else executor_of rest r

  -- `await deliveryRepo.save(delivery); return true;`
  abbrev pub finish : DomainReactionDeliveryEntity → Action (AuthDb M) Error Bool
  finish r = save_delivery_row M r >> pure true

  abbrev pub failed_delivery :
      Readings → String → DomainReactionDeliveryEntity → DomainReactionDeliveryEntity
  failed_delivery t text r =
      if leb max_attempts r.attempt_count
      then record r { status = dead; last_error = some text }
      else record r {
        status = retry;
        available_at = backoff r.attempt_count t;
        last_error = some text;
      }

  abbrev pub succeeded_delivery :
      Readings → DomainReactionDeliveryEntity → DomainReactionDeliveryEntity
  succeeded_delivery t r = record r {
    status = succeeded;
    processed_at = some t.processed;
    last_error = none;
  }

  -- The `try`: the effect and the status, and where either fails the `catch`; what the executor wrote
  -- before it threw stays written.
  unfoldable pub execute_delivery :
      Readings
      → ReactionExecutor M
      → DomainEvent AuthPayload
      → DomainReactionDeliveryEntity
      → Action (AuthDb M) Error Bool
  execute_delivery t ex event r db =
      let (executed, db') = ex.execute event db in
      elim executed [
        | err text ↦ finish (failed_delivery t text r) db'
        | ok _ ↦
            let (saved, db'') = save_delivery_row M (succeeded_delivery t r) db' in
            elim saved [
              | ok _ ↦ (ok true, db'')
              | err e ↦ finish (failed_delivery t driver (succeeded_delivery t r)) db''
            ]
      ]

  -- After the claim.
  unfoldable pub handle_delivery :
      List (ReactionExecutor M)
      → Readings
      → DomainReactionDeliveryEntity
      → Action (AuthDb M) Error Bool
  handle_delivery executors t r db = elim (M.journal.find_one db.journal r.event_id) [
    | none ↦
        finish
          (record r {
            status = dead;
            last_error = some "Canonical domain event not found in journal.";
          })
          db
    | some e ↦ elim (executor_of executors r) [
      | none ↦
          finish
            (record r {
              status = dead;
              last_error = some (missing r.reaction_id r.reaction_version);
            })
            db
      | some ex ↦ execute_delivery t ex (event_of e) r db
    ]
  ]

  abbrev pub claim_next :
      List (ReactionExecutor M)
      → Readings
      → Option DomainReactionDeliveryEntity
      → Action (AuthDb M) Error Bool
  claim_next executors t none = pure false
  claim_next executors t (some r) =
      save_delivery_row M (claimed r) >> handle_delivery executors t (claimed r)

  -- `processNextPendingDelivery`
  unfoldable pub process_next_pending_delivery :
      List (ReactionExecutor M) → Readings → Action (AuthDb M) Error Bool
  process_next_pending_delivery executors t =
      transaction (λ db. claim_next executors t (M.deliveries.due db.deliveries t.now) db)
