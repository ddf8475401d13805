-- ===== src/Auth/Tests/Reactions.antt =====
-- The worker on one delivery.
use mathlib.Core.Path.{subst}
use flatrent.Base.{
  some_of, ℕ, ◌*◌, ◌≤◌, ◌≡◌, refl, String, true, none, some, List, [], ◌∷◌, All, length, Bool-cases,
  arith, inl, inr,
}
use flatrent.Base.Text.{codes}
use flatrent.Auth.Errors.{tenant}
use flatrent.Auth.Account.{registered_event}
use flatrent.Auth.Database.{AuthDb, DomainReactionDeliveryEntity, pending, is_due, delivery_key_eq}
use flatrent.Auth.Repositories.{journal_entry}
use flatrent.Auth.Reactions.{
  ReactionExecutor, Readings, max_attempts, audit_security_alert, claimed,
  process_next_pending_delivery, handle_delivery, execute_delivery,
}
use flatrent.Auth.Reactions.Execution.{Leaves, delivery_key_eq_refl, KeepsDeliveries}
use flatrent.Auth.Reactions.Handling.{process_next_pending_delivery-Leaves}
use flatrent.Auth.Reactions.Attempts.{delivery_key_eq_sound, IsBounded, Covers}
use flatrent.Auth.Reactions.Termination.{worked, worked_bound}
use flatrent.Auth.Tests.{sql, no_rows}

abbrev delivery : DomainReactionDeliveryEntity
delivery = record {
  key = record { event_id = 9; reaction_id = "auth.audit-security-alert"; reaction_version = 1 };
  status = pending;
  attempt_count = 0;
  available_at = 50;
  processed_at = none;
  last_error = none;
}

abbrev waiting : AuthDb sql
waiting = record no_rows {
  journal = journal_entry 0 (registered_event 1 (codes "a@b.c") tenant 50 9) ∷ [];
  deliveries = some delivery;
}

abbrev missing : String → ℕ → String
missing id version = id

abbrev executors : List (ReactionExecutor sql)
executors = audit_security_alert sql ∷ []

executors-keep : All (KeepsDeliveries sql) executors
executors-keep = (λ event db. refl, tt)

abbrev at_noon : Readings
at_noon = record { now = 60; processed = 61; failed = 62; jitter = 3 }

process_next_pending_delivery-Leaves_example :
    (r : DomainReactionDeliveryEntity) × (is_due 60 r ≡ true)
    × (sql.deliveries.find waiting.deliveries r.key ≡ some r)
    × Leaves sql waiting at_noon
        (claimed r)
        (process_next_pending_delivery sql "failed" missing executors at_noon waiting).1
unfolding process_next_pending_delivery handle_delivery execute_delivery
process_next_pending_delivery-Leaves_example =
    process_next_pending_delivery-Leaves sql "failed" missing executors at_noon waiting
      executors-keep refl

waiting-IsBounded : IsBounded sql waiting.deliveries
waiting-IsBounded k r found is_open_there = ground (arith, found)

waiting-Covers : Covers sql (delivery.key ∷ []) waiting.deliveries
waiting-Covers k r found = elim (Bool-cases (delivery_key_eq delivery.key k)) [
  | inr other ↦ absurd (ground (arith, other, found))
  | inl here ↦
      subst (λ j. some_of (delivery_key_eq j) (delivery.key ∷ []) ≡ true)
        (delivery_key_eq_sound delivery.key k here)
        (ground (arith, delivery_key_eq_refl delivery.key))
]

worked_bound_example :
    worked sql "failed" missing executors executors-keep (at_noon ∷ at_noon ∷ []) waiting
    ≤ max_attempts * length (delivery.key ∷ [])
worked_bound_example =
    worked_bound sql "failed" missing executors executors-keep (delivery.key ∷ [])
      (at_noon ∷ at_noon ∷ []) waiting waiting-IsBounded waiting-Covers
