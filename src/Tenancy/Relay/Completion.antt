-- ===== src/Tenancy/Relay/Completion.antt =====
-- A run of the relay that returns leaves nothing half done.
use mathlib.Core.Path.{subst}
use flatrent.Base.{
  ℕ, ◌+◌, ◌≡◌, ◌⊎◌, refl, String, Bool, true, false, not, Option, none, some, List, [], ◌∷◌, Uuid,
  ok, arith, leb, ◌==◌, Option-cases, Result-cases, Bool-cases, inl, inr,
}
use flatrent.Tenancy.Errors.{database_failure, message}
use flatrent.Tenancy.Database.{
  Schema, Db, IntegrationOutboxEntity, DeliveryStatus, processing, published, retry, dead,
}
use flatrent.Tenancy.Relay.{
  OutboxTable, Relay, is_due, claimed, claim_rows, set_status, fail_item, publish_item,
  publish_items, relay_pending_messages, max_attempts,
}
use flatrent.Tenancy.Relay.Settling.{Avoids, accepted, claim_rows-other, publish_items-other}
use flatrent.Tenancy.Relay.Attempts.{is_processing, publish_item-Settles}

abbrev pub is_idle : Option IntegrationOutboxEntity → Bool
is_idle none = true
is_idle (some r) = not (is_processing r.status)

module _ (M : Schema) (Q : OutboxTable M) (driver : String)
    (publish : IntegrationOutboxEntity → Option String) where
  publish_item-idle :
      (r : IntegrationOutboxEntity) (w : Relay M) (k : Uuid)
      → is_idle (M.outbox.find_one w.db.outbox k) ≡ true
      → is_idle (M.outbox.find_one (publish_item M Q driver publish r w).1.db.outbox k) ≡ true
  publish_item-idle r w k idle = elim (publish_item-Settles M Q driver publish r w k) [
    | inl same ↦ ground (arith, same)
    | inr (status, e, p, done) ↦ elim (Option-cases (M.outbox.find_one w.db.outbox k)) [
      | inl missing ↦ ground (arith, done)
      | inr (x, found) ↦ ground (arith, done)
    ]
  ]

  set_status-ok :
      (id : Uuid) (status : DeliveryStatus) (e : Option String) (w : Relay M) {u : Unit {0}}
      → is_processing status ≡ false
      → (set_status M Q driver publish id status e w).0 ≡ ok u
      → is_idle (M.outbox.find_one (set_status M Q driver publish id status e w).1.db.outbox id)
        ≡ true
  set_status-ok id status e w p done = elim (Option-cases (Q.update w.db.outbox id status e)) [
    | inl rejected ↦ absurd (ground arith)
    | inr (rows, written) ↦ elim (Option-cases (M.outbox.find_one w.db.outbox id)) [
      | inl missing ↦ ground (arith, Q.find_one-update w.db.outbox rows id id status e)
      | inr (x, found) ↦ ground (arith, Q.find_one-update w.db.outbox rows id id status e)
    ]
  ]

  fail_item-ok :
      (r : IntegrationOutboxEntity) (text : String) (w : Relay M) {u : Unit {0}}
      → (fail_item M Q driver publish r text w).0 ≡ ok u
      → is_idle (M.outbox.find_one (fail_item M Q driver publish r text w).1.db.outbox r.message_id)
        ≡ true
  fail_item-ok r text w done = elim (Bool-cases (leb max_attempts r.attempt_count)) [
    | inl last ↦ ground (arith, set_status-ok r.message_id dead (some text) w refl)
    | inr more ↦ ground (
      arith,
      set_status-ok r.message_id retry (some text)
          (record w { outbox_retries = w.outbox_retries + 1 }) refl,
    )
  ]

  publish_item-ok :
      (r : IntegrationOutboxEntity) (w : Relay M) {u : Unit {0}}
      → (publish_item M Q driver publish r w).0 ≡ ok u
      → is_idle (M.outbox.find_one (publish_item M Q driver publish r w).1.db.outbox r.message_id)
        ≡ true
  publish_item-ok r w done = elim (Option-cases (publish r)) [
    | inr (text, refused) ↦ ground (arith, fail_item-ok r text w)
    | inl fine ↦ elim (Option-cases (Q.update w.db.outbox r.message_id published none)) [
      | inl rejected ↦ ground (
        arith,
        fail_item-ok r (message driver database_failure) (accepted M Q driver publish r w),
      )
      | inr (rows, written) ↦
          ground (
            arith,
            set_status-ok r.message_id published none (accepted M Q driver publish r w) refl,
          )
    ]
  ]

  publish_items-idle :
      (rs : List IntegrationOutboxEntity) (w : Relay M) (k : Uuid)
      → is_idle (M.outbox.find_one w.db.outbox k) ≡ true
      → is_idle (M.outbox.find_one (publish_items M Q driver publish rs w).1.db.outbox k) ≡ true
  unfolding publish_items
  publish_items-idle [] w k idle = idle
  publish_items-idle (r ∷ rs) w k idle =
      elim (Result-cases (publish_item M Q driver publish r w).0) [
        | inr (x, thrown) ↦ ground (arith, publish_item-idle r w k idle)
        | inl (_, done) ↦ ground (
          arith,
          publish_items-idle rs (publish_item M Q driver publish r w).1 k
              (publish_item-idle r w k idle),
        )
      ]

  publish_items-ok :
      (rs : List IntegrationOutboxEntity) (w : Relay M) (k : Uuid) {u : Unit {0}}
      → (publish_items M Q driver publish rs w).0 ≡ ok u
      → Avoids M Q driver publish k rs
        ⊎ (is_idle (M.outbox.find_one (publish_items M Q driver publish rs w).1.db.outbox k) ≡ true)
  unfolding publish_items
  publish_items-ok [] w k done = inl tt
  publish_items-ok (r ∷ rs) w k done = elim (Result-cases (publish_item M Q driver publish r w).0) [
    | inr (x, thrown) ↦ absurd (ground arith)
    | inl (_, returned) ↦ elim (Bool-cases (r.message_id == k)) [
      | inl here ↦
          let same : r.message_id ≡ k = ground arith in
          let now_idle =
            subst
              (λ j.
                is_idle (M.outbox.find_one (publish_item M Q driver publish r w).1.db.outbox j)
                ≡ true)
              same (publish_item-ok r w returned) in
          inr (
            ground
              (arith, publish_items-idle rs (publish_item M Q driver publish r w).1 k now_idle))
      | inr there ↦
          elim (publish_items-ok rs (publish_item M Q driver publish r w).1 k (ground arith)) [
            | inl avoids ↦ inl (there, avoids)
            | inr idle ↦ inr (ground (arith, idle))
          ]
    ]
  ]

  claim_rows-back :
      (rs : List IntegrationOutboxEntity) (db db' : Db M) (batch : List IntegrationOutboxEntity)
      (k : Uuid)
      → claim_rows M Q driver publish rs db ≡ (ok batch, db')
      → Avoids M Q driver publish k batch
      → Avoids M Q driver publish k rs
  unfolding claim_rows
  claim_rows-back [] db db' batch k e a = tt
  claim_rows-back (r ∷ rs) db db' batch k e a =
      elim (Option-cases (M.outbox.save db.outbox (claimed r))) [
        | inl rejected ↦ absurd (ground arith)
        | inr (rows, written) ↦
            let later = claim_rows M Q driver publish rs (record db { outbox = rows }) in
            elim (Result-cases later.0) [
              | inr (x, thrown) ↦ absurd (ground arith)
              | inl (rest, done) ↦
                  ground (arith, claim_rows-back rs (record db { outbox = rows }) later.1 rest k)
            ]
      ]

  -- A run of the relay that returns has settled all that it claimed: a row that is processing
  -- afterwards was in the outbox as it is, already processing, before.
  pub relay_pending_messages-settled :
      (w w' : Relay M) (n : ℕ) (k : Uuid) (r : IntegrationOutboxEntity)
      → relay_pending_messages M Q driver publish w ≡ (ok n, w')
      → M.outbox.find_one w'.db.outbox k ≡ some r
      → r.status ≡ processing
      → M.outbox.find_one w.db.outbox k ≡ some r
  unfolding relay_pending_messages
  relay_pending_messages-settled w w' n k r e found busy =
      let due = Q.get_many w.db.outbox is_due 10 in
      let claims = claim_rows M Q driver publish due w.db in
      elim (Result-cases claims.0) [
        | inr (x, thrown) ↦ absurd (ground arith)
        | inl (batch, done) ↦
            let w1 : Relay M = record w { db = claims.1 } in
            elim (Result-cases (publish_items M Q driver publish batch w1).0) [
              | inr (x, thrown) ↦ absurd (ground arith)
              | inl (_, returned) ↦ elim (publish_items-ok batch w1 k returned) [
                | inr idle ↦ absurd (ground (arith, idle))
                | inl avoids ↦
                    let before = claim_rows-back due w.db claims.1 batch k (ground arith) avoids in
                    ground (
                      arith,
                      claim_rows-other M Q driver publish due w.db k before,
                      publish_items-other M Q driver publish batch w1 k avoids,
                    )
              ]
            ]
      ]
