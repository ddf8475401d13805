-- ===== src/Tenancy/Relay/Settling.antt =====
-- What a run of the relay does to the rows of the outbox.
use flatrent.Base.{
  ◌+◌, ◌≡◌, refl, String, true, false, Option, none, some, List, [], ◌∷◌, ◌++◌, All, Uuid, ok,
  arith, leb, ◌==◌, Option-cases, Result-cases, Bool-cases, inl, inr,
}
use flatrent.Tenancy.Errors.{database_failure, message}
use flatrent.Tenancy.Database.{
  Schema, Db, IntegrationOutboxEntity, DeliveryStatus, published, retry, dead,
}
use flatrent.Tenancy.Relay.{
  OutboxTable, Relay, is_due, claimed, claim_rows, set_status, fail_item, publish_item,
  publish_items, relay_pending_messages, max_attempts, outbox_message,
}

module _ (M : Schema) (Q : OutboxTable M) (driver : String)
    (publish : IntegrationOutboxEntity → Option String) where
  abbrev pub Avoids : Uuid → List IntegrationOutboxEntity → Type 0
  Avoids k = All (λ r. (r.message_id == k) ≡ false)

  pub claim_rows-other :
      (rs : List IntegrationOutboxEntity) (db : Db M) (k : Uuid)
      → Avoids k rs
      → M.outbox.find_one (claim_rows M Q driver publish rs db).1.outbox k
        ≡ M.outbox.find_one db.outbox k
  unfolding claim_rows
  claim_rows-other [] db k a = refl
  claim_rows-other (r ∷ rs) db k a = elim (Option-cases (M.outbox.save db.outbox (claimed r))) [
    | inl rejected ↦ ground arith
    | inr (rows, written) ↦ ground (
      arith,
      M.outbox.find_one-save db.outbox rows (claimed r) k,
      claim_rows-other rs (record db { outbox = rows }) k a.1,
    )
  ]

  claim_rows-batch :
      (rs : List IntegrationOutboxEntity) (db db' : Db M) (batch : List IntegrationOutboxEntity)
      (k : Uuid)
      → Avoids k rs
      → claim_rows M Q driver publish rs db ≡ (ok batch, db')
      → Avoids k batch
  unfolding claim_rows
  claim_rows-batch [] db db' batch k a e = ground arith
  claim_rows-batch (r ∷ rs) db db' batch k a e =
      elim (Option-cases (M.outbox.save db.outbox (claimed r))) [
        | inl rejected ↦ absurd (ground arith)
        | inr (rows, written) ↦
            elim (Result-cases (claim_rows M Q driver publish rs (record db { outbox = rows })).0) [
              | inr (x, thrown) ↦ absurd (ground arith)
              | inl (rest, done) ↦ ground (
                arith,
                claim_rows-batch rs (record db { outbox = rows })
                    (claim_rows M Q driver publish rs (record db { outbox = rows })).1 rest k a.1,
              )
            ]
      ]

  set_status-other :
      (id : Uuid) (status : DeliveryStatus) (e : Option String) (w : Relay M) (k : Uuid)
      → (id == k) ≡ false
      → M.outbox.find_one (set_status M Q driver publish id status e w).1.db.outbox k
        ≡ M.outbox.find_one w.db.outbox k
  set_status-other id status e w k a = elim (Option-cases (Q.update w.db.outbox id status e)) [
    | inl rejected ↦ ground arith
    | inr (rows, written) ↦ ground (arith, Q.find_one-update w.db.outbox rows id k status e)
  ]

  fail_item-other :
      (r : IntegrationOutboxEntity) (text : String) (w : Relay M) (k : Uuid)
      → (r.message_id == k) ≡ false
      → M.outbox.find_one (fail_item M Q driver publish r text w).1.db.outbox k
        ≡ M.outbox.find_one w.db.outbox k
  fail_item-other r text w k a = elim (Bool-cases (leb max_attempts r.attempt_count)) [
    | inl last ↦ ground (arith, set_status-other r.message_id dead (some text) w k a)
    | inr more ↦ ground (
      arith,
      set_status-other r.message_id retry (some text)
          (record w { outbox_retries = w.outbox_retries + 1 }) k a,
    )
  ]

  -- The relay after the topic has received the item.
  abbrev pub accepted : IntegrationOutboxEntity → Relay M → Relay M
  accepted r w = record w { topic = w.topic ++ outbox_message r ∷ [] }

  pub publish_item-other :
      (r : IntegrationOutboxEntity) (w : Relay M) (k : Uuid)
      → (r.message_id == k) ≡ false
      → M.outbox.find_one (publish_item M Q driver publish r w).1.db.outbox k
        ≡ M.outbox.find_one w.db.outbox k
  publish_item-other r w k a = elim (Option-cases (publish r)) [
    | inr (text, refused) ↦ ground (arith, fail_item-other r text w k a)
    | inl fine ↦ elim (Option-cases (Q.update w.db.outbox r.message_id published none)) [
      | inl rejected ↦
          ground (arith, fail_item-other r (message driver database_failure) (accepted r w) k a)
      | inr (rows, written) ↦
          ground (arith, Q.find_one-update w.db.outbox rows r.message_id k published none)
    ]
  ]

  pub publish_items-other :
      (rs : List IntegrationOutboxEntity) (w : Relay M) (k : Uuid)
      → Avoids k rs
      → M.outbox.find_one (publish_items M Q driver publish rs w).1.db.outbox k
        ≡ M.outbox.find_one w.db.outbox k
  unfolding publish_items
  publish_items-other [] w k a = refl
  publish_items-other (r ∷ rs) w k a = elim (Result-cases (publish_item M Q driver publish r w).0) [
    | inr (x, thrown) ↦ ground (arith, publish_item-other r w k a.0)
    | inl (_, done) ↦ ground (
      arith,
      publish_item-other r w k a.0,
      publish_items-other rs (publish_item M Q driver publish r w).1 k a.1,
    )
  ]

  All-Avoids :
      (rs : List IntegrationOutboxEntity) (db : Db M) (k : Uuid)
      → All (λ r. (is_due r ≡ true) × (M.outbox.find_one db.outbox r.message_id ≡ some r)) rs
      → (r : IntegrationOutboxEntity) → M.outbox.find_one db.outbox k ≡ some r
      → is_due r ≡ false
      → Avoids k rs
  All-Avoids [] db k a r found not_due = tt
  All-Avoids (x ∷ rs) db k a r found not_due =
      (ground (arith, a.0), All-Avoids rs db k a.1 r found not_due)

  -- A run of the relay, whatever comes of it, leaves every row alone that is not pending or to be
  -- retried with fewer than five attempts: published and dead rows, and also rows that an interrupted
  -- run has left as processing.
  pub relay_pending_messages-other :
      (w : Relay M) (k : Uuid) (r : IntegrationOutboxEntity)
      → M.outbox.find_one w.db.outbox k ≡ some r
      → is_due r ≡ false
      → M.outbox.find_one (relay_pending_messages M Q driver publish w).1.db.outbox k ≡ some r
  unfolding relay_pending_messages
  relay_pending_messages-other w k r found not_due =
      let due = Q.get_many w.db.outbox is_due 10 in
      let avoids =
        All-Avoids due w.db k (Q.get_many-stored w.db.outbox is_due 10) r found not_due in
      let claims = claim_rows M Q driver publish due w.db in
      let w' : Relay M = record w { db = claims.1 } in
      elim (Result-cases claims.0) [
        | inr (x, thrown) ↦ ground arith
        | inl (batch, done) ↦
            let kept = claim_rows-other due w.db k avoids in
            let later =
              publish_items-other batch w' k
                (claim_rows-batch due w.db claims.1 batch k avoids (ground arith)) in
            ground (arith, kept, later)
      ]
