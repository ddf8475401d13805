-- ===== src/Tenancy/Relay/Attempts.antt =====
-- The attempts that the relay counts, and what it makes of the status of a row.
use flatrent.Base.{
  ℕ, ◌+◌, ◌≡◌, ◌≤◌, ◌⊎◌, refl, String, Bool, true, false, Option, none, some, List, [], ◌∷◌, All,
  Uuid, arith, leb, ◌==◌, Option-cases, Result-cases, Bool-cases, inl, inr,
}
use flatrent.Tenancy.Errors.{database_failure, message}
use flatrent.Tenancy.Database.{
  Schema, Db, IntegrationOutboxEntity, DeliveryStatus, processing, published, retry, dead,
}
use flatrent.Tenancy.Relay.{
  OutboxTable, Relay, is_due, claimed, marked, claim_rows, set_status, fail_item, publish_item,
  publish_items, relay_pending_messages, max_attempts,
}
use flatrent.Tenancy.Relay.Settling.{accepted}

abbrev pub is_processing : DeliveryStatus → Bool
is_processing processing = true
is_processing _ = false

abbrev pub attempts_of : Option IntegrationOutboxEntity → ℕ
attempts_of none = 0
attempts_of (some r) = r.attempt_count

module _ (M : Schema) (Q : OutboxTable M) (driver : String)
    (publish : IntegrationOutboxEntity → Option String) where
  -- A row of a table stays, or its status becomes one that is not processing.
  abbrev pub Settles : M.Outbox → M.Outbox → Uuid → Type 0
  Settles s s' k =
      (M.outbox.find_one s' k ≡ M.outbox.find_one s k)
      ⊎ ((status : DeliveryStatus) × (e : Option String) × (is_processing status ≡ false)
          × (M.outbox.find_one s' k ≡ marked status e (M.outbox.find_one s k)))

  set_status-Settles :
      (id : Uuid) (status : DeliveryStatus) (e : Option String) (w : Relay M) (k : Uuid)
      → is_processing status ≡ false
      → Settles w.db.outbox (set_status M Q driver publish id status e w).1.db.outbox k
  set_status-Settles id status e w k p = elim (Option-cases (Q.update w.db.outbox id status e)) [
    | inl rejected ↦ inl (ground arith)
    | inr (rows, written) ↦ elim (Bool-cases (id == k)) [
      | inl here ↦
          inr (status, e, p, ground (arith, Q.find_one-update w.db.outbox rows id k status e))
      | inr there ↦ inl (ground (arith, Q.find_one-update w.db.outbox rows id k status e))
    ]
  ]

  fail_item-Settles :
      (r : IntegrationOutboxEntity) (text : String) (w : Relay M) (k : Uuid)
      → Settles w.db.outbox (fail_item M Q driver publish r text w).1.db.outbox k
  fail_item-Settles r text w k = elim (Bool-cases (leb max_attempts r.attempt_count)) [
    | inl last ↦ ground (arith, set_status-Settles r.message_id dead (some text) w k refl)
    | inr more ↦ ground (
      arith,
      set_status-Settles r.message_id retry (some text)
          (record w { outbox_retries = w.outbox_retries + 1 }) k refl,
    )
  ]

  pub publish_item-Settles :
      (r : IntegrationOutboxEntity) (w : Relay M) (k : Uuid)
      → Settles w.db.outbox (publish_item M Q driver publish r w).1.db.outbox k
  publish_item-Settles r w k = elim (Option-cases (publish r)) [
    | inr (text, refused) ↦ ground (arith, fail_item-Settles r text w k)
    | inl fine ↦ elim (Option-cases (Q.update w.db.outbox r.message_id published none)) [
      | inl rejected ↦ ground (
        arith,
        fail_item-Settles r (message driver database_failure) (accepted M Q driver publish r w) k,
      )
      | inr (rows, written) ↦ ground (
        arith,
        set_status-Settles r.message_id published none (accepted M Q driver publish r w) k refl,
      )
    ]
  ]

  pub publish_items-attempts :
      (rs : List IntegrationOutboxEntity) (w : Relay M) (k : Uuid)
      → attempts_of (M.outbox.find_one (publish_items M Q driver publish rs w).1.db.outbox k)
        ≡ attempts_of (M.outbox.find_one w.db.outbox k)
  unfolding publish_items
  publish_items-attempts [] w k = refl
  publish_items-attempts (r ∷ rs) w k =
      let here : attempts_of (M.outbox.find_one (publish_item M Q driver publish r w).1.db.outbox k)
          ≡ attempts_of (M.outbox.find_one w.db.outbox k) =
        elim (publish_item-Settles r w k) [
          | inl same ↦ ground (arith, same)
          | inr (status, e, p, done) ↦ elim (Option-cases (M.outbox.find_one w.db.outbox k)) [
            | inl missing ↦ ground (arith, done)
            | inr (x, found) ↦ ground (arith, done)
          ]
        ] in
      elim (Result-cases (publish_item M Q driver publish r w).0) [
        | inr (x, thrown) ↦ ground (arith, here)
        | inl (_, returned) ↦
            ground
              (arith, here, publish_items-attempts rs (publish_item M Q driver publish r w).1 k)
      ]

  abbrev pub IsBounded : M.Outbox → Type 0
  IsBounded s = (k : Uuid) → attempts_of (M.outbox.find_one s k) ≤ max_attempts

  claim_rows-IsBounded :
      (rs : List IntegrationOutboxEntity) (db : Db M)
      → All (λ r. is_due r ≡ true) rs
      → IsBounded db.outbox
      → IsBounded (claim_rows M Q driver publish rs db).1.outbox
  unfolding claim_rows
  claim_rows-IsBounded [] db a b k = b k
  claim_rows-IsBounded (r ∷ rs) db a b k =
      elim (Option-cases (M.outbox.save db.outbox (claimed r))) [
        | inl rejected ↦ ground (arith, b k)
        | inr (rows, written) ↦
            let kept : IsBounded rows =
              λ j. ground (arith, b j, a.0, M.outbox.find_one-save db.outbox rows (claimed r) j) in
            ground (arith, claim_rows-IsBounded rs (record db { outbox = rows }) a.1 kept k)
      ]

  All-due :
      (db : Db M) (rs : List IntegrationOutboxEntity)
      → All (λ r. (is_due r ≡ true) × (M.outbox.find_one db.outbox r.message_id ≡ some r)) rs
      → All (λ r. is_due r ≡ true) rs
  All-due db [] a = tt
  All-due db (r ∷ rs) a = (a.0.0, All-due db rs a.1)

  -- If no row of the outbox counts more than five attempts, no
  -- row does after a run of the relay, whatever comes of it.
  pub relay_pending_messages-IsBounded :
      (w : Relay M)
      → IsBounded w.db.outbox
      → IsBounded (relay_pending_messages M Q driver publish w).1.db.outbox
  unfolding relay_pending_messages
  relay_pending_messages-IsBounded w b k =
      let due = Q.get_many w.db.outbox is_due 10 in
      let claims = claim_rows M Q driver publish due w.db in
      let claimed_bound =
        claim_rows-IsBounded due w.db (All-due w.db due (Q.get_many-stored w.db.outbox is_due 10)) b
          k in
      elim (Result-cases claims.0) [
        | inr (x, thrown) ↦ ground (arith, b k)
        | inl (batch, done) ↦
            ground
              (arith, claimed_bound, publish_items-attempts batch (record w { db = claims.1 }) k)
      ]
