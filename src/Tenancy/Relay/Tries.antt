-- ===== src/Tenancy/Relay/Tries.antt =====
-- How often the relay takes an item up to publish it, over any number of runs.
use mathlib.Core.Path.{subst}
use flatrent.Base.{
  ℕ, ◌+◌, ◌≡◌, ◌≤◌, String, Bool, true, false, ◌||◌, Option, some, List, [], ◌∷◌, All, Uuid, ok,
  err, arith, ◌==◌, Option-cases, Result-cases, Bool-cases, inl, inr, if◌then◌else◌,
}
use flatrent.Tenancy.Database.{Schema, Db, IntegrationOutboxEntity}
use flatrent.Tenancy.Relay.{
  OutboxTable, Relay, is_due, claimed, claim_rows, claim_batch, relay_pending_messages,
  max_attempts,
}
use flatrent.Tenancy.Relay.Settling.{Avoids, claim_rows-other}
use flatrent.Tenancy.Relay.Attempts.{
  attempts_of, publish_items-attempts, IsBounded, relay_pending_messages-IsBounded,
}

abbrev pub has_id : List IntegrationOutboxEntity → Uuid → Bool
has_id [] k = false
has_id (r ∷ rs) k = (r.message_id == k) || has_id rs k

module _ (M : Schema) (Q : OutboxTable M) (driver : String) where
  abbrev pub Topic : Type 0
  Topic = IntegrationOutboxEntity → Option String

  -- The items that a run takes to the topic: its batch, once that is claimed.
  abbrev pub taken : Topic → Relay M → List IntegrationOutboxEntity
  taken publish w = elim ((claim_batch M Q driver publish w.db).0) [ err _ ↦ [] | ok batch ↦ batch ]

  abbrev pub tries_once : Topic → Relay M → Uuid → ℕ
  tries_once publish w k = if has_id (taken publish w) k then 1 else 0

  -- The number of runs that take the item with the id to the topic, among runs one after another,
  -- each with the topic as it is then.
  unfoldable pub tries : List Topic → Relay M → Uuid → ℕ
  tries [] w k = 0
  tries (publish ∷ later) w k =
      tries_once publish w k + tries later (relay_pending_messages M Q driver publish w).1 k

  has_id-Avoids :
      (publish : Topic) (rs : List IntegrationOutboxEntity) (k : Uuid)
      → has_id rs k ≡ false
      → Avoids M Q driver publish k rs
  has_id-Avoids publish [] k h = tt
  has_id-Avoids publish (r ∷ rs) k h = (ground arith, has_id-Avoids publish rs k (ground arith))

  claim_rows-has_id :
      (publish : Topic) (rs : List IntegrationOutboxEntity) (db : Db M)
      (batch : List IntegrationOutboxEntity) (k : Uuid)
      → (claim_rows M Q driver publish rs db).0 ≡ ok batch
      → has_id batch k ≡ has_id rs k
  unfolding claim_rows
  claim_rows-has_id publish [] db batch k e = ground arith
  claim_rows-has_id publish (r ∷ rs) db batch k e =
      elim (Option-cases (M.outbox.save db.outbox (claimed r))) [
        | inl rejected ↦ absurd (ground (arith, rejected))
        | inr (rows, written) ↦
            let db1 : Db M = record db { outbox = rows } in
            elim (Result-cases (claim_rows M Q driver publish rs db1).0) [
              | inr (x, thrown) ↦ absurd (ground (arith, written, thrown))
              | inl (rest, done) ↦
                  ground (arith, written, done, claim_rows-has_id publish rs db1 rest k done)
            ]
      ]

  -- A claimed row counts one attempt more than the stored row that it was claimed from.
  claim_rows-counts :
      (publish : Topic) (rs : List IntegrationOutboxEntity) (db0 db : Db M)
      (batch : List IntegrationOutboxEntity) (k : Uuid)
      → All (λ r. M.outbox.find_one db0.outbox r.message_id ≡ some r) rs
      → (claim_rows M Q driver publish rs db).0 ≡ ok batch
      → has_id rs k ≡ true
      → attempts_of (M.outbox.find_one (claim_rows M Q driver publish rs db).1.outbox k)
        ≡ attempts_of (M.outbox.find_one db0.outbox k) + 1
  unfolding claim_rows
  claim_rows-counts publish [] db0 db batch k stored e h = absurd (ground arith)
  claim_rows-counts publish (r ∷ rs) db0 db batch k stored e h =
      elim (Option-cases (M.outbox.save db.outbox (claimed r))) [
        | inl rejected ↦ absurd (ground (arith, rejected))
        | inr (rows, written) ↦
            let db1 : Db M = record db { outbox = rows } in
            elim (Result-cases (claim_rows M Q driver publish rs db1).0) [
              | inr (x, thrown) ↦ absurd (ground (arith, written, thrown))
              | inl (rest, done) ↦ elim (Bool-cases (has_id rs k)) [
                | inl again ↦ ground (
                  arith,
                  written,
                  done,
                  claim_rows-counts publish rs db0 db1 rest k stored.1 done again,
                )
                | inr not_again ↦
                    let same : r.message_id ≡ k = ground (arith, not_again) in
                    ground (
                      arith,
                      written,
                      done,
                      same,
                      subst (λ j. M.outbox.find_one db0.outbox j ≡ some r) same stored.0,
                      M.outbox.find_one-save db.outbox rows (claimed r) k written,
                      claim_rows-other M Q driver publish rs db1 k
                          (has_id-Avoids publish rs k not_again),
                    )
              ]
            ]
      ]

  All-stored :
      (db : Db M) (rs : List IntegrationOutboxEntity)
      → All (λ r. (is_due r ≡ true) × (M.outbox.find_one db.outbox r.message_id ≡ some r)) rs
      → All (λ r. M.outbox.find_one db.outbox r.message_id ≡ some r) rs
  All-stored db [] a = tt
  All-stored db (r ∷ rs) a = (a.0.1, All-stored db rs a.1)

  -- A run that takes an item to the topic counts an attempt of it, and no run takes one back.
  tries_once-counts :
      (publish : Topic) (w : Relay M) (k : Uuid)
      → tries_once publish w k + attempts_of (M.outbox.find_one w.db.outbox k)
        ≤ attempts_of
            (M.outbox.find_one (relay_pending_messages M Q driver publish w).1.db.outbox k)
  unfolding relay_pending_messages
  tries_once-counts publish w k =
      let due = Q.get_many w.db.outbox is_due 10 in
      let claims = claim_rows M Q driver publish due w.db in
      let stored = All-stored w.db due (Q.get_many-stored w.db.outbox is_due 10) in
      elim (Result-cases claims.0) [
        | inr (x, thrown) ↦ ground (arith, thrown)
        | inl (batch, done) ↦
            let kept =
              publish_items-attempts M Q driver publish batch (record w { db = claims.1 }) k in
            let ids = claim_rows-has_id publish due w.db batch k done in
            elim (Bool-cases (has_id due k)) [
              | inl here ↦
                  let counted = claim_rows-counts publish due w.db w.db batch k stored done here in
                  ground (arith, done, ids, here, kept, counted)
              | inr other ↦
                  let same =
                    claim_rows-other M Q driver publish due w.db k
                      (has_id-Avoids publish due k other) in
                  ground (arith, done, ids, other, kept, same)
            ]
      ]

  -- No item is tried in more than five runs: over any number of runs one after another, whatever
  -- the topic answers and whatever comes of them, the runs that take an item to the topic and the
  -- attempts that its row counted before are five at most, if no row of the outbox counted more
  -- than five.
  pub tries_at_most_five :
      (topics : List Topic) (w : Relay M) (publish : Topic) (k : Uuid)
      → IsBounded M Q driver publish w.db.outbox
      → tries topics w k + attempts_of (M.outbox.find_one w.db.outbox k) ≤ max_attempts
  unfolding tries
  tries_at_most_five [] w publish k b = ground (arith, b k)
  tries_at_most_five (first ∷ later) w publish k b =
      let w' = (relay_pending_messages M Q driver first w).1 in
      let b' = relay_pending_messages-IsBounded M Q driver first w b in
      let rest = tries_at_most_five later w' first k b' in
      ground (arith, rest, tries_once-counts first w k)
