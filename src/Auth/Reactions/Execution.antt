-- ===== src/Auth/Reactions/Execution.antt =====
-- What one attempt does to the deliveries, from the claimed delivery on.
use mathlib.Core.Path.{subst}
use text.Mathlib.TextEquality.{eq_iff}
use flatrent.Base.{
  ℕ, ◌<◌, ◌≡◌, refl, String, Bool, true, false, some, ok, err, ◌⊎◌, inl, inr, arith, leb, ==_refl,
  Option-cases, Result-cases, Bool-cases,
}
use flatrent.Shared.{DomainEvent}
use flatrent.Auth.Errors.{database_failure}
use flatrent.Auth.Account.{AuthPayload}
use flatrent.Auth.Database.{
  AuthSchema, AuthDb, DomainReactionDeliveryEntity, DeliveryKey, DeliveryStatus, succeeded, retry,
  dead, delivery_key_eq, save_delivery_row,
}
use flatrent.Auth.Reactions.{
  ReactionExecutor, Readings, max_attempts, backoff, finish, failed_delivery, succeeded_delivery,
  execute_delivery,
}

pub delivery_key_eq_refl : (k : DeliveryKey) → delivery_key_eq k k ≡ true
delivery_key_eq_refl k = ground (
  arith,
  ==_refl k.event_id,
  (eq_iff k.reaction_id k.reaction_id).1 refl,
  ==_refl k.reaction_version,
)

abbrev pub is_final : DeliveryStatus → Bool
is_final succeeded = true
is_final dead = true
is_final _ = false

-- A claimed delivery at the end of a run: final, or to be retried later, while attempts are left.
abbrev pub IsTreated :
    Readings → DomainReactionDeliveryEntity → DomainReactionDeliveryEntity → Type 0
IsTreated t r r' =
    (r'.key ≡ r.key)
    × (r'.attempt_count ≡ r.attempt_count)
    × ((is_final r'.status ≡ true)
        ⊎ ((r'.status ≡ retry)
            × (r.attempt_count < max_attempts)
            × (r'.available_at ≡ backoff r.attempt_count t)))

module _ (M : AuthSchema) where
  -- The other deliveries are as they were.
  abbrev pub KeepsOthers : DeliveryKey → AuthDb M → AuthDb M → Type 0
  KeepsOthers key db db' =
      (k : DeliveryKey)
      → delivery_key_eq key k ≡ false
      → M.deliveries.find db'.deliveries k ≡ M.deliveries.find db.deliveries k

  abbrev pub Leaves : AuthDb M → Readings → DomainReactionDeliveryEntity → AuthDb M → Type 0
  Leaves db t r db' =
      (r' : DomainReactionDeliveryEntity) × IsTreated t r r'
      × (M.deliveries.find db'.deliveries r.key ≡ some r')
      × KeepsOthers r.key db db'

  -- An executor that writes no deliveries.
  abbrev pub KeepsDeliveries : ReactionExecutor M → Type 0
  KeepsDeliveries ex =
      (event : DomainEvent AuthPayload) (db : AuthDb M)
      → (ex.execute event db).1.deliveries ≡ db.deliveries

module _ (M : AuthSchema) (driver : String) (missing : String → ℕ → String) where
  pub save_delivery_row_cases :
      (r : DomainReactionDeliveryEntity) (db : AuthDb M)
      → (save_delivery_row M r db ≡ (err database_failure, db))
        ⊎ ((rows : M.Deliveries) × (M.deliveries.save db.deliveries r ≡ some rows)
            × (save_delivery_row M r db ≡ (ok tt, record db { deliveries = rows })))
  save_delivery_row_cases r db = elim (Option-cases (M.deliveries.save db.deliveries r)) [
    | inl failed ↦ inl (ground (arith, failed))
    | inr (rows, written) ↦ inr (rows, written, ground (arith, written))
  ]

  written-Leaves :
      (db0 db : AuthDb M) (t : Readings) (r r' : DomainReactionDeliveryEntity) (rows : M.Deliveries)
      → IsTreated t r r'
      → M.deliveries.save db.deliveries r' ≡ some rows
      → KeepsOthers M r.key db0 db
      → Leaves M db0 t r (record db { deliveries = rows })
  written-Leaves db0 db t r r' rows treated written kept = (
    r',
    treated,
    ground (
      arith,
      treated.0,
      delivery_key_eq_refl r.key,
      M.deliveries.find-save db.deliveries rows r' r.key written,
    ),
    λ k other. ground (
      arith,
      treated.0,
      other,
      kept k other,
      M.deliveries.find-save db.deliveries rows r' k written,
    ),
  )

  pub finish-Leaves :
      (db0 db : AuthDb M) (t : Readings) (r r' : DomainReactionDeliveryEntity) (b : Bool)
      → IsTreated t r r'
      → (finish M driver missing r' db).0 ≡ ok b
      → KeepsOthers M r.key db0 db
      → Leaves M db0 t r (finish M driver missing r' db).1
  finish-Leaves db0 db t r r' b treated returned kept = elim (save_delivery_row_cases r' db) [
    | inl failed ↦ absurd (ground (arith, failed, returned))
    | inr (rows, written, saved) ↦
        subst (Leaves M db0 t r) {x = record db { deliveries = rows }}
          {y = (finish M driver missing r' db).1} (ground (arith, saved))
          (written-Leaves db0 db t r r' rows treated written kept)
  ]

  failed_delivery-IsTreated :
      (t : Readings) (text : String) (r s : DomainReactionDeliveryEntity)
      → s.key ≡ r.key
      → s.attempt_count ≡ r.attempt_count
      → IsTreated t r (failed_delivery M driver missing t text s)
  failed_delivery-IsTreated t text r s key count =
      elim (Bool-cases (leb max_attempts s.attempt_count)) [
        | inl last ↦
            (ground (arith, last, key), ground (arith, last, count), inl (ground (arith, last)))
        | inr more ↦ (
          ground (arith, more, key),
          ground (arith, more, count),
          inr (ground (arith, more), ground (arith, more, count), ground (arith, more, count)),
        )
      ]

  pub execute_delivery-Leaves :
      (db0 db : AuthDb M) (t : Readings) (ex : ReactionExecutor M) (event : DomainEvent AuthPayload)
      (r : DomainReactionDeliveryEntity) (b : Bool)
      → KeepsDeliveries M ex
      → (execute_delivery M driver missing t ex event r db).0 ≡ ok b
      → KeepsOthers M r.key db0 db
      → Leaves M db0 t r (execute_delivery M driver missing t ex event r db).1
  unfolding execute_delivery
  execute_delivery-Leaves db0 db t ex event r b keeps returned kept =
      let db' = (ex.execute event db).1 in
      let kept' : KeepsOthers M r.key db0 db' =
        λ k other. ground (arith, kept k other, keeps event db) in
      let goal = execute_delivery M driver missing t ex event r db in
      elim (Result-cases (ex.execute event db).0) [
        | inr (text, thrown) ↦
            let last = failed_delivery M driver missing t text r in
            subst (Leaves M db0 t r) {x = (finish M driver missing last db').1} {y = goal.1}
              (ground (arith, thrown))
              (finish-Leaves db0 db' t r last b (failed_delivery-IsTreated t text r r refl refl)
                (ground (arith, thrown, returned)) kept')
        | inl (_, executed) ↦
            let good = succeeded_delivery M driver missing t r in
            elim (save_delivery_row_cases good db') [
              | inr (rows, written, saved) ↦
                  subst (Leaves M db0 t r) {x = record db' { deliveries = rows }} {y = goal.1}
                    (ground (arith, executed, saved))
                    (written-Leaves db0 db' t r good rows (refl, refl, inl refl) written kept')
              | inl failed ↦
                  let last = failed_delivery M driver missing t driver good in
                  subst (Leaves M db0 t r) {x = (finish M driver missing last db').1} {y = goal.1}
                    (ground (arith, executed, failed))
                    (finish-Leaves db0 db' t r last b
                      (failed_delivery-IsTreated t driver r good refl refl)
                      (ground (arith, executed, failed, returned)) kept')
            ]
      ]
