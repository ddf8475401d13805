-- ===== src/Auth/Reactions/Handling.antt =====
-- What one run of the worker does to the deliveries.
use mathlib.Core.Path.{subst}
use flatrent.Base.{
  ℕ, ◌≡◌, refl, String, Bool, true, some, List, [], ◌∷◌, All, ok, inl, inr, arith, Option-cases,
  Result-cases, Bool-cases,
}
use flatrent.Shared.Dispatch.{event_of}
use flatrent.Auth.Database.{AuthSchema, AuthDb, DomainReactionDeliveryEntity, dead, is_due}
use flatrent.Auth.Reactions.{
  ReactionExecutor, Readings, claimed, matches, executor_of, finish, execute_delivery,
  handle_delivery, process_next_pending_delivery,
}
use flatrent.Auth.Reactions.Execution.{
  KeepsOthers, Leaves, KeepsDeliveries, save_delivery_row_cases, finish-Leaves,
  execute_delivery-Leaves,
}

module _ (M : AuthSchema) (driver : String) (missing : String → ℕ → String) where
  executor_of-keeps :
      (executors : List (ReactionExecutor M)) (r : DomainReactionDeliveryEntity)
      (ex : ReactionExecutor M)
      → All (KeepsDeliveries M) executors
      → executor_of M driver missing executors r ≡ some ex
      → KeepsDeliveries M ex
  executor_of-keeps [] r ex keeps found = absurd (ground (arith, found))
  executor_of-keeps (x ∷ rest) r ex keeps found = elim (Bool-cases (matches M driver missing r x)) [
    | inl hit ↦ subst (KeepsDeliveries M) {x = x} {y = ex} (ground (arith, hit, found)) keeps.0
    | inr miss ↦ executor_of-keeps rest r ex keeps.1 (ground (arith, miss, found))
  ]

  handle_delivery-Leaves :
      (db0 db : AuthDb M) (executors : List (ReactionExecutor M)) (t : Readings)
      (r : DomainReactionDeliveryEntity) (b : Bool)
      → All (KeepsDeliveries M) executors
      → (handle_delivery M driver missing executors t r db).0 ≡ ok b
      → KeepsOthers M r.key db0 db
      → Leaves M db0 t r (handle_delivery M driver missing executors t r db).1
  unfolding handle_delivery
  handle_delivery-Leaves db0 db executors t r b keeps returned kept =
      let goal = handle_delivery M driver missing executors t r db in
      elim (Option-cases (M.journal.find_one db.journal r.event_id)) [
        | inl gone ↦
            let last : DomainReactionDeliveryEntity = record r {
              status = dead;
              last_error = some "Canonical domain event not found in journal.";
            } in
            subst (Leaves M db0 t r) {x = (finish M driver missing last db).1} {y = goal.1}
              (ground (arith, gone))
              (finish-Leaves M driver missing db0 db t r last b (refl, refl, inl refl)
                (ground (arith, gone, returned)) kept)
        | inr (e, found) ↦ elim (Option-cases (executor_of M driver missing executors r)) [
          | inl none_there ↦
              let last : DomainReactionDeliveryEntity = record r {
                status = dead;
                last_error = some (missing r.reaction_id r.reaction_version);
              } in
              subst (Leaves M db0 t r) {x = (finish M driver missing last db).1} {y = goal.1}
                (ground (arith, found, none_there))
                (finish-Leaves M driver missing db0 db t r last b (refl, refl, inl refl)
                  (ground (arith, found, none_there, returned)) kept)
          | inr (ex, is_there) ↦
              subst (Leaves M db0 t r)
                {x = (execute_delivery M driver missing t ex (event_of e) r db).1} {y = goal.1}
                (ground (arith, found, is_there))
                (execute_delivery-Leaves M driver missing db0 db t ex (event_of e) r b
                  (executor_of-keeps executors r ex keeps is_there)
                  (ground (arith, found, is_there, returned)) kept)
        ]
      ]

  -- A run that reports work took a stored delivery that was due, counted the attempt, and left it final,
  -- or to be retried after the backoff while attempts are left; every other delivery stays as it was,
  -- provided that the executors write no deliveries.
  pub process_next_pending_delivery-Leaves :
      (executors : List (ReactionExecutor M)) (t : Readings) (db : AuthDb M)
      → All (KeepsDeliveries M) executors
      → (process_next_pending_delivery M driver missing executors t db).0 ≡ ok true
      → (r : DomainReactionDeliveryEntity) × (is_due t.now r ≡ true)
        × (M.deliveries.find db.deliveries r.key ≡ some r)
        × Leaves M db t
            (claimed r)
            (process_next_pending_delivery M driver missing executors t db).1
  unfolding process_next_pending_delivery
  process_next_pending_delivery-Leaves executors t db keeps returned =
      elim (Option-cases (M.deliveries.due db.deliveries t.now)) [
        | inl idle ↦ absurd (ground (arith, idle, returned))
        | inr (r, next) ↦
            let due = M.deliveries.due-some db.deliveries t.now r next in
            let goal = process_next_pending_delivery M driver missing executors t db in
            elim (save_delivery_row_cases M driver missing (claimed r) db) [
              | inl failed ↦ absurd (ground (arith, next, failed, returned))
              | inr (rows, written, saved) ↦
                  let db1 : AuthDb M = record db { deliveries = rows } in
                  let run = handle_delivery M driver missing executors t (claimed r) db1 in
                  elim (Result-cases run.0) [
                    | inr (x, thrown) ↦ absurd (ground (arith, next, saved, thrown, returned))
                    | inl (b, handled) ↦ (
                      r,
                      due.0,
                      due.1,
                      subst (Leaves M db t (claimed r)) {x = run.1} {y = goal.1}
                          (ground (arith, next, saved, handled))
                          (handle_delivery-Leaves db db1 executors t (claimed r) b keeps handled
                            (λ k other. ground (
                              arith,
                              other,
                              M.deliveries.find-save db.deliveries rows (claimed r) k written,
                            ))),
                    )
                  ]
            ]
      ]
