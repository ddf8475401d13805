-- ===== src/Auth/Reactions/Attempts.antt =====
-- The worker runs out of work.
use mathlib.Core.Path.{subst}
use text.Mathlib.TextEquality.{eq_iff}
use flatrent.Base.{
  ℕ, ◌+◌, ◌-◌, ◌*◌, ◌<◌, ◌≤◌, ◌≡◌, refl, String, Bool, true, false, Option, none, some, List, [],
  ◌∷◌, some_of, length, Result, ok, err, inl, inr, arith, if◌then◌else◌, Option-cases, Result-cases,
  Bool-cases,
}
use flatrent.Shared.{DomainEvent}
use flatrent.Shared.Dispatch.{event_of}
use flatrent.Auth.Account.{AuthPayload}
use flatrent.Auth.Errors.{Error}
use flatrent.Auth.Database.{
  AuthSchema, AuthDb, DomainReactionDeliveryEntity, DeliveryKey, DeliveryStatus, pending,
  processing, dispatched, published, succeeded, retry, dead, is_open, is_due, delivery_key_eq,
}
use flatrent.Auth.Reactions.{
  ReactionExecutor, Readings, max_attempts, claimed, finish, failed_delivery, succeeded_delivery,
  executor_of, execute_delivery, handle_delivery, process_next_pending_delivery,
}
use flatrent.Auth.Reactions.Execution.{is_final, IsTreated}

-- The runs that a delivery can still take.
abbrev pub left : Option DomainReactionDeliveryEntity → ℕ
left none = 0
left (some r) = if is_open r.status then max_attempts - r.attempt_count else 0

pub delivery_key_eq_sound : (a b : DeliveryKey) → delivery_key_eq a b ≡ true → a ≡ b
delivery_key_eq_sound a b e =
    let id : a.event_id ≡ b.event_id = ground (arith, e) in
    let reaction : a.reaction_id ≡ b.reaction_id =
      (eq_iff a.reaction_id b.reaction_id).0 (ground (arith, e)) in
    let version : a.reaction_version ≡ b.reaction_version = ground (arith, e) in
    ground (arith, id, reaction, version)

pub final_closed : (s : DeliveryStatus) → is_final s ≡ true → is_open s ≡ false
final_closed succeeded f = refl
final_closed dead f = refl
final_closed pending f = absurd (ground (arith, f))
final_closed processing f = refl
final_closed dispatched f = refl
final_closed published f = refl
final_closed retry f = absurd (ground (arith, f))

pub left_treated :
    (t : Readings) (r r' : DomainReactionDeliveryEntity)
    → is_due t.now r ≡ true
    → r.attempt_count < max_attempts
    → IsTreated t (claimed r) r'
    → left (some r') < left (some r)
left_treated t r r' due bound (key, count, inl final) =
    ground (arith, due, bound, final_closed r'.status final)
left_treated t r r' due bound (key, count, inr (again, more, later)) =
    ground (arith, due, count, again, more)

abbrev pub is_work : Result Error Bool → Bool
is_work (ok b) = b
is_work (err e) = false

module _ (M : AuthSchema) where
  -- An open delivery has attempts left.
  abbrev pub IsBounded : M.Deliveries → Type 0
  IsBounded s =
      (k : DeliveryKey) (r : DomainReactionDeliveryEntity)
      → M.deliveries.find s k ≡ some r
      → is_open r.status ≡ true
      → r.attempt_count < max_attempts

  -- The keys of all deliveries are among `ks`.
  abbrev pub Covers : List DeliveryKey → M.Deliveries → Type 0
  Covers ks s =
      (k : DeliveryKey) (r : DomainReactionDeliveryEntity)
      → M.deliveries.find s k ≡ some r
      → some_of (delivery_key_eq k) ks ≡ true

  abbrev pub total : List DeliveryKey → M.Deliveries → ℕ
  total [] s = 0
  total (k ∷ ks) s = left (M.deliveries.find s k) + total ks s

  total_le :
      (ks : List DeliveryKey) (s s' : M.Deliveries)
      → ((k : DeliveryKey) → left (M.deliveries.find s' k) ≤ left (M.deliveries.find s k))
      → total ks s' ≤ total ks s
  total_le [] s s' le = ground arith
  total_le (k ∷ ks) s s' le = ground (arith, le k, total_le ks s s' le)

  pub total_lt :
      (ks : List DeliveryKey) (s s' : M.Deliveries) (key : DeliveryKey)
      → ((k : DeliveryKey) → left (M.deliveries.find s' k) ≤ left (M.deliveries.find s k))
      → left (M.deliveries.find s' key) < left (M.deliveries.find s key)
      → some_of (delivery_key_eq key) ks ≡ true
      → total ks s' < total ks s
  total_lt [] s s' key le lt there = absurd (ground (arith, there))
  total_lt (k ∷ ks) s s' key le lt there = elim (Bool-cases (delivery_key_eq key k)) [
    | inl here ↦
        let lt' =
          subst (λ j. left (M.deliveries.find s' j) < left (M.deliveries.find s j))
            (delivery_key_eq_sound key k here) lt in
        ground (arith, lt', total_le ks s s' le)
    | inr other ↦ ground (arith, le k, total_lt ks s s' key le lt (ground (arith, there, other)))
  ]

  pub total_bound :
      (ks : List DeliveryKey) (s : M.Deliveries) → total ks s ≤ max_attempts * length ks
  total_bound [] s = ground arith
  total_bound (k ∷ ks) s = elim (Option-cases (M.deliveries.find s k)) [
    | inl gone ↦ ground (arith, gone, total_bound ks s)
    | inr (r, found) ↦ ground (arith, found, total_bound ks s)
  ]

module _ (M : AuthSchema) (driver : String) (missing : String → ℕ → String) where
  finish_works :
      (r : DomainReactionDeliveryEntity) (db : AuthDb M) (b : Bool)
      → (finish M driver missing r db).0 ≡ ok b
      → b ≡ true
  finish_works r db b returned = elim (Option-cases (M.deliveries.save db.deliveries r)) [
    | inl failed ↦ absurd (ground (arith, failed, returned))
    | inr (rows, written) ↦ ground (arith, written, returned)
  ]

  execute_delivery_works :
      (t : Readings) (ex : ReactionExecutor M) (event : DomainEvent AuthPayload)
      (r : DomainReactionDeliveryEntity) (db : AuthDb M) (b : Bool)
      → (execute_delivery M driver missing t ex event r db).0 ≡ ok b
      → b ≡ true
  unfolding execute_delivery
  execute_delivery_works t ex event r db b returned =
      let db' = (ex.execute event db).1 in
      let good = succeeded_delivery M driver missing t r in
      elim (Result-cases (ex.execute event db).0) [
        | inr (text, thrown) ↦
            finish_works (failed_delivery M driver missing t text r) db' b
              (ground (arith, thrown, returned))
        | inl (_, executed) ↦ elim (Option-cases (M.deliveries.save db'.deliveries good)) [
          | inr (rows, written) ↦ ground (arith, executed, written, returned)
          | inl failed ↦
              finish_works (failed_delivery M driver missing t driver good) db' b
                (ground (arith, executed, failed, returned))
        ]
      ]

  handle_delivery_works :
      (executors : List (ReactionExecutor M)) (t : Readings) (r : DomainReactionDeliveryEntity)
      (db : AuthDb M) (b : Bool)
      → (handle_delivery M driver missing executors t r db).0 ≡ ok b
      → b ≡ true
  unfolding handle_delivery
  handle_delivery_works executors t r db b returned =
      elim (Option-cases (M.journal.find_one db.journal r.event_id)) [
        | inl gone ↦
            finish_works
              (record r {
                status = dead;
                last_error = some "Canonical domain event not found in journal.";
              })
              db b (ground (arith, gone, returned))
        | inr (e, found) ↦ elim (Option-cases (executor_of M driver missing executors r)) [
          | inl none_there ↦
              finish_works
                (record r {
                  status = dead;
                  last_error = some (missing r.reaction_id r.reaction_version);
                })
                db b (ground (arith, found, none_there, returned))
          | inr (ex, is_there) ↦
              execute_delivery_works t ex (event_of e) r db b
                (ground (arith, found, is_there, returned))
        ]
      ]

  -- A run that does not report work changes nothing.
  pub process_next_pending_delivery_idle :
      (executors : List (ReactionExecutor M)) (t : Readings) (db : AuthDb M)
      → is_work (process_next_pending_delivery M driver missing executors t db).0 ≡ false
      → (process_next_pending_delivery M driver missing executors t db).1 ≡ db
  unfolding process_next_pending_delivery
  process_next_pending_delivery_idle executors t db idle =
      elim (Option-cases (M.deliveries.due db.deliveries t.now)) [
        | inl nothing ↦ ground (arith, nothing)
        | inr (r, next) ↦ elim (Option-cases (M.deliveries.save db.deliveries (claimed r))) [
          | inl failed ↦ ground (arith, next, failed)
          | inr (rows, written) ↦
              let run =
                handle_delivery M driver missing executors t (claimed r)
                  (record db { deliveries = rows }) in
              elim (Result-cases run.0) [
                | inr (x, thrown) ↦ ground (arith, next, written, thrown)
                | inl (b, returned) ↦ absurd (
                    ground (
                      arith,
                      next,
                      written,
                      returned,
                      idle,
                      handle_delivery_works executors t (claimed r)
                          (record db { deliveries = rows }) b returned,
                    ))
              ]
        ]
      ]
