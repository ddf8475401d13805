-- ===== src/Auth/Reactions/Termination.antt =====
-- Repeated runs of the worker, at any times: at most five for each delivery find work.
use mathlib.Core.Path.{subst}
use flatrent.Base.{
  ℕ, ◌+◌, ◌*◌, ◌<◌, ◌≤◌, ◌≡◌, sym, ◌∙◌, String, Bool, true, some, List, [], ◌∷◌, All, some_of,
  length, Result, ok, inl, inr, arith, if◌then◌else◌, Bool-cases,
}
use flatrent.Auth.Errors.{Error}
use flatrent.Auth.Database.{
  AuthSchema, AuthDb, DomainReactionDeliveryEntity, DeliveryKey, is_open, delivery_key_eq,
}
use flatrent.Auth.Reactions.{
  ReactionExecutor, Readings, max_attempts, claimed, process_next_pending_delivery,
}
use flatrent.Auth.Reactions.Execution.{IsTreated, KeepsOthers, KeepsDeliveries}
use flatrent.Auth.Reactions.Handling.{process_next_pending_delivery-Leaves}
use flatrent.Auth.Reactions.Attempts.{
  left, delivery_key_eq_sound, final_closed, left_treated, is_work, IsBounded, Covers, total,
  total_lt, total_bound, process_next_pending_delivery_idle,
}

treated_bound :
    (t : Readings) (r r' : DomainReactionDeliveryEntity)
    → IsTreated t (claimed r) r'
    → is_open r'.status ≡ true
    → r'.attempt_count < max_attempts
treated_bound t r r' (key, count, inl final) is_open_still =
    absurd (ground (arith, is_open_still, final_closed r'.status final))
treated_bound t r r' (key, count, inr (again, more, later)) is_open_still =
    ground (arith, count, more)

module _ (M : AuthSchema) (t : Readings) (db db' : AuthDb M) (r r' : DomainReactionDeliveryEntity)
    (found : M.deliveries.find db.deliveries r.key ≡ some r)
    (found' : M.deliveries.find db'.deliveries r.key ≡ some r')
    (treated : IsTreated t (claimed r) r') (kept : KeepsOthers M r.key db db') where
  treated-IsBounded : IsBounded M db.deliveries → IsBounded M db'.deliveries
  treated-IsBounded bounded k x is_there is_open_there =
      elim (Bool-cases (delivery_key_eq r.key k)) [
        | inr other ↦ bounded k x (ground (arith, is_there, kept k other)) is_open_there
        | inl here ↦
            let at_key : M.deliveries.find db'.deliveries r.key ≡ some x =
              subst (λ j. M.deliveries.find db'.deliveries j ≡ some x)
                (sym (delivery_key_eq_sound r.key k here)) is_there in
            let same : some r' ≡ some x = sym found' ∙ at_key in
            ground (arith, same, is_open_there, treated_bound t r r' treated)
      ]

  treated-Covers : (ks : List DeliveryKey) → Covers M ks db.deliveries → Covers M ks db'.deliveries
  treated-Covers ks covers k x is_there = elim (Bool-cases (delivery_key_eq r.key k)) [
    | inr other ↦ covers k x (ground (arith, is_there, kept k other))
    | inl here ↦
        subst (λ j. some_of (delivery_key_eq j) ks ≡ true) (delivery_key_eq_sound r.key k here)
          (covers r.key r found)
  ]

  treated_le :
      left (some r') < left (some r)
      → (k : DeliveryKey)
      → left (M.deliveries.find db'.deliveries k) ≤ left (M.deliveries.find db.deliveries k)
  treated_le less k = elim (Bool-cases (delivery_key_eq r.key k)) [
    | inr other ↦ ground (arith, kept k other)
    | inl here ↦
        subst
          (λ j.
            left (M.deliveries.find db'.deliveries j) ≤ left (M.deliveries.find db.deliveries j))
          (delivery_key_eq_sound r.key k here) (ground (arith, found, found', less))
  ]

module _ (M : AuthSchema) (driver : String) (missing : String → ℕ → String)
    (executors : List (ReactionExecutor M)) (keeps : All (KeepsDeliveries M) executors) where
  abbrev run : Readings → AuthDb M → Result Error Bool × AuthDb M
  run = process_next_pending_delivery M driver missing executors

  -- The number of runs, among runs at the given times, that report work.
  abbrev pub worked : List Readings → AuthDb M → ℕ
  worked [] db = 0
  worked (t ∷ ts) db = (if is_work (run t db).0 then 1 else 0) + worked ts (run t db).1

  work_step :
      (ks : List DeliveryKey) (t : Readings) (db : AuthDb M)
      → is_work (run t db).0 ≡ true
      → IsBounded M db.deliveries
      → Covers M ks db.deliveries
      → (total M ks (run t db).1.deliveries < total M ks db.deliveries)
        × IsBounded M (run t db).1.deliveries
        × Covers M ks (run t db).1.deliveries
  work_step ks t db work bounded covers =
      let is_true : (run t db).0 ≡ ok true = ground (arith, work) in
      let (r, due, found, (r', treated, found', kept)) =
        process_next_pending_delivery-Leaves M driver missing executors t db keeps is_true in
      let db' = (run t db).1 in
      let less = left_treated t r r' due (bounded r.key r found (ground (arith, due))) treated in
      (
        total_lt M ks db.deliveries db'.deliveries r.key
            (treated_le M t db db' r r' found found' treated kept less)
            (ground (arith, found, found', less)) (covers r.key r found),
        treated-IsBounded M t db db' r r' found found' treated kept bounded,
        treated-Covers M t db db' r r' found found' treated kept ks covers,
      )

  worked-total :
      (ks : List DeliveryKey) (ts : List Readings) (db : AuthDb M)
      → IsBounded M db.deliveries
      → Covers M ks db.deliveries
      → worked ts db ≤ total M ks db.deliveries
  worked-total ks [] db bounded covers = ground arith
  worked-total ks (t ∷ ts) db bounded covers = elim (Bool-cases (is_work (run t db).0)) [
    | inl work ↦
        let (less, bounded', covers') = work_step ks t db work bounded covers in
        ground (arith, work, less, worked-total ks ts (run t db).1 bounded' covers')
    | inr idle ↦
        let same = process_next_pending_delivery_idle M driver missing executors t db idle in
        ground (arith, idle, same, worked-total ks ts db bounded covers)
  ]

  -- Where open deliveries have attempts left and `ks` are the keys of all deliveries, at most five runs
  -- for each key report work, however many are made and whatever the executors throw.
  pub worked_bound :
      (ks : List DeliveryKey) (ts : List Readings) (db : AuthDb M)
      → IsBounded M db.deliveries
      → Covers M ks db.deliveries
      → worked ts db ≤ max_attempts * length ks
  worked_bound ks ts db bounded covers =
      ground (arith, worked-total ks ts db bounded covers, total_bound M ks db.deliveries)
