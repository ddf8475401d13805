-- ===== src/Tenancy/Readiness/Consumer.antt =====
-- What the consumer does to the database, and how it answers the queue.
use flatrent.Base.{
  ℕ, ◌≡◌, ◌≢◌, ◌⊎◌, refl, String, Bool, true, false, Option, none, some, List, [], ◌∷◌, ◌++◌, Uuid,
  Date, ok, err, arith, Option-cases, Result-cases, inl, inr,
}
use flatrent.Base.Int.{pos, ◌+ℤ◌, ltb_ℤ}
use flatrent.Tenancy.Errors.{Error, readiness_stale}
use flatrent.Tenancy.Database.{Schema, Db, RentalUnitReadinessProjectionEntity}
use flatrent.Tenancy.Readiness.{
  Payload, Envelope, or_new, advance, ProcessingError, duplicate_message_skip, failed, inbox_marker,
  process, assert_ready_to_lease, Message, malformed, Worker, handle, handle_all, Body, refused,
  envelope, poll_and_process,
}
use flatrent.Tenancy.Readiness.Projection.{or_same, advance_gap}

advance-unit :
    (m : Payload) (p q : RentalUnitReadinessProjectionEntity)
    → advance m p ≡ some q
    → q.rental_unit_id ≡ p.rental_unit_id
unfolding advance
advance-unit m p q e = ground arith

module _ (M : Schema) (sha256 : Payload → String) (now : Date) where
  abbrev pub projection_of : Db M → Uuid → RentalUnitReadinessProjectionEntity
  projection_of db unit = or_new unit (M.projections.find_one db.projections unit)

  projection_of-unit : (db : Db M) (unit : Uuid) → (projection_of db unit).rental_unit_id ≡ unit
  projection_of-unit db unit = elim (Option-cases (M.projections.find_one db.projections unit)) [
    | inl missing ↦ ground arith
    | inr (p, found) ↦ ground (arith, M.projections.find_one-key db.projections unit p found)
  ]

  -- A message that is not processed leaves the database as it was.
  pub process_atomic :
      (e : Envelope) (db db' : Db M) (x : ProcessingError)
      → process M sha256 now e db ≡ (err x, db')
      → db' ≡ db
  unfolding process
  process_atomic e db db' x h = ground arith

  -- What processing has done when it returns.
  pub record IsProcessed (e : Envelope) (db db' : Db M) : Type 0 where
    pub first_time : M.inbox.find_one db.inbox e.message_id ≡ none
    pub marked : M.inbox.find_one db'.inbox e.message_id ≡ some (inbox_marker M sha256 now e)
    pub advanced :
        projection_of db' e.payload.rental_unit_id
        ≡ or_same
            (projection_of db e.payload.rental_unit_id)
            (advance e.payload (projection_of db e.payload.rental_unit_id))
    pub tenancies : db'.tenancies ≡ db.tenancies
    pub outbox : db'.outbox ≡ db.outbox

  -- Processing that returns was the first of its message. It has stored the inbox marker and has
  -- advanced the projection of the unit, a new one if there was none, or left it if the message was
  -- stale; the tenancies and the outbox are as they were.
  pub process-IsProcessed :
      (e : Envelope) (db db' : Db M)
      → process M sha256 now e db ≡ (ok tt, db')
      → IsProcessed e db db'
  unfolding process
  process-IsProcessed e db db' h =
      let unit = e.payload.rental_unit_id in
      let p = projection_of db unit in
      let kept = projection_of-unit db unit in
      elim (Option-cases (advance e.payload p)) [
        | inl stale ↦ record {
          first_time = ground arith;
          marked = ground (
            arith,
            M.inbox.find_one-save db.inbox db'.inbox (inbox_marker M sha256 now e) e.message_id,
          );
          advanced = ground arith;
          tenancies = ground arith;
          outbox = ground arith;
        }
        | inr (q, moved) ↦
            let same_unit = advance-unit e.payload p q moved in
            record {
              first_time = ground arith;
              marked = ground (
                arith,
                M.inbox.find_one-save db.inbox db'.inbox (inbox_marker M sha256 now e) e.message_id,
              );
              advanced =
                  ground (arith, M.projections.find_one-save db.projections db'.projections q unit);
              tenancies = ground arith;
              outbox = ground arith;
            }
      ]

  -- Fail closed: when a message shows a gap, the unit cannot be leased afterwards.
  pub process-gap :
      (e : Envelope) (db db' : Db M)
      → process M sha256 now e db ≡ (ok tt, db')
      → ltb_ℤ
          ((projection_of db e.payload.rental_unit_id).last_processed_version +ℤ pos 1)
          e.payload.version
        ≡ true
      → assert_ready_to_lease M e.payload.rental_unit_id db' ≡ (err readiness_stale, db')
  unfolding assert_ready_to_lease
  process-gap e db db' h g = ground (
    arith,
    (process-IsProcessed e db db' h).advanced,
    advance_gap e.payload (projection_of db e.payload.rental_unit_id) g,
  )

module _ (M : Schema) (sha256 : Payload → String) where
  -- The database after messages at their times, whatever comes of each.
  unfoldable pub process_all : List (Date × Envelope) → Db M → Db M
  process_all [] db = db
  process_all ((now, e) ∷ ms) db = process_all ms (process M sha256 now e db).1

  -- The inbox forgets no message.
  process-remembers :
      (now : Date) (e : Envelope) (db : Db M) (k : Uuid)
      → M.inbox.find_one db.inbox k ≢ none
      → M.inbox.find_one (process M sha256 now e db).1.inbox k ≢ none
  unfolding process
  process-remembers now e db k known =
      let db' = (process M sha256 now e db).1 in
      let marker = inbox_marker M sha256 now e in
      let kept = M.inbox.find_one-save db.inbox db'.inbox marker k in
      let p = projection_of M sha256 now db e.payload.rental_unit_id in
      elim (Result-cases (process M sha256 now e db).0) [
        | inr (x, thrown) ↦
            ground (arith, known, process_atomic M sha256 now e db db' x (ground (arith, thrown)))
        | inl (_, done) ↦ elim (Option-cases (advance e.payload p)) [
          | inl stale ↦ ground (arith, known, kept, done, stale)
          | inr (q, moved) ↦ ground (arith, known, kept, done, moved)
        ]
      ]

  process_all-remembers :
      (ms : List (Date × Envelope)) (db : Db M) (k : Uuid)
      → M.inbox.find_one db.inbox k ≢ none
      → M.inbox.find_one (process_all ms db).inbox k ≢ none
  unfolding process_all
  process_all-remembers [] db k known = known
  process_all-remembers ((now, e) ∷ ms) db k known =
      process_all-remembers ms (process M sha256 now e db).1 k (process-remembers now e db k known)

  -- A message that was processed is refused as a duplicate whenever it comes again, whatever messages
  -- have come in between and whatever has become of them, and then changes nothing.
  pub process_twice :
      (now later : Date) (e : Envelope) (db db' : Db M) (ms : List (Date × Envelope))
      → process M sha256 now e db ≡ (ok tt, db')
      → process M sha256 later e (process_all ms db')
        ≡ (err duplicate_message_skip, process_all ms db')
  unfolding process
  process_twice now later e db db' ms h =
      let marked = (process-IsProcessed M sha256 now e db db' h).marked in
      let known =
        process_all-remembers ms db' e.message_id (λ gone. ground (arith, marked, gone)) in
      elim (Option-cases (M.inbox.find_one (process_all ms db').inbox e.message_id)) [
        | inl gone ↦ absurd (known gone)
        | inr (row, found) ↦ ground (arith, found)
      ]

Body-cases :
    (b : Body)
    → (b ≡ malformed) ⊎ (b ≡ refused) ⊎ ((at : Option Date) × (e : Envelope) × (b ≡ envelope at e))
Body-cases malformed = inl refl
Body-cases refused = inr (inl refl)
Body-cases (envelope at e) = inr (inr (at, e, refl))

module _ (M : Schema) (sha256 : Payload → String) (now : Date) (delete_ok : ℕ → Bool) where
  -- The message is an envelope that the inbox of `w` knows.
  abbrev pub IsKnown : Message → Worker M → Type 0
  IsKnown m w =
      (at : Option Date) × (e : Envelope) × (m.body ≡ envelope at e)
      × (M.inbox.find_one w.db.inbox e.message_id ≢ none)

  process-duplicate :
      (e : Envelope) (db : Db M)
      → (process M sha256 now e db).0 ≡ err duplicate_message_skip
      → M.inbox.find_one (process M sha256 now e db).1.inbox e.message_id ≢ none
  unfolding process
  process-duplicate e db h = ground arith

  process-known :
      (e : Envelope) (db : Db M)
      → (M.inbox.find_one (process M sha256 now e db).1.inbox e.message_id ≢ none)
        ⊎ ((x : Error) × ((process M sha256 now e db).0 ≡ err (failed x)))
  process-known e db = elim (Result-cases (process M sha256 now e db).0) [
    | inl (_, done) ↦
        let processed =
          process-IsProcessed M sha256 now e db (process M sha256 now e db).1 (ground arith) in
        inl (ground (arith, processed.marked))
    | inr (duplicate_message_skip, thrown) ↦ inl (process-duplicate e db thrown)
    | inr (failed x, thrown) ↦ inr (x, thrown)
  ]

  -- One round of the loop deletes a message from the queue only when the inbox knows it.
  pub handle_deletes :
      (m : Message) (w : Worker M)
      → let w' = (handle M sha256 now delete_ok m w).1 in (w'.deleted ≡ w.deleted) ⊎ IsKnown m w'
  unfolding handle
  handle_deletes m w = elim (Body-cases m.body) [
    | inl bad ↦ inl (ground arith)
    | inr (inl bad) ↦ inl (ground arith)
    | inr (inr (at, e, body)) ↦ elim (process-known e w.db) [
      | inl known ↦ inr (at, e, body, ground arith)
      | inr (x, thrown) ↦ inl (ground arith)
    ]
  ]

  handle_malformed :
      (m : Message) (w : Worker M)
      → m.body ≡ malformed
      → handle M sha256 now delete_ok m w ≡ (false, w)
  unfolding handle
  handle_malformed m w bad = ground arith

  handle_all_malformed :
      (m : Message) (before after : List Message) (w : Worker M)
      → m.body ≡ malformed
      → (handle_all M sha256 now delete_ok (before ++ m ∷ after) w
          ≡ handle_all M sha256 now delete_ok (before ++ m ∷ []) w)
        × ((handle_all M sha256 now delete_ok (before ++ m ∷ after) w).0 ≡ false)
  unfolding handle_all
  handle_all_malformed m [] after w bad = ground (arith, handle_malformed m w bad)
  handle_all_malformed m (x ∷ before) after w bad =
      ground (arith, handle_all_malformed m before after (handle M sha256 now delete_ok x w).1 bad)

  -- A body that is no JSON ends the round: the messages behind it in the batch are not looked at, and
  -- the poll reports 0.
  pub malformed_stops :
      (m : Message) (before after : List Message) (w : Worker M)
      → m.body ≡ malformed
      → (poll_and_process M sha256 now delete_ok (some (before ++ m ∷ after)) w
          ≡ poll_and_process M sha256 now delete_ok (some (before ++ m ∷ [])) w)
        × ((poll_and_process M sha256 now delete_ok (some (before ++ m ∷ after)) w).0 ≡ 0)
  unfolding poll_and_process
  malformed_stops m before after w bad = ground (arith, handle_all_malformed m before after w bad)
