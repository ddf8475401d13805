-- ===== src/Integration/Readiness.antt =====
-- The readiness of a unit after the messages of one request.
use flatrent.Base.{
  ◌≡◌, ◌+◌, refl, sym, ap, ◌∙◌, true, false, not, List, [], ◌∷◌, ◌++◌, Uuid, Date, String, length,
  arith,
}
use flatrent.Base.Int.{ℤ, pos, negsuc, leb_ℤ}
use flatrent.Maintenance.Request.{
  MaintenanceRequest, new_request, is_emergency, is_blank, schedule_visit, resolve,
}
use flatrent.Maintenance.Request.Lifecycle.{Call, visit, resolution, apply}
use flatrent.Maintenance.Repository.{outbox_of}
use flatrent.Tenancy.Database.{RentalUnitReadinessProjectionEntity, active, gap_detected}
use flatrent.Tenancy.Readiness.{Payload, new_projection, advance}
use flatrent.Tenancy.Readiness.Projection.{or_same, deliver, deliver_version_mono}
use flatrent.Integration.{publish_calls, publish_request}

abbrev pub Visit : Type 0
Visit = Date × String

abbrev pub visits : List Visit → List Call
visits [] = []
visits ((at, handyman) ∷ vs) = visit at handyman ∷ visits vs

-- Visits publish nothing, but each takes a version.
publish_visits :
    (vs : List Visit) (q : MaintenanceRequest) (text : String)
    → q.is_closed ≡ false
    → is_blank text ≡ false
    → publish_calls (visits vs ++ resolution text ∷ []) q
      ≡ record {
        request_id = q.id;
        rental_unit_id = q.rental_unit_id;
        is_blocking = false;
        version = pos (q.aggregate_version + length vs + 1);
      }
        ∷ []
unfolding publish_calls apply schedule_visit resolve outbox_of
publish_visits [] q text open_still given = ground arith
publish_visits ((at, handyman) ∷ vs) q text open_still given =
    ground (arith, publish_visits vs (apply (visit at handyman) q).1 text)

module _ (id unit reporter : Uuid) (description : String) (vs : List Visit) (text : String) where
  abbrev the_request : MaintenanceRequest
  the_request = new_request id unit reporter description

  -- A request that is opened, visited some number of times and resolved publishes two messages: the
  -- opening at version 0 and the resolution at the number of visits plus one.
  pub publish_request_lem :
      is_blank text ≡ false
      → publish_request (visits vs ++ resolution text ∷ []) the_request
        ≡ record {
          request_id = id;
          rental_unit_id = unit;
          is_blocking = is_emergency description;
          version = pos 0;
        }
          ∷ record {
            request_id = id;
            rental_unit_id = unit;
            is_blocking = false;
            version = pos (length vs + 1);
          }
          ∷ []
  unfolding publish_request outbox_of
  publish_request_lem given = ground (arith, publish_visits vs the_request text refl given)

  deliver_request :
      is_blank text ≡ false
      → deliver
          (publish_request (visits vs ++ resolution text ∷ []) the_request)
          (new_projection unit)
        ≡ deliver
            (record {
              request_id = id;
              rental_unit_id = unit;
              is_blocking = false;
              version = pos (length vs + 1);
            }
              ∷ [])
            (record {
              rental_unit_id = unit;
              is_ready = not (is_emergency description);
              last_processed_version = pos 0;
              status = active;
            })
  unfolding deliver advance
  deliver_request given = ground (arith, publish_request_lem given)

-- A request that is opened and resolved without a visit makes its unit ready again: the projection of
-- a unit without messages is then active, ready and at version 1.
pub deliver_unvisited :
    (id unit reporter : Uuid) (description text : String)
    → is_blank text ≡ false
    → deliver
        (publish_request (resolution text ∷ []) (new_request id unit reporter description))
        (new_projection unit)
      ≡ record {
        rental_unit_id = unit;
        is_ready = true;
        last_processed_version = pos 1;
        status = active;
      }
unfolding deliver advance
deliver_unvisited id unit reporter description text given =
    ground (arith, deliver_request id unit reporter description [] text given)

-- One visit or more between the opening and the resolution leaves the unit at the opening, if
-- no message came before: the resolution is taken for a gap, and the unit stays marked as ready
-- exactly if the request was no emergency.
pub deliver_visited :
    (id unit reporter : Uuid) (description text : String) (v : Visit) (vs : List Visit)
    → is_blank text ≡ false
    → deliver
        (publish_request
          (visits (v ∷ vs) ++ resolution text ∷ [])
          (new_request id unit reporter description))
        (new_projection unit)
      ≡ record {
        rental_unit_id = unit;
        is_ready = not (is_emergency description);
        last_processed_version = pos 0;
        status = gap_detected;
      }
unfolding deliver advance
deliver_visited id unit reporter description text v vs given =
    ground (arith, deliver_request id unit reporter description (v ∷ vs) text given)

deliver-append :
    (ms ns : List Payload) (p : RentalUnitReadinessProjectionEntity)
    → deliver (ms ++ ns) p ≡ deliver ns (deliver ms p)
unfolding deliver
deliver-append [] ns p = refl
deliver-append (m ∷ ms) ns p = deliver-append ms ns (or_same p (advance m p))

-- Where an opening has been delivered, version 0 is behind.
deliver_opening :
    (id unit reporter : Uuid) (description : String) (p : RentalUnitReadinessProjectionEntity)
    → leb_ℤ (negsuc 0) p.last_processed_version ≡ true
    → leb_ℤ
        (pos 0)
        (deliver
          (publish_request [] (new_request id unit reporter description))
          p).last_processed_version
      ≡ true
unfolding deliver advance publish_request publish_calls outbox_of
deliver_opening id unit reporter description p known = ground arith

deliver_opening_stale :
    (id unit reporter : Uuid) (description : String) (p : RentalUnitReadinessProjectionEntity)
    → leb_ℤ (pos 0) p.last_processed_version ≡ true
    → deliver (publish_request [] (new_request id unit reporter description)) p ≡ p
unfolding deliver advance publish_request publish_calls outbox_of
deliver_opening_stale id unit reporter description p known = ground arith

leb_ℤ_trans : (a b c : ℤ) → leb_ℤ a b ≡ true → leb_ℤ b c ≡ true → leb_ℤ a c ≡ true
leb_ℤ_trans a b c ab bc = ground arith

-- Once the opening of one request has been delivered to a unit, the opening of any later request on
-- it changes nothing, however urgent that request is, and whatever messages came before the first
-- opening and between the two.
pub deliver_later_opening :
    (id later unit reporter other : Uuid) (description urgent : String) (ms ns : List Payload)
    → deliver
        (((ms ++ publish_request [] (new_request id unit reporter description)) ++ ns)
          ++ publish_request [] (new_request later unit other urgent))
        (new_projection unit)
      ≡ deliver
          ((ms ++ publish_request [] (new_request id unit reporter description)) ++ ns)
          (new_projection unit)
deliver_later_opening id later unit reporter other description urgent ms ns =
    let opening = publish_request [] (new_request id unit reporter description) in
    let p = deliver ms (new_projection unit) in
    let q = deliver opening p in
    let split : deliver ((ms ++ opening) ++ ns) (new_projection unit) ≡ deliver ns q =
      deliver-append (ms ++ opening) ns (new_projection unit)
      ∙ ap (deliver ns) (deliver-append ms opening (new_projection unit)) in
    let behind =
      leb_ℤ_trans (pos 0) q.last_processed_version (deliver ns q).last_processed_version
        (deliver_opening id unit reporter description p
          (deliver_version_mono ms (new_projection unit)))
        (deliver_version_mono ns q) in
    deliver-append ((ms ++ opening) ++ ns)
      (publish_request [] (new_request later unit other urgent)) (new_projection unit)
    ∙ ap (deliver (publish_request [] (new_request later unit other urgent))) split
    ∙ deliver_opening_stale later unit other urgent (deliver ns q) behind
    ∙ sym split
