-- ===== src/Tenancy/Handover/Sealing.antt =====
-- Filling in and sealing a handover protocol.
use text.Mathlib.Text.{◌==◌ as str_eq}
use text.Mathlib.TextEquality.{eq_iff}
use mathlib.Core.List.{append-nil, append_assoc}
use flatrent.Base.{
  ◌≡◌, ◌+◌, refl, String, Bool, true, false, none, [], ◌∷◌, ◌++◌, Uuid, ok, err, arith, length, All,
  ap, length-append, some_of, >>=-ok, >>=-err, Bool-cases, inl, inr, ◌>>◌, ◌∙◌,
}
use flatrent.Base.Int.{ℤ, pos, ltb_ℤ}
use flatrent.Shared.{increment_version}
use flatrent.Tenancy.Errors.{negative_reading, protocol_closed}
use flatrent.Tenancy.Handover.{
  Dict, lookup, insert, HandoverProtocol, new_handover, record_meter_reading, record_checklist_item,
  close, record_readings, record_checklist, fill_and_close,
}

module _ {V : Type 0} where
  -- The keys of an object are distinct.
  abbrev pub HasDistinctKeys : Dict V → Type 0
  HasDistinctKeys [] = Unit
  HasDistinctKeys ((k, v) ∷ d) = (lookup k d ≡ none) × HasDistinctKeys d

  -- No key of the second is a key of the first.
  abbrev IsFresh : Dict V → Dict V → Type 0
  IsFresh d [] = Unit
  IsFresh d ((k, v) ∷ es) = (lookup k d ≡ none) × IsFresh d es

  insert_new :
      (k : String) (v : V) (d : Dict V) → lookup k d ≡ none → insert k v d ≡ d ++ (k, v) ∷ []
  insert_new k v [] e = refl
  insert_new k v ((j, w) ∷ d) e = ground (arith, insert_new k v d)

  lookup-append_new :
      (j k : String) (v : V) (d : Dict V)
      → lookup j d ≡ none
      → str_eq k j ≡ false
      → lookup j (d ++ (k, v) ∷ []) ≡ none
  lookup-append_new j k v [] e n = ground arith
  lookup-append_new j k v ((i, w) ∷ d) e n = ground (arith, lookup-append_new j k v d)

  IsFresh-append :
      (k : String) (v : V) (d es : Dict V)
      → IsFresh d es
      → lookup k es ≡ none
      → IsFresh (d ++ (k, v) ∷ []) es
  IsFresh-append k v d [] f e = tt
  IsFresh-append k v d ((j, w) ∷ es) f e =
      ground (arith, eq_iff k j, eq_iff j k, lookup-append_new j k v d, IsFresh-append k v d es f.1)

  IsFresh-nil : (es : Dict V) → IsFresh [] es
  IsFresh-nil [] = tt
  IsFresh-nil (e ∷ es) = (refl, IsFresh-nil es)

abbrev pub IsNonNegative : String × ℤ → Type 0
IsNonNegative (k, v) = ltb_ℤ v (pos 0) ≡ false

abbrev add_readings : Dict ℤ → HandoverProtocol → HandoverProtocol
add_readings es h = record h {
  meter_readings = h.meter_readings ++ es;
  root = record h.root { aggregate_version = h.aggregate_version + length es };
}

abbrev add_checks : Dict Bool → HandoverProtocol → HandoverProtocol
add_checks es h = record h {
  checklist = h.checklist ++ es;
  root = record h.root { aggregate_version = h.aggregate_version + length es };
}

add_readings-add_readings :
    (a b : Dict ℤ) (h : HandoverProtocol)
    → add_readings b (add_readings a h) ≡ add_readings (a ++ b) h
add_readings-add_readings a b h =
    ground (arith, append_assoc h.meter_readings a b, length-append a b)

add_checks-add_checks :
    (a b : Dict Bool) (h : HandoverProtocol) → add_checks b (add_checks a h) ≡ add_checks (a ++ b) h
add_checks-add_checks a b h = ground (arith, append_assoc h.checklist a b, length-append a b)

record_meter_reading_new :
    (k : String) (v : ℤ) (h : HandoverProtocol)
    → h.is_closed ≡ false
    → IsNonNegative (k, v)
    → lookup k h.meter_readings ≡ none
    → record_meter_reading k v h ≡ (ok tt, add_readings ((k, v) ∷ []) h)
unfolding record_meter_reading
record_meter_reading_new k v h o p n = ground (arith, insert_new k v h.meter_readings)

record_readings-add_readings :
    (es : Dict ℤ) (h : HandoverProtocol)
    → h.is_closed ≡ false
    → All IsNonNegative es
    → HasDistinctKeys es
    → IsFresh h.meter_readings es
    → record_readings es h ≡ (ok tt, add_readings es h)
unfolding record_readings
record_readings-add_readings [] h o p d f = ground (arith, append-nil h.meter_readings)
record_readings-add_readings ((k, v) ∷ es) h o p d f =
    let later =
      record_readings-add_readings es (add_readings ((k, v) ∷ []) h) o p.1 d.1
        (IsFresh-append k v h.meter_readings es f.1 d.0) in
    >>=-ok (record_meter_reading k v) (λ _. record_readings es)
      (record_meter_reading_new k v h o p.0 f.0)
    ∙ later
    ∙ ap (λ g. (ok tt, g)) (add_readings-add_readings ((k, v) ∷ []) es h)

record_checklist_item_new :
    (k : String) (v : Bool) (h : HandoverProtocol)
    → h.is_closed ≡ false
    → lookup k h.checklist ≡ none
    → record_checklist_item k v h ≡ (ok tt, add_checks ((k, v) ∷ []) h)
unfolding record_checklist_item
record_checklist_item_new k v h o n = ground (arith, insert_new k v h.checklist)

record_checklist-add_checks :
    (es : Dict Bool) (h : HandoverProtocol)
    → h.is_closed ≡ false
    → HasDistinctKeys es
    → IsFresh h.checklist es
    → record_checklist es h ≡ (ok tt, add_checks es h)
unfolding record_checklist
record_checklist-add_checks [] h o d f = ground (arith, append-nil h.checklist)
record_checklist-add_checks ((k, v) ∷ es) h o d f =
    let later =
      record_checklist-add_checks es (add_checks ((k, v) ∷ []) h) o d.1
        (IsFresh-append k v h.checklist es f.1 d.0) in
    >>=-ok (record_checklist_item k v) (λ _. record_checklist es)
      (record_checklist_item_new k v h o f.0)
    ∙ later
    ∙ ap (λ g. (ok tt, g)) (add_checks-add_checks ((k, v) ∷ []) es h)

abbrev pub sealed_handover : Uuid → Uuid → Dict ℤ → Dict Bool → HandoverProtocol
sealed_handover id tenancy_id readings checks = record {
  root = record {
    id = id;
    pending_events = [];
    aggregate_version = length readings + length checks + 1;
  };
  tenancy_id = tenancy_id;
  meter_readings = readings;
  checklist = checks;
  is_closed = true;
}

-- With no negative reading, filling in a new protocol and closing it succeeds: the protocol is
-- closed, holds the given readings and checks entry for entry in the given order, and its version
-- counts the entries and the closing. (The keys of each object are distinct.)
pub fill_and_close_new :
    (id tenancy_id : Uuid) (readings : Dict ℤ) (checks : Dict Bool)
    → All IsNonNegative readings
    → HasDistinctKeys readings
    → HasDistinctKeys checks
    → fill_and_close readings checks (new_handover id tenancy_id)
      ≡ (ok tt, sealed_handover id tenancy_id readings checks)
unfolding fill_and_close close
fill_and_close_new id tenancy_id readings checks p d d' =
    let h : HandoverProtocol = new_handover id tenancy_id in
    >>=-ok (record_readings readings) (λ _. record_checklist checks >> close)
      (record_readings-add_readings readings h refl p d (IsFresh-nil readings))
    ∙ >>=-ok (record_checklist checks) (λ _. close)
        (record_checklist-add_checks checks (add_readings readings h) refl d' (IsFresh-nil checks))
    ∙ ground arith

-- A closed protocol never changes again: recording throws and closing does nothing.
pub closed_forever :
    (h : HandoverProtocol) (k : String) (v : ℤ) (b : Bool)
    → h.is_closed ≡ true
    → (record_meter_reading k v h ≡ (err protocol_closed, h))
      × (record_checklist_item k b h ≡ (err protocol_closed, h))
      × (close h ≡ (ok tt, h))
unfolding record_meter_reading record_checklist_item close
closed_forever h k v b c = ground arith

record_meter_reading_negative :
    (k : String) (v : ℤ) (h : HandoverProtocol)
    → h.is_closed ≡ false
    → ltb_ℤ v (pos 0) ≡ true
    → record_meter_reading k v h ≡ (err negative_reading, h)
unfolding record_meter_reading
record_meter_reading_negative k v h o n = ground arith

record_meter_reading_accepted :
    (k : String) (v : ℤ) (h : HandoverProtocol)
    → h.is_closed ≡ false
    → IsNonNegative (k, v)
    → record_meter_reading k v h ≡ (
      ok tt,
      record h { meter_readings = insert k v h.meter_readings; root = increment_version h.root },
    )
unfolding record_meter_reading
record_meter_reading_accepted k v h o n = ground arith

-- The readings are recorded up to the first negative one, where the loop throws.
record_readings_negative :
    (es : Dict ℤ) (h : HandoverProtocol)
    → h.is_closed ≡ false
    → some_of (λ e. ltb_ℤ e.1 (pos 0)) es ≡ true
    → (record_readings es h).0 ≡ err negative_reading
unfolding record_readings
record_readings_negative [] h o n = absurd (ground arith)
record_readings_negative ((k, v) ∷ es) h o n = elim (Bool-cases (ltb_ℤ v (pos 0))) [
  | inl neg ↦
      ap (λ p. p.0)
        (>>=-err (record_meter_reading k v) (λ _. record_readings es)
          (record_meter_reading_negative k v h o neg))
  | inr nn ↦
      ap (λ p. p.0)
        (>>=-ok (record_meter_reading k v) (λ _. record_readings es)
          (record_meter_reading_accepted k v h o nn))
      ∙ record_readings_negative es _ o (ground arith)
]

-- One negative meter reading is enough for filling in an open protocol to be refused.
pub fill_and_close_negative :
    (readings : Dict ℤ) (checks : Dict Bool) (h : HandoverProtocol)
    → h.is_closed ≡ false
    → some_of (λ e. ltb_ℤ e.1 (pos 0)) readings ≡ true
    → (fill_and_close readings checks h).0 ≡ err negative_reading
unfolding fill_and_close
fill_and_close_negative readings checks h o n =
    ground (arith, record_readings_negative readings h o n)
