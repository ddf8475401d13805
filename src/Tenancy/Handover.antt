-- ===== src/Tenancy/Handover.antt =====
-- The handover protocol, tenancy/domain/model/handover-protocol.aggregate.ts. Meter readings are
-- whole numbers; a `Record` is a list of entries in insertion order.
pub mod Sealing
use text.Mathlib.Text.{◌==◌ as str_eq}
use flatrent.Base.{
  ◌≡◌, String, Bool, true, false, Option, none, some, List, [], ◌∷◌, Uuid, Result, ok, err, Action,
  if◌then◌else◌, ◌>>=◌, ◌>>◌, pure,
}
use flatrent.Base.Int.{ℤ, pos, ltb_ℤ}
use flatrent.Shared.{AggregateRoot, new_root, increment_version}
use flatrent.Tenancy.Errors.{Error, protocol_closed, negative_reading}

-- `Record<string, V>`
abbrev pub Dict : Type 0 → Type 0
Dict V = List (String × V)

module _ {V : Type 0} where
  abbrev pub lookup : String → Dict V → Option V
  lookup k [] = none
  lookup k ((j, v) ∷ d) = if str_eq j k then some v else lookup k d

  -- `d[k] = v`
  abbrev pub insert : String → V → Dict V → Dict V
  insert k v [] = (k, v) ∷ []
  insert k v ((j, w) ∷ d) = if str_eq j k then (k, v) ∷ d else (j, w) ∷ insert k v d

-- The aggregate records no events of its own.
pub record HandoverProtocol : Type 0 where
  pub root : AggregateRoot (Unit {0})
  pub open root use *
  pub tenancy_id : Uuid
  pub meter_readings : Dict ℤ
  pub checklist : Dict Bool
  pub is_closed : Bool

abbrev pub new_handover : Uuid → Uuid → HandoverProtocol
new_handover id tenancy_id = record {
  root = new_root id;
  tenancy_id = tenancy_id;
  meter_readings = [];
  checklist = [];
  is_closed = false;
}

unfoldable pub record_meter_reading : String → ℤ → Action HandoverProtocol Error (Unit {0})
record_meter_reading key value h =
    if h.is_closed
    then (err protocol_closed, h)
    else if ltb_ℤ value (pos 0)
    then (err negative_reading, h)
    else (
      ok tt,
      record h {
        meter_readings = insert key value h.meter_readings;
        root = increment_version h.root;
      },
    )

unfoldable pub record_checklist_item : String → Bool → Action HandoverProtocol Error (Unit {0})
record_checklist_item key checked h = if h.is_closed then (err protocol_closed, h) else (
  ok tt,
  record h { checklist = insert key checked h.checklist; root = increment_version h.root },
)

unfoldable pub close : Action HandoverProtocol Error (Unit {0})
close h =
    if h.is_closed
    then (ok tt, h)
    else (ok tt, record h { is_closed = true; root = increment_version h.root })

-- The loops of `ConfirmHandoverUseCase.execute`.
pub record_readings : Dict ℤ → Action HandoverProtocol Error (Unit {0})
record_readings [] = pure tt
record_readings ((key, val) ∷ rest) = record_meter_reading key val >> record_readings rest

pub record_checklist : Dict Bool → Action HandoverProtocol Error (Unit {0})
record_checklist [] = pure tt
record_checklist ((key, val) ∷ rest) = record_checklist_item key val >> record_checklist rest

-- Lines 24 to 33 of confirm-handover.use-case.ts: fill the protocol in and seal it.
unfoldable pub fill_and_close : Dict ℤ → Dict Bool → Action HandoverProtocol Error (Unit {0})
unfolding record_readings record_checklist
fill_and_close readings checks = record_readings readings >> (record_checklist checks >> close)
