-- ===== src/Tenancy/Readiness/Projection.antt =====
-- The projection of one rental unit under a stream of messages.
use flatrent.Base.{
  ℕ, suc, ◌≡◌, refl, ap, ◌∙◌, All, Bool, true, false, not, Option, none, some, List, [], ◌∷◌,
  length, arith,
}
use flatrent.Base.Int.{ℤ, pos, ◌+ℤ◌, leb_ℤ, eqb_ℤ, ltb_ℤ}
use flatrent.Tenancy.Database.{RentalUnitReadinessProjectionEntity, active, gap_detected}
use flatrent.Tenancy.Readiness.{Payload, advance}

abbrev pub or_same :
    RentalUnitReadinessProjectionEntity
    → Option RentalUnitReadinessProjectionEntity
    → RentalUnitReadinessProjectionEntity
or_same p none = p
or_same p (some q) = q

-- The projection after messages that arrive in this order.
unfoldable pub deliver :
    List Payload → RentalUnitReadinessProjectionEntity → RentalUnitReadinessProjectionEntity
deliver [] p = p
deliver (m ∷ ms) p = deliver ms (or_same p (advance m p))

-- Versions k + 1, k + 2, ….
abbrev pub IsConsecutive : ℤ → List Payload → Type 0
IsConsecutive k [] = Unit
IsConsecutive k (m ∷ ms) = (m.version ≡ k +ℤ pos 1) × IsConsecutive (k +ℤ pos 1) ms

-- What the newest message says of the unit.
abbrev pub readiness : Bool → List Payload → Bool
readiness ready [] = ready
readiness ready (m ∷ ms) = readiness (not m.is_blocking) ms

+ℤ_suc : (k : ℤ) (n : ℕ) → k +ℤ pos 1 +ℤ pos n ≡ k +ℤ pos (suc n)
+ℤ_suc k n = ground arith

+ℤ_zero : (k : ℤ) → k +ℤ pos 0 ≡ k
+ℤ_zero k = ground arith

advance_next :
    (m : Payload) (p : RentalUnitReadinessProjectionEntity)
    → m.version ≡ p.last_processed_version +ℤ pos 1
    → advance m p
      ≡ some (record p {
        is_ready = not m.is_blocking;
        last_processed_version = p.last_processed_version +ℤ pos 1;
        status = active;
      })
unfolding advance
advance_next m p e = ground arith

-- A gapless stream is applied in full: the projection of an active unit stays active, has counted
-- every message, and its readiness is what the newest message says.
pub deliver_consecutive :
    (ms : List Payload) (p : RentalUnitReadinessProjectionEntity)
    → p.status ≡ active
    → IsConsecutive p.last_processed_version ms
    → deliver ms p ≡ record p {
      is_ready = readiness p.is_ready ms;
      last_processed_version = p.last_processed_version +ℤ pos (length ms);
    }
unfolding deliver
deliver_consecutive [] p a c = ground (arith, +ℤ_zero p.last_processed_version)
deliver_consecutive (m ∷ ms) p a c = ground (
  arith,
  advance_next m p c.0,
  +ℤ_suc p.last_processed_version (length ms),
  deliver_consecutive ms
      (record p {
        is_ready = not m.is_blocking;
        last_processed_version = p.last_processed_version +ℤ pos 1;
        status = active;
      })
      refl c.1,
)

-- A message that is older than the newest one processed changes nothing. As each maintenance request
-- opens at version 0, this holds of the opening of every request but the first on a unit.
pub advance_stale :
    (m : Payload) (p : RentalUnitReadinessProjectionEntity)
    → leb_ℤ m.version p.last_processed_version ≡ true
    → (ms : List Payload) → deliver (m ∷ ms) p ≡ deliver ms p
unfolding advance deliver
advance_stale m p e ms = ground arith

-- A message from further ahead is not applied: the unit keeps its readiness and its version, and the
-- gap is marked.
pub advance_gap :
    (m : Payload) (p : RentalUnitReadinessProjectionEntity)
    → ltb_ℤ (p.last_processed_version +ℤ pos 1) m.version ≡ true
    → advance m p ≡ some (record p { status = gap_detected })
unfolding advance
advance_gap m p e = ground arith

advance_without_missing :
    (m : Payload) (p : RentalUnitReadinessProjectionEntity)
    → p.status ≡ gap_detected
    → eqb_ℤ m.version (p.last_processed_version +ℤ pos 1) ≡ false
    → or_same p (advance m p) ≡ p
unfolding advance
advance_without_missing m p g n = ground arith

-- Once a gap is marked, only the missing message closes it: any stream without that version leaves
-- the projection as it is.
pub deliver_without_missing :
    (ms : List Payload) (p : RentalUnitReadinessProjectionEntity)
    → p.status ≡ gap_detected
    → All (λ m. eqb_ℤ m.version (p.last_processed_version +ℤ pos 1) ≡ false) ms
    → deliver ms p ≡ p
unfolding deliver
deliver_without_missing [] p g a = refl
deliver_without_missing (m ∷ ms) p g a =
    ap (deliver ms) (advance_without_missing m p g a.0) ∙ deliver_without_missing ms p g a.1

-- The version never falls.
pub deliver_version_mono :
    (ms : List Payload) (p : RentalUnitReadinessProjectionEntity)
    → leb_ℤ p.last_processed_version (deliver ms p).last_processed_version ≡ true
unfolding deliver advance
deliver_version_mono [] p = ground arith
deliver_version_mono (m ∷ ms) p = ground (arith, deliver_version_mono ms (or_same p (advance m p)))
