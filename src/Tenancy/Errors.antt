-- ===== src/Tenancy/Errors.antt =====
-- The statuses of the tenancy module's aggregates, and what its code throws, with the messages.
use flatrent.Base.{String}
use Prim.Native.String.{◌++◌}

-- `enum TenancyStatus`
pub data TenancyStatus : Type 0 where
  reserved active ended terminated : TenancyStatus

-- `enum InvitationStatus`
pub data InvitationStatus : Type 0 where
  pending accepted rejected expired : InvitationStatus

abbrev pub tenancy_status_text : TenancyStatus → String
tenancy_status_text reserved = "RESERVED"
tenancy_status_text active = "ACTIVE"
tenancy_status_text ended = "ENDED"
tenancy_status_text terminated = "TERMINATED"

abbrev pub invitation_status_text : InvitationStatus → String
invitation_status_text pending = "PENDING"
invitation_status_text accepted = "ACCEPTED"
invitation_status_text rejected = "REJECTED"
invitation_status_text expired = "EXPIRED"

pub data Error : Type 0 where
  start_after_end : Error
  not_reserved not_active not_running : TenancyStatus → Error
  protocol_mismatch protocol_open protocol_closed negative_reading : Error
  not_pending : InvitationStatus → Error
  invitation_lapsed : Error
  invitation_expired invitation_invalid_state dates_overlap : Error
  tenancy_not_found handover_not_found invitation_not_found rental_unit_not_found : Error
  unit_exists : Error
  readiness_stale unit_not_ready : Error
  version_mismatch : Error
  -- the database rejected a statement
  database_failure : Error

-- `e.message`; the text of a database failure is the driver's.
module _ (driver_message : String) where
  abbrev pub message : Error → String
  message start_after_end = "Start date must be before or equal to end date"
  message (not_reserved s) =
      "Tenancy can only be activated from RESERVED state, current status: " ++ tenancy_status_text s
  message (not_active s) =
      "Notice can only be given for ACTIVE tenancy, current status: " ++ tenancy_status_text s
  message (not_running s) =
      "Tenancy can only be ended from ACTIVE or TERMINATED state, current status: "
      ++ tenancy_status_text s
  message protocol_mismatch = "Handover protocol does not match this tenancy"
  message protocol_open = "Handover protocol must be closed before tenancy activation"
  message protocol_closed = "Handover protocol is closed and cannot be modified"
  message negative_reading = "Meter reading cannot be negative"
  message (not_pending s) =
      "Invitation is not pending, current status: " ++ invitation_status_text s
  message invitation_lapsed = "Invitation has expired"
  message invitation_expired = "The invitation has expired."
  message invitation_invalid_state = "The invitation is no longer pending."
  message dates_overlap =
      "This rental unit is already occupied or reserved during the requested dates."
  message tenancy_not_found = "The requested tenancy was not found."
  message handover_not_found = "The requested handover protocol was not found."
  message invitation_not_found = "The requested tenancy invitation was not found."
  message rental_unit_not_found = "The requested rental unit was not found."
  message unit_exists = "Rental unit already registered with this ID."
  message readiness_stale =
      "The readiness projection is stale due to a detected background message gap. Fail-closed block active."
  message unit_not_ready =
      "The rental unit has an active blocking maintenance issue and cannot be leased."
  message version_mismatch = "Optimistic Lock Conflict: version mismatch."
  message database_failure = driver_message
