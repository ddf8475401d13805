-- ===== src/Tenancy/Statuses.antt =====
-- The HTTP statuses that the errors of the tenancy module get from the filter, which reads their
-- messages.
use flatrent.Base.{ℕ, ◌≡◌, refl, String, Bool, true, false, Option, List, Uuid, arith}
use flatrent.Base.Text.{codes, includes_codes, begins_with}
use flatrent.Shared.Http.{Text, Issue, error, answer, verdict_of}
use flatrent.Tenancy.Errors
use flatrent.Tenancy.Errors.{
  Error, message, TenancyStatus, InvitationStatus, start_after_end, not_reserved, not_active,
  not_running, protocol_mismatch, protocol_open, protocol_closed, negative_reading, not_pending,
  invitation_lapsed, invitation_expired, invitation_invalid_state, dates_overlap, tenancy_not_found,
  handover_not_found, invitation_not_found, rental_unit_not_found, unit_exists, readiness_stale,
  unit_not_ready, version_mismatch, database_failure,
}

abbrev pub is_driver : Error → Bool
is_driver database_failure = true
is_driver _ = false

abbrev pub tenancy_status : Error → ℕ
tenancy_status tenancy_not_found = 404
tenancy_status handover_not_found = 404
tenancy_status invitation_not_found = 404
tenancy_status rental_unit_not_found = 404
tenancy_status invitation_lapsed = 400
tenancy_status invitation_expired = 400
tenancy_status _ = 500

-- Every error of the tenancy module but a failure of the database gets the status of the table: what
-- is not found and what has expired is told apart, and overlapping dates, a unit that exists, a state
-- that forbids the call and a version conflict are internal errors.
pub answer-tenancy_status :
    (driver : String) (id : Uuid) (url : Text) (e : Error) (issues : Option (List Issue))
    → is_driver e ≡ false
    → (answer id url (error (codes (message driver e)) issues)).status ≡ tenancy_status e
unfolding answer verdict_of includes_codes begins_with
answer-tenancy_status driver id url start_after_end issues known = refl
answer-tenancy_status driver id url (not_reserved Errors.reserved) issues known = refl
answer-tenancy_status driver id url (not_reserved Errors.active) issues known = refl
answer-tenancy_status driver id url (not_reserved Errors.ended) issues known = refl
answer-tenancy_status driver id url (not_reserved Errors.terminated) issues known = refl
answer-tenancy_status driver id url (not_active Errors.reserved) issues known = refl
answer-tenancy_status driver id url (not_active Errors.active) issues known = refl
answer-tenancy_status driver id url (not_active Errors.ended) issues known = refl
answer-tenancy_status driver id url (not_active Errors.terminated) issues known = refl
answer-tenancy_status driver id url (not_running Errors.reserved) issues known = refl
answer-tenancy_status driver id url (not_running Errors.active) issues known = refl
answer-tenancy_status driver id url (not_running Errors.ended) issues known = refl
answer-tenancy_status driver id url (not_running Errors.terminated) issues known = refl
answer-tenancy_status driver id url protocol_mismatch issues known = refl
answer-tenancy_status driver id url protocol_open issues known = refl
answer-tenancy_status driver id url protocol_closed issues known = refl
answer-tenancy_status driver id url negative_reading issues known = refl
answer-tenancy_status driver id url (not_pending Errors.pending) issues known = refl
answer-tenancy_status driver id url (not_pending Errors.accepted) issues known = refl
answer-tenancy_status driver id url (not_pending Errors.rejected) issues known = refl
answer-tenancy_status driver id url (not_pending Errors.expired) issues known = refl
answer-tenancy_status driver id url invitation_lapsed issues known = refl
answer-tenancy_status driver id url invitation_expired issues known = refl
answer-tenancy_status driver id url invitation_invalid_state issues known = refl
answer-tenancy_status driver id url dates_overlap issues known = refl
answer-tenancy_status driver id url tenancy_not_found issues known = refl
answer-tenancy_status driver id url handover_not_found issues known = refl
answer-tenancy_status driver id url invitation_not_found issues known = refl
answer-tenancy_status driver id url rental_unit_not_found issues known = refl
answer-tenancy_status driver id url unit_exists issues known = refl
answer-tenancy_status driver id url readiness_stale issues known = refl
answer-tenancy_status driver id url unit_not_ready issues known = refl
answer-tenancy_status driver id url version_mismatch issues known = refl
answer-tenancy_status driver id url database_failure issues known = absurd (ground (arith, known))
