-- ===== src/Tenancy/Controller.antt =====
-- The routes of the tenancy module, tenancy/interfaces/http/tenancy.controller.ts, down to the use
-- cases that its commands and queries reach, and up to the answer that the exception filter gives.
-- Numbers in readings are whole numbers. No route has a guard.
pub mod Serving
use flatrent.Base.{
  String, Bool, Option, none, some, List, [], ◌∷◌, Uuid, Date, Result, ok, err, if◌then◌else◌,
}
use flatrent.Base.Int.{ℤ, pos, negsuc}
use flatrent.Base.Text.{codes}
use flatrent.Shared.Http.{Text, Issue, Exception, error}
use flatrent.Shared.Validation.{
  Zod, string, uuid, email, datetime, min, field, parsed, given, thrown, Response, respond,
}
use flatrent.Tenancy.Errors.{Error, message}
use flatrent.Tenancy.Handover.{Dict}
use flatrent.Tenancy.Database.{Schema, Db}
use flatrent.Tenancy.UseCases.{
  RegisterRentalUnitResult, InviteTenantResult, AcceptInvitationCommand, AcceptInvitationResult,
  ConfirmHandoverCommand, ConfirmHandoverResult, TenancyResult, TenancyReadModel,
  register_rental_unit, invite_tenant, accept_invitation, confirm_handover, activate_tenancy,
  get_tenancy,
}
use flatrent.Tenancy.Listing.{UnitQuery, RentalUnitReadModel, list_landlord_rental_units}

pub record RegisterUnitBody : Type 0 where
  pub id : Option String
  pub owner_id : Option String
  pub address : Option String

pub record InviteTenantBody : Type 0 where
  pub id : Option String
  pub rental_unit_id : Option String
  pub tenant_email : Option String
  pub expires_at : Option String

pub record AcceptInvitationBody : Type 0 where
  pub invitation_id : Option String
  pub tenant_id : Option String
  pub tenancy_id : Option String
  pub start_date : Option String
  pub end_date : Option String

pub record ConfirmHandoverBody : Type 0 where
  pub id : Option String
  pub tenancy_id : Option String
  pub meter_readings : Option (Dict ℤ)
  pub checklist : Option (Dict Bool)

pub record ActivateTenancyBody : Type 0 where
  pub handover_protocol_id : Option String

-- The message of an error; `driver` is the text of a database failure.
abbrev pub text_of : String → Error → Text
text_of driver e = codes (message driver e)

abbrev pub given_record : {V : Type 0} → Option (Dict V) → Dict V
given_record none = []
given_record (some d) = d

module _ (Z : Zod) where
  -- `z.number().nonnegative()` on each reading
  abbrev pub reading_issues : Dict ℤ → List Issue → List Issue
  reading_issues [] rest = rest
  reading_issues ((meter, pos n) ∷ readings) rest = reading_issues readings rest
  reading_issues ((meter, negsuc n) ∷ readings) rest =
      record { path = codes "meterReadings" ∷ codes meter ∷ []; message = Z.negative_reason }
      ∷ reading_issues readings rest

  abbrev pub readings_field : Option (Dict ℤ) → List Issue → List Issue
  readings_field none rest =
      record { path = codes "meterReadings" ∷ []; message = Z.missing_record } ∷ rest
  readings_field (some readings) rest = reading_issues readings rest

  abbrev pub checklist_field : Option (Dict Bool) → List Issue
  checklist_field none = record { path = codes "checklist" ∷ []; message = Z.missing_record } ∷ []
  checklist_field (some checklist) = []

  abbrev pub register_unit_issues : RegisterUnitBody → List Issue
  register_unit_issues b =
      field Z "id" uuid b.id
        (field Z "ownerId" uuid b.owner_id (field Z "address" (min 5) b.address []))

  abbrev pub invite_tenant_issues : InviteTenantBody → List Issue
  invite_tenant_issues b = field Z "id" uuid b.id (
      field Z "rentalUnitId" uuid b.rental_unit_id
        (field Z "tenantEmail" email b.tenant_email (field Z "expiresAt" datetime b.expires_at [])))

  abbrev pub accept_invitation_issues : AcceptInvitationBody → List Issue
  accept_invitation_issues b = field Z "invitationId" uuid b.invitation_id (
      field Z "tenantId" uuid b.tenant_id (
        field Z "tenancyId" uuid b.tenancy_id
          (field Z "startDate" datetime b.start_date (field Z "endDate" datetime b.end_date []))))

  abbrev pub confirm_handover_issues : ConfirmHandoverBody → List Issue
  confirm_handover_issues b = field Z "id" uuid b.id (
      field Z "tenancyId" uuid b.tenancy_id
        (readings_field b.meter_readings (checklist_field b.checklist)))

  abbrev pub activate_tenancy_issues : ActivateTenancyBody → List Issue
  activate_tenancy_issues b = field Z "handoverProtocolId" uuid b.handover_protocol_id []

  abbrev pub accept_invitation_command : AcceptInvitationBody → AcceptInvitationCommand
  accept_invitation_command b = record {
    invitation_id = Z.uuid_of (given b.invitation_id);
    tenant_id = Z.uuid_of (given b.tenant_id);
    tenancy_id = Z.uuid_of (given b.tenancy_id);
    start_date = Z.date_of (given b.start_date);
    end_date = Z.date_of (given b.end_date);
  }

  abbrev pub confirm_handover_command : ConfirmHandoverBody → ConfirmHandoverCommand
  confirm_handover_command b = record {
    id = Z.uuid_of (given b.id);
    tenancy_id = Z.uuid_of (given b.tenancy_id);
    meter_readings = given_record b.meter_readings;
    checklist = given_record b.checklist;
  }

module _ (Z : Zod) (M : Schema) (driver : String) (correlation_id : Uuid) (url : Text) where
  -- POST register-unit
  unfoldable pub register_unit_route :
      RegisterUnitBody → Db M → Response RegisterRentalUnitResult × Db M
  register_unit_route b db = respond 201 correlation_id url (
      parsed Z (register_unit_issues Z b)
        (λ s. thrown (text_of driver) (
          register_rental_unit M (Z.uuid_of (given b.id)) (Z.uuid_of (given b.owner_id))
            (given b.address) s))
        db)

  -- POST invite
  unfoldable pub invite_tenant_route : InviteTenantBody → Db M → Response InviteTenantResult × Db M
  invite_tenant_route b db = respond 201 correlation_id url (
      parsed Z (invite_tenant_issues Z b)
        (λ s. thrown (text_of driver) (
          invite_tenant M (Z.uuid_of (given b.id)) (Z.uuid_of (given b.rental_unit_id))
            (given b.tenant_email) (Z.date_of (given b.expires_at)) s))
        db)

  -- POST accept-invitation
  unfoldable pub accept_invitation_route :
      Date → AcceptInvitationBody → Db M → Response AcceptInvitationResult × Db M
  accept_invitation_route now b db = respond 200 correlation_id url (
      parsed Z (accept_invitation_issues Z b)
        (λ s.
          thrown (text_of driver)
            (accept_invitation M driver now (accept_invitation_command Z b) s))
        db)

  -- POST confirm-handover
  unfoldable pub confirm_handover_route :
      ConfirmHandoverBody → Db M → Response ConfirmHandoverResult × Db M
  confirm_handover_route b db = respond 201 correlation_id url (
      parsed Z (confirm_handover_issues Z b)
        (λ s. thrown (text_of driver) (confirm_handover M (confirm_handover_command Z b) s)) db)

  -- POST :id/activate
  unfoldable pub activate_tenancy_route :
      Uuid → Date → Uuid → ActivateTenancyBody → Db M → Response TenancyResult × Db M
  activate_tenancy_route event_id occurred_at id b db = respond 200 correlation_id url (
      parsed Z (activate_tenancy_issues Z b)
        (λ s.
          thrown (text_of driver) (
            activate_tenancy M event_id occurred_at id (Z.uuid_of (given b.handover_protocol_id))
              s))
        db)

  -- GET :id
  unfoldable pub get_tenancy_route : Uuid → Db M → Response TenancyReadModel × Db M
  get_tenancy_route id db =
      respond 200 correlation_id url (thrown (text_of driver) (get_tenancy M id db))

  -- GET landlord/:id/units
  unfoldable pub list_landlord_units_route :
      UnitQuery M → Uuid → Db M → Response (List RentalUnitReadModel) × Db M
  list_landlord_units_route Q landlord_id db =
      respond 200 correlation_id url
        (thrown (text_of driver) (list_landlord_rental_units M Q landlord_id db))
