-- ===== src/Tenancy/Controller/Serving.antt =====
-- What holds of the tenancies whatever requests arrive.
use mathlib.Core.Path.{subst}
use flatrent.Base.{ℕ, ◌≡◌, sym, String, List, [], ◌∷◌, Uuid, Date, arith}
use flatrent.Shared.Http.{Text}
use flatrent.Shared.Validation.{Zod, given}
use flatrent.Shared.Validation.Answers.{parsed_answers, parsed_keeps, thrown_keeps}
use flatrent.Tenancy.Database.{Schema, Db}
use flatrent.Tenancy.Repositories.{save_invitation, save_handover, save_unit, find_tenancy}
use flatrent.Tenancy.UseCases.{
  ConfirmHandoverCommand, register_rental_unit, invite_tenant, accept_invitation, confirm_handover,
  activate_tenancy, get_tenancy,
}
use flatrent.Tenancy.UseCases.Acceptance.{IsAcceptable, IsReserved, accept_invitation-IsReserved}
use flatrent.Tenancy.UseCases.Occupancy.{Step, here, next, IsExclusive, Reach-IsExclusive}
use flatrent.Tenancy.Listing.{UnitQuery}
use flatrent.Tenancy.Controller.{
  RegisterUnitBody, InviteTenantBody, AcceptInvitationBody, ConfirmHandoverBody,
  ActivateTenancyBody, register_unit_issues, invite_tenant_issues, accept_invitation_issues,
  confirm_handover_issues, activate_tenancy_issues, accept_invitation_command,
  confirm_handover_command, register_unit_route, invite_tenant_route, accept_invitation_route,
  confirm_handover_route, activate_tenancy_route, get_tenancy_route, list_landlord_units_route,
  text_of,
}

-- A request, with the time and the event id that the server takes for it.
pub data Request : Type 0 where
  unit_request : RegisterUnitBody → Request
  invitation_request : InviteTenantBody → Request
  acceptance_request : Date → AcceptInvitationBody → Request
  handover_request : ConfirmHandoverBody → Request
  activation_request : Uuid → Date → Uuid → ActivateTenancyBody → Request
  tenancy_request : Uuid → Request
  units_request : Uuid → Request

module _ (Z : Zod) (M : Schema) (Q : UnitQuery M) (driver : String) (correlation_id : Uuid)
    (url : Text) where
  -- The status of the answer, and the database afterwards.
  unfoldable pub serve : Request → Db M → ℕ × Db M
  serve (unit_request b) db =
      let (r, db') = register_unit_route Z M driver correlation_id url b db in (r.status, db')
  serve (invitation_request b) db =
      let (r, db') = invite_tenant_route Z M driver correlation_id url b db in (r.status, db')
  serve (acceptance_request now b) db =
      let (r, db') = accept_invitation_route Z M driver correlation_id url now b db in
      (r.status, db')
  serve (handover_request b) db =
      let (r, db') = confirm_handover_route Z M driver correlation_id url b db in (r.status, db')
  serve (activation_request event_id at id b) db =
      let (r, db') = activate_tenancy_route Z M driver correlation_id url event_id at id b db in
      (r.status, db')
  serve (tenancy_request id) db =
      let (r, db') = get_tenancy_route Z M driver correlation_id url id db in (r.status, db')
  serve (units_request id) db =
      let (r, db') = list_landlord_units_route Z M driver correlation_id url Q id db in
      (r.status, db')

  unfoldable pub serve_all : List Request → Db M → Db M
  serve_all [] db = db
  serve_all (q ∷ qs) db = serve_all qs (serve q db).1

  register_rental_unit-tenancies :
      (id owner_id : Uuid) (address : String) (db : Db M)
      → (register_rental_unit M id owner_id address db).1.tenancies ≡ db.tenancies
  unfolding register_rental_unit save_unit
  register_rental_unit-tenancies id owner_id address db = ground arith

  invite_tenant-tenancies :
      (id unit : Uuid) (email : String) (at : Date) (db : Db M)
      → (invite_tenant M id unit email at db).1.tenancies ≡ db.tenancies
  unfolding invite_tenant save_invitation
  invite_tenant-tenancies id unit email at db = ground arith

  confirm_handover-tenancies :
      (c : ConfirmHandoverCommand) (db : Db M)
      → (confirm_handover M c db).1.tenancies ≡ db.tenancies
  unfolding confirm_handover save_handover find_tenancy
  confirm_handover-tenancies c db = ground arith

  get_tenancy-tenancies : (id : Uuid) (db : Db M) → (get_tenancy M id db).1.tenancies ≡ db.tenancies
  unfolding get_tenancy find_tenancy
  get_tenancy-tenancies id db = ground arith

  abbrev pub Exclusive : Db M → Type 0
  Exclusive db = IsExclusive M db.tenancies

  serve-Exclusive : (q : Request) (db : Db M) → Exclusive db → Exclusive (serve q db).1
  unfolding serve register_unit_route invite_tenant_route accept_invitation_route
      confirm_handover_route activate_tenancy_route get_tenancy_route list_landlord_units_route
  serve-Exclusive (unit_request b) db ex =
      parsed_keeps Z correlation_id url (text_of driver) Exclusive 201 (register_unit_issues Z b)
        (register_rental_unit M (Z.uuid_of (given b.id)) (Z.uuid_of (given b.owner_id))
          (given b.address))
        db ex
        (subst (IsExclusive M)
          (sym (
            register_rental_unit-tenancies (Z.uuid_of (given b.id)) (Z.uuid_of (given b.owner_id))
              (given b.address) db))
          ex)
  serve-Exclusive (invitation_request b) db ex =
      parsed_keeps Z correlation_id url (text_of driver) Exclusive 201 (invite_tenant_issues Z b)
        (invite_tenant M (Z.uuid_of (given b.id)) (Z.uuid_of (given b.rental_unit_id))
          (given b.tenant_email) (Z.date_of (given b.expires_at)))
        db ex
        (subst (IsExclusive M)
          (sym (
            invite_tenant-tenancies (Z.uuid_of (given b.id)) (Z.uuid_of (given b.rental_unit_id))
              (given b.tenant_email) (Z.date_of (given b.expires_at)) db))
          ex)
  serve-Exclusive (acceptance_request now b) db ex =
      parsed_keeps Z correlation_id url (text_of driver) Exclusive 200
        (accept_invitation_issues Z b)
        (accept_invitation M driver now (accept_invitation_command Z b)) db ex
        (Reach-IsExclusive M
          (next here (Step.acceptance driver now (accept_invitation_command Z b))) ex)
  serve-Exclusive (handover_request b) db ex =
      parsed_keeps Z correlation_id url (text_of driver) Exclusive 201 (confirm_handover_issues Z b)
        (confirm_handover M (confirm_handover_command Z b)) db ex
        (subst (IsExclusive M) (sym (confirm_handover-tenancies (confirm_handover_command Z b) db))
          ex)
  serve-Exclusive (activation_request event_id at id b) db ex =
      parsed_keeps Z correlation_id url (text_of driver) Exclusive 200 (activate_tenancy_issues Z b)
        (activate_tenancy M event_id at id (Z.uuid_of (given b.handover_protocol_id))) db ex
        (Reach-IsExclusive M
          (next here (Step.activation event_id at id (Z.uuid_of (given b.handover_protocol_id))))
          ex)
  serve-Exclusive (tenancy_request id) db ex =
      thrown_keeps Z correlation_id url (text_of driver) Exclusive 200 (get_tenancy M id db)
        (subst (IsExclusive M) (sym (get_tenancy-tenancies id db)) ex)
  serve-Exclusive (units_request id) db ex = ex

  -- Whatever requests the routes of the tenancy module serve one after another, well-formed or not, and
  -- whatever comes of each: if no two active or reserved tenancies of one unit shared a date before,
  -- none do afterwards.
  pub serve_all-IsExclusive :
      (qs : List Request) (db : Db M)
      → IsExclusive M db.tenancies
      → IsExclusive M (serve_all qs db).tenancies
  unfolding serve_all
  serve_all-IsExclusive [] db ex = ex
  serve_all-IsExclusive (q ∷ qs) db ex =
      serve_all-IsExclusive qs (serve q db).1 (serve-Exclusive q db ex)

  -- A request to accept an invitation that is answered with 200 had a body that passes the schema and
  -- was for a stored, pending invitation in time, for dates in order, and for a unit on which no
  -- active or reserved tenancy meets them, and has reserved it.
  pub serve-IsReserved :
      (now : Date) (b : AcceptInvitationBody) (db : Db M)
      → (serve (acceptance_request now b) db).0 ≡ 200
      → (accept_invitation_issues Z b ≡ [])
        × (a : IsAcceptable M driver now (accept_invitation_command Z b) db) × IsReserved M driver
            now
            (accept_invitation_command Z b)
            db
            (serve (acceptance_request now b) db).1
            a.row
  unfolding serve accept_invitation_route
  serve-IsReserved now b db served =
      let c = accept_invitation_command Z b in
      let (passed, r, answered, kept) =
        parsed_answers Z correlation_id url (text_of driver) 200 (accept_invitation_issues Z b)
          (accept_invitation M driver now c) db (omega arith) served in
      let (a, done) =
        accept_invitation-IsReserved M driver now c db (accept_invitation M driver now c db).1 r
          (ground (arith, answered)) in
      (passed, a, subst (λ d. IsReserved M driver now c db d a.row) (sym kept) done)
