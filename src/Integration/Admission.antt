-- ===== src/Integration/Admission.antt =====
-- From the activation of a tenancy to the tenant's access in the maintenance module.
use flatrent.Base.{ℕ, ◌≡◌, String, Bool, true, some, Uuid, Date, ok, arith}
use flatrent.Tenancy.Database.{Schema, Db, TenancyEntity, IntegrationOutboxEntity}
use flatrent.Tenancy.Relay.{OutboxMessage, outbox_message}
use flatrent.Tenancy.UseCases.{TenancyResult, activate_tenancy}
use flatrent.Tenancy.UseCases.Activation.{activate_tenancy-IsRecorded}
use flatrent.Maintenance.Dynamo.{Dynamo, Key, written}
use flatrent.Maintenance.Repository.{verify_active_access}
use flatrent.Maintenance.Access.{ActivatedPayload, ActivatedEnvelope, access_puts}
use flatrent.Maintenance.Access.Granting.{written-IsGranted}

-- The message of the relay as the schema of the maintenance module reads it.
abbrev pub received_activation : OutboxMessage → ActivatedEnvelope
received_activation m = record {
  message_id = m.message_id;
  payload = record {
    tenancy_id = m.payload.tenancy_id;
    rental_unit_id = m.payload.rental_unit_id;
    tenant_id = m.payload.tenant_id;
  };
}

module _ (M : Schema) {S : Type 0} (D : Dynamo S) (sha256 : ActivatedPayload → String) (now : Date)
    (delete_ok : ℕ → Bool) where
  -- When an activation has returned, and the row that it left in the outbox has been relayed, received
  -- and written, the tenant has access to the unit, provided that the access can be read.
  pub activate_tenancy-verify_active_access :
      (event_id : Uuid) (at : Date) (id handover_id : Uuid) (db db' : Db M) (r : TenancyResult)
      (row : TenancyEntity) (o : IntegrationOutboxEntity) (s s' : S)
      → activate_tenancy M event_id at id handover_id db ≡ (ok r, db')
      → M.tenancies.find_one db.tenancies id ≡ some row
      → M.outbox.find_one db'.outbox event_id ≡ some o
      → D.transact_write s
          (access_puts D sha256 now delete_ok (received_activation (outbox_message o)))
        ≡ written s'
      → D.reads s' (Key.access row.tenant_id row.rental_unit_id) ≡ true
      → verify_active_access D row.tenant_id row.rental_unit_id s' ≡ true
  unfolding verify_active_access
  activate_tenancy-verify_active_access event_id at id handover_id db db' r row o s s' e found out
        wrote readable =
      let (a, done) = activate_tenancy-IsRecorded M event_id at id handover_id db e in
      let granted =
        written-IsGranted D sha256 now delete_ok (received_activation (outbox_message o)) s s'
          wrote in
      ground (arith, a.found, done.to_publish, granted.granted)
