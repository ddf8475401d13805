-- ===== src/Maintenance/UseCases/Opening.antt =====
-- What the use cases have checked and written when they return.
use flatrent.Base.{ℕ, ◌≡◌, refl, true, false, none, some, Uuid, Date, ok, err, arith}
use flatrent.Maintenance.Request.{active_tenancy_required, new_request, is_emergency}
use flatrent.Maintenance.Dynamo.{Dynamo, Key, Item, RequestItem}
use flatrent.Maintenance.Repository.{
  save, outbox_of, outbox_item, request_item, verify_active_access, is_active_of,
}
use flatrent.Maintenance.Repository.Saving.{save-IsSaved}
use flatrent.Maintenance.UseCases.{OpenRequestCommand, OpenRequestResult, open_request}

module _ {S : Type 0} (D : Dynamo S) (size : RequestItem → ℕ) (message_id : Uuid) (now : Date) where
  pub record IsOpened (c : OpenRequestCommand) (s s' : S) : Type 0 where
    pub allowed : is_active_of D (D.item s (Key.access c.reporter_id c.rental_unit_id)) ≡ true
    pub new_id : D.item s (Key.request c.id) ≡ none
    pub stored :
        D.item s' (Key.request c.id)
        ≡ some (
            Item.request
              (request_item (new_request c.id c.rental_unit_id c.reporter_id c.description)))
    pub published :
        D.item s' (Key.outbox message_id)
        ≡ some (
            Item.outbox (
              outbox_item
                (new_request c.id c.rental_unit_id c.reporter_id c.description)
                message_id
                now
                "BlockingMaintenanceRequestOpened.v1"
                (is_emergency c.description)))

  saved_by_open :
      (c : OpenRequestCommand) (s s' : S) (r : OpenRequestResult)
      → open_request D size message_id now c s ≡ (ok r, s')
      → (save D size
            (new_request c.id c.rental_unit_id c.reporter_id c.description)
            message_id
            now
            s
          ≡ (ok tt, s'))
        × (verify_active_access D c.reporter_id c.rental_unit_id s ≡ true)
  unfolding open_request
  saved_by_open c s s' r e = ground arith

  allowed_of_verify :
      (user unit : Uuid) (s : S)
      → verify_active_access D user unit s ≡ true
      → is_active_of D (D.item s (Key.access user unit)) ≡ true
  unfolding verify_active_access
  allowed_of_verify user unit s h = ground arith

  -- A request is opened only for a reporter whose access to the unit is stored as active, and never
  -- over a stored request, even where the look-up by id failed; it is stored as new and its opening
  -- waits in the outbox, blocking exactly if the description is an emergency.
  pub open_request-IsOpened :
      (c : OpenRequestCommand) (s s' : S) (r : OpenRequestResult)
      → open_request D size message_id now c s ≡ (ok r, s')
      → IsOpened c s s'
  unfolding outbox_of
  open_request-IsOpened c s s' r e =
      let q = new_request c.id c.rental_unit_id c.reporter_id c.description in
      let (saved, verified) = saved_by_open c s s' r e in
      let done = save-IsSaved D size q message_id now s s' saved in
      record {
        allowed = allowed_of_verify c.reporter_id c.rental_unit_id s verified;
        new_id = ground (arith, done.expected);
        stored = done.stored;
        published =
            done.published
              (outbox_item q message_id now "BlockingMaintenanceRequestOpened.v1"
                (is_emergency c.description))
              refl;
      }

  -- Fail closed: where the access cannot be read, nothing is opened and nothing is written.
  pub open_request_unreadable :
      (c : OpenRequestCommand) (s : S)
      → D.reads s (Key.access c.reporter_id c.rental_unit_id) ≡ false
      → open_request D size message_id now c s ≡ (err active_tenancy_required, s)
  unfolding open_request verify_active_access
  open_request_unreadable c s h = ground arith
