-- ===== src/Maintenance/Repository/Saving.antt =====
-- What a save of a maintenance request checks and writes, and what a load gives back.
use flatrent.Base.{ℕ, ◌≡◌, ◌≢◌, true, false, none, some, [], Uuid, Date, ok, arith}
use flatrent.Maintenance.Request.{MaintenanceRequest}
use flatrent.Maintenance.Request.Lifecycle.{IsConsistent}
use flatrent.Maintenance.Dynamo.{Dynamo, Key, key_eq, Item, RequestItem, OutboxItem, written, holds}
use flatrent.Maintenance.Repository.{
  request_item, lock, outbox_of, transact_items, save, request_of, if_present,
}

module _ {S : Type 0} (D : Dynamo S) (size : RequestItem → ℕ) where
  written_of_save :
      (q : MaintenanceRequest) (m : Uuid) (now : Date) (s s' : S)
      → save D size q m now s ≡ (ok tt, s')
      → D.transact_write s (transact_items q m now) ≡ written s'
  unfolding save
  written_of_save q m now s s' e = ground arith

  -- What a save that returns has found and left under the keys that concern it.
  pub record IsSaved (q : MaintenanceRequest) (m : Uuid) (now : Date) (s s' : S) : Type 0 where
    pub expected : holds (lock q.aggregate_version) (D.item s (Key.request q.id)) ≡ true
    pub stored : D.item s' (Key.request q.id) ≡ some (Item.request (request_item q))
    pub silent :
        outbox_of q m now ≡ none
        → (k : Key) → key_eq (Key.request q.id) k ≡ false
        → D.item s' k ≡ D.item s k
    pub published :
        (o : OutboxItem)
        → outbox_of q m now ≡ some o
        → D.item s' (Key.outbox o.message_id) ≡ some (Item.outbox o)

  pub save-IsSaved :
      (q : MaintenanceRequest) (m : Uuid) (now : Date) (s s' : S)
      → save D size q m now s ≡ (ok tt, s')
      → IsSaved q m now s s'
  save-IsSaved q m now s s' e =
      let (conditions, contents) =
        D.transact_write-written s s' (transact_items q m now) (written_of_save q m now s s' e) in
      record {
        expected = conditions.0;
        stored = ground (arith, contents (Key.request q.id));
        silent = λ quiet k other. ground (arith, contents k);
        published = λ o given. ground (arith, contents (Key.outbox o.message_id));
      }

  -- No lost update: when a writer has saved a request, the save that another makes next, of a request
  -- with the same id that was at the same version, cannot return.
  pub save_once_per_version :
      (p q : MaintenanceRequest) (m n : Uuid) (now later : Date) (s s' s'' : S)
      → save D size p m now s ≡ (ok tt, s')
      → q.id ≡ p.id
      → q.aggregate_version ≡ p.aggregate_version
      → save D size q n later s' ≢ (ok tt, s'')
  save_once_per_version p q m n now later s s' s'' first same_id same_version second =
      let a = save-IsSaved p m now s s' first in
      let b = save-IsSaved q n later s' s'' second in absurd (ground (arith, a.stored, b.expected))

  -- What a save that returns leaves in the table under the id of a consistent request, which holds no
  -- empty text and no pending event, maps back to the request as it was saved, version and urgency
  -- included.
  pub request_of-save :
      (q : MaintenanceRequest) (m : Uuid) (now : Date) (s s' : S)
      → save D size q m now s ≡ (ok tt, s')
      → IsConsistent q
      → q.pending_events ≡ []
      → if_present q.assigned_handyman_id ≡ q.assigned_handyman_id
      → if_present q.resolution_description ≡ q.resolution_description
      → request_of D (D.item s' (Key.request q.id)) ≡ some q
  request_of-save q m now s s' e i none_pending h r =
      ground (arith, (save-IsSaved q m now s s' e).stored, i.urgent)
