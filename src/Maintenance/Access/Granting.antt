-- ===== src/Maintenance/Access/Granting.antt =====
-- What the messages of the tenancy module do to the access of tenants.
use flatrent.Base.{
  ℕ, ◌≡◌, ◌≢◌, ◌⊎◌, refl, String, Bool, true, false, Option, none, some, List, [], ◌∷◌, Uuid, Date,
  arith, inl, inr,
}
use flatrent.Maintenance.Dynamo.{
  Dynamo, Key, key_eq, Item, Outcome, written, condition_failed, rejected,
}
use flatrent.Maintenance.Repository.{is_active_of}
use flatrent.Maintenance.Access.{
  ActivatedPayload, ActivatedEnvelope, Body, malformed, refused, envelope, Message, Receiver,
  handle, handle_all, access_item, inbox_item, access_puts, poll_and_process,
}

pub Outcome-cases :
    {S : Type 0} (o : Outcome S)
    → ((s : S) × (o ≡ written s)) ⊎ (o ≡ condition_failed) ⊎ (o ≡ rejected)
Outcome-cases (written s) = inl (s, refl)
Outcome-cases condition_failed = inr (inl refl)
Outcome-cases rejected = inr (inr refl)

pub ActivationBody-cases :
    (b : Body) → (b ≡ malformed) ⊎ (b ≡ refused) ⊎ ((e : ActivatedEnvelope) × (b ≡ envelope e))
ActivationBody-cases malformed = inl refl
ActivationBody-cases refused = inr (inl refl)
ActivationBody-cases (envelope e) = inr (inr (e, refl))

module _ {S : Type 0} (D : Dynamo S) (sha256 : ActivatedPayload → String) (now : Date)
    (delete_ok : ℕ → Bool) where
  -- The snapshot and the marker stand in the table, and no other item has changed.
  pub record IsGranted (e : ActivatedEnvelope) (s s' : S) : Type 0 where
    pub first_time : D.item s (Key.inbox e.message_id) ≡ none
    pub marked :
        D.item s' (Key.inbox e.message_id) ≡ some (Item.inbox (inbox_item D sha256 now delete_ok e))
    pub granted :
        D.item s' (Key.access e.payload.tenant_id e.payload.rental_unit_id)
        ≡ some (Item.access (access_item e.payload))
    pub others :
        (k : Key)
        → key_eq (Key.inbox e.message_id) k ≡ false
        → key_eq (Key.access e.payload.tenant_id e.payload.rental_unit_id) k ≡ false
        → D.item s' k ≡ D.item s k

  pub written-IsGranted :
      (e : ActivatedEnvelope) (s s' : S)
      → D.transact_write s (access_puts D sha256 now delete_ok e) ≡ written s'
      → IsGranted e s s'
  written-IsGranted e s s' w =
      let (conditions, contents) =
        D.transact_write-written s s' (access_puts D sha256 now delete_ok e) w in
      record {
        first_time = ground (arith, conditions.0);
        marked = ground (arith, contents (Key.inbox e.message_id));
        granted =
            ground (arith, contents (Key.access e.payload.tenant_id e.payload.rental_unit_id));
        others = λ k a b. ground (arith, contents k);
      }

  failed-known :
      (e : ActivatedEnvelope) (s : S)
      → D.transact_write s (access_puts D sha256 now delete_ok e) ≡ condition_failed
      → D.item s (Key.inbox e.message_id) ≢ none
  failed-known e s f =
      ground (arith, D.transact_write-condition_failed s (access_puts D sha256 now delete_ok e) f)

  -- A message with an envelope has one of three outcomes: the tenant's access to the unit is granted
  -- and the message marked, for the first time and with nothing else changed; or the message was
  -- marked before and the table stays; or the table and the queue both stay, for a later delivery.
  pub handle_outcomes :
      (m : Message) (e : ActivatedEnvelope) (w : Receiver S)
      → m.body ≡ envelope e
      → let w' = (handle D sha256 now delete_ok m w).1 in
        IsGranted e w.table w'.table
        ⊎ ((D.item w.table (Key.inbox e.message_id) ≢ none) × (w'.table ≡ w.table))
        ⊎ ((w'.table ≡ w.table) × (w'.deleted ≡ w.deleted))
  unfolding handle
  handle_outcomes m e w body =
      elim (Outcome-cases (D.transact_write w.table (access_puts D sha256 now delete_ok e))) [
        | inl (s', done) ↦
            let granted = written-IsGranted e w.table s' done in
            let same : (handle D sha256 now delete_ok m w).1.table ≡ s' = ground arith in
            inl (rw same granted)
        | inr (inl failed) ↦ inr (inl (failed-known e w.table failed, ground arith))
        | inr (inr failed) ↦ inr (inr (ground arith, ground arith))
      ]

  -- A message that is marked leaves the table as it is.
  pub handle_marked :
      (m : Message) (e : ActivatedEnvelope) (w : Receiver S)
      → m.body ≡ envelope e
      → D.item w.table (Key.inbox e.message_id) ≢ none
      → (handle D sha256 now delete_ok m w).1.table ≡ w.table
  handle_marked m e w body marked = elim (handle_outcomes m e w body) [
    | inl granted ↦ absurd (marked granted.first_time)
    | inr (inl known) ↦ known.1
    | inr (inr left) ↦ left.0
  ]

  handle-access :
      (m : Message) (w : Receiver S) (tenant unit : Uuid)
      → is_active_of D (D.item w.table (Key.access tenant unit)) ≡ true
      → is_active_of D (D.item (handle D sha256 now delete_ok m w).1.table (Key.access tenant unit))
        ≡ true
  unfolding handle
  handle-access m w tenant unit active = elim (ActivationBody-cases m.body) [
    | inl bad ↦ ground arith
    | inr (inl bad) ↦ ground arith
    | inr (inr (e, body)) ↦
        elim (Outcome-cases (D.transact_write w.table (access_puts D sha256 now delete_ok e))) [
          | inl (s', done) ↦
              let (conditions, contents) =
                D.transact_write-written w.table s' (access_puts D sha256 now delete_ok e) done in
              ground (arith, contents (Key.access tenant unit))
          | inr (inl failed) ↦ ground arith
          | inr (inr failed) ↦ ground arith
        ]
  ]

  handle_all-access :
      (ms : List Message) (w : Receiver S) (tenant unit : Uuid)
      → is_active_of D (D.item w.table (Key.access tenant unit)) ≡ true
      → is_active_of D
          (D.item (handle_all D sha256 now delete_ok ms w).1.table (Key.access tenant unit))
        ≡ true
  unfolding handle_all
  handle_all-access [] w tenant unit active = active
  handle_all-access (m ∷ ms) w tenant unit active = ground (
    arith,
    handle-access m w tenant unit active,
    handle_all-access ms (handle D sha256 now delete_ok m w).1 tenant unit,
  )

  -- Access that was granted is never withdrawn: whatever messages a poll receives, if any, an active
  -- snapshot is active afterwards.
  pub poll_and_process-access :
      (received : Option (List Message)) (w : Receiver S) (tenant unit : Uuid)
      → is_active_of D (D.item w.table (Key.access tenant unit)) ≡ true
      → is_active_of D (
          D.item
            (poll_and_process D sha256 now delete_ok received w).1.table
            (Key.access tenant unit))
        ≡ true
  unfolding poll_and_process
  poll_and_process-access none w tenant unit active = active
  poll_and_process-access (some ms) w tenant unit active =
      ground (arith, handle_all-access ms w tenant unit active)
