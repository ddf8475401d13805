-- ===== src/Maintenance/Relay/Settling.antt =====
-- What a run of the relay leaves in the table.
use mathlib.Core.Path.{subst}
use flatrent.Base.{
  not, sym, ap, ◌∙◌, ℕ, ◌≡◌, ◌≤◌, ◌<◌, ◌⊎◌, refl, String, Bool, true, false, Option, some, List,
  Uuid, arith, inl, inr,
}
use flatrent.Maintenance.Dynamo.{Dynamo, Key, key_eq, key_of, OutboxStatus, processing, Item}
use flatrent.Maintenance.Relay.{
  OutboxMessage, max_attempts, is_open_status, is_open, OutboxTable, Relay, relay_pending_messages,
}
use flatrent.Maintenance.Relay.Keeping.{Rounds, relay_pending_messages-keeps}
use flatrent.Maintenance.Relay.Returning.{relay_pending_messages-ok}

-- At most five attempts, and fewer as long as the item is open.
abbrev pub IsBounded : Option Item → Type 0
IsBounded (some (Item.outbox item)) =
    (item.attempt_count ≤ max_attempts)
    × (is_open_status item.status ≡ true → item.attempt_count < max_attempts)
IsBounded _ = Unit

abbrev pub is_processing : OutboxStatus → Bool
is_processing processing = true
is_processing _ = false

abbrev pub is_idle : Option Item → Bool
is_idle (some (Item.outbox item)) = not (is_processing item.status)
is_idle _ = true

pub outbox-eq : (id : Uuid) (k : Key) → key_eq (Key.outbox id) k ≡ true → Key.outbox id ≡ k
outbox-eq id (Key.request j) h = absurd (ground arith)
outbox-eq id (Key.outbox j) h = ground arith
outbox-eq id (Key.inbox j) h = absurd (ground arith)
outbox-eq id (Key.access j u) h = absurd (ground arith)

module _ {S : Type 0} (D : Dynamo S) (Q : OutboxTable D) (driver : String)
    (publish : List OutboxMessage → OutboxMessage → Option String) where
  IsBounded-round :
      (w : Relay S) (k : Key)
      → ((j : Key) → IsBounded (D.item w.table j))
      → (item : Item) → is_open item ≡ true
      → D.item w.table (key_of item) ≡ some item
      → Rounds D Q driver publish IsBounded k item
  IsBounded-round w k bounded (Item.outbox item) opens stored =
      let b : IsBounded (some (Item.outbox item)) =
        subst IsBounded stored (bounded (Key.outbox item.message_id)) in
      let few : item.attempt_count < max_attempts = b.1 opens in
      (
        λ h. (omega arith, λ p. absurd (ground arith)),
        λ h. ((omega arith, λ p. absurd (ground arith)), λ text. (omega arith, λ p. ground arith)),
      )
  IsBounded-round w k bounded (Item.request _) opens stored = tt
  IsBounded-round w k bounded (Item.inbox _) opens stored = tt
  IsBounded-round w k bounded (Item.access _) opens stored = tt

  -- If every item of the outbox counts at most five attempts, and fewer while it is pending or to be
  -- retried, then so it does after a run of the relay, whatever comes of it.
  pub relay_pending_messages_within_five :
      (w : Relay S)
      → ((j : Key) → IsBounded (D.item w.table j))
      → (k : Key) → IsBounded (D.item (relay_pending_messages D Q driver publish w).1.table k)
  relay_pending_messages_within_five w bounded k =
      relay_pending_messages-keeps D Q driver publish IsBounded k w (IsBounded-round w k bounded)
        (bounded k)

  closed_round :
      (w : Relay S) (k : Key) (r : Item)
      → D.item w.table k ≡ some r
      → is_open r ≡ false
      → (item : Item) → is_open item ≡ true
      → D.item w.table (key_of item) ≡ some item
      → Rounds D Q driver publish (λ o. o ≡ some r) k item
  closed_round w k r found closed (Item.outbox item) opens stored =
      let clash : key_eq (Key.outbox item.message_id) k ≡ true → ⊥ = λ h.
        let same : some r ≡ some (Item.outbox item) =
          sym found ∙ ap (D.item w.table) (sym (outbox-eq item.message_id k h)) ∙ stored in
        ground (arith, same) in
      (λ h. absurd (clash h), λ h. absurd (clash h))
  closed_round w k r found closed (Item.request _) opens stored = tt
  closed_round w k r found closed (Item.inbox _) opens stored = tt
  closed_round w k r found closed (Item.access _) opens stored = tt

  -- A run of the relay, whatever comes of it, leaves every item alone that is not pending or to be
  -- retried in the outbox: those that are published, dead or left as processing, and all requests,
  -- inbox markers and snapshots of access.
  pub relay_pending_messages_leaves :
      (w : Relay S) (k : Key) (r : Item)
      → D.item w.table k ≡ some r
      → is_open r ≡ false
      → D.item (relay_pending_messages D Q driver publish w).1.table k ≡ some r
  relay_pending_messages_leaves w k r found closed =
      relay_pending_messages-keeps D Q driver publish (λ o. o ≡ some r) k w
        (closed_round w k r found closed) found

  -- A run of the relay that reports work leaves no item processing that was not processing, as it is
  -- now, before.
  pub relay_pending_messages-IsIdle :
      (w w' : Relay S) (n : ℕ) (k : Key)
      → relay_pending_messages D Q driver publish w ≡ (n, w')
      → 0 < n
      → is_idle (D.item w'.table k) ≡ false
      → D.item w'.table k ≡ D.item w.table k
  relay_pending_messages-IsIdle w w' n k e worked busy =
      let P : Option Item → Type 0 = λ o. (o ≡ D.item w.table k) ⊎ (is_idle o ≡ true) in
      elim (relay_pending_messages-ok D Q driver publish P k w w' n e worked
        (λ item h. (inr refl, λ text. inr (ground arith))) (inl refl)) [
          | inl same ↦ same
          | inr idle ↦ absurd (ground arith)
        ]
