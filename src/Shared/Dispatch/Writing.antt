-- ===== src/Shared/Dispatch/Writing.antt =====
-- One write to a row of the dispatches.
use flatrent.Base.{
  ◌≡◌, String, Option, some, Uuid, Date, ok, err, ◌⊎◌, inl, inr, arith, Option-cases,
}
use flatrent.Shared.{DomainEvent}
use flatrent.Shared.Journal.{DomainEventJournalEntity, LocalEventDispatchEntity}
use flatrent.Shared.Dispatch.{DispatchTable, Dispatching, save_row}

module _ {P S : Type 0} (Q : DispatchTable S) (entry : Uuid → Option (DomainEventJournalEntity P))
    (driver : String) (publish : DomainEvent P → Option String) (clock : Uuid → Date) where
  pub save_row_cases :
      (r : LocalEventDispatchEntity) (w : Dispatching P S)
      → (save_row Q entry driver (some publish) clock r w ≡ (err driver, w))
        ⊎ ((rows : S) × (Q.rows.save w.rows r ≡ some rows)
            × (save_row Q entry driver (some publish) clock r w
                ≡ (ok tt, record w { rows = rows })))
  save_row_cases r w = elim (Option-cases (Q.rows.save w.rows r)) [
    | inl failed ↦ inl (ground (arith, failed))
    | inr (rows, written) ↦ inr (rows, written, ground (arith, written))
  ]
