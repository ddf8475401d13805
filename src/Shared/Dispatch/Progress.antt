-- ===== src/Shared/Dispatch/Progress.antt =====
-- A run that returns leaves no row half done.
use mathlib.Core.Path.{subst}
use flatrent.Base.{
  ◌≡◌, sym, String, false, Option, some, List, [], ◌∷◌, ◌++◌, Uuid, Date, ok, inl, inr, arith, ◌==◌,
  Option-cases, Result-cases, Bool-cases,
}
use flatrent.Shared.{DomainEvent}
use flatrent.Shared.Journal.{
  DomainEventJournalEntity, LocalEventDispatchEntity, pending, processing,
}
use flatrent.Shared.Dispatch.{
  DispatchTable, Dispatching, event_of, batch_size, claimed, save_row, revert, done, dispatch_event,
  lost, dispatch_claimed, dispatch_all, dispatch_pending_events,
}
use flatrent.Shared.Dispatch.Writing.{save_row_cases}

module _ {P S : Type 0} (Q : DispatchTable S) (entry : Uuid → Option (DomainEventJournalEntity P))
    (driver : String) (publish : DomainEvent P → Option String) (clock : Uuid → Date) where
  -- A row that is processing was processing at the start; `IsSettledBut` leaves one row out.
  abbrev pub IsSettled : S → S → Type 0
  IsSettled start s =
      (k : Uuid) (r : LocalEventDispatchEntity)
      → Q.rows.find_one s k ≡ some r
      → r.status ≡ processing
      → Q.rows.find_one start k ≡ some r

  abbrev IsSettledBut : S → Uuid → S → Type 0
  IsSettledBut start id s =
      (k : Uuid) (r : LocalEventDispatchEntity)
      → (id == k) ≡ false
      → Q.rows.find_one s k ≡ some r
      → r.status ≡ processing
      → Q.rows.find_one start k ≡ some r

  claimed-IsSettledBut :
      (start : S) (r : LocalEventDispatchEntity) (s s' : S)
      → Q.rows.save s r ≡ some s'
      → IsSettled start s
      → IsSettledBut start r.event_id s'
  claimed-IsSettledBut start r s s' written inv k x other found busy =
      inv k x (ground (arith, found, other, Q.rows.find_one-save s s' r k written)) busy

  -- A write of the row with a status that is final settles it.
  written-IsSettled :
      (start : S) (r : LocalEventDispatchEntity) (s s' : S)
      → (r.status ≡ processing → Q.rows.find_one start r.event_id ≡ some r)
      → Q.rows.save s r ≡ some s'
      → IsSettledBut start r.event_id s
      → IsSettled start s'
  written-IsSettled start r s s' final written inv k x found busy =
      elim (Bool-cases (r.event_id == k)) [
        | inr other ↦
            inv k x other (ground (arith, found, other, Q.rows.find_one-save s s' r k written)) busy
        | inl here ↦
            let same : some r ≡ some x =
              ground (arith, found, here, Q.rows.find_one-save s s' r k written) in
            ground (arith, final (ground (arith, same, busy)), same, here)
      ]

  save_row-IsSettled :
      (start : S) (r : LocalEventDispatchEntity) (w : Dispatching P S)
      → (r.status ≡ processing → Q.rows.find_one start r.event_id ≡ some r)
      → (save_row Q entry driver (some publish) clock r w).0 ≡ ok tt
      → IsSettledBut start r.event_id w.rows
      → IsSettled start (save_row Q entry driver (some publish) clock r w).1.rows
  save_row-IsSettled start r w final returned inv =
      elim (save_row_cases Q entry driver publish clock r w) [
        | inl failed ↦ absurd (ground (arith, failed, returned))
        | inr (rows, written, saved) ↦
            subst (λ p. IsSettled start p.1.rows) (sym saved)
              (written-IsSettled start r w.rows rows final written inv)
      ]

  dispatch_event-IsSettled :
      (start : S) (r : LocalEventDispatchEntity) (event : DomainEvent P) (w : Dispatching P S)
      → (dispatch_event Q entry driver (some publish) clock r event w).0 ≡ ok tt
      → IsSettledBut start r.event_id w.rows
      → IsSettled start (dispatch_event Q entry driver (some publish) clock r event w).1.rows
  unfolding dispatch_event
  dispatch_event-IsSettled start r event w returned inv = elim (Option-cases (publish event)) [
    | inr (text, refused) ↦
        let back : LocalEventDispatchEntity = record r {
          status = pending;
          last_error = some text;
        } in
        subst (λ p. IsSettled start p.1.rows)
          {x = revert Q entry driver (some publish) clock r text w}
          {y = dispatch_event Q entry driver (some publish) clock r event w}
          (ground (arith, refused))
          (save_row-IsSettled start back w (λ e. absurd (ground (arith, e)))
            (ground (arith, refused, returned)) inv)
    | inl sent ↦
        let w' : Dispatching P S = record w { received = w.received ++ event ∷ [] } in
        let last = done Q entry driver (some publish) clock r in
        elim (save_row_cases Q entry driver publish clock last w') [
          | inl failed ↦
              let back : LocalEventDispatchEntity = record last {
                status = pending;
                last_error = some driver;
              } in
              subst (λ p. IsSettled start p.1.rows)
                {x = revert Q entry driver (some publish) clock last driver w'}
                {y = dispatch_event Q entry driver (some publish) clock r event w}
                (ground (arith, sent, failed))
                (save_row-IsSettled start back w' (λ e. absurd (ground (arith, e)))
                  (ground (arith, sent, failed, returned)) inv)
          | inr (rows, written, saved) ↦
              subst (λ p. IsSettled start p.1.rows) {x = (ok tt, record w' { rows = rows })}
                {y = dispatch_event Q entry driver (some publish) clock r event w}
                (ground (arith, sent, saved))
                (written-IsSettled start last w'.rows rows (λ e. absurd (ground (arith, e))) written
                  inv)
        ]
  ]

  dispatch_claimed-IsSettled :
      (start : S) (r : LocalEventDispatchEntity) (w : Dispatching P S)
      → (dispatch_claimed Q entry driver (some publish) clock r w).0 ≡ ok tt
      → IsSettledBut start r.event_id w.rows
      → IsSettled start (dispatch_claimed Q entry driver (some publish) clock r w).1.rows
  unfolding dispatch_claimed
  dispatch_claimed-IsSettled start r w returned inv = elim (Option-cases (entry r.event_id)) [
    | inl gone ↦
        let last = lost Q entry driver (some publish) clock r in
        subst (λ p. IsSettled start p.1.rows)
          {x = save_row Q entry driver (some publish) clock last w}
          {y = dispatch_claimed Q entry driver (some publish) clock r w} (ground (arith, gone))
          (save_row-IsSettled start last w (λ e. absurd (ground (arith, e)))
            (ground (arith, gone, returned)) inv)
    | inr (e, found) ↦
        subst (λ p. IsSettled start p.1.rows)
          {x = dispatch_event Q entry driver (some publish) clock r (event_of e) w}
          {y = dispatch_claimed Q entry driver (some publish) clock r w} (ground (arith, found))
          (dispatch_event-IsSettled start r (event_of e) w (ground (arith, found, returned)) inv)
  ]

  dispatch_all-IsSettled :
      (start : S) (rs : List LocalEventDispatchEntity) (w : Dispatching P S)
      → (dispatch_all Q entry driver (some publish) clock rs w).0 ≡ ok tt
      → IsSettled start w.rows
      → IsSettled start (dispatch_all Q entry driver (some publish) clock rs w).1.rows
  unfolding dispatch_all
  dispatch_all-IsSettled start [] w returned inv = inv
  dispatch_all-IsSettled start (r ∷ rs) w returned inv =
      elim (save_row_cases Q entry driver publish clock (claimed r) w) [
        | inl failed ↦ absurd (ground (arith, failed, returned))
        | inr (rows, written, saved) ↦
            let w' : Dispatching P S = record w { rows = rows } in
            let next = dispatch_claimed Q entry driver (some publish) clock (claimed r) w' in
            elim (Result-cases next.0) [
              | inr (text, thrown) ↦ absurd (ground (arith, saved, thrown, returned))
              | inl (_, done_one) ↦
                  subst (λ p. IsSettled start p.1.rows)
                    {x = dispatch_all Q entry driver (some publish) clock rs next.1}
                    {y = dispatch_all Q entry driver (some publish) clock (r ∷ rs) w}
                    (ground (arith, saved, done_one))
                    (dispatch_all-IsSettled start rs next.1
                      (ground (arith, saved, done_one, returned))
                      (dispatch_claimed-IsSettled start (claimed r) w' done_one
                        (claimed-IsSettledBut start (claimed r) w.rows rows written inv)))
            ]
      ]

  -- A run leaves no row processing that was not processing before, whatever comes of it.
  pub dispatch_pending_events-IsSettled :
      (w : Dispatching P S)
      → IsSettled w.rows (dispatch_pending_events Q entry driver (some publish) clock w).1.rows
  unfolding dispatch_pending_events
  dispatch_pending_events-IsSettled w =
      let batch = Q.find_pending w.rows batch_size in
      elim (Result-cases (dispatch_all Q entry driver (some publish) clock batch w).0) [
        | inr (text, thrown) ↦ λ k r found busy. ground (arith, thrown, found)
        | inl (_, returned) ↦
            subst (IsSettled w.rows)
              {x = (dispatch_all Q entry driver (some publish) clock batch w).1.rows}
              {y = (dispatch_pending_events Q entry driver (some publish) clock w).1.rows}
              (ground (arith, returned))
              (dispatch_all-IsSettled w.rows batch w returned (λ k r found busy. found))
      ]
