-- ===== src/Shared/Acknowledge.antt =====
-- The downward loop of `acknowledgeCommittedDomainEvents` removes exactly the listed events.
use flatrent.Base.{
  ℕ, zero, suc, ◌≡◌, refl, ◌∙◌, not, List, [], ◌∷◌, ◌++◌, Uuid, has, length, filter, take, arith,
}
use flatrent.Shared.{
  DomainEvent, AggregateRoot, splice_known, acknowledge_from, acknowledge_committed_domain_events,
}

module _ {P : Type 0} (ids : List Uuid) where
  abbrev pub unacknowledged : List (DomainEvent P) → List (DomainEvent P)
  unacknowledged = filter (λ e. not (has ids e.event_id))

  abbrev drop : ℕ → List (DomainEvent P) → List (DomainEvent P)
  drop zero es = es
  drop (suc n) [] = []
  drop (suc n) (e ∷ es) = drop n es

  -- The state of the loop before round `i`: what stands below `i` is still to be looked at.
  abbrev settled : ℕ → List (DomainEvent P) → List (DomainEvent P)
  settled i es = unacknowledged (take i es) ++ drop i es

  settled-splice_known :
      (i : ℕ) (es : List (DomainEvent P)) → settled i (splice_known ids es i) ≡ settled (suc i) es
  settled-splice_known zero [] = refl
  settled-splice_known (suc i) [] = refl
  settled-splice_known zero (e ∷ es) = ground arith
  settled-splice_known (suc i) (e ∷ es) = ground (arith, settled-splice_known i es)

  acknowledge_from-eq-settled :
      (i : ℕ) (es : List (DomainEvent P)) → acknowledge_from ids i es ≡ settled i es
  unfolding acknowledge_from
  acknowledge_from-eq-settled zero es = refl
  acknowledge_from-eq-settled (suc i) es =
      acknowledge_from-eq-settled i (splice_known ids es i) ∙ settled-splice_known i es

  settled-length : (es : List (DomainEvent P)) → settled (length es) es ≡ unacknowledged es
  settled-length [] = refl
  settled-length (e ∷ es) = ground (arith, settled-length es)

  -- Acknowledging a list of event ids removes from the pending events exactly those whose id is in
  -- the list, keeps the others in their order, and leaves the id and the version alone.
  pub acknowledge_committed_domain_events-eq-filter :
      (root : AggregateRoot P)
      → acknowledge_committed_domain_events ids root
        ≡ record root { pending_events = unacknowledged root.pending_events }
  unfolding acknowledge_committed_domain_events
  acknowledge_committed_domain_events-eq-filter root = ground (
    arith,
    acknowledge_from-eq-settled (length root.pending_events) root.pending_events,
    settled-length root.pending_events,
  )
