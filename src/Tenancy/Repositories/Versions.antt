-- ===== src/Tenancy/Repositories/Versions.antt =====
-- What `save` of the tenancy repository does to the table of tenancies, on every outcome, and when
-- it reports a version conflict.
use flatrent.Base.{
  ℕ, suc, ◌+◌, ◌≡◌, ◌≢◌, refl, some, List, [], ◌∷◌, Uuid, err, arith, ◌⊎◌, inl, inr, Option-cases,
  Result-cases, ◌==◌, if◌then◌else◌,
}
use flatrent.Shared.{DomainEvent}
use flatrent.Shared.Versions.{counted_version, version_of}
use flatrent.Tenancy.Errors.{version_mismatch}
use flatrent.Tenancy.Lease.{Tenancy, TenancyActivatedPayload}
use flatrent.Tenancy.Database.{Schema, Db, TenancyEntity, tenancy_to_entity}
use flatrent.Tenancy.Repositories.{persist_event, persist_events, save_tenancy}

module _ (M : Schema) where
  -- The table of tenancies after one row has been written.
  abbrev pub Writes : M.Tenancies → M.Tenancies → TenancyEntity → Type 0
  Writes rows rows' e =
      (k : Uuid)
      → M.tenancies.find_one rows' k ≡ (if e.id == k then some e else M.tenancies.find_one rows k)

  persist_event-tenancies :
      (i : ℕ) (e : DomainEvent TenancyActivatedPayload) (db : Db M)
      → (persist_event M i e db).1.tenancies ≡ db.tenancies
  persist_event-tenancies i e db = ground arith

  persist_events-tenancies :
      (i : ℕ) (es : List (DomainEvent TenancyActivatedPayload)) (db : Db M)
      → (persist_events M i es db).1.tenancies ≡ db.tenancies
  unfolding persist_events
  persist_events-tenancies i [] db = refl
  persist_events-tenancies i (e ∷ es) db = ground (
    arith,
    persist_event-tenancies i e db,
    persist_events-tenancies (suc i) es (persist_event M i e db).1,
  )

  -- On every outcome the table is as it was, or has the one row of the given tenancy written.
  pub save_tenancy-Writes :
      (t : Tenancy) (db : Db M)
      → ((save_tenancy M t db).1.tenancies ≡ db.tenancies)
        ⊎ ((v : ℕ) × Writes db.tenancies
              (save_tenancy M t db).1.tenancies
              (record (tenancy_to_entity t) { version = v }))
  unfolding save_tenancy
  save_tenancy-Writes t db =
      elim (Result-cases (
        counted_version version_mismatch t.aggregate_version
          (version_of (λ e. e.version) (M.tenancies.find_one db.tenancies t.id)))) [
            | inr (x, conflict) ↦ inl (ground arith)
            | inl (v, free) ↦
                elim (Option-cases
                  (M.tenancies.save db.tenancies (record (tenancy_to_entity t) { version = v }))) [
                    | inl rejected ↦ inl (ground arith)
                    | inr (rows, written) ↦
                        let kept =
                          persist_events-tenancies 0 t.pending_events
                            (record db { tenancies = rows }) in
                        inr (
                          v,
                          λ k. ground (
                            arith,
                            kept,
                            M.tenancies.find_one-save db.tenancies rows
                                (record (tenancy_to_entity t) { version = v }) k,
                          ),
                        )
                  ]
          ]

  -- A save of a tenancy that is stored at another version than the one it was loaded at fails with a
  -- version conflict and writes nothing.
  pub save_tenancy_conflict :
      (t : Tenancy) (db : Db M) (e : TenancyEntity)
      → M.tenancies.find_one db.tenancies t.id ≡ some e
      → e.version + 1 ≢ t.aggregate_version
      → save_tenancy M t db ≡ (err version_mismatch, db)
  unfolding save_tenancy
  save_tenancy_conflict t db e found other = ground arith
