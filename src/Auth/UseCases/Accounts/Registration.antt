-- ===== src/Auth/UseCases/Accounts/Registration.antt =====
-- What a registration checks and stores.
use mathlib.Core.Path.{subst}
use flatrent.Base.{
  ℕ, ◌≡◌, String, true, none, some, List, [], ◌∷◌, Uuid, Date, ok, inl, inr, arith, ◌==◌,
  Bool-cases, Option-cases, Result-cases, if◌then◌else◌,
}
use flatrent.Base.Text.{codes_eq}
use flatrent.Shared.{DomainEvent, acknowledge_committed_domain_events}
use flatrent.Auth.Email.{create_email}
use flatrent.Auth.Errors.{UserRole, active}
use flatrent.Auth.Account.{UserAccount, AuthPayload, registered_event, register, is_satisfied_by}
use flatrent.Auth.Hasher.{Argon2, hash_password}
use flatrent.Auth.Database.{AuthSchema, AuthDb, UserAccountEntity, user_to_domain}
use flatrent.Auth.Repositories.{
  journal_entry, dispatch_row, outbox_row, reactions, persist_deliveries, persist_events,
  find_user_by_email, save_user,
}
use flatrent.Auth.Repositories.Reads.{find_user_by_email_reads}
use flatrent.Auth.UseCases.{RegisterUserCommand, RegisterUserResult, register_user}

module _ (M : AuthSchema) where
  -- The event is in the journal, waits for the local dispatcher and for the relay, and for no reaction.
  abbrev pub Announced : AuthDb M → AuthDb M → DomainEvent AuthPayload → List ℕ → UserRole → Type 0
  Announced db db' event email role =
      (M.journal.find_one db'.journal event.event_id ≡ some (journal_entry 0 event))
      × (M.dispatches.find_one db'.dispatches event.event_id ≡ some (dispatch_row event))
      × (M.outbox.find_one db'.outbox event.event_id ≡ some (outbox_row event email role))
      × (db'.deliveries ≡ db.deliveries)
      × (db'.sessions ≡ db.sessions)
      × (db'.users ≡ db.users)

  persist_registered :
      (id : Uuid) (email : List ℕ) (role : UserRole) (at : Date) (event_id : Uuid) (db : AuthDb M)
      → (persist_events M 0 (registered_event id email role at event_id ∷ []) db).0 ≡ ok tt
      → Announced db
          (persist_events M 0 (registered_event id email role at event_id ∷ []) db).1
          (registered_event id email role at event_id)
          email
          role
  unfolding persist_events persist_deliveries reactions
  persist_registered id email role at event_id db done =
      let event = registered_event id email role at event_id in
      elim (Option-cases (M.journal.save db.journal (journal_entry 0 event))) [
        | inl e ↦ ground (arith, e)
        | inr (js, j) ↦ elim (Option-cases (M.dispatches.save db.dispatches (dispatch_row event))) [
          | inl e ↦ ground (arith, j, e)
          | inr (ds, d) ↦
              elim (Option-cases (M.outbox.save db.outbox (outbox_row event email role))) [
                | inl e ↦ ground (arith, j, d, e)
                | inr (os, o) ↦ ground (
                  arith,
                  j,
                  d,
                  o,
                  M.journal.find_one-save db.journal js (journal_entry 0 event) event_id j,
                  M.dispatches.find_one-save db.dispatches ds (dispatch_row event) event_id d,
                  M.outbox.find_one-save db.outbox os (outbox_row event email role) event_id o,
                )
              ]
        ]
      ]

  abbrev pub stored_user : Uuid → List ℕ → String → UserRole → UserAccountEntity
  stored_user id email password_hash role = record {
    id = id;
    email = email;
    password_hash = password_hash;
    role = role;
    status = active;
    version = 0;
  }

  -- The new account is the only row that changes.
  abbrev pub Adds : AuthDb M → AuthDb M → UserAccountEntity → Type 0
  Adds db db' e =
      (M.users.find_one db.users e.id ≡ none)
      × ((k : Uuid)
          → M.users.find_one db'.users k
            ≡ (if e.id == k then some e else M.users.find_one db.users k))

  -- The whole effect of a registration on the database.
  abbrev pub Enrols : AuthDb M → AuthDb M → UserAccountEntity → Date → Uuid → Type 0
  Enrols db db' e at event_id =
      Adds db db' e
      × (M.journal.find_one db'.journal event_id
          ≡ some (journal_entry 0 (registered_event e.id e.email e.role at event_id)))
      × (M.dispatches.find_one db'.dispatches event_id
          ≡ some (dispatch_row (registered_event e.id e.email e.role at event_id)))
      × (M.outbox.find_one db'.outbox event_id
          ≡ some (outbox_row (registered_event e.id e.email e.role at event_id) e.email e.role))
      × (db'.deliveries ≡ db.deliveries)
      × (db'.sessions ≡ db.sessions)

  save_user-register :
      (id : Uuid) (email : List ℕ) (password_hash : String) (role : UserRole) (event_id : Uuid)
      (at : Date) (db : AuthDb M) (u : UserAccount)
      → (save_user M (register id email password_hash role event_id at) db).0 ≡ ok u
      → (u.id ≡ id)
        × (u.email ≡ email)
        × Enrols db
            (save_user M (register id email password_hash role event_id at) db).1
            (stored_user id email password_hash role)
            at
            event_id
  unfolding save_user acknowledge_committed_domain_events
  save_user-register id email password_hash role event_id at db u saved =
      let e = stored_user id email password_hash role in
      elim (Option-cases (M.users.find_one db.users id)) [
        | inr (old, taken) ↦ ground (arith, taken)
        | inl fresh ↦ elim (Option-cases (M.users.save db.users e)) [
          | inl failed ↦ ground (arith, fresh, failed)
          | inr (rows, written) ↦
              let db1 : AuthDb M = record db { users = rows } in
              elim (Result-cases
                (persist_events M 0 (registered_event id email role at event_id ∷ []) db1).0) [
                  | inr (x, failed) ↦ ground (arith, fresh, written, failed)
                  | inl (_, done) ↦
                      let effect = persist_registered id email role at event_id db1 done in
                      let db2 =
                        (persist_events M 0 (registered_event id email role at event_id ∷ [])
                          db1).1 in
                      (
                        ground (arith, fresh, written, done, saved),
                        ground (arith, fresh, written, done, saved),
                        subst (λ d. Enrols db d e at event_id) {x = db2}
                            {y = (save_user M (register id email password_hash role event_id at)
                              db).1}
                            (ground (arith, fresh, written, done))
                            (
                              (
                                fresh,
                                λ k. ground (
                                  arith,
                                  effect,
                                  M.users.find_one-save db.users rows e k written,
                                ),
                              ),
                              effect.0,
                              effect.1,
                              effect.2,
                              effect.3,
                              effect.4,
                            ),
                      )
                ]
        ]
      ]

module _ (M : AuthSchema) (A : Argon2) where
  find_user_by_email_absent :
      (email : List ℕ) (db : AuthDb M)
      → (find_user_by_email M email db).0 ≡ ok none
      → M.users.get_one db.users (λ e. codes_eq e.email email) ≡ none
  unfolding find_user_by_email
  find_user_by_email_absent email db none_there =
      elim (Option-cases (M.users.get_one db.users (λ e. codes_eq e.email email))) [
        | inl gone ↦ gone
        | inr (e, found) ↦ elim (Result-cases (user_to_domain e)) [
          | inl (u, read) ↦ ground (arith, found, read)
          | inr (x, read) ↦ ground (arith, found, read)
        ]
      ]

  -- The row that a registration under the normalized e-mail and the hash of the password stores.
  abbrev pub enrolled : RegisterUserCommand → List ℕ → String → UserAccountEntity
  enrolled c email hash = stored_user M c.id email hash c.role

  -- A registration that answers had a well-formed e-mail that no account had, a password that meets the
  -- policy and an identifier that no account had. It adds the account, active and with the hash of the
  -- password, records the event in the journal, for the local dispatcher and for the relay, and changes
  -- no session and no delivery.
  pub register_user-Enrols :
      (c : RegisterUserCommand) (salt : ℕ) (event_id : Uuid) (at : Date) (db : AuthDb M)
      (r : RegisterUserResult)
      → (register_user M A salt event_id at c db).0 ≡ ok r
      → (email : List ℕ) × (hash : String) × (create_email c.email ≡ ok email)
        × (M.users.get_one db.users (λ e. codes_eq e.email email) ≡ none)
        × (is_satisfied_by c.password ≡ true)
        × (hash_password A salt c.password ≡ ok hash)
        × ((r.id ≡ c.id) × (r.email ≡ email))
        × Enrols M db
            (register_user M A salt event_id at c db).1
            (enrolled c email hash)
            at
            event_id
  unfolding register_user
  register_user-Enrols c salt event_id at db r answered =
      elim (Result-cases (create_email c.email)) [
        | inr (x, bad) ↦ ground (arith, bad)
        | inl (email, good) ↦
            let reads = find_user_by_email_reads M email db in
            elim (Result-cases (find_user_by_email M email db).0) [
              | inr (x, failed) ↦ ground (arith, good, reads, failed)
              | inl (some u, taken) ↦ ground (arith, good, reads, taken)
              | inl (none, free) ↦ elim (Bool-cases (is_satisfied_by c.password)) [
                | inr weak ↦ ground (arith, good, reads, free, weak)
                | inl strong ↦ elim (Result-cases (hash_password A salt c.password)) [
                  | inr (x, unhashed) ↦ ground (arith, good, reads, free, strong, unhashed)
                  | inl (hash, hashed) ↦
                      let u = register c.id email hash c.role event_id at in
                      elim (Result-cases (save_user M u db).0) [
                        | inr (x, failed) ↦
                            ground (arith, good, reads, free, strong, hashed, failed)
                        | inl (saved, kept) ↦
                            let (is_id, is_email, effect) =
                              save_user-register M c.id email hash c.role event_id at db saved
                                kept in
                            (
                              email,
                              hash,
                              good,
                              find_user_by_email_absent email db free,
                              strong,
                              hashed,
                              ground (
                                arith, good, reads, free, strong, hashed, kept, is_id, is_email,
                                answered,
                              ),
                              subst (λ d. Enrols M db d (enrolled c email hash) at event_id)
                                  {x = (save_user M u db).1}
                                  {y = (register_user M A salt event_id at c db).1}
                                  (ground (arith, good, reads, free, strong, hashed, kept)) effect,
                            )
                      ]
                ]
              ]
            ]
      ]
