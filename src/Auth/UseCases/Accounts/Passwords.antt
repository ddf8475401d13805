-- ===== src/Auth/UseCases/Accounts/Passwords.antt =====
-- What a change of password checks and stores.
use mathlib.Core.Path.{subst}
use flatrent.Base.{
  ℕ, ◌+◌, ◌≡◌, String, true, none, some, List, [], ◌∷◌, Uuid, Date, ok, inl, inr, arith, ◌==◌,
  Bool-cases, Option-cases, Result-cases, if◌then◌else◌,
}
use flatrent.Auth.Email.{create_email}
use flatrent.Auth.Account.{UserAccount, password_changed_event, change_password, is_satisfied_by}
use flatrent.Auth.Hasher.{Argon2, compare_password, hash_password}
use flatrent.Auth.Database.{AuthSchema, AuthDb, UserAccountEntity, user_to_domain, account_of}
use flatrent.Auth.Repositories.{
  journal_entry, dispatch_row, reactions, persist_deliveries, persist_events, find_user, save_user,
}
use flatrent.Auth.Repositories.Reads.{find_user_reads}
use flatrent.Auth.UseCases.{ChangePasswordCommand, change_password_of}

module _ (M : AuthSchema) where
  -- The event is in the journal and waits for the local dispatcher; it is no integration event.
  abbrev pub Records : AuthDb M → AuthDb M → Uuid → ℕ → Date → Uuid → Type 0
  Records db db' user_id version at event_id =
      let event = password_changed_event user_id at event_id version in
      (M.journal.find_one db'.journal event_id ≡ some (journal_entry 0 event))
      × (M.dispatches.find_one db'.dispatches event_id ≡ some (dispatch_row event))
      × (db'.outbox ≡ db.outbox)
      × (db'.deliveries ≡ db.deliveries)
      × (db'.sessions ≡ db.sessions)
      × (db'.users ≡ db.users)

  persist_changed :
      (user_id : Uuid) (version : ℕ) (at : Date) (event_id : Uuid) (db : AuthDb M)
      → (persist_events M 0 (password_changed_event user_id at event_id version ∷ []) db).0 ≡ ok tt
      → Records db
          (persist_events M 0 (password_changed_event user_id at event_id version ∷ []) db).1
          user_id
          version
          at
          event_id
  unfolding persist_events persist_deliveries reactions
  persist_changed user_id version at event_id db done =
      let event = password_changed_event user_id at event_id version in
      elim (Option-cases (M.journal.save db.journal (journal_entry 0 event))) [
        | inl e ↦ ground (arith, e)
        | inr (js, j) ↦ elim (Option-cases (M.dispatches.save db.dispatches (dispatch_row event))) [
          | inl e ↦ ground (arith, j, e)
          | inr (ds, d) ↦ ground (
            arith,
            j,
            d,
            M.journal.find_one-save db.journal js (journal_entry 0 event) event_id j,
            M.dispatches.find_one-save db.dispatches ds (dispatch_row event) event_id d,
          )
        ]
      ]

  abbrev pub rehashed : UserAccountEntity → List ℕ → String → UserAccountEntity
  rehashed e email hash = record e { email = email; password_hash = hash; version = e.version + 1 }

  -- Only the row of the account changes, and of that the password and the version.
  abbrev pub Rehashes : AuthDb M → AuthDb M → UserAccountEntity → Date → Uuid → Type 0
  Rehashes db db' e at event_id =
      ((k : Uuid)
        → M.users.find_one db'.users k
          ≡ (if e.id == k then some e else M.users.find_one db.users k))
      × (M.journal.find_one db'.journal event_id
          ≡ some (journal_entry 0 (password_changed_event e.id at event_id e.version)))
      × (M.dispatches.find_one db'.dispatches event_id
          ≡ some (dispatch_row (password_changed_event e.id at event_id e.version)))
      × (db'.outbox ≡ db.outbox)
      × (db'.deliveries ≡ db.deliveries)
      × (db'.sessions ≡ db.sessions)

  save_user-change_password :
      (e : UserAccountEntity) (email : List ℕ) (hash : String) (at : Date) (event_id : Uuid)
      (db : AuthDb M) (u : UserAccount)
      → M.users.find_one db.users e.id ≡ some e
      → (save_user M (change_password hash at event_id (account_of e email)) db).0 ≡ ok u
      → Rehashes db
          (save_user M (change_password hash at event_id (account_of e email)) db).1
          (rehashed e email hash)
          at
          event_id
  unfolding save_user change_password
  save_user-change_password e email hash at event_id db u found saved =
      let row = rehashed e email hash in
      elim (Option-cases (M.users.save db.users row)) [
        | inl failed ↦ ground (arith, found, failed)
        | inr (rows, written) ↦
            let db1 : AuthDb M = record db { users = rows } in
            let es = password_changed_event e.id at event_id (e.version + 1) ∷ [] in
            elim (Result-cases (persist_events M 0 es db1).0) [
              | inr (x, failed) ↦ ground (arith, found, written, failed)
              | inl (_, done) ↦
                  let effect = persist_changed e.id (e.version + 1) at event_id db1 done in
                  subst (λ d. Rehashes db d row at event_id) {x = (persist_events M 0 es db1).1}
                    {y = (save_user M (change_password hash at event_id (account_of e email)) db).1}
                    (ground (arith, found, written, done))
                    (
                      λ k.
                          ground (arith, effect, M.users.find_one-save db.users rows row k written),
                      effect.0,
                      effect.1,
                      effect.2,
                      effect.3,
                      effect.4,
                    )
            ]
      ]

module _ (M : AuthSchema) (A : Argon2) where
  find_user-some :
      (id : Uuid) (db : AuthDb M) (u : UserAccount)
      → (find_user M id db).0 ≡ ok (some u)
      → (e : UserAccountEntity) × (email : List ℕ) × (M.users.find_one db.users id ≡ some e)
        × (create_email e.email ≡ ok email)
        × (u ≡ account_of e email)
  unfolding find_user user_to_domain
  find_user-some id db u read = elim (Option-cases (M.users.find_one db.users id)) [
    | inl gone ↦ ground (arith, gone)
    | inr (e, found) ↦ elim (Result-cases (create_email e.email)) [
      | inr (x, bad) ↦ ground (arith, found, bad)
      | inl (email, good) ↦ (e, email, found, good, ground (arith, found, good))
    ]
  ]

  -- A change of password that answers had the current password and a new one that meets the policy. It
  -- stores the hash of the new one, records the event, and changes nothing else: no session is revoked.
  pub change_password_of-Rehashes :
      (c : ChangePasswordCommand) (salt : ℕ) (event_id : Uuid) (at : Date) (db : AuthDb M)
      → (change_password_of M A salt event_id at c db).0 ≡ ok tt
      → (e : UserAccountEntity) × (email : List ℕ) × (hash : String) × (M.users.find_one db.users
            c.user_id
          ≡ some e)
        × (create_email e.email ≡ ok email)
        × (compare_password A c.old_password e.password_hash ≡ true)
        × (is_satisfied_by c.new_password ≡ true)
        × (hash_password A salt c.new_password ≡ ok hash)
        × Rehashes M db
            (change_password_of M A salt event_id at c db).1
            (rehashed M e email hash)
            at
            event_id
  unfolding change_password_of
  change_password_of-Rehashes c salt event_id at db done =
      let reads = find_user_reads M c.user_id db in
      elim (Result-cases (find_user M c.user_id db).0) [
        | inr (x, failed) ↦ ground (arith, reads, failed)
        | inl (none, gone) ↦ ground (arith, reads, gone)
        | inl (some u, read) ↦
            elim (Bool-cases (compare_password A c.old_password u.password_hash)) [
              | inr wrong ↦ ground (arith, reads, read, wrong)
              | inl right ↦ elim (Bool-cases (is_satisfied_by c.new_password)) [
                | inr weak ↦ ground (arith, reads, read, right, weak)
                | inl strong ↦ elim (Result-cases (hash_password A salt c.new_password)) [
                  | inr (x, unhashed) ↦ ground (arith, reads, read, right, strong, unhashed)
                  | inl (hash, hashed) ↦
                      elim (Result-cases (save_user M (change_password hash at event_id u) db).0) [
                        | inr (x, failed) ↦
                            ground (arith, reads, read, right, strong, hashed, failed)
                        | inl (saved, kept) ↦
                            let (e, email, found, good, is_loaded) =
                              find_user-some c.user_id db u read in
                            let is_key = M.users.find_one-key db.users c.user_id e found in
                            (
                              e,
                              email,
                              hash,
                              found,
                              good,
                              ground (arith, right, is_loaded),
                              strong,
                              hashed,
                              subst (λ d. Rehashes M db d (rehashed M e email hash) at event_id)
                                  {x = (save_user M
                                    (change_password hash at event_id (account_of e email)) db).1}
                                  {y = (change_password_of M A salt event_id at c db).1}
                                  (ground
                                    (arith, reads, read, right, strong, hashed, kept, is_loaded))
                                  (save_user-change_password M e email hash at event_id db saved
                                    (ground (arith, found, is_key))
                                    (ground (arith, kept, is_loaded))),
                            )
                      ]
                ]
              ]
            ]
      ]
