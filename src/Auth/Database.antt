-- ===== src/Auth/Database.antt =====
-- The auth database: its tables, one write to each, and the mappers between rows and aggregates,
-- auth/infrastructure/persistence/*.mapper.ts.
mod Entities
pub use Entities.*
use flatrent.Base.{
  ℕ, ◌≡◌, ◌≤◌, String, Bool, true, false, ◌&&◌, ◌||◌, Option, none, some, List, Uuid, Date, Result,
  ok, err, Action, Table, leb, ◌==◌, if◌then◌else◌,
}
use flatrent.Shared.{set_version, new_root}
use flatrent.Auth.Email.{create_email}
use flatrent.Auth.Errors.{Error, database_failure, email_result}
use flatrent.Auth.Account.{UserAccount, new_account}
use flatrent.Auth.Session.{RefreshSession, new_session}

-- The condition of the worker's query.
abbrev pub is_open : DeliveryStatus → Bool
is_open pending = true
is_open retry = true
is_open _ = false

abbrev pub is_due : Date → DomainReactionDeliveryEntity → Bool
is_due now r = is_open r.status && leb r.available_at now

-- The deliveries, under their keys of three columns. `due` is the query for the open delivery that
-- has been available for longest.
pub record DeliveryTable (S : Type 0) : Type 0 where
  pub find : S → DeliveryKey → Option DomainReactionDeliveryEntity
  pub due : S → Date → Option DomainReactionDeliveryEntity
  pub save : S → DomainReactionDeliveryEntity → Option S
  pub find-save :
      (s s' : S) (r : DomainReactionDeliveryEntity) (k : DeliveryKey)
      → save s r ≡ some s'
      → find s' k ≡ (if delivery_key_eq r.key k then some r else find s k)
  pub due-some :
      (s : S) (now : Date) (r : DomainReactionDeliveryEntity)
      → due s now ≡ some r
      → (is_due now r ≡ true) × (find s r.key ≡ some r)
  pub due-none :
      (s : S) (now : Date) (k : DeliveryKey) (r : DomainReactionDeliveryEntity)
      → due s now ≡ none
      → find s k ≡ some r
      → is_due now r ≡ false

abbrev pub revoked_if : Uuid → Option RefreshSessionEntity → Option RefreshSessionEntity
revoked_if user_id none = none
revoked_if user_id (some r) =
    if r.user_id == user_id then some (record r { is_revoked = true }) else some r

pub record AuthSchema : Type 1 where
  pub Users : Type 0
  pub Sessions : Type 0
  pub Journal : Type 0
  pub Dispatches : Type 0
  pub Deliveries : Type 0
  pub Outbox : Type 0
  pub users : Table Users UserAccountEntity (λ r. r.id)
  pub sessions : Table Sessions RefreshSessionEntity (λ r. r.id)
  pub journal : Table Journal AuthJournalEntity (λ r. r.event_id)
  pub dispatches : Table Dispatches LocalEventDispatchEntity (λ r. r.event_id)
  pub deliveries : DeliveryTable Deliveries
  pub outbox : Table Outbox AuthOutboxEntity (λ r. r.message_id)
  -- `update({ userId }, { isRevoked: true })`
  pub revoke_all : Sessions → Uuid → Option Sessions
  pub find_one-revoke_all :
      (s s' : Sessions) (user_id k : Uuid)
      → revoke_all s user_id ≡ some s'
      → sessions.find_one s' k ≡ revoked_if user_id (sessions.find_one s k)

pub record AuthDb (M : AuthSchema) : Type 0 where
  pub users : M.Users
  pub sessions : M.Sessions
  pub journal : M.Journal
  pub dispatches : M.Dispatches
  pub deliveries : M.Deliveries
  pub outbox : M.Outbox

module _ (M : AuthSchema) where
  abbrev pub save_user_row : UserAccountEntity → Action (AuthDb M) Error (Unit {0})
  save_user_row r db = elim (M.users.save db.users r) [
    | none ↦ (err database_failure, db)
    | some rows ↦ (ok tt, record db { users = rows })
  ]

  abbrev pub save_session_row : RefreshSessionEntity → Action (AuthDb M) Error (Unit {0})
  save_session_row r db = elim (M.sessions.save db.sessions r) [
    | none ↦ (err database_failure, db)
    | some rows ↦ (ok tt, record db { sessions = rows })
  ]

  abbrev pub save_journal_row : AuthJournalEntity → Action (AuthDb M) Error (Unit {0})
  save_journal_row r db = elim (M.journal.save db.journal r) [
    | none ↦ (err database_failure, db)
    | some rows ↦ (ok tt, record db { journal = rows })
  ]

  abbrev pub save_dispatch_row : LocalEventDispatchEntity → Action (AuthDb M) Error (Unit {0})
  save_dispatch_row r db = elim (M.dispatches.save db.dispatches r) [
    | none ↦ (err database_failure, db)
    | some rows ↦ (ok tt, record db { dispatches = rows })
  ]

  abbrev pub save_delivery_row : DomainReactionDeliveryEntity → Action (AuthDb M) Error (Unit {0})
  save_delivery_row r db = elim (M.deliveries.save db.deliveries r) [
    | none ↦ (err database_failure, db)
    | some rows ↦ (ok tt, record db { deliveries = rows })
  ]

  abbrev pub save_outbox_row : AuthOutboxEntity → Action (AuthDb M) Error (Unit {0})
  save_outbox_row r db = elim (M.outbox.save db.outbox r) [
    | none ↦ (err database_failure, db)
    | some rows ↦ (ok tt, record db { outbox = rows })
  ]

-- user-account.mapper.ts; the constructor of the e-mail checks the row's.
abbrev pub user_to_entity : UserAccount → UserAccountEntity
user_to_entity u = record {
  id = u.id;
  email = u.email;
  password_hash = u.password_hash;
  role = u.role;
  status = u.status;
  version = u.aggregate_version;
}

abbrev pub account_of : UserAccountEntity → List ℕ → UserAccount
account_of e email =
    let user : UserAccount = new_account e.id email e.password_hash e.role e.status in
    record user { root = set_version e.version user.root }

unfoldable pub user_to_domain : UserAccountEntity → Result Error UserAccount
user_to_domain e = elim (email_result (create_email e.email)) [
  | ok email ↦ ok (account_of e email)
  | err x ↦ err x
]

-- refresh-session.mapper.ts
abbrev pub session_to_entity : RefreshSession → RefreshSessionEntity
session_to_entity s = record {
  id = s.id;
  user_id = s.user_id;
  token_hash = s.token_hash;
  expires_at = s.expires_at;
  is_revoked = s.is_revoked;
  version = s.aggregate_version;
}

abbrev pub session_to_domain : RefreshSessionEntity → RefreshSession
session_to_domain e = record {
  root = set_version e.version (new_root e.id);
  user_id = e.user_id;
  token_hash = e.token_hash;
  expires_at = e.expires_at;
  is_revoked = e.is_revoked;
}
