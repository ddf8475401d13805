-- ===== src/Auth/Account.antt =====
-- The user account, auth/domain/model/user-account.aggregate.ts, its events, and the password policy,
-- auth/domain/policies/password.policy.ts.
use flatrent.Base.{
  ℕ, String, Bool, true, false, ◌&&◌, ◌||◌, List, Uuid, Date, length, some_of, ltb, leb, ◌==◌,
  if◌then◌else◌,
}
use flatrent.Base.Text.{codes}
use flatrent.Shared.{DomainEvent, AggregateRoot, new_root, record_domain_event, increment_version}
use flatrent.Auth.Errors.{UserStatus, active, blocked, UserRole}

-- The payloads of the module's events.
pub data AuthPayload : Type 0 where
  -- `UserRegisteredPayload`: the e-mail and the role
  user_registered : List ℕ → UserRole → AuthPayload
  -- the id of the user
  password_changed : Uuid → AuthPayload

pub record UserAccount : Type 0 where
  pub root : AggregateRoot AuthPayload
  pub open root use *
  pub email : List ℕ
  pub password_hash : String
  pub role : UserRole
  pub status : UserStatus

abbrev pub new_account : Uuid → List ℕ → String → UserRole → UserStatus → UserAccount
new_account id email password_hash role status = record {
  root = new_root id;
  email = email;
  password_hash = password_hash;
  role = role;
  status = status;
}

-- `new UserRegisteredDomainEvent(…)`
abbrev pub registered_event : Uuid → List ℕ → UserRole → Date → Uuid → DomainEvent AuthPayload
registered_event id email role occurred_at event_id = record {
  event_id = event_id;
  event_type = "UserRegisteredDomainEvent";
  event_version = 1;
  occurred_at = occurred_at;
  aggregate_id = id;
  aggregate_type = "UserAccount";
  aggregate_version = 0;
  payload = user_registered email role;
}

-- `new PasswordChangedDomainEvent(…)`
abbrev pub password_changed_event : Uuid → Date → Uuid → ℕ → DomainEvent AuthPayload
password_changed_event id occurred_at event_id version = record {
  event_id = event_id;
  event_type = "PasswordChangedDomainEvent";
  event_version = 1;
  occurred_at = occurred_at;
  aggregate_id = id;
  aggregate_type = "UserAccount";
  aggregate_version = version;
  payload = password_changed id;
}

-- `UserAccount.register`
abbrev pub register : Uuid → List ℕ → String → UserRole → Uuid → Date → UserAccount
register id email password_hash role event_id occurred_at =
    let user : UserAccount = new_account id email password_hash role active in
    record user {
      root = record_domain_event (registered_event id email role occurred_at event_id) user.root;
    }

abbrev pub is_blocked : UserAccount → Bool
is_blocked user = elim (user.status) [ blocked ↦ true | active ↦ false ]

unfoldable pub change_password : String → Date → Uuid → UserAccount → UserAccount
change_password new_hash occurred_at event_id user =
    let root : AggregateRoot AuthPayload = increment_version user.root in
    record user {
      password_hash = new_hash;
      root =
          record_domain_event
            (password_changed_event user.id occurred_at event_id root.aggregate_version) root;
    }

unfoldable pub block : UserAccount → UserAccount
block user = elim (user.status) [
  | blocked ↦ user
  | active ↦ record user { status = blocked; root = increment_version user.root }
]

-- `[a-zA-Z]` and `[0-9]`
abbrev pub is_letter : ℕ → Bool
is_letter c = (leb b'a' c && leb c b'z') || (leb b'A' c && leb c b'Z')

abbrev pub is_digit : ℕ → Bool
is_digit c = leb b'0' c && leb c b'9'

abbrev pub min_length : ℕ
min_length = 8

-- `PasswordPolicy.isSatisfiedBy`; the length counts character codes.
unfoldable pub is_satisfied_by : String → Bool
is_satisfied_by password =
    let s : List ℕ = codes password in
    if length s == 0
    then false
    else if ltb (length s) min_length
    then false
    else some_of is_letter s && some_of is_digit s
