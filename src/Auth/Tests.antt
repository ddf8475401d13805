-- ===== src/Auth/Tests.antt =====
-- The theorems on the auth module at concrete inputs, with the tables kept in lists. The hash of a
-- password is the password behind a mark.
mod Accounts
mod Sessions
mod Racing
mod Answering
mod Issuing
mod Reactions
use flatrent.Base.{
  Date, Bool-cases, inl, inr, false, ℕ, ◌≡◌, refl, String, Bool, true, false, ◌&&◌, Option, none,
  some, List, [], ◌∷◌, map, Uuid, ◌==◌, if◌then◌else◌, Result, ok, err, arith,
}
use text.Mathlib.Text.{◌==◌ as str_eq}
use flatrent.Auth.Reactions.Execution.{delivery_key_eq_refl}
use flatrent.Auth.Reactions.Attempts.{delivery_key_eq_sound}
use flatrent.Base.Memory.{memory, find_row}
use flatrent.Base.Text.{codes}
use flatrent.Auth.Hasher.{Argon2}
use flatrent.Auth.Errors.{active, tenant, landlord}
use flatrent.Auth.Database.{
  AuthSchema, AuthDb, DeliveryTable, DeliveryKey, DomainReactionDeliveryEntity, delivery_key_eq,
  is_due, UserAccountEntity, RefreshSessionEntity, revoked_if,
}

abbrev pub marked : Argon2
marked = record {
  hash = λ salt p. String.◌∷◌ "h" p;
  verify = λ h given. elim h [ String.[] ↦ none | String.◌∷◌ c p ↦ some (str_eq p given) ];
  verify-hash = λ salt p given. refl;
  is_empty-hash = λ salt p. refl;
}

-- A table with room for one delivery.
abbrev pub find_slot :
    Option DomainReactionDeliveryEntity → DeliveryKey → Option DomainReactionDeliveryEntity
find_slot none k = none
find_slot (some r) k = if delivery_key_eq r.key k then some r else none

abbrev pub due_slot :
    Option DomainReactionDeliveryEntity → Date → Option DomainReactionDeliveryEntity
due_slot none now = none
due_slot (some r) now = if is_due now r then some r else none

abbrev pub save_slot :
    Option DomainReactionDeliveryEntity
    → DomainReactionDeliveryEntity
    → Option (Option DomainReactionDeliveryEntity)
save_slot none r = some (some r)
save_slot (some x) r = if delivery_key_eq x.key r.key then some (some r) else none

pub find_slot-save_slot :
    (s s' : Option DomainReactionDeliveryEntity) (r : DomainReactionDeliveryEntity)
    (k : DeliveryKey)
    → save_slot s r ≡ some s'
    → find_slot s' k ≡ (if delivery_key_eq r.key k then some r else find_slot s k)
find_slot-save_slot none s' r k e = ground (arith, e)
find_slot-save_slot (some x) s' r k e = elim (Bool-cases (delivery_key_eq x.key r.key)) [
  | inr other ↦ absurd (ground (arith, other, e))
  | inl here ↦ ground (arith, here, e, delivery_key_eq_sound x.key r.key here)
]

pub due_slot-some :
    (s : Option DomainReactionDeliveryEntity) (now : Date) (r : DomainReactionDeliveryEntity)
    → due_slot s now ≡ some r
    → (is_due now r ≡ true) × (find_slot s r.key ≡ some r)
due_slot-some none now r e = absurd (ground (arith, e))
due_slot-some (some x) now r e = elim (Bool-cases (is_due now x)) [
  | inr idle ↦ absurd (ground (arith, idle, e))
  | inl due ↦ ground (arith, due, e, delivery_key_eq_refl x.key)
]

pub due_slot-none :
    (s : Option DomainReactionDeliveryEntity) (now : Date) (k : DeliveryKey)
    (r : DomainReactionDeliveryEntity)
    → due_slot s now ≡ none
    → find_slot s k ≡ some r
    → is_due now r ≡ false
due_slot-none none now k r e h = absurd (ground (arith, h))
due_slot-none (some x) now k r e h = ground (arith, e, h)

abbrev pub one_delivery : DeliveryTable (Option DomainReactionDeliveryEntity)
one_delivery = record {
  find = find_slot;
  due = due_slot;
  save = save_slot;
  find-save = find_slot-save_slot;
  due-some = due_slot-some;
  due-none = due_slot-none;
}

abbrev pub revoke_row : Uuid → RefreshSessionEntity → RefreshSessionEntity
revoke_row user_id r = if r.user_id == user_id then record r { is_revoked = true } else r

pub find_row-revoke_row :
    (rows : List RefreshSessionEntity) (user_id k : Uuid)
    → find_row (λ r. r.id) (map (revoke_row user_id) rows) k
      ≡ revoked_if user_id (find_row (λ r. r.id) rows k)
find_row-revoke_row [] user_id k = refl
find_row-revoke_row (r ∷ rows) user_id k = ground (arith, find_row-revoke_row rows user_id k)

pub find_one-revoke_rows :
    (s s' : List RefreshSessionEntity) (user_id k : Uuid)
    → some (map (revoke_row user_id) s) ≡ some s'
    → find_row (λ r. r.id) s' k ≡ revoked_if user_id (find_row (λ r. r.id) s k)
find_one-revoke_rows s s' user_id k e = ground (arith, e, find_row-revoke_row s user_id k)

abbrev pub sql : AuthSchema
sql = record {
  Users = _;
  Sessions = _;
  Journal = _;
  Dispatches = _;
  Deliveries = _;
  Outbox = _;
  users = memory (λ r. r.id) (λ s r. true);
  sessions = memory (λ r. r.id) (λ s r. true);
  journal = memory (λ r. r.event_id) (λ s r. true);
  dispatches = memory (λ r. r.event_id) (λ s r. true);
  deliveries = one_delivery;
  outbox = memory (λ r. r.message_id) (λ s r. true);
  revoke_all = λ s user_id. some (map (revoke_row user_id) s);
  find_one-revoke_all = find_one-revoke_rows;
}

abbrev pub no_rows : AuthDb sql
no_rows = record {
  users = [];
  sessions = [];
  journal = [];
  dispatches = [];
  deliveries = none;
  outbox = [];
}

abbrev pub account : UserAccountEntity
account = record {
  id = 1;
  email = codes "a@b.c";
  password_hash = "hpassw0rd";
  role = tenant;
  status = active;
  version = 0;
}

abbrev pub session : RefreshSessionEntity
session = record {
  id = 7;
  user_id = 1;
  token_hash = "hfirst";
  expires_at = 1000;
  is_revoked = false;
  version = 0;
}

abbrev pub signed_in : AuthDb sql
signed_in = record no_rows { users = account ∷ []; sessions = session ∷ [] }
