-- ===== src/Auth/Tests/Answering.antt =====
-- The theorems on the routes of the auth module at concrete inputs.
use flatrent.Base.{ℕ, ◌≡◌, refl, String, true, some, none, List, [], ok}
use flatrent.Base.Text.{codes, codes_eq, trim, to_lower_case}
use flatrent.Shared.{acknowledge_committed_domain_events}
use flatrent.Shared.Validation.{Zod}
use flatrent.Auth.Email.{
  create_email, is_email, is_word, ends_in_domain, is_domain, dotted, only_words,
}
use flatrent.Auth.Account.{change_password, is_satisfied_by}
use flatrent.Auth.Hasher.{hash_password, compare_password}
use flatrent.Auth.Database.{user_to_domain, UserAccountEntity}
use flatrent.Auth.Repositories.{
  find_user, find_user_by_email, save_user, persist_events, persist_deliveries, reactions,
}
use flatrent.Auth.UseCases.{register_user, change_password_of}
use flatrent.Auth.UseCases.Accounts.Registration.{Enrols, enrolled}
use flatrent.Auth.UseCases.Accounts.Passwords.{Rehashes, rehashed}
use flatrent.Auth.Tokens.{issue_access_token, guard}
use flatrent.Auth.Tokens.Lifetime.{is_current}
use flatrent.Auth.Controller.{
  RegisterBody, LoginBody, ChangePasswordBody, register_issues, register_command, register_route,
  login_route, change_password_route,
}
use flatrent.Auth.Controller.Answers.{
  rejection, login_route_uniform, register_route-Enrols, change_password_route-Rehashes,
}
use flatrent.Auth.Tests.{sql, marked, no_rows, signed_in}
use flatrent.Auth.Tests.Issuing.{library, payload}

abbrev zod : Zod
zod = record {
  is_uuid = λ s. true;
  is_email = λ s. true;
  is_datetime = λ s. true;
  reason = λ check value. codes "Invalid";
  negative_reason = codes "Number must be greater than or equal to 0";
  missing_record = codes "Required";
  message_of = λ issues. codes "Invalid";
  uuid_of = λ s. 1;
  date_of = λ s. 0;
}

abbrev register_body : RegisterBody
register_body = record {
  id = some "1";
  email = some "a@b.c";
  password = some "passw0rd";
  role = some "TENANT";
}

register_created :
    (register_route zod sql marked "driver" 0 (codes "/") 0 9 50 register_body no_rows).0.status
    ≡ 201
unfolding register_route register_user find_user_by_email is_satisfied_by hash_password save_user
    persist_events acknowledge_committed_domain_events create_email is_email to_lower_case trim
    is_word ends_in_domain is_domain dotted only_words
register_created = refl

register_route-Enrols_example :
    (register_issues zod register_body ≡ [])
    × (email : List ℕ) × (hash : String) × (create_email (codes "a@b.c") ≡ ok email)
    × (sql.users.get_one no_rows.users (λ e. codes_eq e.email email) ≡ none)
    × (hash_password marked 0 "passw0rd" ≡ ok hash)
    × Enrols sql no_rows
        (register_route zod sql marked "driver" 0 (codes "/") 0 9 50 register_body no_rows).1
        (enrolled sql marked (register_command zod register_body) email hash)
        50
        9
register_route-Enrols_example =
    register_route-Enrols zod sql marked "driver" 0 (codes "/") 0 9 50 register_body no_rows
      register_created

abbrev stranger : LoginBody
stranger = record { email = some "x@y.z"; password = some "passw0rd" }

abbrev forgetful : LoginBody
forgetful = record { email = some "a@b.c"; password = some "wr0ngword" }

login_route_uniform_example :
    (login_route zod sql marked "driver" 0 (codes "/") 8 "token" 0 60 stranger signed_in
      ≡ (rejection zod sql marked "driver" 0 (codes "/"), signed_in))
    × (login_route zod sql marked "driver" 0 (codes "/") 9 "other" 1 61 forgetful signed_in
        ≡ (rejection zod sql marked "driver" 0 (codes "/"), signed_in))
    × ((rejection zod sql marked "driver" 0 (codes "/")).status ≡ 401)
unfolding find_user_by_email user_to_domain create_email compare_password is_email to_lower_case
    trim is_word ends_in_domain is_domain dotted only_words
login_route_uniform_example =
    login_route_uniform zod sql marked "driver" 0 (codes "/") 8 9 "token" "other" 0 1 60 61 stranger
      forgetful signed_in signed_in (refl, codes "x@y.z", refl, refl)
      (refl, codes "a@b.c", _, refl, refl, refl, refl)

abbrev change_body : ChangePasswordBody
change_body = record { old_password = some "passw0rd"; new_password = some "n3wsecret" }

change_accepted :
    (change_password_route zod sql marked "driver" 0
      (codes "/")
      library
      3
      899
      (some (issue_access_token library 3 0 40 payload))
      2
      10
      70
      change_body
      signed_in).0.status
    ≡ 204
unfolding change_password_route guard issue_access_token change_password_of find_user user_to_domain
    compare_password is_satisfied_by hash_password save_user change_password persist_events
    persist_deliveries reactions acknowledge_committed_domain_events create_email is_email
    to_lower_case trim is_word ends_in_domain is_domain dotted only_words
change_accepted = refl

change_password_route-Rehashes_example :
    (is_current library 3 899 0 ≡ true)
    × (e : UserAccountEntity) × (email : List ℕ) × (hash : String) × (sql.users.find_one
          signed_in.users 1
        ≡ some e)
    × (create_email e.email ≡ ok email)
    × (compare_password marked "passw0rd" e.password_hash ≡ true)
    × (hash_password marked 2 "n3wsecret" ≡ ok hash)
    × Rehashes sql signed_in
        (change_password_route zod sql marked "driver" 0
          (codes "/")
          library
          3
          899
          (some (issue_access_token library 3 0 40 payload))
          2
          10
          70
          change_body
          signed_in).1
        (rehashed sql e email hash)
        70
        10
change_password_route-Rehashes_example =
    change_password_route-Rehashes zod sql marked "driver" 0 (codes "/") library 3 899 0 40 payload
      2 10 70 change_body signed_in change_accepted
