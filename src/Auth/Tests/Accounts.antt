-- ===== src/Auth/Tests/Accounts.antt =====
-- The registration of an account, the login that follows, and a change of password.
use flatrent.Shared.Http.{error, answer}
use flatrent.Auth.Statuses.{answer-auth_status}
use flatrent.Auth.Errors.{message, invalid_credentials}
use flatrent.Base.{none}
use flatrent.Base.{◌≡◌, refl, true, none, ◌↔◌, ok}
use flatrent.Base.Text.{codes, trim, to_lower_case}
use flatrent.Auth.Email.{
  create_email, is_email, is_word, ends_in_domain, is_domain, dotted, only_words,
}
use flatrent.Auth.Email.Format.{IsEmail, is_email_iff}
use flatrent.Auth.Errors.{tenant}
use flatrent.Shared.{acknowledge_committed_domain_events}
use flatrent.Auth.Account.{is_satisfied_by}
use flatrent.Auth.Hasher.{hash_password}
use flatrent.Auth.Repositories.{find_user_by_email, save_user, persist_events}
use flatrent.Auth.UseCases.{
  RegisterUserCommand, RegisterUserResult, LoginCommand, register_user, login,
}
use flatrent.Auth.UseCases.Accounts.Credentials.{Grants, opened_row, register_user-login}
use flatrent.Auth.Tests.{sql, marked, no_rows}

abbrev enrolment : RegisterUserCommand
enrolment = record { id = 1; email = codes " A@b.c"; password = "passw0rd"; role = tenant }

abbrev enrolled_result : RegisterUserResult
enrolled_result = record { id = 1; email = codes "a@b.c" }

enrolment_answered : (register_user sql marked 0 9 50 enrolment no_rows).0 ≡ ok enrolled_result
unfolding register_user find_user_by_email is_satisfied_by hash_password save_user persist_events
    acknowledge_committed_domain_events create_email is_email to_lower_case trim is_word
    ends_in_domain is_domain dotted only_words
enrolment_answered = refl

abbrev sign_in : LoginCommand
sign_in = record { email = codes "a@B.c"; raw_password = "passw0rd" }

register_user-login_example :
    Grants sql marked
      (opened_row sql marked 8 1 1 "token" 60)
      "token"
      tenant
      (register_user sql marked 0 9 50 enrolment no_rows).1
      true
      (login sql marked 8 "token" 1 60 sign_in
        (register_user sql marked 0 9 50 enrolment no_rows).1)
unfolding create_email is_email to_lower_case trim is_word ends_in_domain is_domain dotted
    only_words
register_user-login_example =
    register_user-login sql marked enrolment 0 9 50 no_rows enrolled_result sign_in 8 "token" 1 60
      enrolment_answered refl refl refl

is_email_iff_example : (is_email (codes "a@b.c") ≡ true) ↔ IsEmail (codes "a@b.c")
is_email_iff_example = is_email_iff (codes "a@b.c")

answer-auth_status_example :
    (answer 0 (codes "/login") (error (message "failed" invalid_credentials) none)).status ≡ 401
answer-auth_status_example =
    answer-auth_status "failed" 0 (codes "/login") invalid_credentials none refl
