-- ===== src/Auth/Tests/Sessions.antt =====
-- The refresh sessions of one account.
use flatrent.Base.{◌+◌, ◌≡◌, refl, true, false, [], ◌∷◌, ◌⊎◌, err}
use flatrent.Base.Text.{codes, trim, to_lower_case}
use flatrent.Auth.Errors.{database_failure}
use flatrent.Auth.Hasher.{hash_password, compare_password}
use flatrent.Auth.Database.{account_of, user_to_domain}
use flatrent.Auth.Account.{UserAccount}
use flatrent.Auth.Email.{
  create_email, is_email, is_word, ends_in_domain, is_domain, dotted, only_words,
}
use flatrent.Auth.Repositories.{save_session, find_user_by_email}
use flatrent.Auth.UseCases.{
  RefreshTokenCommand, LoginCommand, LoginResult, thirty_days, refresh_token, login,
}
use flatrent.Auth.UseCases.Sessions.{Ticket, live, Represents, HasRow, Refines, present}
use flatrent.Auth.UseCases.Sessions.Rows.{compare_password-hash_password}
use flatrent.Auth.UseCases.Sessions.Refinement.{refresh_token-Refines}
use flatrent.Auth.UseCases.Sessions.Opening.{Admits, told, login_opens}
use flatrent.Auth.UseCases.Sessions.Lifetime.{
  Attempt, attempt, attempts, all_refused, attempts_after_reuse,
}
use flatrent.Auth.Tests.{sql, marked, signed_in, account, session}

abbrev pub ticket : Ticket
ticket = record { owner = 1; secret = "first"; deadline = 1000 }

pub session_row : HasRow sql marked signed_in 7 false ticket
unfolding hash_password
session_row = (
  session,
  refl,
  refl,
  (refl, refl, λ given. compare_password-hash_password sql marked 0 "first" "hfirst" given refl),
)

abbrev request : RefreshTokenCommand
request = record { session_id = 7; refresh_token = "first" }

refresh_token-Refines_example :
    Refines sql marked signed_in 7 "second"
      (refresh_token sql marked "second" 0 900 request signed_in)
      (present "first" "second" 900 (live ticket))
refresh_token-Refines_example =
    refresh_token-Refines sql marked request "second" 0 900 signed_in (live ticket) refl session_row

abbrev stolen : Attempt
stolen = record { token = "guess"; next = "third"; salt = 0; now = 900 }

abbrev own : Attempt
own = record { token = "first"; next = "fourth"; salt = 0; now = 901 }

attempts_after_reuse_example :
    ((attempt sql marked 7 stolen signed_in).0 ≡ err database_failure)
    ⊎ (all_refused (attempts sql marked 7 (stolen ∷ own ∷ []) signed_in) ≡ true)
attempts_after_reuse_example =
    attempts_after_reuse sql marked 7 stolen (own ∷ []) signed_in ticket refl session_row refl

abbrev sign_in : LoginCommand
sign_in = record { email = codes "A@b.c"; raw_password = "passw0rd" }

abbrev signed : LoginResult
signed = told sql marked 8 "token" (account_of account account.email)

login_opens_example :
    (u : UserAccount) × Admits sql marked sign_in signed_in u
    × (signed ≡ told sql marked 8 "token" u)
    × Represents sql marked
        (login sql marked 8 "token" 0 100 sign_in signed_in).1
        8
        (live (record { owner = u.id; secret = "token"; deadline = 100 + thirty_days }))
unfolding login save_session find_user_by_email user_to_domain create_email hash_password
    compare_password is_email to_lower_case trim is_word ends_in_domain is_domain dotted only_words
login_opens_example = login_opens sql marked sign_in 8 "token" 0 100 signed_in signed refl refl refl
