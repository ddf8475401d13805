-- ===== src/Auth/Repositories/Reads.antt =====
-- The finders of the account repository read only.
use flatrent.Base.{ℕ, ◌≡◌, refl, List, Uuid}
use flatrent.Auth.Database.{AuthSchema, AuthDb}
use flatrent.Auth.Repositories.{find_user, find_user_by_email}

module _ (M : AuthSchema) where
  pub find_user_reads :
      (id : Uuid) (db : AuthDb M) → find_user M id db ≡ ((find_user M id db).0, db)
  unfolding find_user
  find_user_reads id db = refl

  pub find_user_by_email_reads :
      (email : List ℕ) (db : AuthDb M)
      → find_user_by_email M email db ≡ ((find_user_by_email M email db).0, db)
  unfolding find_user_by_email
  find_user_by_email_reads email db = refl
