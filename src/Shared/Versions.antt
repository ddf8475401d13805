-- ===== src/Shared/Versions.antt =====
-- The optimistic lock of the TypeORM repositories of both modules: the version that an update writes,
-- or 0 for a row that is not there yet, or `mismatch`.
use flatrent.Base.{ℕ, ◌+◌, Option, none, some, Result, ok, err, Uuid, ◌==◌, if◌then◌else◌}

-- '00000000-0000-0000-0000-000000000000'
abbrev pub nil_uuid : Uuid
nil_uuid = 0

module _ {E : Type 0} (mismatch : E) where
  -- Where `save` counts the update.
  abbrev pub next_version : ℕ → Option ℕ → Result E ℕ
  next_version current none = ok 0
  next_version current (some stored) = if stored == current then ok (current + 1) else err mismatch

  -- Where the aggregate has counted it.
  abbrev pub counted_version : ℕ → Option ℕ → Result E ℕ
  counted_version current none = ok 0
  counted_version current (some stored) =
      if (stored + 1) == current then ok current else err mismatch

abbrev pub version_of : {Row : Type 0} → (Row → ℕ) → Option Row → Option ℕ
version_of version none = none
version_of version (some r) = some (version r)

-- `incrementVersion()` on an update only
abbrev pub increment_on_update : {Row A : Type 0} → (A → A) → Option Row → A → A
increment_on_update increment none a = a
increment_on_update increment (some _) a = increment a
