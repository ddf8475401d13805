-- ===== src/Tenancy/Tests/Consumer.antt =====
-- The theorems on the readiness of units at concrete inputs.
use flatrent.Base.{ℕ, ◌≡◌, refl, String, true, false, List, [], ◌∷◌, Date, ok, err}
use flatrent.Base.Int.{pos}
use flatrent.Tenancy.Database.{Db}
use flatrent.Tenancy.Readiness.{Payload, Envelope, advance, duplicate_message_skip, process}
use flatrent.Tenancy.Readiness.Consumer.{process_all, process_twice}
use flatrent.Tenancy.Tests.{sql, with_invitation}

abbrev hash : Payload → String
hash m = "hash"

abbrev opening : Payload
opening = record { request_id = 8; rental_unit_id = 2; is_blocking = true; version = pos 0 }

abbrev sent : ℕ → Payload → Envelope
sent id m = record { message_id = id; event_type = "E"; event_version = 1; payload = m }

abbrev db_after : Envelope → Db sql
db_after e = (process sql hash 9 e with_invitation).1

opens : process sql hash 9 (sent 30 opening) with_invitation ≡ (ok tt, db_after (sent 30 opening))
unfolding process advance
opens = refl

-- Another message comes in between.
abbrev between : List (Date × Envelope)
between = (12, sent 31 (record opening { is_blocking = false; version = pos 1 })) ∷ []

process_twice_example :
    process sql hash 15
      (sent 30 opening)
      (process_all sql hash between (db_after (sent 30 opening)))
    ≡ (err duplicate_message_skip, process_all sql hash between (db_after (sent 30 opening)))
process_twice_example =
    process_twice sql hash 9 15 (sent 30 opening) with_invitation (db_after (sent 30 opening))
      between opens
