-- ===== src/Shared/Metrics.antt =====
-- The metrics and the health of a process: shared/infrastructure/metrics, shared/infrastructure/health
-- and the two routes in shared/interfaces/http that show them. Texts are lists of character codes, and
-- how JavaScript writes a number is an argument. The names of queues are not the digits of an index,
-- which an object would put first.
pub mod History
use text.Mathlib.Text.{◌==◌ as str_eq}
use text.Mathlib.TextEquality.{eq_iff}
use flatrent.Base.{
  ℕ, ◌+◌, ◌≡◌, refl, String, Bool, true, false, Option, none, some, List, [], ◌∷◌, ◌++◌, inl, inr,
  Bool-cases, arith, if◌then◌else◌,
}
use flatrent.Base.Int.{ℤ, pos}
use flatrent.Base.Text.{codes}
use flatrent.Shared.Http.{Text}

pub record MetricsRegistry : Type 0 where
  pub queue_lag : List (String × ℤ)
  pub outbox_retry_attempts : ℕ
  pub inbox_retry_attempts : ℕ
  pub redis_degraded : ℕ

abbrev pub new_registry : MetricsRegistry
new_registry = record {
  queue_lag = [];
  outbox_retry_attempts = 0;
  inbox_retry_attempts = 0;
  redis_degraded = 0;
}

-- `o[queue] = lag`: the value of a property that is there changes at its place.
unfoldable pub put : String → ℤ → List (String × ℤ) → List (String × ℤ)
put queue lag [] = (queue, lag) ∷ []
put queue lag ((q, l) ∷ rest) =
    let later = put queue lag rest in if str_eq q queue then (q, lag) ∷ rest else (q, l) ∷ later

abbrev pub set_queue_lag : String → ℤ → MetricsRegistry → MetricsRegistry
set_queue_lag queue lag_ms m = record m { queue_lag = put queue lag_ms m.queue_lag }

abbrev pub increment_outbox_retry : MetricsRegistry → MetricsRegistry
increment_outbox_retry m = record m { outbox_retry_attempts = m.outbox_retry_attempts + 1 }

abbrev pub increment_inbox_retry : MetricsRegistry → MetricsRegistry
increment_inbox_retry m = record m { inbox_retry_attempts = m.inbox_retry_attempts + 1 }

abbrev pub set_redis_degraded : Bool → MetricsRegistry → MetricsRegistry
set_redis_degraded degraded m = record m { redis_degraded = if degraded then 1 else 0 }

abbrev end_line : Text
end_line = 10 ∷ []

module _ (number : ℤ → Text) where
  abbrev pub lag_line : String → ℤ → Text
  lag_line queue lag =
      codes "flatren_queue_lag_ms{queue=\"" ++ codes queue ++ codes "\"} " ++ number lag ++ end_line

  unfoldable pub lag_lines : List (String × ℤ) → Text
  lag_lines [] = []
  lag_lines ((queue, lag) ∷ rest) = lag_line queue lag ++ lag_lines rest

  unfoldable pub get_prometheus_metrics : MetricsRegistry → Text
  get_prometheus_metrics m =
      codes "# HELP flatren_queue_lag_ms Age or delay of messages in a queue in milliseconds"
      ++ end_line
      ++ codes "# TYPE flatren_queue_lag_ms gauge"
      ++ end_line
      ++ lag_lines m.queue_lag
      ++ end_line
      ++ codes "# HELP flatren_outbox_retry_attempts_total Total outbox retry attempts made"
      ++ end_line
      ++ codes "# TYPE flatren_outbox_retry_attempts_total counter"
      ++ end_line
      ++ codes "flatren_outbox_retry_attempts_total "
      ++ number (pos m.outbox_retry_attempts)
      ++ end_line
      ++ end_line
      ++ codes "# HELP flatren_inbox_retry_attempts_total Total inbox retry attempts made"
      ++ end_line
      ++ codes "# TYPE flatren_inbox_retry_attempts_total counter"
      ++ end_line
      ++ codes "flatren_inbox_retry_attempts_total "
      ++ number (pos m.inbox_retry_attempts)
      ++ end_line
      ++ end_line
      ++ codes
          "# HELP flatren_redis_degraded Shows if Redis cache-aside is degraded (1) or healthy (0)"
      ++ end_line
      ++ codes "# TYPE flatren_redis_degraded gauge"
      ++ end_line
      ++ codes "flatren_redis_degraded "
      ++ number (pos m.redis_degraded)
      ++ end_line

-- `HealthStateService`: whether the process shuts down.
abbrev pub before_application_shutdown : Bool → Bool
before_application_shutdown is_shutting_down = true

-- What the route of the health answers: the status of the body, and the status of the answer.
abbrev pub get_status : Bool → String × ℕ
get_status is_shutting_down = if is_shutting_down then ("shutting_down", 503) else ("UP", 200)
