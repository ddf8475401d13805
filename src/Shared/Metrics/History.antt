-- ===== src/Shared/Metrics/History.antt =====
-- What the registry of shared/infrastructure/metrics keeps of the calls that it has had.
use text.Mathlib.Text.{◌==◌ as str_eq}
use text.Mathlib.TextEquality.{eq_iff}
use flatrent.Base.{
  ℕ, ◌+◌, ◌≡◌, refl, sym, ap, ◌∙◌, String, Bool, Option, none, some, List, [], ◌∷◌, inl, inr,
  Bool-cases, arith, if◌then◌else◌,
}
use flatrent.Base.Int.{ℤ}
use flatrent.Shared.Metrics.{
  MetricsRegistry, put, set_queue_lag, increment_outbox_retry, increment_inbox_retry,
  set_redis_degraded,
}

data Call : Type 0 where
  lag : String → ℤ → Call
  outbox_retry inbox_retry : Call
  redis : Bool → Call

abbrev call : Call → MetricsRegistry → MetricsRegistry
call (lag queue lag_ms) = set_queue_lag queue lag_ms
call outbox_retry = increment_outbox_retry
call inbox_retry = increment_inbox_retry
call (redis degraded) = set_redis_degraded degraded

unfoldable run : List Call → MetricsRegistry → MetricsRegistry
run [] m = m
run (c ∷ cs) m = run cs (call c m)

abbrev lag_of : String → List (String × ℤ) → Option ℤ
lag_of queue [] = none
lag_of queue ((q, l) ∷ rest) = if str_eq q queue then some l else lag_of queue rest

-- The last lag that the calls give for a queue, or else the lag before.
abbrev last_lag : String → List Call → Option ℤ → Option ℤ
last_lag queue [] before = before
last_lag queue (lag q l ∷ cs) before = last_lag queue cs (if str_eq q queue then some l else before)
last_lag queue (_ ∷ cs) before = last_lag queue cs before

abbrev outbox_retries : List Call → ℕ
outbox_retries [] = 0
outbox_retries (outbox_retry ∷ cs) = 1 + outbox_retries cs
outbox_retries (_ ∷ cs) = outbox_retries cs

abbrev inbox_retries : List Call → ℕ
inbox_retries [] = 0
inbox_retries (inbox_retry ∷ cs) = 1 + inbox_retries cs
inbox_retries (_ ∷ cs) = inbox_retries cs

lag_of-put :
    (queue q : String) (l : ℤ) (lags : List (String × ℤ))
    → lag_of queue (put q l lags) ≡ (if str_eq q queue then some l else lag_of queue lags)
unfolding put
lag_of-put queue q l [] = refl
lag_of-put queue q l ((q', l') ∷ rest) = elim (Bool-cases (str_eq q' q)) [
  | inl same ↦
      ground
        (arith, same, lag_of-put queue q l rest, ap (λ x. str_eq x queue) ((eq_iff q' q).0 same))
  | inr other ↦ elim (Bool-cases (str_eq q' queue)) [
    | inr miss ↦ ground (arith, other, miss, lag_of-put queue q l rest)
    | inl hit ↦ elim (Bool-cases (str_eq q queue)) [
      | inr another ↦ ground (arith, other, hit, another)
      | inl here ↦ absurd (
          ground (
            arith,
            other,
            (eq_iff q' q).1 ((eq_iff q' queue).0 hit ∙ sym ((eq_iff q queue).0 here)),
          ))
    ]
  ]
]

-- Whatever calls the registry gets, in whatever order: under each queue stands the last lag that was
-- given for it, and each of the two counters has gone up by the number of its calls.
run-lag_of :
    (cs : List Call) (queue : String) (m : MetricsRegistry)
    → (lag_of queue (run cs m).queue_lag ≡ last_lag queue cs (lag_of queue m.queue_lag))
      × ((run cs m).outbox_retry_attempts ≡ m.outbox_retry_attempts + outbox_retries cs)
      × ((run cs m).inbox_retry_attempts ≡ m.inbox_retry_attempts + inbox_retries cs)
unfolding run
run-lag_of [] queue m = ground arith
run-lag_of (lag q l ∷ cs) queue m =
    let rest = run-lag_of cs queue (set_queue_lag q l m) in
    (rest.0 ∙ ap (last_lag queue cs) (lag_of-put queue q l m.queue_lag), rest.1, rest.2)
run-lag_of (outbox_retry ∷ cs) queue m =
    ground (arith, run-lag_of cs queue (increment_outbox_retry m))
run-lag_of (inbox_retry ∷ cs) queue m =
    ground (arith, run-lag_of cs queue (increment_inbox_retry m))
run-lag_of (redis degraded ∷ cs) queue m = run-lag_of cs queue (set_redis_degraded degraded m)
