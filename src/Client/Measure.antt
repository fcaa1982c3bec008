-- ===== src/Client/Measure.antt =====
-- What a client records.
use mett_eagle.Base.{
  ℕ, zero, suc, ◌≤◌, ◌<◌, ◌≡◌, refl, ap, ◌∙◌, List, [], ◌∷◌, ◌++◌, map, Option, none, some, arith,
  length, returns, blocks,
}
use mathlib.Core.List.{append_assoc, append-nil}
use mett_eagle.Client.{Metrics, no_metrics, Sample, record_sample, measure}

-- The invocations that returned.
abbrev pub successes : List (Option Sample) → List Sample
successes [] = []
successes (none ∷ answers) = successes answers
successes (some s ∷ answers) = s ∷ successes answers

-- The first `n` of them.
abbrev pub take : ℕ → List Sample → List Sample
take zero ss = []
take (suc n) [] = []
take (suc n) (s ∷ ss) = s ∷ take n ss

-- The metrics of these samples: each list has one entry of each sample, in order.
abbrev pub metrics_of : (ℕ → ℕ) → List Sample → Metrics
metrics_of to_us ss = record {
  start_invocation = map (λ s. to_us s.start_invocation) ss;
  end_invocation = map (λ s. to_us s.end_invocation) ss;
  start_worker = map (λ s. to_us s.data'.start_worker) ss;
  end_worker = map (λ s. to_us s.data'.end_worker) ss;
  start_runtime = map (λ s. to_us s.data'.worker_metadata.start_runtime) ss;
  end_runtime = map (λ s. to_us s.data'.worker_metadata.end_runtime) ss;
  start_function = map (λ s. to_us s.data'.worker_metadata.start_function) ss;
  end_function = map (λ s. to_us s.data'.worker_metadata.end_function) ss;
  function_internal_duration = map (λ s. 0) ss;
}

abbrev appended : Metrics → Metrics → Metrics
appended m k = record {
  start_invocation = m.start_invocation ++ k.start_invocation;
  end_invocation = m.end_invocation ++ k.end_invocation;
  start_worker = m.start_worker ++ k.start_worker;
  end_worker = m.end_worker ++ k.end_worker;
  start_runtime = m.start_runtime ++ k.start_runtime;
  end_runtime = m.end_runtime ++ k.end_runtime;
  start_function = m.start_function ++ k.start_function;
  end_function = m.end_function ++ k.end_function;
  function_internal_duration = m.function_internal_duration ++ k.function_internal_duration;
}

appended-record_sample :
    (to_us : ℕ → ℕ) (s : Sample) (ss : List Sample) (m : Metrics)
    → appended (record_sample to_us s m) (metrics_of to_us ss)
      ≡ appended m (metrics_of to_us (s ∷ ss))
unfolding record_sample
appended-record_sample to_us s ss m = simp append_assoc

measure-appended :
    (to_us : ℕ → ℕ) (n : ℕ) (answers : List (Option Sample)) (m : Metrics)
    → n ≤ length (successes answers)
    → measure to_us n answers m
      ≡ returns (appended m (metrics_of to_us (take n (successes answers))))
unfolding measure
measure-appended to_us zero answers m h = simp append-nil
measure-appended to_us (suc n) [] m h = absurd (omega arith)
measure-appended to_us (suc n) (none ∷ answers) m h = measure-appended to_us (suc n) answers m h
measure-appended to_us (suc n) (some s ∷ answers) m h =
    measure-appended to_us n answers (record_sample to_us s m) (omega arith)
    ∙ ap returns (appended-record_sample to_us s (take n (successes answers)) m)

measure-blocks :
    (to_us : ℕ → ℕ) (n : ℕ) (answers : List (Option Sample)) (m : Metrics)
    → length (successes answers) < n
    → measure to_us n answers m ≡ blocks
unfolding measure
measure-blocks to_us zero answers m h = absurd (omega arith)
measure-blocks to_us (suc n) [] m h = refl
measure-blocks to_us (suc n) (none ∷ answers) m h = measure-blocks to_us (suc n) answers m h
measure-blocks to_us (suc n) (some s ∷ answers) m h =
    measure-blocks to_us n answers (record_sample to_us s m) (omega arith)

-- The measurement loop ends exactly when as many invocations have returned as iterations were asked
-- for, however many have failed in between; then each of the nine lists has one entry for each of the
-- first invocations that returned, as many as there are iterations, in order.
pub measure_returns :
    (to_us : ℕ → ℕ) (iterations : ℕ) (answers : List (Option Sample))
    → (iterations ≤ length (successes answers)
        → measure to_us iterations answers no_metrics
          ≡ returns (metrics_of to_us (take iterations (successes answers))))
      × (length (successes answers) < iterations
          → measure to_us iterations answers no_metrics ≡ blocks)
measure_returns to_us iterations answers = (
  measure-appended to_us iterations answers no_metrics,
  measure-blocks to_us iterations answers no_metrics,
)
