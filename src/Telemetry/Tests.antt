-- ===== src/Telemetry/Tests.antt =====
-- Metrics at concrete inputs.
use engrammic.Base.{ℕ, ◌+◌, ◌≡◌, refl, true, false, some, List, [], ◌∷◌}
use engrammic.Telemetry.{Key, Observation, Metrics, sorted, percentile}
use engrammic.Telemetry.Accounting.{
  latency, total, observed, recorded, run, Event, observes, flushes, total-run,
}

abbrev call : ℕ → Observation
call time = record {
  metric_name = 1;
  silo_id = 2;
  latency_ms = some (time + 3);
  error = false;
  count = 1;
  time = time;
}

abbrev minute : Key
minute = record { bucket_time = 1; silo_id = 2; metric_name = 1 }

abbrev fresh : Metrics
fresh = record { service_metrics = []; buckets = [] }

abbrev calls : List Event
calls =
    observes (call 70)
    ∷ flushes true
    ∷ observes (call 80)
    ∷ flushes false
    ∷ observes (call 130)
    ∷ []

abbrev waiting : Metrics
waiting = record {
  service_metrics = [];
  buckets = (minute, record { count = 1; error_count = 0; latencies = 73 ∷ [] }) ∷ [];
}

total-run_example :
    total latency minute (run calls fresh)
    ≡ observed latency minute (recorded calls) + total latency minute fresh
total-run_example = total-run latency minute calls fresh

third : percentile (sorted (5 ∷ 1 ∷ 9 ∷ [])) 75 ≡ some 700
unfolding percentile sorted
third = refl
