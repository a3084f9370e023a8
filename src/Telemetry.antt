-- ===== src/Telemetry.antt =====
-- telemetry/buffer.py: MetricsBuffer, and telemetry/flush.py: flush_metrics_to_db. Clock readings
-- are seconds; latencies are whole numbers, and percentiles count hundredths of one.
pub mod Accounting
pub mod Percentiles
pub mod Tests
use Prim.Native.Nat.{◌/◌}
use engrammic.Base.{
  ℕ, zero, suc, ◌+◌, ◌-◌, ◌*◌, Bool, ◌&&◌, Option, none, some, List, [], ◌∷◌, ◌++◌, map, ltb, leb,
  ◌==◌, if◌then◌else◌, length,
}

pub record Key : Type 0 where
  pub bucket_time : ℕ
  pub silo_id : ℕ
  pub metric_name : ℕ

abbrev pub same_key : Key → Key → Bool
same_key a b =
    (a.bucket_time == b.bucket_time)
    && ((a.silo_id == b.silo_id) && (a.metric_name == b.metric_name))

pub record MetricBucket : Type 0 where
  pub count : ℕ
  pub error_count : ℕ
  pub latencies : List ℕ

-- A dictionary with its keys in the order in which they were first put.
abbrev pub Buckets : Type 0
Buckets = List (Key × MetricBucket)

-- The arguments of `record`, with the reading of the clock.
pub record Observation : Type 0 where
  pub metric_name : ℕ
  pub silo_id : ℕ
  pub latency_ms : Option ℕ
  pub error : Bool
  pub count : ℕ
  pub time : ℕ

-- Minutes since the epoch.
abbrev pub truncate_to_minute : ℕ → ℕ
truncate_to_minute ts = ts / 60

abbrev pub key_of : Observation → Key
key_of o = record {
  bucket_time = truncate_to_minute o.time;
  silo_id = o.silo_id;
  metric_name = o.metric_name;
}

abbrev pub latencies_of : Observation → List ℕ
latencies_of o = elim o.latency_ms [ none ↦ [] | some l ↦ l ∷ [] ]

abbrev pub errors_of : Observation → ℕ
errors_of o = if o.error then o.count else 0

abbrev pub empty_bucket : MetricBucket
empty_bucket = record { count = 0; error_count = 0; latencies = [] }

pub add_to : Observation → MetricBucket → MetricBucket
add_to o b = record {
  count = b.count + o.count;
  error_count = b.error_count + errors_of o;
  latencies = b.latencies ++ latencies_of o;
}

pub record_at : Key → Observation → Buckets → Buckets
unfolding add_to
record_at k o [] = (k, add_to o empty_bucket) ∷ []
record_at k o ((j, b) ∷ bs) =
    if same_key j k then (j, add_to o b) ∷ bs else (j, b) ∷ record_at k o bs

pub record_metric : Observation → Buckets → Buckets
unfolding record_at
record_metric o bs = record_at (key_of o) o bs

pub insert_sorted : ℕ → List ℕ → List ℕ
insert_sorted x [] = x ∷ []
insert_sorted x (y ∷ ys) = if leb x y then x ∷ y ∷ ys else y ∷ insert_sorted x ys

pub sorted : List ℕ → List ℕ
unfolding insert_sorted
sorted [] = []
sorted (x ∷ xs) = insert_sorted x (sorted xs)

abbrev pub sum : List ℕ → ℕ
sum [] = 0
sum (x ∷ xs) = x + sum xs

abbrev pub item : List ℕ → ℕ → ℕ
item [] i = 0
item (x ∷ xs) zero = x
item (x ∷ xs) (suc i) = item xs i

-- For `k = (len - 1) * p / 100`: `f` is its whole part, and the result, in hundredths, is the value
-- at `f` plus `k - f` of the way to the next one.
pub percentile : List ℕ → ℕ → Option ℕ
percentile [] p = none
percentile (x ∷ xs) p =
    let values = x ∷ xs in
    let k = length xs * p in
    let f = k / 100 in
    let c = if ltb (f + 1) (length values) then f + 1 else f in
    some (item values f * 100 + (k - f * 100) * (item values c - item values f))

abbrev pub last_of : List ℕ → Option ℕ
last_of [] = none
last_of (x ∷ []) = some x
last_of (x ∷ y ∷ ys) = last_of (y ∷ ys)

pub record Row : Type 0 where
  pub key : Key
  pub count : ℕ
  pub error_count : ℕ
  pub latency_sum_ms : ℕ
  pub latency_p50_ms : Option ℕ
  pub latency_p95_ms : Option ℕ
  pub latency_max_ms : Option ℕ

pub row_of : Key × MetricBucket → Row
unfolding sorted percentile
row_of (k, b) =
    let latencies = sorted b.latencies in
    record {
      key = k;
      count = b.count;
      error_count = b.error_count;
      latency_sum_ms = sum latencies;
      latency_p50_ms = percentile latencies 50;
      latency_p95_ms = percentile latencies 95;
      latency_max_ms = last_of latencies;
    }

pub peek : Buckets → List Row
unfolding row_of
peek bs = map row_of bs

abbrev pub clear : Buckets → Buckets
clear bs = []

pub flush : Buckets → List Row × Buckets
unfolding peek
flush bs = (peek bs, clear bs)

-- `INSERT … ON CONFLICT (bucket, silo_id, metric_name) DO UPDATE`
pub upsert : Row → List Row → List Row
upsert r [] = r ∷ []
upsert r (s ∷ ss) =
    if same_key s.key r.key
    then record s {
      count = s.count + r.count;
      error_count = s.error_count + r.error_count;
      latency_sum_ms = s.latency_sum_ms + r.latency_sum_ms;
    }
      ∷ ss
    else s ∷ upsert r ss

pub execute_many : List Row → List Row → List Row
unfolding upsert
execute_many [] table = table
execute_many (r ∷ rs) table = execute_many rs (upsert r table)

pub record_all : List Observation → Buckets → Buckets
unfolding record_metric
record_all [] bs = bs
record_all (o ∷ os) bs = record_all os (record_metric o bs)

pub record Metrics : Type 0 where
  pub service_metrics : List Row
  pub buckets : Buckets

-- One flush: `written` tells whether the database took the rows, which it does all together, and
-- `during` is what other coroutines record while it is awaited.
pub flush_metrics_to_db : Bool → List Observation → Metrics → Metrics
unfolding peek execute_many record_all
flush_metrics_to_db written during s = elim (peek s.buckets) [
  | [] ↦ s
  | r ∷ rs ↦
      let later = record_all during s.buckets in
      if written
      then record {
        service_metrics = execute_many (r ∷ rs) s.service_metrics;
        buckets = clear later;
      }
      else record s { buckets = later }
]
