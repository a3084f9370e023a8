-- ===== src/Telemetry/Accounting.antt =====
-- The buffer and the table of metrics against one counter for each key.
use engrammic.Base.{
  ℕ, ◌+◌, ◌≡◌, refl, ◌≢◌, inl, inr, Bool, true, false, List, [], ◌∷◌, ◌++◌, arith, if◌then◌else◌,
  Bool-cases,
}
use engrammic.Telemetry.{
  Key, same_key, MetricBucket, Buckets, Observation, key_of, latencies_of, errors_of, empty_bucket,
  add_to, record_at, record_metric, insert_sorted, sorted, sum, Row, row_of, peek, upsert,
  execute_many, record_all, Metrics, flush_metrics_to_db,
}

-- What a row of the table adds up.
pub data Measure : Type 0 where
  counts errors latency : Measure

abbrev pub of_bucket : Measure → MetricBucket → ℕ
of_bucket counts b = b.count
of_bucket errors b = b.error_count
of_bucket latency b = sum b.latencies

abbrev pub of_row : Measure → Row → ℕ
of_row counts r = r.count
of_row errors r = r.error_count
of_row latency r = r.latency_sum_ms

abbrev pub of_observation : Measure → Observation → ℕ
of_observation counts o = o.count
of_observation errors o = errors_of o
of_observation latency o = sum (latencies_of o)

module _ (m : Measure) (k : Key) where
  abbrev pub buffered : Buckets → ℕ
  buffered [] = 0
  buffered ((j, b) ∷ bs) = (if same_key j k then of_bucket m b else 0) + buffered bs

  abbrev pub stored : List Row → ℕ
  stored [] = 0
  stored (r ∷ rs) = (if same_key r.key k then of_row m r else 0) + stored rs

  abbrev pub observed : List Observation → ℕ
  observed [] = 0
  observed (o ∷ os) = (if same_key (key_of o) k then of_observation m o else 0) + observed os

  -- What is known of the key, in the table or still in the buffer.
  abbrev pub total : Metrics → ℕ
  total s = stored s.service_metrics + buffered s.buckets

sum-append : (xs ys : List ℕ) → sum (xs ++ ys) ≡ sum xs + sum ys
sum-append [] ys = omega arith
sum-append (x ∷ xs) ys = omega (arith, sum-append xs ys)

sum-insert_sorted : (x : ℕ) (xs : List ℕ) → sum (insert_sorted x xs) ≡ x + sum xs
unfolding insert_sorted
sum-insert_sorted x [] = refl
sum-insert_sorted x (y ∷ ys) = ground (arith, sum-insert_sorted x ys)

sum-sorted : (xs : List ℕ) → sum (sorted xs) ≡ sum xs
unfolding sorted
sum-sorted [] = refl
sum-sorted (x ∷ xs) = omega (arith, sum-insert_sorted x (sorted xs), sum-sorted xs)

same_key-swap : (a b c : Key) → same_key a b ≡ true → same_key a c ≡ same_key b c
same_key-swap a b c h = ground arith

of_bucket-add_to :
    (m : Measure) (o : Observation) (b : MetricBucket)
    → of_bucket m (add_to o b) ≡ of_observation m o + of_bucket m b
unfolding add_to
of_bucket-add_to counts o b = omega arith
of_bucket-add_to errors o b = omega arith
of_bucket-add_to latency o b = omega (arith, sum-append b.latencies (latencies_of o))

of_row-row_of :
    (m : Measure) (j : Key) (b : MetricBucket) → of_row m (row_of (j, b)) ≡ of_bucket m b
unfolding row_of
of_row-row_of counts j b = refl
of_row-row_of errors j b = refl
of_row-row_of latency j b = sum-sorted b.latencies

module _ (m : Measure) (k : Key) where
  of_empty : of_bucket m empty_bucket ≡ 0
  of_empty = elim m as (λ n. of_bucket n empty_bucket ≡ 0) [
    | counts ↦ refl
    | errors ↦ refl
    | latency ↦ refl
  ]

  buffered-record_at :
      (j : Key) (o : Observation) (bs : Buckets)
      → buffered m k (record_at j o bs)
        ≡ (if same_key j k then of_observation m o else 0) + buffered m k bs
  unfolding record_at
  buffered-record_at j o [] = ground (arith, of_bucket-add_to m o empty_bucket, of_empty)
  buffered-record_at j o ((i, b) ∷ bs) = elim (Bool-cases (same_key i j)) [
    | inl same ↦ rw same (ground (arith, of_bucket-add_to m o b, same_key-swap i j k same))
    | inr other ↦ rw other (omega (arith, buffered-record_at j o bs))
  ]

  buffered-record_all :
      (os : List Observation) (bs : Buckets)
      → buffered m k (record_all os bs) ≡ observed m k os + buffered m k bs
  unfolding record_all record_metric
  buffered-record_all [] bs = omega arith
  buffered-record_all (o ∷ os) bs =
      omega (arith, buffered-record_all os (record_metric o bs), buffered-record_at (key_of o) o bs)

  stored-upsert :
      (r : Row) (table : List Row)
      → stored m k (upsert r table)
        ≡ (if same_key r.key k then of_row m r else 0) + stored m k table
  unfolding upsert
  stored-upsert r [] = refl
  stored-upsert r (s ∷ ss) = elim (Bool-cases (same_key s.key r.key)) [
    | inl same ↦ rw same (elim m [
      | counts ↦ ground (arith, same_key-swap s.key r.key k same)
      | errors ↦ ground (arith, same_key-swap s.key r.key k same)
      | latency ↦ ground (arith, same_key-swap s.key r.key k same)
    ])
    | inr other ↦ rw other (omega (arith, stored-upsert r ss))
  ]

  stored-execute_many :
      (rs table : List Row) → stored m k (execute_many rs table) ≡ stored m k rs + stored m k table
  unfolding execute_many
  stored-execute_many [] table = omega arith
  stored-execute_many (r ∷ rs) table =
      omega (arith, stored-execute_many rs (upsert r table), stored-upsert r table)

  stored-peek : (bs : Buckets) → stored m k (peek bs) ≡ buffered m k bs
  unfolding peek
  stored-peek [] = refl
  stored-peek ((j, b) ∷ bs) = ground (arith, of_row-row_of m j b, stored-peek bs)

  -- Of a flush with rows to write.
  total-written :
      (during : List Observation) (x : Key × MetricBucket) (bs : Buckets) (table : List Row)
      → let s : Metrics = record { service_metrics = table; buckets = x ∷ bs } in
        (total m k (flush_metrics_to_db true during s) ≡ total m k s)
        × (total m k (flush_metrics_to_db false during s) ≡ observed m k during + total m k s)
  unfolding flush_metrics_to_db peek
  total-written during x bs table = (
    omega (arith, stored-execute_many (peek (x ∷ bs)) table, stored-peek (x ∷ bs)),
    omega (arith, buffered-record_all during (x ∷ bs)),
  )

  -- A flush of a buffer that is not empty, awaited while others record. If the rows are written, the
  -- count, errors and latencies known of a key are those of before, and what was recorded meanwhile
  -- is lost; if the write fails, they are those of before and what was recorded meanwhile.
  pub total-flush_metrics_to_db :
      (during : List Observation) (s : Metrics)
      → s.buckets ≢ []
      → (total m k (flush_metrics_to_db true during s) ≡ total m k s)
        × (total m k (flush_metrics_to_db false during s) ≡ observed m k during + total m k s)
  total-flush_metrics_to_db during s nonempty = at s.buckets s.service_metrics nonempty
    where
      at :
          (bs : Buckets) (table : List Row)
          → bs ≢ []
          → let r : Metrics = record { service_metrics = table; buckets = bs } in
            (total m k (flush_metrics_to_db true during r) ≡ total m k r)
            × (total m k (flush_metrics_to_db false during r) ≡ observed m k during + total m k r)
      at [] table h = absurd (h refl)
      at (x ∷ bs) table h = total-written during x bs table

  total-flush-quiet :
      (written : Bool) (bs : Buckets) (table : List Row)
      → let s : Metrics = record { service_metrics = table; buckets = bs } in
        total m k (flush_metrics_to_db written [] s) ≡ total m k s
  unfolding flush_metrics_to_db peek
  total-flush-quiet written [] table = refl
  total-flush-quiet true (x ∷ bs) table = (total-written [] x bs table).0
  total-flush-quiet false (x ∷ bs) table = omega (arith, (total-written [] x bs table).1)

-- What happens to the buffer, without interleaving.
pub data Event : Type 0 where
  observes : Observation → Event
  flushes : Bool → Event

pub run : List Event → Metrics → Metrics
run [] s = s
run (observes o ∷ es) s = run es (record s { buckets = record_metric o s.buckets })
run (flushes written ∷ es) s = run es (flush_metrics_to_db written [] s)

pub recorded : List Event → List Observation
recorded [] = []
recorded (observes o ∷ es) = o ∷ recorded es
recorded (flushes written ∷ es) = recorded es

-- Where nothing is recorded while a flush is awaited, table and buffer together refine one counter
-- for each key: after any sequence of observations and of flushes, written or failed, the count, the
-- errors and the latencies of a key are what they were at the start and what was observed of it.
pub total-run :
    (m : Measure) (k : Key) (es : List Event) (s : Metrics)
    → total m k (run es s) ≡ observed m k (recorded es) + total m k s
unfolding run recorded record_metric
total-run m k [] s = omega arith
total-run m k (observes o ∷ es) s = omega (
  arith,
  total-run m k es (record s { buckets = record_metric o s.buckets }),
  buffered-record_at m k (key_of o) o s.buckets,
)
total-run m k (flushes written ∷ es) s = omega (
  arith,
  total-run m k es (flush_metrics_to_db written [] s),
  total-flush-quiet m k written s.buckets s.service_metrics,
)
