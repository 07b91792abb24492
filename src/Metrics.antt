-- ===== src/Metrics.antt =====
-- backend/src/utils/metrics.ts: the process's counters, each as the value of its variables and one
-- function per method. A latency is a whole number of milliseconds; the fraction of a percentile
-- is an exact quotient.
pub mod Percentile
pub mod Recorder
pub mod Ticks
use inveni_ops.Base.{
  ℕ, ◌+◌, ◌-◌, ◌*◌, ◌/◌, min, ◌==◌, leb, ltb, if◌then◌else◌, List, [], ◌∷◌, ◌++◌, Option, none,
  some, length, get_elem?, replicate,
}
use inveni_ops.Types.{Ident, Severity}
use inveni_ops.Buffer.{put, Fraction, DropReason, shed_ceiling, hard_capacity, sink_failure}

-- createThroughputCounter: `reset` is its value, and a counter at 0.
abbrev pub ThroughputCounter : Type 0
ThroughputCounter = ℕ

abbrev pub increment : ThroughputCounter → ℕ → ThroughputCounter
increment count amount = count + amount

abbrev pub reset_throughput : ThroughputCounter → ThroughputCounter × ℕ
reset_throughput count = (0, count)

pub record SeverityCounters : Type 0 where
  pub received : Severity → ℕ
  pub accepted : Severity → ℕ

abbrev pub create_severity_counters : SeverityCounters
create_severity_counters = record { received = λ s. 0; accepted = λ s. 0 }

abbrev pub record_received : SeverityCounters → Severity → SeverityCounters
record_received c s = record c { received = put c.received s (c.received s + 1) }

abbrev pub record_accepted : SeverityCounters → Severity → SeverityCounters
record_accepted c s = record c { accepted = put c.accepted s (c.accepted s + 1) }

pub record Histogram : Type 0 where
  pub boundaries_ms : List ℕ
  pub counts : List ℕ
  pub total : ℕ
  pub sum_ms : ℕ

abbrev pub new_histogram : List ℕ → Histogram
new_histogram boundaries = record {
  boundaries_ms = boundaries;
  counts = replicate (length boundaries) 0;
  total = 0;
  sum_ms = 0;
}

-- The loop of `observe`, over the boundaries and the counts at the same index.
abbrev pub bump_counts : ℕ → List ℕ → List ℕ → List ℕ
bump_counts value [] cs = cs
bump_counts value (b ∷ bs) [] = []
bump_counts value (b ∷ bs) (c ∷ cs) =
    let rest = bump_counts value bs cs in if leb value b then (c + 1) ∷ rest else c ∷ rest

abbrev pub observe : Histogram → ℕ → Histogram
observe h value = record h {
  total = h.total + 1;
  sum_ms = h.sum_ms + value;
  counts = bump_counts value h.boundaries_ms h.counts;
}

abbrev pub e2e_latency_buckets_ms : List ℕ
e2e_latency_buckets_ms = 10 ∷ 25 ∷ 50 ∷ 100 ∷ 250 ∷ 500 ∷ 1000 ∷ 2500 ∷ 5000 ∷ 10000 ∷ []

unfoldable pub percentile : List ℕ → Fraction → Option ℕ
percentile [] p = none
percentile (x ∷ xs) p =
    let n = length (x ∷ xs) in get_elem? (x ∷ xs) (min (n - 1) (p.numerator * n / p.denominator))

-- `[...samples].sort((a, b) => a - b)`
abbrev pub insert : ℕ → List ℕ → List ℕ
insert x [] = x ∷ []
insert x (y ∷ ys) = let rest = insert x ys in if leb x y then x ∷ y ∷ ys else y ∷ rest

abbrev pub sort_ascending : List ℕ → List ℕ
sort_ascending [] = []
sort_ascending (x ∷ xs) = insert x (sort_ascending xs)

pub record QueueMetricsSnapshot : Type 0 where
  pub jobs_processed : ℕ
  pub jobs_failed : ℕ
  pub average_latency_ms : Option Fraction
  pub p50_latency_ms : Option ℕ
  pub p99_latency_ms : Option ℕ

pub record QueueMetricsRecorder : Type 0 where
  pub jobs_processed : ℕ
  pub jobs_failed : ℕ
  pub total_latency_ms : ℕ
  pub jobs_processed_total : ℕ
  pub jobs_failed_total : ℕ
  pub samples : List ℕ
  pub histogram : Histogram

abbrev pub create_queue_metrics_recorder : QueueMetricsRecorder
create_queue_metrics_recorder = record {
  jobs_processed = 0;
  jobs_failed = 0;
  total_latency_ms = 0;
  jobs_processed_total = 0;
  jobs_failed_total = 0;
  samples = [];
  histogram = new_histogram e2e_latency_buckets_ms;
}

abbrev pub record_job_processed : QueueMetricsRecorder → ℕ → QueueMetricsRecorder
record_job_processed r latency = record r {
  jobs_processed = r.jobs_processed + 1;
  total_latency_ms = r.total_latency_ms + latency;
  samples = r.samples ++ latency ∷ [];
  jobs_processed_total = r.jobs_processed_total + 1;
  histogram = observe r.histogram latency;
}

abbrev pub record_job_failed : QueueMetricsRecorder → QueueMetricsRecorder
record_job_failed r = record r {
  jobs_failed = r.jobs_failed + 1;
  jobs_failed_total = r.jobs_failed_total + 1;
}

unfoldable pub reset : QueueMetricsRecorder → QueueMetricsRecorder × QueueMetricsSnapshot
unfolding percentile
reset r =
    let sorted = sort_ascending r.samples in
    (
      record r { jobs_processed = 0; jobs_failed = 0; total_latency_ms = 0; samples = [] },
      record {
        jobs_processed = r.jobs_processed;
        jobs_failed = r.jobs_failed;
        average_latency_ms =
            if ltb 0 r.jobs_processed
            then some (record { numerator = r.total_latency_ms; denominator = r.jobs_processed })
            else none;
        p50_latency_ms = percentile sorted (record { numerator = 50; denominator = 100 });
        p99_latency_ms = percentile sorted (record { numerator = 99; denominator = 100 });
      },
    )

pub record AlertChannelCounts : Type 0 where
  pub delivered : ℕ
  pub failed : ℕ

-- The map of counts by channel, as the function that reads it with `?? { delivered: 0, failed: 0 }`.
pub record AlertMetricsRecorder : Type 0 where
  pub counts : Ident → AlertChannelCounts
  pub escalations_triggered : ℕ

abbrev pub create_alert_metrics_recorder : AlertMetricsRecorder
create_alert_metrics_recorder = record {
  counts = λ c. record { delivered = 0; failed = 0 };
  escalations_triggered = 0;
}

abbrev pub set_counts :
    (Ident → AlertChannelCounts) → Ident → AlertChannelCounts → Ident → AlertChannelCounts
set_counts counts channel entry c = if channel == c then entry else counts c

abbrev pub record_delivery_success : AlertMetricsRecorder → Ident → AlertMetricsRecorder
record_delivery_success r channel = record r {
  counts =
      set_counts r.counts channel
        (record (r.counts channel) { delivered = (r.counts channel).delivered + 1 });
}

abbrev pub record_delivery_failure : AlertMetricsRecorder → Ident → AlertMetricsRecorder
record_delivery_failure r channel = record r {
  counts =
      set_counts r.counts channel
        (record (r.counts channel) { failed = (r.counts channel).failed + 1 });
}

abbrev pub record_escalation : AlertMetricsRecorder → AlertMetricsRecorder
record_escalation r = record r { escalations_triggered = r.escalations_triggered + 1 }

abbrev pub sum_dropped_this_period : (DropReason → ℕ) → ℕ
sum_dropped_this_period by_reason =
    by_reason shed_ceiling + by_reason hard_capacity + by_reason sink_failure

-- The variables of startMetricsReporter, with the counter that it resets.
pub record Reporter : Type 0 where
  pub counter : ThroughputCounter
  pub previous_total_dropped : ℕ
  pub last_signals_per_second : Fraction

pub record Tick : Type 0 where
  pub total_accepted : ℕ
  pub drops_this_tick : ℕ

-- A tick every `interval_ms`, up to the awaited calls; what comes after them changes no variable.
unfoldable pub tick : ℕ → Reporter → (DropReason → ℕ) → Reporter × Tick
tick interval_ms r dropped_by_reason =
    let (counter, total_accepted) = reset_throughput r.counter in
    let total_dropped_now = sum_dropped_this_period dropped_by_reason in
    (
      record {
        counter = counter;
        previous_total_dropped = total_dropped_now;
        last_signals_per_second = record {
          numerator = total_accepted * 1000;
          denominator = interval_ms;
        };
      },
      record {
        total_accepted = total_accepted;
        drops_this_tick = total_dropped_now - r.previous_total_dropped;
      },
    )
