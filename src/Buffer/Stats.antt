-- ===== src/Buffer/Stats.antt =====
-- getStats of backend/src/services/ingestion/buffer.ts.
use inveni_ops.Base.{ℕ, ◌+◌, ◌≡◌, List, arith, ◌==◌, if◌then◌else◌}
use inveni_ops.Types.{Severity, p0, p1, p2, p3}
use inveni_ops.Buffer.Ring.{size}
use inveni_ops.Buffer.{
  SignalBuffer, SignalBufferOptions, BufferState, DropReason, shed_ceiling, hard_capacity,
  sink_failure, Fraction, total_size, new_buffer,
}
use inveni_ops.Buffer.Ledger.{BufferEvent, after_events, after_events-new_buffer-Balanced}

pub record BufferStats : Type 0 where
  pub capacity : ℕ
  pub total : ℕ
  pub fill_fraction : Fraction
  pub state : BufferState
  pub depth_by_severity : Severity → ℕ
  pub dropped_by_severity : Severity → ℕ
  pub dropped_by_reason : DropReason → ℕ
  pub dropped_by_severity_and_reason : Severity → DropReason → ℕ

unfoldable pub get_stats : SignalBuffer → BufferStats
get_stats b = record {
  capacity = b.options.capacity;
  total = total_size b;
  fill_fraction =
      if b.options.capacity == 0
      then record { numerator = 0; denominator = 1 }
      else record { numerator = total_size b; denominator = b.options.capacity };
  state = b.state;
  depth_by_severity = λ s. size (b.queues s);
  dropped_by_severity = b.dropped_by_severity;
  dropped_by_reason = b.dropped_by_reason;
  dropped_by_severity_and_reason = b.dropped_by_severity_and_reason;
}

abbrev pub all_drops : BufferStats → ℕ
all_drops s =
    s.dropped_by_severity p0
    + s.dropped_by_severity p1
    + s.dropped_by_severity p2
    + s.dropped_by_severity p3

-- The statistics of a buffer that was new once are consistent, whatever happened to it since: the
-- depths add up to the total, and the drops by severity add up to the drops by reason.
pub get_stats-after_events :
    (options : SignalBufferOptions) (events : List BufferEvent)
    → let stats = get_stats (after_events (new_buffer options) events) in
      (stats.total
        ≡ stats.depth_by_severity p0
          + stats.depth_by_severity p1
          + stats.depth_by_severity p2
          + stats.depth_by_severity p3)
      × (all_drops stats
          ≡ stats.dropped_by_reason shed_ceiling
            + stats.dropped_by_reason hard_capacity
            + stats.dropped_by_reason sink_failure)
unfolding get_stats total_size
get_stats-after_events options events =
    let h = after_events-new_buffer-Balanced options events in
    (
      omega arith,
      omega (
        arith,
        h.by_severity p0,
        h.by_severity p1,
        h.by_severity p2,
        h.by_severity p3,
        h.by_reason shed_ceiling,
        h.by_reason hard_capacity,
        h.by_reason sink_failure,
      ),
    )
