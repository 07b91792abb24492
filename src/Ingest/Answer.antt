-- ===== src/Ingest/Answer.antt =====
-- How handleIngest of backend/src/api/routes/signals.ts answers, and what it leaves behind.
use inveni_ops.Base.{ℕ, ◌+◌, ◌<◌, ◌≡◌, List, length}
use inveni_ops.Types.{Severity, p0}
use inveni_ops.Buffer.{IngestionSignal, SignalBuffer}
use inveni_ops.Buffer.View.{View, IsSound, dropped_total, total}
use inveni_ops.Ingest.{Server, Response, buffer_saturated, count_received}
use inveni_ops.Ingest.Submit.{of_severity, Outcomes, Ends}

-- What the server holds after `signals` have been received, and the answer.
pub data Received (s : Server) (signals : List IngestionSignal)
    (success : List IngestionSignal → Response) (s' : Server) : Response → Type 0 where
  whole :
      ((t : Severity) → s'.counters.accepted t ≡ s.counters.accepted t + of_severity t signals)
      → s'.throughput ≡ s.throughput + length signals
      → Received s signals success s' (success signals)
  -- Signals that were accepted are in the buffer, and not counted as accepted.
  partial :
      (taken : List IngestionSignal) (dropped : ℕ)
      → 0 < dropped
      → Outcomes s.buffer signals s'.buffer taken
      → length taken + dropped ≡ length signals
      → of_severity p0 taken ≡ of_severity p0 signals
      → s'.counters.accepted ≡ s.counters.accepted
      → s'.throughput ≡ s.throughput
      → Received s signals success s' (buffer_saturated (length taken) dropped)

-- All that `receive` leaves behind.
pub record After (s : Server) (v : View) (signals : List IngestionSignal)
    (success : List IngestionSignal → Response) (s' : Server) (r : Response) : Type 0 where
  pub held : View
  pub sound : IsSound s'.buffer held
  pub conserved :
      dropped_total s'.buffer + total held ≡ dropped_total s.buffer + total v + length signals
  pub same_buckets : s'.buckets ≡ s.buckets
  pub received :
      (t : Severity) → s'.counters.received t ≡ s.counters.received t + of_severity t signals
  pub outcome : Received s signals success s' r

module _ (s : Server) (v : View) (signals : List IngestionSignal)
    (success : List IngestionSignal → Response) (b : SignalBuffer) (taken : List IngestionSignal)
    (dropped : ℕ) (ends : Ends s.buffer v signals b taken dropped) where
  abbrev with_received : Server
  with_received = record s { counters = count_received s.counters signals }
