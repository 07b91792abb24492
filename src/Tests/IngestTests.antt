-- ===== src/Tests/IngestTests.antt =====
-- POST /signals and the process's counters at concrete inputs. A body's item is a number: 0 does not
-- parse, and any other is a signal with that id.
use inveni_ops.Base.{ℕ, ◌+◌, List, [], ◌∷◌, none, some, zero, suc}
use inveni_ops.Base.Int.{pos}
use inveni_ops.Types.{p2, api}
use inveni_ops.Retry.{Result, ok, err}
use inveni_ops.Buffer.{new_buffer, SignalBufferOptions, IngestionSignal}
use inveni_ops.Buffer.View.{View}
use inveni_ops.Metrics.{create_severity_counters}
use inveni_ops.Metrics.Recorder.{
  RecorderEvent, processed, failed, report, run, started, Knows, run_lem,
}
use inveni_ops.RateLimit.{Buckets}
use inveni_ops.Ingest.Validation.{Issue, SignalInput}
use inveni_ops.Ingest.{Server, Request, answered}

abbrev safe_parse : ℕ → Result (List Issue) SignalInput
safe_parse zero = err (record { path = 1; message = 2 } ∷ [])
safe_parse (suc n) = ok (record {
  signal_id = some (suc n);
  component_id = 5;
  component_type = api;
  severity = p2;
  raw_payload = 0;
  occurred_at = pos 10;
})

abbrev tiny : SignalBufferOptions
tiny = record {
  capacity = 2;
  high_water_mark = record { numerator = 4; denominator = 5 };
  low_water_mark = record { numerator = 1; denominator = 2 };
  shed_ceiling_fractions = λ s. record { numerator = 1; denominator = 2 };
  drain_batch_size = 1;
}

abbrev no_keys : Buckets
no_keys k = none

abbrev fresh_server : Server
fresh_server = record {
  buckets = no_keys;
  buffer = new_buffer tiny;
  counters = create_severity_counters;
  throughput = 0;
}

abbrev nothing_held : View
nothing_held s = []

abbrev a_request : Request
a_request = record {
  ip_key = 1;
  global_key = 2;
  ip = record { capacity = 50; refill_per_second = 20 };
  global = record { capacity = 5000; refill_per_second = 2000 };
  max_batch_size = 500;
  fate = answered;
  now = 1000;
  received_at = pos 1000;
  correlation_id = 77;
  uuids = λ n. 900 + n;
}

abbrev p2_signal : ℕ → IngestionSignal
p2_signal i = record {
  signal_id = i;
  component_id = 5;
  component_type = api;
  severity = p2;
  raw_payload = 0;
  occurred_at = pos 10;
  received_at = pos 1000;
  correlation_id = 77;
}

abbrev three_signals : List IngestionSignal
three_signals = p2_signal 1 ∷ p2_signal 2 ∷ p2_signal 3 ∷ []

abbrev three_jobs : List RecorderEvent
three_jobs = processed 12 ∷ failed ∷ report ∷ processed 300 ∷ []

run_lem_example : Knows (run started three_jobs) (12 ∷ 300 ∷ []) 1 (300 ∷ [])
run_lem_example = run_lem three_jobs
