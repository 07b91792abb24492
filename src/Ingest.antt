-- ===== src/Ingest.antt =====
-- POST /signals of backend/src/api/routes/signals.ts, whose batches signalValidation.ts
-- beside it parses. Logging has no effect on the state.
pub mod Validation
pub mod Submit
pub mod Answer
pub mod Handle
pub mod Synthetic
use inveni_ops.Base.{
  ℕ, zero, suc, ◌+◌, ◌*◌, ◌/◌, ◌%◌, max, ◌==◌, leb, ltb, if◌then◌else◌, Bool, true, false, List, [],
  ◌∷◌, ◌++◌, map, Option, none, some, length,
}
use inveni_ops.Base.Int.{ℤ}
use inveni_ops.Types.{
  Ident, Severity, p0, p1, p2, p3, ComponentType, api, mcp_host, cache, queue, rdbms, nosql,
}
use inveni_ops.Buffer.{IngestionSignal, SignalBuffer, SubmitResult, accepted, rejected, submit}
use inveni_ops.Retry.{Result, ok, err}
use Validation.{SignalInput, Issue, SignalBatchParseResult, parsed, Body, parse_signal_batch}
use inveni_ops.RateLimit.{
  Buckets, TokenBucketConfig, TokenBucketCheckParams, TokenBucketResult, LimitedBy, nobody, by_ip,
  by_global, check_token_buckets, seconds_until_available, retry_after, allowed,
}
use inveni_ops.Metrics.{
  SeverityCounters, ThroughputCounter, record_received, record_accepted, increment,
}

-- The script's fate: it runs, Redis cannot be reached, or it runs and its answer is lost.
pub data RedisFate : Type 0 where
  answered unreachable answer_lost : RedisFate

abbrev pub fail_open : TokenBucketCheckParams → TokenBucketResult
fail_open p = record {
  limited_by = nobody;
  ip_remaining = 1000 * p.ip.capacity;
  global_remaining = 1000 * p.global.capacity;
}

unfoldable pub check_rate_limit_fail_open :
    RedisFate → Buckets → TokenBucketCheckParams → Buckets × TokenBucketResult
check_rate_limit_fail_open answered s p = check_token_buckets s p
check_rate_limit_fail_open unreachable s p = (s, fail_open p)
check_rate_limit_fail_open answer_lost s p = ((check_token_buckets s p).0, fail_open p)

-- What the requests share.
pub record Server : Type 0 where
  pub buckets : Buckets
  pub buffer : SignalBuffer
  pub counters : SeverityCounters
  pub throughput : ThroughputCounter

pub record RateLimitHeaders : Type 0 where
  pub limit : ℕ
  pub remaining : ℕ
  pub reset : ℕ

unfoldable pub rate_limit_headers : TokenBucketCheckParams → TokenBucketResult → RateLimitHeaders
rate_limit_headers p r = record {
  limit = p.ip.capacity;
  remaining = max 0 (r.ip_remaining / 1000);
  reset = seconds_until_available r.ip_remaining p.ip.refill_per_second p.ip.capacity;
}

pub data Response : Type 0 where
  -- 400 for a batch, and for the bulk test's own input.
  bad_request : SignalBatchParseResult → Response
  bad_bulk_test : Response
  -- 429, with the bucket that limits and Retry-After.
  rate_limited : LimitedBy → ℕ → Response
  -- 503: how many of the signals were accepted, and how many dropped.
  buffer_saturated : ℕ → ℕ → Response
  -- 202, with the ids, unless the signals were generated.
  all_accepted : ℕ → List Ident → Response

-- The loop of submitOrReject: the buffer, the signals accepted and the number dropped.
abbrev pub tally :
    IngestionSignal
    → SubmitResult
    → SignalBuffer × List IngestionSignal × ℕ
    → SignalBuffer × List IngestionSignal × ℕ
tally x accepted (b, xs, dropped) = (b, x ∷ xs, dropped)
tally x (rejected r) (b, xs, dropped) = (b, xs, dropped + 1)

unfoldable pub submit_all :
    SignalBuffer → List IngestionSignal → SignalBuffer × List IngestionSignal × ℕ
submit_all b [] = (b, [], 0)
submit_all b (x ∷ xs) = let (b', result) = submit b x in tally x result (submit_all b' xs)

abbrev pub count_received : SeverityCounters → List IngestionSignal → SeverityCounters
count_received c [] = c
count_received c (x ∷ xs) = count_received (record_received c x.severity) xs

abbrev pub count_accepted : SeverityCounters → List IngestionSignal → SeverityCounters
count_accepted c [] = c
count_accepted c (x ∷ xs) = count_accepted (record_accepted c x.severity) xs

abbrev answer :
    Server
    → (List IngestionSignal → Response)
    → SignalBuffer × List IngestionSignal × ℕ
    → Server × Response
answer s success (b, taken, dropped) =
    if ltb 0 dropped then (record s { buffer = b }, buffer_saturated (length taken) dropped) else (
      record s {
        buffer = b;
        counters = count_accepted s.counters taken;
        throughput = increment s.throughput (length taken);
      },
      success taken,
    )

-- From the count of what was received on, which handleIngest and handleBulkTest share.
unfoldable pub receive :
    Server → List IngestionSignal → (List IngestionSignal → Response) → Server × Response
unfolding submit_all
receive s signals success =
    answer (record s { counters = count_received s.counters signals }) success
      (submit_all s.buffer signals)

abbrev pub id_or : Option Ident → Ident → Ident
id_or (some i) fresh = i
id_or none fresh = fresh

-- The n-th call of randomUUID gives `uuids n`; the time and the request's id are given.
abbrev pub to_ingestion_signals :
    (ℕ → Ident) → ℕ → ℤ → Ident → List SignalInput → List IngestionSignal
to_ingestion_signals uuids n received_at correlation_id [] = []
to_ingestion_signals uuids n received_at correlation_id (x ∷ xs) =
    record {
      signal_id = id_or x.signal_id (uuids n);
      component_id = x.component_id;
      component_type = x.component_type;
      severity = x.severity;
      raw_payload = x.raw_payload;
      occurred_at = x.occurred_at;
      received_at = received_at;
      correlation_id = correlation_id;
    }
    ∷ to_ingestion_signals uuids (n + 1) received_at correlation_id xs

abbrev pub signal_ids : List IngestionSignal → Response
signal_ids xs = all_accepted (length xs) (map (λ (x : IngestionSignal). x.signal_id) xs)

-- What a request brings, besides its body.
pub record Request : Type 0 where
  pub ip_key : Ident
  pub global_key : Ident
  pub ip : TokenBucketConfig
  pub global : TokenBucketConfig
  pub max_batch_size : ℕ
  pub fate : RedisFate
  pub now : ℕ
  pub received_at : ℤ
  pub correlation_id : Ident
  pub uuids : ℕ → Ident

abbrev pub rate_limit_params : Request → ℕ → TokenBucketCheckParams
rate_limit_params q cost = record {
  ip_key = q.ip_key;
  global_key = q.global_key;
  ip = q.ip;
  global = q.global;
  cost = cost;
  now = q.now;
}

-- From Redis's answer on; other requests run while it is awaited.
abbrev after_check :
    Request
    → List SignalInput
    → TokenBucketCheckParams
    → TokenBucketResult
    → Server
    → Server × RateLimitHeaders × Response
after_check q signals p r s =
    let headers = rate_limit_headers p r in
    let (s', response) =
      receive s (to_ingestion_signals q.uuids 0 q.received_at q.correlation_id signals)
        signal_ids in
    if allowed r.limited_by
    then (s', headers, response)
    else (s, headers, rate_limited r.limited_by (retry_after p r))

abbrev after_parse :
    Request
    → SignalBatchParseResult
    → (Server → Server)
    → Server
    → Server × Option RateLimitHeaders × Response
after_parse q (parsed signals) others s =
    let p = rate_limit_params q (length signals) in
    let (buckets, r) = check_rate_limit_fail_open q.fate s.buckets p in
    let (s', headers, response) =
      after_check q signals p r (others (record s { buckets = buckets })) in
    (s', some headers, response)
after_parse q failure others s = (s, none, bad_request failure)

unfoldable pub handle_ingest :
    {J : Type 0}
    → (J → Result (List Issue) SignalInput)
    → Request
    → Body J
    → (Server → Server)
    → Server
    → Server × Option RateLimitHeaders × Response
unfolding parse_signal_batch check_rate_limit_fail_open receive rate_limit_headers
handle_ingest safe_parse q body others s =
    after_parse q (parse_signal_batch safe_parse body q.max_batch_size) others s
