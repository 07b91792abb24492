-- ===== src/Ingest/Handle.antt =====
-- handleIngest of backend/src/api/routes/signals.ts from the request to the answer.
use inveni_ops.Base.{◌≡◌, ◌≢◌, List, Option, some, none, length}
use inveni_ops.Retry.{Result}
use inveni_ops.Buffer.View.{View, IsSound}
use inveni_ops.RateLimit.{Buckets, TokenBucketResult, nobody, retry_after}
use inveni_ops.Ingest.Validation.{
  Body, Issue, SignalInput, SignalBatchParseResult, parsed, parse_signal_batch,
}
use inveni_ops.Ingest.{
  answered, Server, Response, bad_request, rate_limited, Request, RateLimitHeaders,
  rate_limit_headers, rate_limit_params, check_rate_limit_fail_open, to_ingestion_signals,
  signal_ids,
}
use inveni_ops.Ingest.Answer.{After}

module _ {J : Type 0} (safe_parse : J → Result (List Issue) SignalInput) (q : Request)
    (body : Body J) (others : Server → Server) (s : Server) where
  -- The check that a batch of signals is put to, and the server once Redis has answered.
  abbrev check : List SignalInput → Buckets × TokenBucketResult
  check signals = check_rate_limit_fail_open q.fate s.buckets (rate_limit_params q (length signals))

  abbrev checked : List SignalInput → Server
  checked signals = others (record s { buckets = (check signals).0 })

  abbrev headers : List SignalInput → Option RateLimitHeaders
  headers signals =
      some (rate_limit_headers (rate_limit_params q (length signals)) (check signals).1)

  -- How a request may be answered.
  pub data Answered : Server → Option RateLimitHeaders → Response → Type 0 where
    refused :
        (failure : SignalBatchParseResult)
        → parse_signal_batch safe_parse body q.max_batch_size ≡ failure
        → ((signals : List SignalInput) → failure ≢ parsed signals)
        → Answered s none (bad_request failure)
    limited :
        (signals : List SignalInput)
        → parse_signal_batch safe_parse body q.max_batch_size ≡ parsed signals
        → q.fate ≡ answered
        → (check signals).1.limited_by ≢ nobody
        → Answered (checked signals) (headers signals) (
            rate_limited
              (check signals).1.limited_by
              (retry_after (rate_limit_params q (length signals)) (check signals).1))
    passed :
        (signals : List SignalInput) (v : View) (s' : Server) (r : Response)
        → parse_signal_batch safe_parse body q.max_batch_size ≡ parsed signals
        → (check signals).1.limited_by ≡ nobody
        → IsSound (checked signals).buffer v
        → After
            (checked signals)
            v
            (to_ingestion_signals q.uuids 0 q.received_at q.correlation_id signals)
            signal_ids
            s'
            r
        → Answered s' (headers signals) r
