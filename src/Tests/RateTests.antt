-- ===== src/Tests/RateTests.antt =====
-- The token buckets on a client that spends its bucket at once.
use inveni_ops.Base.{ℕ, ◌+◌, ◌*◌, ◌-◌, ◌≤◌, ◌≡◌, ◌≢◌, refl, arith, none}
use inveni_ops.RateLimit.{
  Buckets, TokenBucketConfig, TokenBucketCheckParams, by_ip, check_token_buckets, retry_after,
  refill, limit, seconds_until_available,
}
use inveni_ops.RateLimit.Bound.{Reach, begin, request, Agrees, check_token_buckets-bounded}
use inveni_ops.RateLimit.Waiting.{retry_after_enough, over_capacity_refused}

abbrev no_buckets : Buckets
no_buckets k = none

abbrev small : TokenBucketConfig
small = record { capacity = 50; refill_per_second = 20 }

abbrev large : TokenBucketConfig
large = record { capacity = 5000; refill_per_second = 2000 }

abbrev batch : ℕ → ℕ → TokenBucketCheckParams
batch cost now = record {
  ip_key = 1;
  global_key = 2;
  ip = small;
  global = large;
  cost = cost;
  now = now;
}

batch-Agrees : (cost now : ℕ) → Agrees 1 small (batch cost now)
batch-Agrees cost now = record {
  as_ip = λ e. refl;
  as_global = λ e. absurd (omega (arith, e));
  two_keys = λ e. omega (arith, e);
}

abbrev after_one : Buckets
after_one = (check_token_buckets no_buckets (batch 40 1000)).0

second_refused : (check_token_buckets after_one (batch 40 1500)).1.limited_by ≡ by_ip
unfolding check_token_buckets refill limit
second_refused = refl

two_requests : Reach 1 small 3600 1000 (check_token_buckets after_one (batch 10 1500)).0 1500 50
unfolding check_token_buckets refill limit
two_requests =
    request after_one 1000 40 (batch 10 1500)
      (request no_buckets 1000 0 (batch 40 1000) (begin no_buckets refl) (omega arith)
        (batch-Agrees 40 1000))
      (omega arith) (batch-Agrees 10 1500)

check_token_buckets-bounded_example : 1000 * 50 ≤ 1000 * 50 + 20 * (1500 - 1000)
check_token_buckets-bounded_example =
    check_token_buckets-bounded 1 small 3600 1000 (check_token_buckets after_one (batch 10 1500)).0
      1500 50 (omega arith) two_requests

retry_after_enough_example :
    (check_token_buckets
      (check_token_buckets after_one (batch 40 1500)).0
      (batch 40 2500)).1.limited_by
    ≢ by_ip
unfolding check_token_buckets refill limit retry_after seconds_until_available
retry_after_enough_example =
    retry_after_enough after_one (check_token_buckets after_one (batch 40 1500)).0 (batch 40 1500)
      2500 (λ e. omega (arith, e)) (λ e. cc) (omega arith) (omega arith) refl (omega arith)

over_capacity_refused_example :
    (check_token_buckets no_buckets (batch 51 1000)).1.limited_by ≡ by_ip
over_capacity_refused_example = over_capacity_refused no_buckets (batch 51 1000) (omega arith)
