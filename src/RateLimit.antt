-- ===== src/RateLimit.antt =====
-- backend/src/rateLimit/tokenBucket.ts: the script that refills and debits two buckets in one step,
-- and the wait that a limited caller is told. A level is counted in thousandths of a token, so that
-- a refill per second is a whole number per millisecond; the code computes with doubles.
pub mod Bound
pub mod Waiting
use inveni_ops.Base.{
  ℕ, ◌+◌, ◌-◌, ◌*◌, ◌/◌, min, Bool, true, false, Option, none, some, if◌then◌else◌, ltb, ◌==◌,
}
use inveni_ops.Types.{Ident}

-- The hash of a key: its tokens and the time at which they were counted.
pub record Bucket : Type 0 where
  pub level : ℕ
  pub ts : ℕ

abbrev pub Buckets : Type 0
Buckets = Ident → Option Bucket

pub record TokenBucketConfig : Type 0 where
  pub capacity : ℕ
  pub refill_per_second : ℕ

pub record TokenBucketCheckParams : Type 0 where
  pub ip_key : Ident
  pub global_key : Ident
  pub ip : TokenBucketConfig
  pub global : TokenBucketConfig
  pub cost : ℕ
  pub now : ℕ

pub data LimitedBy : Type 0 where
  nobody by_ip by_global : LimitedBy

pub record TokenBucketResult : Type 0 where
  pub limited_by : LimitedBy
  pub ip_remaining : ℕ
  pub global_remaining : ℕ

abbrev pub allowed : LimitedBy → Bool
allowed nobody = true
allowed _ = false

-- The script's `refill`. A clock that stands before `ts` counts as no time, as on ℕ.
unfoldable pub refill : Option Bucket → TokenBucketConfig → ℕ → ℕ
refill none c now = min (1000 * c.capacity) (1000 * c.capacity)
refill (some b) c now = min (1000 * c.capacity) (b.level + (now - b.ts) * c.refill_per_second)

-- The script's if/elseif.
unfoldable pub limit : ℕ → ℕ → ℕ → LimitedBy
limit ip_tokens global_tokens cost =
    if ltb ip_tokens (1000 * cost)
    then by_ip
    else if ltb global_tokens (1000 * cost)
    then by_global
    else nobody

abbrev pub debit : LimitedBy → ℕ → ℕ → ℕ
debit nobody tokens cost = tokens - 1000 * cost
debit _ tokens cost = tokens

-- HMSET of one key.
abbrev pub hmset : Buckets → Ident → Bucket → Buckets
hmset s key b k = if key == k then some b else s k

unfoldable pub check_token_buckets : Buckets → TokenBucketCheckParams → Buckets × TokenBucketResult
check_token_buckets s p =
    let ip_tokens = refill (s p.ip_key) p.ip p.now in
    let global_tokens = refill (s p.global_key) p.global p.now in
    let verdict = limit ip_tokens global_tokens p.cost in
    let ip_left = debit verdict ip_tokens p.cost in
    let global_left = debit verdict global_tokens p.cost in
    (
      hmset (hmset s p.ip_key (record { level = ip_left; ts = p.now })) p.global_key
          (record { level = global_left; ts = p.now }),
      record { limited_by = verdict; ip_remaining = ip_left; global_remaining = global_left },
    )

abbrev ceil_div : ℕ → ℕ → ℕ
ceil_div a b = (a + b - 1) / b

-- secondsUntilAvailable; a deficit that is not positive is 0 on ℕ, and so is its quotient. The
-- configuration refuses a refill of 0, with which the code would answer Infinity.
unfoldable pub seconds_until_available : ℕ → ℕ → ℕ → ℕ
seconds_until_available remaining refill_per_second cost =
    let deficit = 1000 * cost - remaining in
    if deficit == 0 then 0 else ceil_div deficit (1000 * refill_per_second)

-- The bucket that signals.ts quotes to a limited caller.
abbrev pub limited_bucket : TokenBucketResult → LimitedBy → ℕ
limited_bucket r by_global = r.global_remaining
limited_bucket r _ = r.ip_remaining

abbrev pub limiting_config : TokenBucketCheckParams → LimitedBy → TokenBucketConfig
limiting_config p by_global = p.global
limiting_config p _ = p.ip

-- The header Retry-After of postSignals' 429.
unfoldable pub retry_after : TokenBucketCheckParams → TokenBucketResult → ℕ
unfolding seconds_until_available
retry_after p r =
    seconds_until_available (limited_bucket r r.limited_by)
      (limiting_config p r.limited_by).refill_per_second p.cost
