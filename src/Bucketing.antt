-- ===== src/Bucketing.antt =====
-- backend/src/repositories/metrics/bucketing.ts: the bucket of a time series, from an interval in
-- seconds. An interval that is no integer, which the code rejects too, is not a value here.
pub mod Laws
use inveni_ops.Base.{ℕ, ◌/◌, ◌%◌, Option, none, some, ◌==◌, if◌then◌else◌}
use inveni_ops.Base.Int.{ℤ, pos, negsuc}

pub data IntervalUnit : Type 0 where
  second minute hour day : IntervalUnit

pub record BucketSpec : Type 0 where
  pub unit : IntervalUnit
  pub bin_size : ℕ

abbrev spec : IntervalUnit → ℕ → Option BucketSpec
spec unit bin_size = some (record { unit = unit; bin_size = bin_size })

-- toBucketSpec, with `none` for the error that it throws.
unfoldable pub to_bucket_spec : ℤ → Option BucketSpec
to_bucket_spec (negsuc n) = none
to_bucket_spec (pos n) =
    if n == 0
    then none
    else if n % 86_400 == 0
    then spec day (n / 86_400)
    else if n % 3_600 == 0
    then spec hour (n / 3_600)
    else if n % 60 == 0
    then spec minute (n / 60)
    else spec second n
