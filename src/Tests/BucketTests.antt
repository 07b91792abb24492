-- ===== src/Tests/BucketTests.antt =====
-- backend/src/repositories/metrics/bucketing.ts at a concrete interval.
use inveni_ops.Base.{◌*◌, ◌≡◌, some, arith}
use inveni_ops.Base.Int.{pos}
use inveni_ops.Bucketing.{BucketSpec, to_bucket_spec}
use inveni_ops.Bucketing.Laws.{seconds_of, Longest, to_bucket_spec-Longest}

to_bucket_spec-Longest_example :
    (s : BucketSpec) × (to_bucket_spec (pos 7200) ≡ some s)
    × (7200 ≡ seconds_of s.unit * s.bin_size)
    × Longest s.unit 7200
to_bucket_spec-Longest_example = to_bucket_spec-Longest 7200 (omega arith)
