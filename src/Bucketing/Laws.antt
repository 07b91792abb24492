-- ===== src/Bucketing/Laws.antt =====
-- toBucketSpec of backend/src/repositories/metrics/bucketing.ts loses nothing and takes the largest
-- unit.
use inveni_ops.Base.{
  ℕ, ◌*◌, ◌/◌, ◌%◌, ◌≤◌, ◌<◌, ◌≡◌, refl, inl, inr, true, false, some, ◌==◌, ==_iff, Bool-cases,
  arith,
}
use inveni_ops.Base.Int.{pos}
use inveni_ops.Bucketing.{IntervalUnit, second, minute, hour, day, BucketSpec, to_bucket_spec}

abbrev pub seconds_of : IntervalUnit → ℕ
seconds_of second = 1
seconds_of minute = 60
seconds_of hour = 3_600
seconds_of day = 86_400

-- No unit that divides n is longer than the one given.
abbrev pub Longest : IntervalUnit → ℕ → Type 0
Longest unit n =
    (other : IntervalUnit) (m : ℕ) → n ≡ seconds_of other * m → seconds_of other ≤ seconds_of unit

day-Longest : (n : ℕ) → Longest day n
day-Longest n second m h = omega arith
day-Longest n minute m h = omega arith
day-Longest n hour m h = omega arith
day-Longest n day m h = omega arith

hour-Longest : (n : ℕ) → (n % 86_400 == 0) ≡ false → Longest hour n
hour-Longest n no_day second m h = omega arith
hour-Longest n no_day minute m h = omega arith
hour-Longest n no_day hour m h = omega arith
hour-Longest n no_day day m h = absurd (ground arith)

minute-Longest : (n : ℕ) → (n % 3_600 == 0) ≡ false → Longest minute n
minute-Longest n no_hour second m h = omega arith
minute-Longest n no_hour minute m h = omega arith
minute-Longest n no_hour hour m h = absurd (ground arith)
minute-Longest n no_hour day m h = absurd (ground arith)

second-Longest : (n : ℕ) → (n % 60 == 0) ≡ false → Longest second n
second-Longest n no_minute second m h = omega arith
second-Longest n no_minute minute m h = absurd (ground arith)
second-Longest n no_minute hour m h = absurd (ground arith)
second-Longest n no_minute day m h = absurd (ground arith)

divides : (n k : ℕ) → (n % k == 0) ≡ true → n % k ≡ 0
divides n k h = (==_iff (n % k) 0).0 h

-- For a positive interval the bucket is as long as the interval, unit times bin size, and its unit
-- is the longest of second, minute, hour and day that the interval is a multiple of.
pub to_bucket_spec-Longest :
    (n : ℕ)
    → 0 < n
    → (s : BucketSpec) × (to_bucket_spec (pos n) ≡ some s)
      × (n ≡ seconds_of s.unit * s.bin_size)
      × Longest s.unit n
unfolding to_bucket_spec
to_bucket_spec-Longest n positive =
    let some_seconds : (n == 0) ≡ false = ground arith in
    elim (Bool-cases (n % 86_400 == 0)) [
      | inl days ↦ (
        record { unit = day; bin_size = n / 86_400 },
        rw (some_seconds, days) refl,
        omega (arith, divides n 86_400 days),
        day-Longest n,
      )
      | inr no_days ↦ elim (Bool-cases (n % 3_600 == 0)) [
        | inl hours ↦ (
          record { unit = hour; bin_size = n / 3_600 },
          rw (some_seconds, no_days, hours) refl,
          omega (arith, divides n 3_600 hours),
          hour-Longest n no_days,
        )
        | inr no_hours ↦ elim (Bool-cases (n % 60 == 0)) [
          | inl minutes ↦ (
            record { unit = minute; bin_size = n / 60 },
            rw (some_seconds, no_days, no_hours, minutes) refl,
            omega (arith, divides n 60 minutes),
            minute-Longest n no_hours,
          )
          | inr no_minutes ↦ (
            record { unit = second; bin_size = n },
            rw (some_seconds, no_days, no_hours, no_minutes) refl,
            omega arith,
            second-Longest n no_minutes,
          )
        ]
      ]
    ]
