-- ===== src/Rca/Mttr.antt =====
-- calculateMttr against the times that it is computed from.
use inveni_ops.Base.{
  ℕ, ◌+◌, ◌*◌, ◌≤◌, ◌<◌, ◌≡◌, ◌⊎◌, inl, inr, arith, leb, if◌then◌else◌, Bool-cases, ◌-◌,
}
use inveni_ops.Base.Int.{ℤ, ◌≤ℤ◌, ◌-ℤ◌, pos_part, neg_part}
use inveni_ops.Rca.{mttr_seconds, clock_skew, calculate_mttr, round_div}
use inveni_ops.Rca.Laws.{◌<ℤ◌}

calculate_mttr-sub :
    (first submitted : ℤ)
    → calculate_mttr first submitted ≡ (
        let a = pos_part submitted + neg_part first in
        let b = neg_part submitted + pos_part first in
        if leb b a then mttr_seconds (round_div (a - b) 1000) else clock_skew)
unfolding calculate_mttr ◌-ℤ◌
calculate_mttr-sub first submitted = ground arith

-- Either the submission is not before the first signal, and the seconds reported are the elapsed
-- milliseconds to the nearest thousand, half a second up; or it is before, and the result is the
-- clock-skew error.
pub calculate_mttr_nearest :
    (first_signal_at rca_submitted_at : ℤ)
    → ((n : ℕ) × (calculate_mttr first_signal_at rca_submitted_at ≡ mttr_seconds n)
        × (first_signal_at ≤ℤ rca_submitted_at)
        × (pos_part rca_submitted_at + neg_part first_signal_at
            < n * 1000 + 500 + (pos_part first_signal_at + neg_part rca_submitted_at))
        × (n * 1000 + (pos_part first_signal_at + neg_part rca_submitted_at)
            ≤ pos_part rca_submitted_at + neg_part first_signal_at + 500))
      ⊎ ((calculate_mttr first_signal_at rca_submitted_at ≡ clock_skew)
          × (rca_submitted_at <ℤ first_signal_at))
calculate_mttr_nearest f s =
    elim (Bool-cases (leb (neg_part s + pos_part f) (pos_part s + neg_part f))) [
      | inl h ↦ inl (
        round_div (pos_part s + neg_part f - (neg_part s + pos_part f)) 1000,
        rw (calculate_mttr-sub f s, h),
        ground arith,
        ground arith,
        ground arith,
      )
      | inr h ↦ inr (rw (calculate_mttr-sub f s, h), ground arith)
    ]

-- Of two submissions for one incident the later one never reports the shorter time.
pub calculate_mttr_mono :
    (first early late : ℤ) (m n : ℕ)
    → early ≤ℤ late
    → calculate_mttr first early ≡ mttr_seconds m
    → calculate_mttr first late ≡ mttr_seconds n
    → m ≤ n
calculate_mttr_mono first early late m n h a b =
    ground (arith, calculate_mttr-sub first early, calculate_mttr-sub first late)
