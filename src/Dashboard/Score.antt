-- ===== src/Dashboard/Score.antt =====
-- The order of the sorted set in backend/src/repositories/redis/dashboardCache.ts.
use inveni_ops.Base.{ℕ, ◌*◌, ◌<◌, ◌≡◌, ◌↔◌, ◌⊎◌, inl, inr, arith, dec_lt}
use inveni_ops.Base.Int.{pos, ◌+ℤ◌, +ℤ_parts}
use inveni_ops.Types.{severity_rank}
use inveni_ops.Rca.Laws.{◌<ℤ◌}
use inveni_ops.WorkItems.{WorkItem}
use inveni_ops.Dashboard.{active_score}

lexicographic :
    (m n s t : ℕ)
    → s < 10_000_000_000_000
    → t < 10_000_000_000_000
    → (pos (m * 10_000_000_000_000) +ℤ pos s <ℤ pos (n * 10_000_000_000_000) +ℤ pos t)
      ↔ ((m < n) ⊎ ((m ≡ n) × (s < t)))
lexicographic m n s t early early' =
    let left = +ℤ_parts (pos (m * 10_000_000_000_000)) (pos s) in
    let right = +ℤ_parts (pos (n * 10_000_000_000_000)) (pos t) in
    (
      λ h. elim (dec_lt m n) [
        | yes l ↦ inl l
        | no k ↦ inr (omega (arith, h, k, left, right), omega (arith, h, k, left, right))
      ],
      λ h. elim h [
        | inl l ↦ omega (arith, l, left, right)
        | inr (e, l) ↦ omega (arith, e, l, left, right)
      ],
    )

-- For first signals from the epoch on, and before the year 2286, the scores order two work items by
-- severity, and by the first signal where the severities are equal.
pub active_score_iff :
    (a b : WorkItem) (s t : ℕ)
    → a.first_signal_at ≡ pos s
    → b.first_signal_at ≡ pos t
    → s < 10_000_000_000_000
    → t < 10_000_000_000_000
    → (active_score a <ℤ active_score b) ↔ (
        (severity_rank a.severity < severity_rank b.severity)
        ⊎ ((severity_rank a.severity ≡ severity_rank b.severity) × (s < t)))
unfolding active_score
active_score_iff a b s t sa sb early early' =
    rw (sa, sb)
      (lexicographic (severity_rank a.severity) (severity_rank b.severity) s t early early')
