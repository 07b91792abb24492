-- ===== src/Metrics/Ticks.antt =====
-- startMetricsReporter of backend/src/utils/metrics.ts over a run of the process.
use inveni_ops.Base.{ℕ, ◌+◌, ◌≤◌, ◌≡◌, refl, arith, List, [], ◌∷◌}
use inveni_ops.Buffer.{DropReason}
use inveni_ops.Metrics.{Reporter, tick, increment, sum_dropped_this_period}

-- A batch is accepted, or the reporter's interval passes and it reads the buffer's drops.
pub data ReporterEvent : Type 0 where
  accepts : ℕ → ReporterEvent
  interval : (DropReason → ℕ) → ReporterEvent

-- The reporter, with the sums of the accepted signals and of the drops that its lines have told.
pub record Told : Type 0 where
  pub reporter : Reporter
  pub signals : ℕ
  pub drops : ℕ

unfoldable pub after : ℕ → Told → List ReporterEvent → Told
unfolding tick
after ms t [] = t
after ms t (accepts n ∷ es) =
    after ms
      (record t { reporter = record (t.reporter) { counter = increment t.reporter.counter n } }) es
after ms t (interval d ∷ es) =
    let (reporter, line) = tick ms t.reporter d in
    after ms
      (record {
        reporter = reporter;
        signals = t.signals + line.total_accepted;
        drops = t.drops + line.drops_this_tick;
      })
      es

abbrev pub all_accepted : List ReporterEvent → ℕ
all_accepted [] = 0
all_accepted (accepts n ∷ es) = n + all_accepted es
all_accepted (interval d ∷ es) = all_accepted es

-- The buffer's drops never go down, from `low` on.
abbrev pub Rising : ℕ → List ReporterEvent → Type 0
Rising low [] = Unit
Rising low (accepts n ∷ es) = Rising low es
Rising low (interval d ∷ es) =
    (low ≤ sum_dropped_this_period d) × Rising (sum_dropped_this_period d) es

-- Whatever is accepted between the ticks, the signals that the lines have told and those that the
-- counter still holds are all that were accepted; and while the buffer's drops do not go down, the
-- drops that the lines have told add up to the drops of the last reading.
pub after_lem :
    (ms : ℕ) (t : Told) (es : List ReporterEvent)
    → Rising t.reporter.previous_total_dropped es
    → let u = after ms t es in
      (u.signals + u.reporter.counter ≡ t.signals + t.reporter.counter + all_accepted es)
      × (u.drops + t.reporter.previous_total_dropped ≡ t.drops + u.reporter.previous_total_dropped)
unfolding after tick
after_lem ms t [] h = (omega arith, refl)
after_lem ms t (accepts n ∷ es) h =
    let (signals, drops) =
      after_lem ms
        (record t { reporter = record (t.reporter) { counter = increment t.reporter.counter n } })
        es h in
    (omega (arith, signals), drops)
after_lem ms t (interval d ∷ es) (low, h) =
    let (reporter, line) = tick ms t.reporter d in
    let (signals, drops) =
      after_lem ms
        (record {
          reporter = reporter;
          signals = t.signals + line.total_accepted;
          drops = t.drops + line.drops_this_tick;
        })
        es h in
    (omega (arith, signals), omega (arith, drops, low))
