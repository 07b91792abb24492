-- ===== src/Metrics/Recorder.antt =====
-- createQueueMetricsRecorder and Histogram of backend/src/utils/metrics.ts over a run of the worker.
use inveni_ops.Base.{
  ap, ap₂, subst, ℕ, ◌+◌, ◌≡◌, refl, arith, List, [], ◌∷◌, ◌++◌, map, length, length-append, leb,
  Bool-cases, inl, inr, if◌then◌else◌, append_assoc, append-nil, sym,
}
use inveni_ops.Metrics.{
  bump_counts, QueueMetricsRecorder, create_queue_metrics_recorder, record_job_processed,
  record_job_failed, reset, e2e_latency_buckets_ms,
}

-- What a process does with its recorder.
pub data RecorderEvent : Type 0 where
  processed : ℕ → RecorderEvent
  failed : RecorderEvent
  report : RecorderEvent

-- The recorder, and the jobs processed and failed that the reports so far have told.
pub record Run : Type 0 where
  pub recorder : QueueMetricsRecorder
  pub told_processed : ℕ
  pub told_failed : ℕ

unfoldable pub step : Run → RecorderEvent → Run
step r (processed latency) = record r { recorder = record_job_processed r.recorder latency }
step r failed = record r { recorder = record_job_failed r.recorder }
step r report =
    let (rest, snapshot) = reset r.recorder in
    record {
      recorder = rest;
      told_processed = r.told_processed + snapshot.jobs_processed;
      told_failed = r.told_failed + snapshot.jobs_failed;
    }

unfoldable pub run : Run → List RecorderEvent → Run
run r [] = r
run r (e ∷ es) = run (step r e) es

abbrev pub started : Run
started = record { recorder = create_queue_metrics_recorder; told_processed = 0; told_failed = 0 }

abbrev pub latencies : List RecorderEvent → List ℕ
latencies [] = []
latencies (processed l ∷ es) = l ∷ latencies es
latencies (_ ∷ es) = latencies es

abbrev pub failures : List RecorderEvent → ℕ
failures [] = 0
failures (failed ∷ es) = 1 + failures es
failures (_ ∷ es) = failures es

abbrev pub sum : List ℕ → ℕ
sum [] = 0
sum (x ∷ xs) = x + sum xs

-- How many of the values a boundary bounds.
pub within : List ℕ → ℕ → ℕ
within [] b = 0
within (x ∷ xs) b = (if leb x b then 1 else 0) + within xs b

sum-append : (xs ys : List ℕ) → sum (xs ++ ys) ≡ sum xs + sum ys
sum-append [] ys = omega arith
sum-append (x ∷ xs) ys = omega (arith, sum-append xs ys)

within-append : (xs ys : List ℕ) (b : ℕ) → within (xs ++ ys) b ≡ within xs b + within ys b
unfolding within
within-append [] ys b = omega arith
within-append (x ∷ xs) ys b = omega (arith, within-append xs ys b)

bump-within :
    (v : ℕ) (xs bs : List ℕ)
    → bump_counts v bs (map (within xs) bs) ≡ map (within (xs ++ v ∷ [])) bs
unfolding within
bump-within v xs [] = refl
bump-within v xs (b ∷ bs) =
    let counted : within (xs ++ v ∷ []) b ≡ within xs b + ((if leb v b then 1 else 0) + 0) =
      within-append xs (v ∷ []) b in
    elim (Bool-cases (leb v b)) [
      | inl e ↦ rw e (ap₂ (λ n ns. n ∷ ns) (ground (arith, counted, e)) (bump-within v xs bs))
      | inr e ↦ rw e (ap₂ (λ n ns. n ∷ ns) (ground (arith, counted, e)) (bump-within v xs bs))
    ]

-- The latencies of the jobs that came after the last report, `before` being those so far.
abbrev pub untold : List ℕ → List RecorderEvent → List ℕ
untold before [] = before
untold before (processed l ∷ es) = untold (before ++ l ∷ []) es
untold before (failed ∷ es) = untold before es
untold before (report ∷ es) = untold [] es

-- What a recorder knows of the latencies and the failures that it was given, and of the latencies
-- that no report has told.
pub record Knows (r : Run) (ls : List ℕ) (n : ℕ) (us : List ℕ) : Type 0 where
  pub boundaries : r.recorder.histogram.boundaries_ms ≡ e2e_latency_buckets_ms
  pub buckets : r.recorder.histogram.counts ≡ map (within ls) e2e_latency_buckets_ms
  pub observed : r.recorder.histogram.total ≡ length ls
  pub summed : r.recorder.histogram.sum_ms ≡ sum ls
  pub all_processed : r.recorder.jobs_processed_total ≡ length ls
  pub all_failed : r.recorder.jobs_failed_total ≡ n
  pub processed_once : r.told_processed + r.recorder.jobs_processed ≡ length ls
  pub failed_once : r.told_failed + r.recorder.jobs_failed ≡ n
  pub sampled : r.recorder.samples ≡ us
  pub untold_jobs : r.recorder.jobs_processed ≡ length us
  pub averaged : r.recorder.total_latency_ms ≡ sum us

Knows-moved :
    (r : Run) (ls ls' : List ℕ) (n n' : ℕ) (us : List ℕ)
    → Knows r ls n us
    → ls ≡ ls'
    → n ≡ n'
    → Knows r ls' n' us
Knows-moved r ls ls' n n' us k e f =
    subst (λ m. Knows r ls' m us) f (subst (λ m. Knows r m n us) e k)

started-Knows : Knows started [] 0 []
unfolding within
started-Knows = record {
  boundaries = refl;
  buckets = refl;
  observed = refl;
  summed = refl;
  all_processed = refl;
  all_failed = refl;
  processed_once = refl;
  failed_once = refl;
  sampled = refl;
  untold_jobs = refl;
  averaged = refl;
}

step-processed :
    (r : Run) (ls : List ℕ) (n l : ℕ) (us : List ℕ)
    → Knows r ls n us
    → Knows (step r (processed l)) (ls ++ l ∷ []) n (us ++ l ∷ [])
unfolding step
step-processed r ls n l us k =
    let longer = length-append {0} ls (l ∷ []) in
    let more = sum-append ls (l ∷ []) in
    record {
      boundaries = k.boundaries;
      buckets = rw (k.boundaries, k.buckets) (bump-within l ls e2e_latency_buckets_ms);
      observed = omega (arith, k.observed, longer);
      summed = omega (arith, k.summed, more);
      all_processed = omega (arith, k.all_processed, longer);
      all_failed = k.all_failed;
      processed_once = omega (arith, k.processed_once, longer);
      failed_once = k.failed_once;
      sampled = ap (λ xs. xs ++ l ∷ []) k.sampled;
      untold_jobs = omega (arith, k.untold_jobs, length-append {0} us (l ∷ []));
      averaged = omega (arith, k.averaged, sum-append us (l ∷ []));
    }

step-failed :
    (r : Run) (ls : List ℕ) (n : ℕ) (us : List ℕ)
    → Knows r ls n us
    → Knows (step r failed) ls (n + 1) us
unfolding step
step-failed r ls n us k = record {
  boundaries = k.boundaries;
  buckets = k.buckets;
  observed = k.observed;
  summed = k.summed;
  all_processed = k.all_processed;
  all_failed = omega (arith, k.all_failed);
  processed_once = k.processed_once;
  failed_once = omega (arith, k.failed_once);
  sampled = k.sampled;
  untold_jobs = k.untold_jobs;
  averaged = k.averaged;
}

step-report :
    (r : Run) (ls : List ℕ) (n : ℕ) (us : List ℕ) → Knows r ls n us → Knows (step r report) ls n []
unfolding step reset
step-report r ls n us k = record {
  boundaries = k.boundaries;
  buckets = k.buckets;
  observed = k.observed;
  summed = k.summed;
  all_processed = k.all_processed;
  all_failed = k.all_failed;
  processed_once = omega (arith, k.processed_once);
  failed_once = omega (arith, k.failed_once);
  sampled = refl;
  untold_jobs = refl;
  averaged = refl;
}

run-Knows :
    (r : Run) (ls : List ℕ) (n : ℕ) (us : List ℕ) (es : List RecorderEvent)
    → Knows r ls n us
    → Knows (run r es) (ls ++ latencies es) (n + failures es) (untold us es)
unfolding run
run-Knows r ls n us [] k =
    Knows-moved r ls (ls ++ []) n (n + 0) us k (sym (append-nil ls)) (omega arith)
run-Knows r ls n us (processed l ∷ es) k =
    Knows-moved (run (step r (processed l)) es) ((ls ++ l ∷ []) ++ latencies es)
      (ls ++ l ∷ latencies es) (n + failures es) (n + failures es) (untold (us ++ l ∷ []) es)
      (run-Knows (step r (processed l)) (ls ++ l ∷ []) n (us ++ l ∷ []) es
        (step-processed r ls n l us k))
      (append_assoc ls (l ∷ []) (latencies es)) refl
run-Knows r ls n us (failed ∷ es) k =
    Knows-moved (run (step r failed) es) (ls ++ latencies es) (ls ++ latencies es)
      (n + 1 + failures es) (n + (1 + failures es)) (untold us es)
      (run-Knows (step r failed) ls (n + 1) us es (step-failed r ls n us k)) refl (omega arith)
run-Knows r ls n us (report ∷ es) k = run-Knows (step r report) ls n [] es (step-report r ls n us k)

-- However jobs, failures and reports follow each other, the recorder accounts for each job and each
-- failure once: those that the reports have told and those still to be told add up to the totals
-- since the process started. Each bucket of the histogram counts the latencies that its boundary
-- bounds, and the samples kept are the latencies of the jobs since the last report, in order, with
-- their number and their sum beside them.
pub run_lem :
    (es : List RecorderEvent) → Knows (run started es) (latencies es) (failures es) (untold [] es)
run_lem es =
    Knows-moved (run started es) ([] ++ latencies es) (latencies es) (0 + failures es) (failures es)
      (untold [] es) (run-Knows started [] 0 [] es started-Knows) refl (omega arith)
