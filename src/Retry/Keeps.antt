-- ===== src/Retry/Keeps.antt =====
-- What every attempt keeps is kept by `retry` of backend/src/utils/retry.ts.
use inveni_ops.Base.{
  ℕ, zero, suc, ◌+◌, ◌-◌, ◌<◌, ◌≡◌, false, ◌==◌, ◌||◌, not, ltb, Bool-cases, inl, inr, [], arith,
}
use inveni_ops.Retry.{
  Result, ok, err, RetryError, thrown, RetryOptions, Outcome, bad_attempts, compute_delay, delayed,
  after_attempt, retry_loop, retry,
}

module _ {S E A : Type 0} (o : RetryOptions E) (fn : S → S × Result E A) (P : S → Type 0)
    (kept : (s : S) → P s → P (fn s).0) where
  after_attempt_kept :
      (attempt : ℕ) (r : S × Result E A) (again : S → Outcome S E A)
      → P r.0
      → ((s : S) → P s → P (again s).0)
      → P (after_attempt o fn attempt r again).0
  unfolding after_attempt
  after_attempt_kept attempt (s, ok a) again p h = p
  after_attempt_kept attempt (s, err e) again p h =
      elim (Bool-cases (not (o.should_retry e) || attempt == o.attempts)) [
        | inl x ↦ rw x p
        | inr x ↦ rw x (h s p)
      ]

  loop_kept : (left attempt : ℕ) (s : S) → P s → P (retry_loop o fn left attempt s).0
  unfolding retry_loop
  loop_kept zero attempt s p =
      after_attempt_kept attempt (fn s) (λ t. (t, err bad_attempts, [])) (kept s p) (λ t q. q)
  loop_kept (suc left) attempt s p =
      after_attempt_kept attempt (fn s) (λ t. retry_loop o fn left (attempt + 1) t) (kept s p)
        (λ t q. loop_kept left (attempt + 1) t q)

  pub retry_kept : (s : S) → P s → P (retry o fn s).0
  unfolding retry
  retry_kept s p = elim (Bool-cases (ltb o.attempts 1)) [
    | inl x ↦ rw x p
    | inr x ↦ rw x (loop_kept _ 1 s p)
  ]

-- What a round may leave: an end, or the means of another round besides.
pub data Ending {S E A : Type 0} (P : S → Type 0) (Q : S × Result (RetryError E) A → Type 0)
    : S × Result E A → Type 0 where
  success : (s : S) (a : A) → Q (s, ok a) → Ending P Q (s, ok a)
  failure : (s : S) (e : E) → P s → Q (s, err (thrown e)) → Ending P Q (s, err e)

module _ {S E A : Type 0} (o : RetryOptions E) (fn : S → S × Result E A) (P : S → Type 0)
    (Q : S × Result (RetryError E) A → Type 0) (each : (s : S) → P s → Ending P Q (fn s)) where
  abbrev End : Outcome S E A → Type 0
  End (s, r, delays) = Q (s, r)

  delayed-End : (d : ℕ) (out : Outcome S E A) → End out → End (delayed o fn d out)
  delayed-End d (s, r, delays) q = q

  after_attempt_ends :
      (attempt : ℕ) (r : S × Result E A) (again : S → Outcome S E A)
      → Ending P Q r
      → ((s : S) → (attempt == o.attempts) ≡ false → P s → End (again s))
      → End (after_attempt o fn attempt r again)
  unfolding after_attempt
  after_attempt_ends attempt _ again (success s a q) h = q
  after_attempt_ends attempt _ again (failure s e p q) h =
      elim (Bool-cases (not (o.should_retry e) || attempt == o.attempts)) [
        | inl x ↦ rw x q
        | inr x ↦ rw x (delayed-End (compute_delay o attempt) (again s) (h s (ground arith) p))
      ]

  loop_ends :
      (left attempt : ℕ) (s : S)
      → attempt + left ≡ o.attempts
      → P s
      → End (retry_loop o fn left attempt s)
  unfolding retry_loop
  loop_ends zero attempt s last p =
      after_attempt_ends attempt (fn s) (λ t. (t, err bad_attempts, [])) (each s p)
        (λ t more q. absurd (ground (arith, last, more)))
  loop_ends (suc left) attempt s last p =
      after_attempt_ends attempt (fn s) (λ t. retry_loop o fn left (attempt + 1) t) (each s p)
        (λ t more q. loop_ends left (attempt + 1) t (omega (arith, last)) q)

  -- An action that is tried at least once ends as one of its tries does.
  pub retry_ends : (s : S) → 0 < o.attempts → P s → End (retry o fn s)
  unfolding retry
  retry_ends s some_try p =
      let enough : ltb o.attempts 1 ≡ false = ground arith in
      rw enough (loop_ends (o.attempts - 1) 1 s (omega arith) p)
