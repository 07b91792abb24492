-- ===== src/Retry/Laws.antt =====
-- How often `retry` calls its action, and what becomes of a script of outcomes.
use native.Mathlib.Numerals.{unary_clauses}
use inveni_ops.Base.{
  ap₂, min, ◌*◌, ◌^◌, ◌∙◌, Option, none, some, ℕ, zero, suc, ◌+◌, ◌-◌, ◌≤◌, ◌<◌, ◌≡◌, refl, sym, ap,
  subst, true, false, List, [], ◌∷◌, ◌++◌, replicate, ◌==◌, ltb, arith,
}
use inveni_ops.Retry.{
  Result, ok, err, RetryOptions, thrown, cap_delay, compute_delay, delayed, retry_loop, retry,
}

-- An action whose outcomes are written down beforehand; a call takes the next one.
abbrev pub scripted : {E A : Type 0} → A → List (Result E A) → List (Result E A) × Result E A
scripted a [] = ([], ok a)
scripted a (r ∷ rs) = (rs, r)

-- The delays of n rounds from attempt i on.
abbrev pub delays : {E : Type 0} → RetryOptions E → ℕ → ℕ → List ℕ
delays o i zero = []
delays o i (suc n) = compute_delay o i ∷ delays o (i + 1) n

-- A wait that is bounded by the cap, if there is one.
abbrev pub bounded : Option ℕ → ℕ → ℕ
bounded cap d = elim cap [ none ↦ d | some m ↦ min d m ]

-- k waits, the first of which is `wait`, and each of which is twice the one before it.
abbrev pub doubling : Option ℕ → ℕ → ℕ → List ℕ
doubling cap wait zero = []
doubling cap wait (suc k) = bounded cap wait ∷ doubling cap (2 * wait) k

cap_delay-bounded : (cap : Option ℕ) (d : ℕ) → cap_delay cap d ≡ bounded cap d
cap_delay-bounded none d = refl
cap_delay-bounded (some m) d = refl

power_twice : (b i : ℕ) → b * 2 ^ suc i ≡ 2 * (b * 2 ^ i)
power_twice b i = simp unary_clauses (omega arith)

delays-doubling :
    {E : Type 0} (o : RetryOptions E) (i k wait : ℕ)
    → 0 < i
    → o.base_delay_ms * 2 ^ (i - 1) ≡ wait
    → delays o i k ≡ doubling o.max_delay_ms wait k
unfolding compute_delay
delays-doubling o i zero wait h same = refl
delays-doubling o i (suc k) wait h same =
    let next : i + 1 - 1 ≡ suc (i - 1) = omega arith in
    let twice : o.base_delay_ms * 2 ^ (i + 1 - 1) ≡ 2 * wait =
      ap (λ n. o.base_delay_ms * 2 ^ n) next
      ∙ power_twice o.base_delay_ms (i - 1)
      ∙ ap (λ w. 2 * w) same in
    ap₂ (λ d ds. d ∷ ds)
      (cap_delay-bounded o.max_delay_ms (o.base_delay_ms * 2 ^ (i - 1))
        ∙ ap (bounded o.max_delay_ms) same)
      (delays-doubling o (i + 1) k (2 * wait) (omega arith) twice)

module _ {E A : Type 0} (o : RetryOptions E) (default : A) (e : E)
    (transient : o.should_retry e ≡ true) where
  loop_recovers :
      (k left attempt : ℕ) (a : A) (rest : List (Result E A))
      → k ≤ left
      → attempt + left ≡ o.attempts
      → retry_loop o (scripted default) left attempt (replicate k (err e) ++ ok a ∷ rest)
        ≡ (rest, ok a, delays o attempt k)
  unfolding retry_loop
  loop_recovers zero zero attempt a rest h s = refl
  loop_recovers zero (suc left) attempt a rest h s = refl
  loop_recovers (suc k) zero attempt a rest h s = elim h [ ]
  loop_recovers (suc k) (suc left) attempt a rest h s =
      let more : (attempt == o.attempts) ≡ false = ground arith in
      rw (transient, more)
        (ap (delayed o (scripted default) (compute_delay o attempt))
          (loop_recovers k left (attempt + 1) a rest (omega arith) (omega arith)))

  loop_exhausted :
      (left attempt : ℕ) (rest : List (Result E A))
      → attempt + left ≡ o.attempts
      → retry_loop o (scripted default) left attempt (replicate (suc left) (err e) ++ rest)
        ≡ (rest, err (thrown e), delays o attempt left)
  unfolding retry_loop
  loop_exhausted zero attempt rest s =
      let last : (attempt == o.attempts) ≡ true = ground arith in rw (transient, last) refl
  loop_exhausted (suc left) attempt rest s =
      let more : (attempt == o.attempts) ≡ false = ground arith in
      rw (transient, more)
        (ap (delayed o (scripted default) (compute_delay o attempt))
          (loop_exhausted left (attempt + 1) rest (omega arith)))

  -- An action that fails with a retryable error fewer times than there are attempts, and then
  -- succeeds, is called exactly that often and once more; its value is returned, and the bounds of
  -- the waits are the base delay and then twice the one before, each cut to the cap if there is one.
  pub retry_recovers :
      (k : ℕ) (a : A) (rest : List (Result E A))
      → k < o.attempts
      → retry o (scripted default) (replicate k (err e) ++ ok a ∷ rest)
        ≡ (rest, ok a, doubling o.max_delay_ms o.base_delay_ms k)
  unfolding retry
  retry_recovers k a rest h =
      let enough : ltb o.attempts 1 ≡ false = ground arith in
      let from_base : o.base_delay_ms * 1 ≡ o.base_delay_ms = omega arith in
      rw enough (
        loop_recovers k (o.attempts - 1) 1 a rest (omega arith) (omega arith)
        ∙ ap (λ ds. (rest, ok a, ds))
            (delays-doubling o 1 k o.base_delay_ms (omega arith) from_base))

  -- An action that goes on failing is called exactly `attempts` times, with no wait after the last
  -- call, and its error is thrown.
  pub retry_exhausted :
      (rest : List (Result E A))
      → 0 < o.attempts
      → retry o (scripted default) (replicate o.attempts (err e) ++ rest)
        ≡ (rest, err (thrown e), delays o 1 (o.attempts - 1))
  unfolding retry
  retry_exhausted rest h =
      let enough : ltb o.attempts 1 ≡ false = ground arith in
      let e1 : o.attempts ≡ suc (o.attempts - 1) = omega arith in
      rw enough (
        subst
          (λ (n : ℕ).
            retry_loop o (scripted default) (o.attempts - 1) 1 (replicate n (err e) ++ rest)
            ≡ (rest, err (thrown e), delays o 1 (o.attempts - 1)))
          (sym e1) (loop_exhausted (o.attempts - 1) 1 rest (omega arith)))
