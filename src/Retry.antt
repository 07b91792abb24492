-- ===== src/Retry.antt =====
-- backend/src/utils/retry.ts over an action that changes a state of type S and returns a value or
-- throws an error. The jitter is left out: a delay is the bound that it is drawn below.
pub mod Laws
pub mod Keeps
use inveni_ops.Base.{
  ℕ, zero, suc, ◌+◌, ◌-◌, ◌*◌, ◌^◌, min, Bool, true, false, not, ◌||◌, List, [], ◌∷◌, Option, none,
  some, ◌==◌, ltb, if◌then◌else◌,
}

pub data Result (E A : Type 0) : Type 0 where
  ok : A → Result E A
  err : E → Result E A

pub record RetryOptions (E : Type 0) : Type 0 where
  pub attempts : ℕ
  pub base_delay_ms : ℕ
  pub max_delay_ms : Option ℕ
  pub should_retry : E → Bool

-- What `retry` throws: its own complaint about `attempts`, or the action's last error.
pub data RetryError (E : Type 0) : Type 0 where
  bad_attempts : RetryError E
  thrown : E → RetryError E

abbrev pub cap_delay : Option ℕ → ℕ → ℕ
cap_delay none d = d
cap_delay (some m) d = min d m

unfoldable pub compute_delay : {E : Type 0} → RetryOptions E → ℕ → ℕ
compute_delay o attempt = cap_delay o.max_delay_ms (o.base_delay_ms * 2 ^ (attempt - 1))

-- The state at the end, the outcome, and the delays slept through.
abbrev pub Outcome : Type 0 → Type 0 → Type 0 → Type 0
Outcome S E A = S × Result (RetryError E) A × List ℕ

module _ {S E A : Type 0} (o : RetryOptions E) (fn : S → S × Result E A) where
  abbrev delayed : ℕ → Outcome S E A → Outcome S E A
  delayed d (s, r, ds) = (s, r, d ∷ ds)

  -- One round of the loop: what follows an attempt, where `again` is the rest of the loop.
  after_attempt : ℕ → S × Result E A → (S → Outcome S E A) → Outcome S E A
  after_attempt attempt (s, ok a) again = (s, ok a, [])
  after_attempt attempt (s, err e) again =
      let further = delayed (compute_delay o attempt) (again s) in
      if not (o.should_retry e) || attempt == o.attempts then (s, err (thrown e), []) else further

  -- The loop at `attempt`, with `left` rounds after this one.
  retry_loop : ℕ → ℕ → S → Outcome S E A
  unfolding after_attempt
  retry_loop zero attempt s = after_attempt attempt (fn s) (λ t. (t, err bad_attempts, []))
  retry_loop (suc left) attempt s =
      after_attempt attempt (fn s) (λ t. retry_loop left (attempt + 1) t)

  unfoldable pub retry : S → Outcome S E A
  unfolding retry_loop
  retry s = if ltb o.attempts 1 then (s, err bad_attempts, []) else retry_loop (o.attempts - 1) 1 s
