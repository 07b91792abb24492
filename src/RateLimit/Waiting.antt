-- ===== src/RateLimit/Waiting.antt =====
-- What the answer to a limited caller is worth (backend/src/rateLimit/tokenBucket.ts, with the use
-- that backend/src/api/routes/signals.ts makes of it).
use native.Mathlib.Nat.{lt-div-mul-add}
use inveni_ops.Base.{
  ℕ, ◌+◌, ◌-◌, ◌*◌, ◌/◌, ◌≤◌, ◌<◌, ◌≡◌, ◌≢◌, refl, sym, ◌∙◌, subst, arith, true, false, Option,
  none, some, ◌==◌, ◌⊎◌, inl, inr, Bool-cases, ltb, lt→ltb,
}
use inveni_ops.Types.{Ident}
use inveni_ops.RateLimit.{
  Bucket, Buckets, TokenBucketConfig, TokenBucketCheckParams, LimitedBy, nobody, by_ip, by_global,
  TokenBucketResult, refill, limit, check_token_buckets, limiting_config, retry_after,
  seconds_until_available, ceil_div,
}

ceil_div_enough : (a b : ℕ) → 0 < b → a ≤ ceil_div a b * b
ceil_div_enough a b h =
    let above : a + b - 1 < (a + b - 1) / b * b + b = lt-div-mul-add h in omega arith

-- The seconds that a bucket needs fill it up to the cost.
seconds_enough :
    (level rate cost : ℕ)
    → 0 < rate
    → 1000 * cost ≤ level + 1000 * seconds_until_available level rate cost * rate
unfolding seconds_until_available
seconds_enough level rate cost h = elim (Bool-cases (1000 * cost - level == 0)) [
  | inl e ↦ rw e (ground arith)
  | inr e ↦ rw e (omega (arith, ceil_div_enough (1000 * cost - level) (1000 * rate) (omega arith)))
]

product_mono : (a b r : ℕ) → a ≤ b → a * r ≤ b * r
product_mono a b r h = let e : b ≡ a + (b - a) = omega arith in rw e (omega arith)

refilled :
    (c : TokenBucketConfig) (level cost now later : ℕ)
    → 0 < c.refill_per_second
    → cost ≤ c.capacity
    → now + 1000 * seconds_until_available level c.refill_per_second cost ≤ later
    → 1000 * cost ≤ refill (some (record { level = level; ts = now })) c later
unfolding refill
refilled c level cost now later h fits waited =
    let waits = 1000 * seconds_until_available level c.refill_per_second cost in
    omega (
      arith,
      seconds_enough level c.refill_per_second cost h,
      product_mono waits (later - now) c.refill_per_second (omega arith),
    )

limit-by_ip : (i g cost : ℕ) → 1000 * cost ≤ i → limit i g cost ≢ by_ip
unfolding limit
limit-by_ip i g cost h e = absurd (ground arith)

limit-by_global : (i g cost : ℕ) → 1000 * cost ≤ g → limit i g cost ≢ by_global
unfolding limit
limit-by_global i g cost h e = absurd (ground arith)

-- The request as it is made again at another time.
abbrev pub again_at : TokenBucketCheckParams → ℕ → TokenBucketCheckParams
again_at p later = record p { now = later }

abbrev key_of : TokenBucketCheckParams → LimitedBy → Ident
key_of p by_global = p.global_key
key_of p _ = p.ip_key

retry_after-by_ip :
    (p : TokenBucketCheckParams) (r : TokenBucketResult)
    → r.limited_by ≡ by_ip
    → retry_after p r ≡ seconds_until_available r.ip_remaining p.ip.refill_per_second p.cost
unfolding retry_after
retry_after-by_ip p r e = rw e refl

retry_after-by_global :
    (p : TokenBucketCheckParams) (r : TokenBucketResult)
    → r.limited_by ≡ by_global
    → retry_after p r ≡ seconds_until_available r.global_remaining p.global.refill_per_second p.cost
unfolding retry_after
retry_after-by_global p r e = rw e refl

LimitedBy-cases : (v : LimitedBy) → v ≢ nobody → (v ≡ by_ip) ⊎ (v ≡ by_global)
LimitedBy-cases nobody h = absurd (h refl)
LimitedBy-cases by_ip h = inl refl
LimitedBy-cases by_global h = inr refl

verdict-by_ip :
    (p : TokenBucketCheckParams) (s' : Buckets) (later : ℕ)
    → 1000 * p.cost ≤ refill (s' p.ip_key) p.ip later
    → (check_token_buckets s' (again_at p later)).1.limited_by ≢ by_ip
unfolding check_token_buckets
verdict-by_ip p s' later full =
    limit-by_ip (refill (s' p.ip_key) p.ip later) (refill (s' p.global_key) p.global later) p.cost
      full

verdict-by_global :
    (p : TokenBucketCheckParams) (s' : Buckets) (later : ℕ)
    → 1000 * p.cost ≤ refill (s' p.global_key) p.global later
    → (check_token_buckets s' (again_at p later)).1.limited_by ≢ by_global
unfolding check_token_buckets
verdict-by_global p s' later full =
    limit-by_global (refill (s' p.ip_key) p.ip later) (refill (s' p.global_key) p.global later)
      p.cost full

module _ (s : Buckets) (p : TokenBucketCheckParams) (two_keys : p.ip_key ≢ p.global_key) where
  abbrev result : TokenBucketResult
  result = (check_token_buckets s p).1

  ip_stored :
      (check_token_buckets s p).0 p.ip_key
      ≡ some (record { level = result.ip_remaining; ts = p.now })
  unfolding check_token_buckets
  ip_stored =
      let other : (p.global_key == p.ip_key) ≡ false = ground (arith, two_keys) in
      let own : (p.ip_key == p.ip_key) ≡ true = ground arith in rw (other, own) refl

  global_stored :
      (check_token_buckets s p).0 p.global_key
      ≡ some (record { level = result.global_remaining; ts = p.now })
  unfolding check_token_buckets
  global_stored = let own : (p.global_key == p.global_key) ≡ true = ground arith in rw own refl

  ip_ready :
      (s' : Buckets) (later : ℕ)
      → result.limited_by ≡ by_ip
      → 0 < p.ip.refill_per_second
      → p.cost ≤ p.ip.capacity
      → s' p.ip_key ≡ (check_token_buckets s p).0 p.ip_key
      → p.now + 1000 * retry_after p result ≤ later
      → (check_token_buckets s' (again_at p later)).1.limited_by ≢ by_ip
  ip_ready s' later verdict rate fits same waited =
      let full =
        refilled p.ip result.ip_remaining p.cost p.now later rate fits
          (omega (arith, waited, retry_after-by_ip p result verdict)) in
      verdict-by_ip p s' later
        (subst (λ o. 1000 * p.cost ≤ refill o p.ip later) (sym (same ∙ ip_stored)) full)

  global_ready :
      (s' : Buckets) (later : ℕ)
      → result.limited_by ≡ by_global
      → 0 < p.global.refill_per_second
      → p.cost ≤ p.global.capacity
      → s' p.global_key ≡ (check_token_buckets s p).0 p.global_key
      → p.now + 1000 * retry_after p result ≤ later
      → (check_token_buckets s' (again_at p later)).1.limited_by ≢ by_global
  global_ready s' later verdict rate fits same waited =
      let full =
        refilled p.global result.global_remaining p.cost p.now later rate fits
          (omega (arith, waited, retry_after-by_global p result verdict)) in
      verdict-by_global p s' later
        (subst (λ o. 1000 * p.cost ≤ refill o p.global later) (sym (same ∙ global_stored)) full)

-- The seconds that a limited caller is told are enough: when that time has passed and nobody has
-- used the bucket that limited the request, this bucket does not limit it again. The bucket must
-- be refilled at all and hold as many tokens as the request costs; the two keys must differ.
pub retry_after_enough :
    (s s' : Buckets) (p : TokenBucketCheckParams) (later : ℕ)
    → p.ip_key ≢ p.global_key
    → let r = (check_token_buckets s p).1 in
      r.limited_by ≢ nobody
      → 0 < (limiting_config p r.limited_by).refill_per_second
      → p.cost ≤ (limiting_config p r.limited_by).capacity
      → s' (key_of p r.limited_by) ≡ (check_token_buckets s p).0 (key_of p r.limited_by)
      → p.now + 1000 * retry_after p r ≤ later
      → (check_token_buckets s' (again_at p later)).1.limited_by ≢ r.limited_by
retry_after_enough s s' p later two_keys is_limited rate fits same waited =
    let v = (check_token_buckets s p).1.limited_by in
    elim (LimitedBy-cases v is_limited) [
      | inl e ↦ λ again.
          ip_ready s p two_keys s' later e
            (subst (λ w. 0 < (limiting_config p w).refill_per_second) e rate)
            (subst (λ w. p.cost ≤ (limiting_config p w).capacity) e fits)
            (subst (λ w. s' (key_of p w) ≡ (check_token_buckets s p).0 (key_of p w)) e same) waited
            (again ∙ e)
      | inr e ↦ λ again.
          global_ready s p two_keys s' later e
            (subst (λ w. 0 < (limiting_config p w).refill_per_second) e rate)
            (subst (λ w. p.cost ≤ (limiting_config p w).capacity) e fits)
            (subst (λ w. s' (key_of p w) ≡ (check_token_buckets s p).0 (key_of p w)) e same) waited
            (again ∙ e)
    ]

refill-capacity :
    (o : Option Bucket) (c : TokenBucketConfig) (now : ℕ) → refill o c now ≤ 1000 * c.capacity
unfolding refill
refill-capacity none c now = omega arith
refill-capacity (some b) c now = omega arith

limit-short : (i g cost : ℕ) → i < 1000 * cost → limit i g cost ≡ by_ip
unfolding limit
limit-short i g cost h =
    let short : ltb i (1000 * cost) ≡ true = lt→ltb i (1000 * cost) h in rw short refl

-- A request that costs more than the client's bucket can hold is refused on account of the client,
-- whatever the buckets hold and whenever it is made: no wait is long enough for it.
pub over_capacity_refused :
    (s : Buckets) (p : TokenBucketCheckParams)
    → p.ip.capacity < p.cost
    → (check_token_buckets s p).1.limited_by ≡ by_ip
unfolding check_token_buckets
over_capacity_refused s p h =
    limit-short (refill (s p.ip_key) p.ip p.now) (refill (s p.global_key) p.global p.now) p.cost
      (omega (arith, refill-capacity (s p.ip_key) p.ip p.now))
