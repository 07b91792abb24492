-- ===== src/RateLimit/Bound.antt =====
-- What a bucket of backend/src/rateLimit/tokenBucket.ts admits over time, while clocks run forward.
use inveni_ops.Base.{
  ℕ, ◌+◌, ◌-◌, ◌*◌, ◌≤◌, ◌≡◌, ◌≢◌, refl, sym, subst, arith, true, false, Option, none, some,
  if◌then◌else◌, ◌==◌, ==_iff, inl, inr, Bool-cases, ltb, ap₂, ℕ_discrete,
}
use inveni_ops.Types.{Ident}
use inveni_ops.RateLimit.{
  Bucket, Buckets, TokenBucketConfig, TokenBucketCheckParams, LimitedBy, refill, limit, debit,
  allowed, check_token_buckets,
}

split_product : (r x y : ℕ) → r * (x + y) ≡ r * x + r * y
split_product r x y = omega arith

mul_between : (r a b c : ℕ) → a ≤ b → b ≤ c → (c - b) * r + r * (b - a) ≡ r * (c - a)
mul_between r a b c h k =
    let e : c - a ≡ c - b + (b - a) = omega arith in
    rw e (omega (arith, split_product r (c - b) (b - a)))

abbrev same_product : (a b r : ℕ) → a ≤ b → r * a ≤ r * b
same_product a b r h =
    let e : b ≡ a + (b - a) = omega arith in rw e (omega (arith, split_product r a (b - a)))

-- What a request spends of the bucket of `k`.
abbrev pub spent : Ident → TokenBucketCheckParams → LimitedBy → ℕ
spent k p verdict =
    if allowed verdict
    then if p.ip_key == k then p.cost else if p.global_key == k then p.cost else 0
    else 0

-- A caller that uses the key always gives it the same configuration.
pub record Agrees (k : Ident) (c : TokenBucketConfig) (p : TokenBucketCheckParams) : Type 0 where
  pub as_ip : p.ip_key ≡ k → p.ip ≡ c
  pub as_global : p.global_key ≡ k → p.global ≡ c
  pub two_keys : p.ip_key ≢ p.global_key

-- What can happen to the buckets from time `start` on, and what has been spent of the bucket of
-- `k`. A key expires once nobody has used it for as long as its time to live.
pub data Reach (k : Ident) (c : TokenBucketConfig) (ttl_seconds start : ℕ)
    : Buckets → ℕ → ℕ → Type 0 where
  begin : (s : Buckets) → s k ≡ none → Reach k c ttl_seconds start s start 0
  request :
      (s : Buckets) (t n : ℕ) (p : TokenBucketCheckParams)
      → Reach k c ttl_seconds start s t n
      → t ≤ p.now
      → Agrees k c p
      → Reach k c ttl_seconds start
          (check_token_buckets s p).0
          p.now
          (n + spent k p (check_token_buckets s p).1.limited_by)
  expire :
      (s s' : Buckets) (t t' n : ℕ)
      → Reach k c ttl_seconds start s t n
      → t ≤ t'
      → ((b : Bucket) → s k ≡ some b → b.ts + 1000 * ttl_seconds ≤ t')
      → s' k ≡ none
      → Reach k c ttl_seconds start s' t' n
  other_key :
      (s s' : Buckets) (t n : ℕ)
      → Reach k c ttl_seconds start s t n
      → s' k ≡ s k
      → Reach k c ttl_seconds start s' t n

module _ (k : Ident) (c : TokenBucketConfig) (start : ℕ) where
  -- What a bucket that is counted now may still hold, next to what has been spent.
  abbrev Affords : Option Bucket → ℕ → ℕ → Type 0
  Affords none t n = 1000 * n ≤ c.refill_per_second * (t - start)
  Affords (some b) t n =
      (start ≤ b.ts)
      × (b.ts ≤ t)
      × (b.level + 1000 * n ≤ 1000 * c.capacity + c.refill_per_second * (b.ts - start))

  refill-Affords :
      (o : Option Bucket) (t n now : ℕ)
      → start ≤ t
      → t ≤ now
      → Affords o t n
      → refill o c now + 1000 * n ≤ 1000 * c.capacity + c.refill_per_second * (now - start)
  unfolding refill
  refill-Affords none t n now s h a =
      omega (arith, a, same_product (t - start) (now - start) c.refill_per_second (omega arith))
  refill-Affords (some b) t n now s h (from, to, a) =
      omega (arith, a, mul_between c.refill_per_second start b.ts now from (omega arith))

  Affords-later : (o : Option Bucket) (t n now : ℕ) → t ≤ now → Affords o t n → Affords o now n
  Affords-later none t n now h a =
      omega (arith, a, same_product (t - start) (now - start) c.refill_per_second (omega arith))
  Affords-later (some b) t n now h (from, to, a) = (from, omega arith, a)

  Affords-expired :
      (o : Option Bucket) (t n now ttl : ℕ)
      → start ≤ t
      → t ≤ now
      → c.capacity ≤ c.refill_per_second * ttl
      → ((b : Bucket) → o ≡ some b → b.ts + 1000 * ttl ≤ now)
      → Affords o t n
      → Affords none now n
  Affords-expired none t n now ttl from h fills expired a = Affords-later none t n now h a
  Affords-expired (some b) t n now ttl from' h fills expired (from, to, a) = omega (
    arith,
    a,
    expired b refl,
    split_product c.refill_per_second (b.ts - start) (1000 * ttl),
    same_product (b.ts - start + 1000 * ttl) (now - start) c.refill_per_second
        (omega (arith, expired b refl)),
  )

  Affords-bounded :
      (o : Option Bucket) (t n : ℕ)
      → Affords o t n
      → 1000 * n ≤ 1000 * c.capacity + c.refill_per_second * (t - start)
  Affords-bounded none t n a = omega (arith, a)
  Affords-bounded (some b) t n (from, to, a) =
      omega (arith, a, same_product (b.ts - start) (t - start) c.refill_per_second (omega arith))

-- A bucket that pays is debited in full, and one that does not pay keeps its level.
debit-ip :
    (i g cost : ℕ)
    → debit (limit i g cost) i cost + 1000 * (if allowed (limit i g cost) then cost else 0) ≡ i
unfolding limit
debit-ip i g cost = elim (Bool-cases (ltb i (1000 * cost))) [
  | inl e ↦ rw e (omega arith)
  | inr e ↦ elim (Bool-cases (ltb g (1000 * cost))) [
    | inl f ↦ rw (e, f) (omega arith)
    | inr f ↦ rw (e, f) (ground arith)
  ]
]

debit-global :
    (i g cost : ℕ)
    → debit (limit i g cost) g cost + 1000 * (if allowed (limit i g cost) then cost else 0) ≡ g
unfolding limit
debit-global i g cost = elim (Bool-cases (ltb i (1000 * cost))) [
  | inl e ↦ rw e (omega arith)
  | inr e ↦ elim (Bool-cases (ltb g (1000 * cost))) [
    | inl f ↦ rw (e, f) (omega arith)
    | inr f ↦ rw (e, f) (ground arith)
  ]
]

module _ (k : Ident) (c : TokenBucketConfig) (start : ℕ) (s : Buckets) (t n : ℕ)
    (p : TokenBucketCheckParams) (from : start ≤ t) (later : t ≤ p.now) (agrees : Agrees k c p)
    (a : Affords k c start (s k) t n) where
  abbrev verdict : LimitedBy
  verdict = limit (refill (s p.ip_key) p.ip p.now) (refill (s p.global_key) p.global p.now) p.cost

  abbrev Kept : Type 0
  Kept = Affords k c start ((check_token_buckets s p).0 k) p.now (n + spent k p verdict)

  as_global-Affords : p.global_key ≡ k → Kept
  unfolding check_token_buckets
  as_global-Affords e =
      let here : (p.global_key == k) ≡ true = (==_iff p.global_key k).1 e in
      let elsewhere : (p.ip_key == k) ≡ false = ground (arith, agrees.two_keys) in
      rw (here, elsewhere)
        (
          omega arith,
          omega arith,
          omega (
            arith,
            refill-Affords k c start (s k) t n p.now from later a,
            ap₂ (λ j d. refill (s j) d p.now) e (agrees.as_global e),
            debit-global (refill (s p.ip_key) p.ip p.now) (refill (s p.global_key) p.global p.now)
                p.cost,
            split_product 1000 n (if allowed verdict then p.cost else 0),
          ),
        )

  as_ip-Affords : p.global_key ≢ k → p.ip_key ≡ k → Kept
  unfolding check_token_buckets
  as_ip-Affords f e =
      let here : (p.ip_key == k) ≡ true = (==_iff p.ip_key k).1 e in
      let elsewhere : (p.global_key == k) ≡ false = ground (arith, f) in
      rw (here, elsewhere)
        (
          omega arith,
          omega arith,
          omega (
            arith,
            refill-Affords k c start (s k) t n p.now from later a,
            ap₂ (λ j d. refill (s j) d p.now) e (agrees.as_ip e),
            debit-ip (refill (s p.ip_key) p.ip p.now) (refill (s p.global_key) p.global p.now)
                p.cost,
            split_product 1000 n (if allowed verdict then p.cost else 0),
          ),
        )

  unused-Affords : p.global_key ≢ k → p.ip_key ≢ k → Kept
  unfolding check_token_buckets
  unused-Affords f e =
      let here : (p.ip_key == k) ≡ false = ground (arith, e) in
      let elsewhere : (p.global_key == k) ≡ false = ground (arith, f) in
      let nothing : ℕ = 0 in
      let same : n + (if allowed verdict then nothing else nothing) ≡ n = ground arith in
      rw (here, elsewhere) (rw same (Affords-later k c start (s k) t n p.now later a))

  request-Affords : Kept
  request-Affords = elim (ℕ_discrete p.global_key k) [
    | yes e ↦ as_global-Affords e
    | no f ↦ elim (ℕ_discrete p.ip_key k) [ yes e ↦ as_ip-Affords f e | no e ↦ unused-Affords f e ]
  ]

module _ (k : Ident) (c : TokenBucketConfig) (ttl start : ℕ)
    (fills : c.capacity ≤ c.refill_per_second * ttl) where
  Reach-Affords :
      {s : Buckets} {t n : ℕ}
      → Reach k c ttl start s t n
      → (start ≤ t) × Affords k c start (s k) t n
  unfolding check_token_buckets
  Reach-Affords (begin s empty) = (omega arith, rw empty (omega arith))
  Reach-Affords (request s t n p r later agrees) =
      let (from, a) = Reach-Affords r in
      (omega arith, request-Affords k c start s t n p from later agrees a)
  Reach-Affords (expire s s' t t' n r later expired gone) =
      let (from, a) = Reach-Affords r in
      (omega arith, rw gone (Affords-expired k c start (s k) t n t' ttl from later fills expired a))
  Reach-Affords (other_key s s' t n r same) =
      let (from, a) = Reach-Affords r in (from, subst (λ o. Affords k c start o t n) (sym same) a)

-- From the time at which a bucket is first used, the requests that were let through have spent no
-- more of it than its capacity and what it is refilled with in the time since. That holds of the
-- bucket of a client and of the global one, across the requests of others and across the expiry of
-- the key, if the key lives for as long as an empty bucket takes to fill, if every caller gives the
-- key the same configuration and if the clocks of the callers do not run backwards.
pub check_token_buckets-bounded :
    (k : Ident) (c : TokenBucketConfig) (ttl start : ℕ) (s : Buckets) (t n : ℕ)
    → c.capacity ≤ c.refill_per_second * ttl
    → Reach k c ttl start s t n
    → 1000 * n ≤ 1000 * c.capacity + c.refill_per_second * (t - start)
check_token_buckets-bounded k c ttl start s t n fills r =
    let (from, a) = Reach-Affords k c ttl start fills r in Affords-bounded k c start (s k) t n a
