-- ===== src/Metrics/Percentile.antt =====
-- percentile of backend/src/utils/metrics.ts against the samples that it is taken of.
use mathlib.Core.Option.{some-injective}
use inveni_ops.Base.{
  le→leb, ℕ, ◌+◌, ◌-◌, ◌*◌, ◌/◌, ◌≤◌, ◌<◌, min, ◌≡◌, refl, ap, ◌∙◌, arith, Bool, List, [], ◌∷◌,
  length, get_elem?, leb, leb→le, Bool-cases, inl, inr, some, if◌then◌else◌, All, Bool-cases, zero,
  suc,
}
use inveni_ops.Buffer.{Fraction}
use inveni_ops.Metrics.{percentile, insert, sort_ascending}

-- How many samples a test accepts.
abbrev pub count : (ℕ → Bool) → List ℕ → ℕ
count p [] = 0
count p (x ∷ xs) = (if p x then 1 else 0) + count p xs

count-insert : (p : ℕ → Bool) (x : ℕ) (xs : List ℕ) → count p (insert x xs) ≡ count p (x ∷ xs)
count-insert p x [] = refl
count-insert p x (y ∷ ys) = elim (Bool-cases (leb x y)) [
  | inl e ↦ rw e refl
  | inr e ↦ rw e (omega (arith, count-insert p x ys))
]

count-sort : (p : ℕ → Bool) (xs : List ℕ) → count p (sort_ascending xs) ≡ count p xs
count-sort p [] = refl
count-sort p (x ∷ xs) = omega (arith, count-insert p x (sort_ascending xs), count-sort p xs)

length-insert : (x : ℕ) (xs : List ℕ) → length (insert x xs) ≡ suc (length xs)
length-insert x [] = refl
length-insert x (y ∷ ys) = elim (Bool-cases (leb x y)) [
  | inl e ↦ rw e refl
  | inr e ↦ rw e (omega (arith, length-insert x ys))
]

length-sort : (xs : List ℕ) → length (sort_ascending xs) ≡ length xs
length-sort [] = refl
length-sort (x ∷ xs) = omega (arith, length-insert x (sort_ascending xs), length-sort xs)

abbrev Ascending : List ℕ → Type 0
Ascending [] = Unit
Ascending (x ∷ xs) = All (λ y. x ≤ y) xs × Ascending xs

All-insert : (b x : ℕ) (xs : List ℕ) → b ≤ x → All (λ y. b ≤ y) xs → All (λ y. b ≤ y) (insert x xs)
All-insert b x [] h a = (h, a)
All-insert b x (y ∷ ys) h (first, others) = elim (Bool-cases (leb x y)) [
  | inl e ↦ rw e (h, (first, others))
  | inr e ↦ rw e (first, All-insert b x ys h others)
]

All-weaker : (b c : ℕ) (xs : List ℕ) → b ≤ c → All (λ y. c ≤ y) xs → All (λ y. b ≤ y) xs
All-weaker b c [] h a = a
All-weaker b c (x ∷ xs) h (first, others) = (omega arith, All-weaker b c xs h others)

insert-Ascending : (x : ℕ) (xs : List ℕ) → Ascending xs → Ascending (insert x xs)
insert-Ascending x [] h = (tt, tt)
insert-Ascending x (y ∷ ys) (a, s) = elim (Bool-cases (leb x y)) [
  | inl e ↦ rw e ((leb→le x y e, All-weaker x y ys (leb→le x y e) a), (a, s))
  | inr e ↦ rw e (All-insert y x ys (ground arith) a, insert-Ascending x ys s)
]

sort-Ascending : (xs : List ℕ) → Ascending (sort_ascending xs)
sort-Ascending [] = tt
sort-Ascending (x ∷ xs) = insert-Ascending x (sort_ascending xs) (sort-Ascending xs)

-- In an ascending list the value at an index is not below the values before it, nor above those
-- after it.
at_least : (b i : ℕ) (xs : List ℕ) (v : ℕ) → All (λ y. b ≤ y) xs → get_elem? xs i ≡ some v → b ≤ v
at_least b i [] v a e = absurd (cc)
at_least b zero (x ∷ xs) v (first, others) e = omega (arith, some-injective x v e)
at_least b (suc i) (x ∷ xs) v (first, others) e = at_least b i xs v others e

All-count : (b : ℕ) (xs : List ℕ) → All (λ y. b ≤ y) xs → count (leb b) xs ≡ length xs
All-count b [] a = refl
All-count b (x ∷ xs) (first, others) = rw (le→leb b x first) (omega (arith, All-count b xs others))

below :
    (xs : List ℕ) (i v : ℕ) → Ascending xs → get_elem? xs i ≡ some v → i < count (λ y. leb y v) xs
below [] i v h e = absurd (cc)
below (x ∷ xs) zero v (a, s) e = rw (le→leb x v (omega (arith, some-injective x v e))) (omega arith)
below (x ∷ xs) (suc i) v (a, s) e =
    rw (le→leb x v (at_least x i xs v a e)) (omega (arith, below xs i v s e))

above :
    (xs : List ℕ) (i v : ℕ)
    → Ascending xs
    → get_elem? xs i ≡ some v
    → length xs ≤ count (leb v) xs + i
above [] i v h e = absurd (cc)
above (x ∷ xs) zero v (a, s) e =
    let same : x ≡ v = some-injective x v e in
    rw (le→leb v x (omega arith))
      (omega (arith, All-count v xs (All-weaker v x xs (omega arith) a)))
above (x ∷ xs) (suc i) v (a, s) e = omega (arith, above xs i v s e)

in_range : (xs : List ℕ) (i : ℕ) → i < length xs → (v : ℕ) × (get_elem? xs i ≡ some v)
in_range [] i h = elim h [ ]
in_range (x ∷ xs) zero h = (x, refl)
in_range (x ∷ xs) (suc i) h = in_range xs i (omega arith)

-- The index that a percentile reads.
abbrev pub rank : Fraction → ℕ → ℕ
rank p n = min (n - 1) (p.numerator * n / p.denominator)

percentile-get :
    (xs : List ℕ) (p : Fraction)
    → 0 < length xs
    → percentile xs p ≡ get_elem? xs (rank p (length xs))
unfolding percentile
percentile-get [] p h = elim h [ ]
percentile-get (x ∷ xs) p h = refl

-- The percentile of samples is a value that more samples than its rank do not exceed, and that all
-- samples but as many as its rank reach. The rank is the fraction of their number, rounded down,
-- or the last index where that is less. There is a value as soon as there is a sample.
pub percentile-rank :
    (samples : List ℕ) (p : Fraction)
    → 0 < length samples
    → (v : ℕ) × (percentile (sort_ascending samples) p ≡ some v)
      × (rank p (length samples) < count (λ y. leb y v) samples)
      × (length samples ≤ count (leb v) samples + rank p (length samples))
percentile-rank samples p h =
    let sorted = sort_ascending samples in
    let n = length-sort samples in
    let same = ap (rank p) n in
    let (v, found) = in_range sorted (rank p (length sorted)) (omega arith) in
    (
      v,
      percentile-get sorted p (omega arith) ∙ found,
      omega (
        arith,
        below sorted (rank p (length sorted)) v (sort-Ascending samples) found,
        count-sort (λ y. leb y v) samples,
        same,
      ),
      omega (
        arith,
        above sorted (rank p (length sorted)) v (sort-Ascending samples) found,
        count-sort (leb v) samples,
        same,
      ),
    )
