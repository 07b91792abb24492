-- ===== src/Worker/Counts.antt =====
-- Counting in a Map: what `counts.set(key, (counts.get(key) ?? 0) + 1)` over a list leaves in it.
use mathlib.Core.Bool.{false≢true}
use inveni_ops.Base.{
  ℕ, ◌+◌, ◌≡◌, refl, sym, ◌∙◌, ap, ◌↔◌, inl, inr, Bool, true, false, List, [], ◌∷◌, length, keep_if,
  if◌then◌else◌, Bool-cases, arith,
}
use inveni_ops.Worker.{add_one, count_all}

-- `counts.get(key) ?? 0`
abbrev pub get_count : {K : Type 0} → (K → K → Bool) → List (K × ℕ) → K → ℕ
get_count same [] k = 0
get_count same (e ∷ es) k = if same e.0 k then e.1 else get_count same es k

abbrev pub total : {K : Type 0} → List (K × ℕ) → ℕ
total [] = 0
total (e ∷ es) = e.1 + total es

abbrev pub occurrences : {K : Type 0} → (K → K → Bool) → K → List K → ℕ
occurrences same k ks = length (keep_if (λ x. same x k) ks)

abbrev pub one_if : Bool → ℕ
one_if true = 1
one_if false = 0

pub keep_if-cons :
    {A : Type 0} (q : A → Bool) (x : A) (xs : List A)
    → length (keep_if q (x ∷ xs)) ≡ one_if (q x) + length (keep_if q xs)
keep_if-cons q x xs = elim (Bool-cases (q x)) [
  | inl hit ↦ rw (keep_if, hit) (omega arith)
  | inr miss ↦ rw (keep_if, miss) (omega arith)
]

pub total-add_one :
    {K : Type 0} (same : K → K → Bool) (es : List (K × ℕ)) (k : K)
    → total (add_one same es k) ≡ total es + 1
unfolding add_one
total-add_one same [] k = refl
total-add_one same (e ∷ es) k = elim (Bool-cases (same e.0 k)) [
  | inl hit ↦ rw hit (omega arith)
  | inr miss ↦ rw miss (omega (arith, total-add_one same es k))
]

pub total-count_all :
    {K : Type 0} (same : K → K → Bool) (acc : List (K × ℕ)) (ks : List K)
    → total (count_all same acc ks) ≡ total acc + length ks
unfolding count_all
total-count_all same acc [] = omega arith
total-count_all same acc (k ∷ ks) =
    omega (arith, total-count_all same (add_one same acc k) ks, total-add_one same acc k)

module _ {K : Type 0} (same : K → K → Bool) (sound : (a b : K) → (same a b ≡ true) ↔ (a ≡ b)) where
  get_count-add_one :
      (es : List (K × ℕ)) (k j : K)
      → get_count same (add_one same es k) j ≡ get_count same es j + one_if (same k j)
  unfolding add_one
  get_count-add_one [] k j = elim (Bool-cases (same k j)) [
    | inl hit ↦ rw hit refl
    | inr miss ↦ rw miss refl
  ]
  get_count-add_one (e ∷ es) k j = elim (Bool-cases (same e.0 k)) [
    | inl hit ↦
        let moved : same e.0 j ≡ same k j = ap (λ x. same x j) ((sound e.0 k).0 hit) in
        elim (Bool-cases (same k j)) [
          | inl here ↦ rw (hit, moved, here) refl
          | inr away ↦ rw (hit, moved, away) (omega arith)
        ]
    | inr miss ↦ elim (Bool-cases (same e.0 j)) [
      | inr away ↦ rw (miss, away) (get_count-add_one es k j)
      | inl here ↦ elim (Bool-cases (same k j)) [
        | inr other ↦ rw (miss, here, other) (omega arith)
        | inl clash ↦ absurd (
            false≢true
              (sym miss ∙ (sound e.0 k).1 ((sound e.0 j).0 here ∙ sym ((sound k j).0 clash))))
      ]
    ]
  ]

  pub get_count-count_all :
      (acc : List (K × ℕ)) (ks : List K) (j : K)
      → get_count same (count_all same acc ks) j ≡ get_count same acc j + occurrences same j ks
  unfolding count_all
  get_count-count_all acc [] j = omega arith
  get_count-count_all acc (k ∷ ks) j = omega (
    arith,
    get_count-count_all (add_one same acc k) ks j,
    get_count-add_one acc k j,
    keep_if-cons (λ x. same x j) k ks,
  )
