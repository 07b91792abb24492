-- ===== src/Signals/Each.antt =====
-- An unordered insertion under a unique index, as a loop over the documents, and the ids that
-- insertManyIdempotent of backend/src/repositories/mongo/signalRepository.ts makes of its errors.
use mathlib.Core.Bool.{false≢true}
use mathlib.Core.List.{Memᴰ}
use mathlib.Core.List.Memᴰ.{head, tail, not-nil, cases_cons}
use inveni_ops.Base.{
  ℕ, ◌+◌, ◌<◌, ◌≤◌, ◌≡◌, ◌≢◌, inl, inr, refl, ap, sym, ◌∙◌, subst, arith, Bool, true, false, List,
  [], ◌∷◌, if◌then◌else◌, ◌==◌, ==_iff, Bool-cases, All,
}
use inveni_ops.Types.{Ident}
use inveni_ops.Worker.{SignalDocument}
use inveni_ops.Signals.{contains, ids_of, landed}

-- The ids that are stored, as a test.
abbrev pub Stored : Type 0
Stored = Ident → Bool

-- The unordered insertion under a unique index: each document in turn, unless its id is stored.
abbrev pub insert_each : Stored → ℕ → List SignalDocument → Stored × List ℕ
insert_each s index [] = (s, [])
insert_each s index (d ∷ ds) =
    let skipped = insert_each s (index + 1) ds in
    let added = insert_each (λ i. if d.signal_id == i then true else s i) (index + 1) ds in
    if s d.signal_id then (skipped.0, index ∷ skipped.1) else added

contains-below : (m k : ℕ) (es : List ℕ) → All (λ e. k ≤ e) es → m < k → contains es m ≡ false
contains-below m k [] h l = refl
contains-below m k (e ∷ es) (first, rest) l =
    let r = contains-below m k es rest l in ground (arith, r)

All-weaker : (n : ℕ) (es : List ℕ) → All (λ e. n + 1 ≤ e) es → All (λ e. n ≤ e) es
All-weaker n [] h = tt
All-weaker n (e ∷ es) (first, rest) = (omega arith, All-weaker n es rest)

landed_ignores :
    (m k : ℕ) (es : List ℕ) (ds : List SignalDocument)
    → m < k
    → landed (m ∷ es) k ds ≡ landed es k ds
landed_ignores m k es [] l = refl
landed_ignores m k es (d ∷ ds) l =
    let other : (m == k) ≡ false = ground (arith, l) in
    let rest = landed_ignores m (k + 1) es ds (omega arith) in
    rw other (ap (λ ids. if contains es k then ids else d.signal_id ∷ ids) rest)

-- The stored ids once one more is.
abbrev with_id : Stored → Ident → Stored
with_id s j i = if j == i then true else s i

with_id_self : (s : Stored) (j : Ident) → with_id s j j ≡ true
with_id_self s j = let same : (j == j) ≡ true = ground arith in rw same refl

with_id-kept : (s : Stored) (j i : Ident) → s i ≡ true → with_id s j i ≡ true
with_id-kept s j i h = elim (Bool-cases (j == i)) [ inl e ↦ rw e refl | inr e ↦ rw e h ]

with_id-new : (s : Stored) (j i : Ident) → with_id s j i ≡ false → (s i ≡ false) × (j ≢ i)
with_id-new s j i h = elim (Bool-cases (j == i)) [
  | inl e ↦ absurd (ground (arith, h, e))
  | inr e ↦ (ground (arith, h, e), ground (arith, e))
]

-- The two ways in which a document is treated.
module _ (s : Stored) (n : ℕ) (d : SignalDocument) (ds : List SignalDocument) where
  skips :
      s d.signal_id ≡ true
      → insert_each s n (d ∷ ds) ≡ ((insert_each s (n + 1) ds).0, n ∷ (insert_each s (n + 1) ds).1)
  skips e = rw e refl

  adds :
      s d.signal_id ≡ false
      → insert_each s n (d ∷ ds) ≡ insert_each (with_id s d.signal_id) (n + 1) ds
  adds e = rw e refl

above : (ds : List SignalDocument) (s : Stored) (n : ℕ) → All (λ e. n ≤ e) (insert_each s n ds).1
above [] s n = tt
above (d ∷ ds) s n = elim (Bool-cases (s d.signal_id)) [
  | inl e ↦
      subst (λ q. All (λ k. n ≤ k) q.1) (sym (skips s n d ds e))
        (omega arith, All-weaker n (insert_each s (n + 1) ds).1 (above ds s (n + 1)))
  | inr e ↦
      subst (λ q. All (λ k. n ≤ k) q.1) (sym (adds s n d ds e))
        (All-weaker n (insert_each (with_id s d.signal_id) (n + 1) ds).1
          (above ds (with_id s d.signal_id) (n + 1)))
]

pub stays :
    (ds : List SignalDocument) (s : Stored) (n : ℕ) (i : Ident)
    → s i ≡ true
    → (insert_each s n ds).0 i ≡ true
stays [] s n i h = h
stays (d ∷ ds) s n i h = elim (Bool-cases (s d.signal_id)) [
  | inl e ↦ subst (λ q. q.0 i ≡ true) (sym (skips s n d ds e)) (stays ds s (n + 1) i h)
  | inr e ↦
      subst (λ q. q.0 i ≡ true) (sym (adds s n d ds e))
        (stays ds (with_id s d.signal_id) (n + 1) i (with_id-kept s d.signal_id i h))
]

pub all_stored :
    (ds : List SignalDocument) (s : Stored) (n : ℕ) (i : Ident)
    → Memᴰ i (ids_of ds)
    → (insert_each s n ds).0 i ≡ true
all_stored [] s n i m = absurd (not-nil m)
all_stored (d ∷ ds) s n i m = elim (Bool-cases (s d.signal_id)) [
  | inl e ↦
      subst (λ q. q.0 i ≡ true) (sym (skips s n d ds e))
        (elim (cases_cons m) [
          | inl same ↦ stays ds s (n + 1) i (ap s same ∙ e)
          | inr later ↦ all_stored ds s (n + 1) i later
        ])
  | inr e ↦
      subst (λ q. q.0 i ≡ true) (sym (adds s n d ds e))
        (elim (cases_cons m) [
          | inl same ↦
              stays ds (with_id s d.signal_id) (n + 1) i
                (ap (with_id s d.signal_id) same ∙ with_id_self s d.signal_id)
          | inr later ↦ all_stored ds (with_id s d.signal_id) (n + 1) i later
        ])
]

landed_skips :
    (s : Stored) (n : ℕ) (d : SignalDocument) (ds : List SignalDocument)
    → s d.signal_id ≡ true
    → landed (insert_each s n (d ∷ ds)).1 n (d ∷ ds)
      ≡ landed (insert_each s (n + 1) ds).1 (n + 1) ds
landed_skips s n d ds e =
    let own : (n == n) ≡ true = ground arith in
    ap (λ q. landed q.1 n (d ∷ ds)) (skips s n d ds e)
    ∙ rw own (landed_ignores n (n + 1) (insert_each s (n + 1) ds).1 ds (omega arith))

landed_adds :
    (s : Stored) (n : ℕ) (d : SignalDocument) (ds : List SignalDocument)
    → s d.signal_id ≡ false
    → landed (insert_each s n (d ∷ ds)).1 n (d ∷ ds)
      ≡ d.signal_id ∷ landed (insert_each (with_id s d.signal_id) (n + 1) ds).1 (n + 1) ds
landed_adds s n d ds e =
    let absent =
      contains-below n (n + 1) (insert_each (with_id s d.signal_id) (n + 1) ds).1
        (above ds (with_id s d.signal_id) (n + 1)) (omega arith) in
    ap (λ q. landed q.1 n (d ∷ ds)) (adds s n d ds e) ∙ rw absent refl

pub landed_new :
    (ds : List SignalDocument) (s : Stored) (n : ℕ) (i : Ident)
    → Memᴰ i (landed (insert_each s n ds).1 n ds)
    → s i ≡ false
landed_new [] s n i m = absurd (not-nil m)
landed_new (d ∷ ds) s n i m = elim (Bool-cases (s d.signal_id)) [
  | inl e ↦ landed_new ds s (n + 1) i (subst (λ ids. Memᴰ i ids) (landed_skips s n d ds e) m)
  | inr e ↦ elim (cases_cons (subst (λ ids. Memᴰ i ids) (landed_adds s n d ds e) m)) [
    | inl same ↦ ap s same ∙ e
    | inr later ↦
        (with_id-new s d.signal_id i (landed_new ds (with_id s d.signal_id) (n + 1) i later)).0
  ]
]

pub new_landed :
    (ds : List SignalDocument) (s : Stored) (n : ℕ) (i : Ident)
    → Memᴰ i (ids_of ds)
    → s i ≡ false
    → Memᴰ i (landed (insert_each s n ds).1 n ds)
new_landed [] s n i m h = absurd (not-nil m)
new_landed (d ∷ ds) s n i m h = elim (Bool-cases (s d.signal_id)) [
  | inl e ↦
      subst (λ ids. Memᴰ i ids) (sym (landed_skips s n d ds e))
        (elim (cases_cons m) [
          | inl same ↦ absurd (false≢true (sym h ∙ ap s same ∙ e))
          | inr later ↦ new_landed ds s (n + 1) i later h
        ])
  | inr e ↦
      subst (λ ids. Memᴰ i ids) (sym (landed_adds s n d ds e))
        (elim (Bool-cases (d.signal_id == i)) [
          | inl same ↦ head (sym ((==_iff d.signal_id i).0 same))
          | inr other ↦ tail (
              new_landed ds (with_id s d.signal_id) (n + 1) i
                (elim (cases_cons m) [
                  | inl same ↦ absurd (ground (arith, other, same))
                  | inr later ↦ later
                ])
                (rw other h))
        ])
]
