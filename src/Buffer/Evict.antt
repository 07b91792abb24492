-- ===== src/Buffer/Evict.antt =====
-- Making room for a P0: which signal is evicted, and what that leaves.
use inveni_ops.Base.{
  ◌+◌, suc, ◌<◌, ◌≡◌, refl, ap, subst, ◌∙◌, List, [], ◌∷◌, some, length, arith, inl, inr, ◌⊎◌,
}
use inveni_ops.Types.{Severity, p0, p1, p2, p3, severity_rank}
use inveni_ops.Buffer.Ring.{Ring, pop_oldest}
use inveni_ops.Buffer.Ring.Laws.{Represents, pop_oldest-cons}
use inveni_ops.Buffer.{
  IngestionSignal, SignalBuffer, hard_capacity, put, record_drop, find_victim, lowest_first,
  after_eviction, evict_to_make_room_for_p0,
}
use inveni_ops.Buffer.View.{
  dropped_total, dropped_total-record_drop, View, total, IsSound, total-put, lanes_put, caps_put,
  record_drop-IsSound,
}

List-cases {ℓ} : {A : Type ℓ} (xs : List A) → (xs ≡ []) ⊎ ((x : A) × (r : List A) × (xs ≡ x ∷ r))
List-cases [] = inl refl
List-cases (x ∷ xs) = inr (x, xs, refl)

record_drop-options :
    (b : SignalBuffer) (s : Severity) → (record_drop b s hard_capacity).options ≡ b.options
unfolding record_drop
record_drop-options b s = refl

evicted-dropped :
    (b : SignalBuffer) (w : Severity) (r : Ring IngestionSignal)
    → dropped_total (record_drop (record b { queues = put b.queues w r }) w hard_capacity)
      ≡ dropped_total b + 1
unfolding dropped_total
evicted-dropped b w r =
    dropped_total-record_drop (record b { queues = put b.queues w r }) w hard_capacity

module _ (b : SignalBuffer) (v : View) (h : IsSound b v) where
  find_victim-cons :
      (s : Severity) (ss : List Severity) (x : IngestionSignal) (r : List IngestionSignal)
      → v s ≡ x ∷ r
      → find_victim b (s ∷ ss) ≡ some s
  unfolding find_victim
  find_victim-cons s ss x r e =
      let k : (b.queues s).count ≡ suc (length r) = (h.lanes s).counted ∙ ap length e in
      ground arith

  find_victim-nil :
      (s : Severity) (ss : List Severity) → v s ≡ [] → find_victim b (s ∷ ss) ≡ find_victim b ss
  unfolding find_victim
  find_victim-nil s ss e =
      let k : (b.queues s).count ≡ 0 = (h.lanes s).counted ∙ ap length e in ground arith

  -- The victim of an eviction is the oldest signal of the least severe lane that is not empty.
  abbrev pub Victim : Type 0
  Victim =
      (w : Severity) × (x : IngestionSignal) × (r : List IngestionSignal) × (find_victim b
          lowest_first
        ≡ some w)
      × (v w ≡ x ∷ r)
      × ((t : Severity) → severity_rank w < severity_rank t → v t ≡ [])

  pub victim_exists : 0 < total v → Victim
  unfolding total
  victim_exists some_held = elim (List-cases (v p3)) [
    | inr (x, r, e3) ↦ (p3, x, r, find_victim-cons p3 _ x r e3, e3, below_p3)
    | inl e3 ↦ elim (List-cases (v p2)) [
      | inr (x, r, e2) ↦
          (p2, x, r, find_victim-nil p3 _ e3 ∙ find_victim-cons p2 _ x r e2, e2, below_p2 e3)
      | inl e2 ↦ elim (List-cases (v p1)) [
        | inr (x, r, e1) ↦ (
          p1,
          x,
          r,
          find_victim-nil p3 _ e3 ∙ find_victim-nil p2 _ e2 ∙ find_victim-cons p1 _ x r e1,
          e1,
          below_p1 e3 e2,
        )
        | inl e1 ↦ elim (List-cases (v p0)) [
          | inr (x, r, e0) ↦ (
            p0,
            x,
            r,
            find_victim-nil p3 _ e3
                ∙ find_victim-nil p2 _ e2
                ∙ find_victim-nil p1 _ e1
                ∙ find_victim-cons p0 _ x r e0,
            e0,
            below_p0 e3 e2 e1,
          )
          | inl e0 ↦ absurd (omega (arith, ap length e0, ap length e1, ap length e2, ap length e3))
        ]
      ]
    ]
  ]
    where
      below_p3 : (t : Severity) → severity_rank p3 < severity_rank t → v t ≡ []
      below_p3 p0 k = absurd (omega arith)
      below_p3 p1 k = absurd (omega arith)
      below_p3 p2 k = absurd (omega arith)
      below_p3 p3 k = absurd (omega arith)

      below_p2 : v p3 ≡ [] → (t : Severity) → severity_rank p2 < severity_rank t → v t ≡ []
      below_p2 e3 p0 k = absurd (omega arith)
      below_p2 e3 p1 k = absurd (omega arith)
      below_p2 e3 p2 k = absurd (omega arith)
      below_p2 e3 p3 k = e3

      below_p1 :
          v p3 ≡ [] → v p2 ≡ [] → (t : Severity) → severity_rank p1 < severity_rank t → v t ≡ []
      below_p1 e3 e2 p0 k = absurd (omega arith)
      below_p1 e3 e2 p1 k = absurd (omega arith)
      below_p1 e3 e2 p2 k = e2
      below_p1 e3 e2 p3 k = e3

      below_p0 :
          v p3 ≡ []
          → v p2 ≡ []
          → v p1 ≡ []
          → (t : Severity) → severity_rank p0 < severity_rank t
          → v t ≡ []
      below_p0 e3 e2 e1 p0 k = absurd (omega arith)
      below_p0 e3 e2 e1 p1 k = e1
      below_p0 e3 e2 e1 p2 k = e2
      below_p0 e3 e2 e1 p3 k = e3

  evict-eq :
      (w : Severity) (x : IngestionSignal) (r : Ring IngestionSignal)
      → find_victim b lowest_first ≡ some w
      → pop_oldest (b.queues w) ≡ (some x, r)
      → evict_to_make_room_for_p0 b
        ≡ record_drop (record b { queues = put b.queues w r }) w hard_capacity
  unfolding evict_to_make_room_for_p0
  evict-eq w x r found popped =
      rw (found, evict_to_make_room_for_p0) (ap (after_eviction b w) popped)

  pub evicted-IsSound :
      (w : Severity) (x : IngestionSignal) (rest : List IngestionSignal)
      → find_victim b lowest_first ≡ some w
      → v w ≡ x ∷ rest
      → IsSound (evict_to_make_room_for_p0 b) (put v w rest)
        × ((evict_to_make_room_for_p0 b).options ≡ b.options)
        × (dropped_total (evict_to_make_room_for_p0 b) ≡ dropped_total b + 1)
  evicted-IsSound w x rest found e =
      let (r, popped, rep, cap) =
        pop_oldest-cons (b.queues w) x rest (subst (Represents (b.queues w)) e (h.lanes w)) in
      rw (evict-eq w x r found popped) (
        record_drop-IsSound _ _ w hard_capacity (record {
          lanes = lanes_put b.queues v w r rest h.lanes rep;
          caps = caps_put b.queues w r b.options.capacity h.caps (cap ∙ h.caps w);
          fits = omega (arith, h.fits, total-put v w rest, ap length e);
        }),
        record_drop-options (record b { queues = put b.queues w r }) w,
        evicted-dropped b w r,
      )
