-- ===== src/Buffer/View.antt =====
-- What a buffer holds: a list of signals for each severity, oldest first.
use inveni_ops.Base.{
  ℕ, ◌+◌, ◌≤◌, ◌<◌, ◌≡◌, refl, sym, ap, subst, ◌∙◌, Bool, List, [], ◌∷◌, ◌++◌, length, arith,
  length-append, Bool-cases, inl, inr,
}
use inveni_ops.Types.{Severity, p0, p1, p2, p3, same_severity}
use inveni_ops.Buffer.Ring.{Ring, push, create}
use inveni_ops.Buffer.Ring.Laws.{Represents, push-concat, create-Represents}
use inveni_ops.Buffer.{
  IngestionSignal, SignalBuffer, SignalBufferOptions, DropReason, shed_ceiling, hard_capacity,
  sink_failure, put, new_buffer, total_size, recompute_state, record_drop, store,
}

abbrev pub View : Type 0
View = Severity → List IngestionSignal

unfoldable pub total : View → ℕ
total v = length (v p0) + length (v p1) + length (v p2) + length (v p3)

abbrev pub append_at : View → Severity → IngestionSignal → View
append_at v s x = put v s (v s ++ x ∷ [])

-- The buffer `b` holds exactly the signals of `v`, and no more than its capacity.
pub record IsSound (b : SignalBuffer) (v : View) : Type 0 where
  pub lanes : (s : Severity) → Represents (b.queues s) (v s)
  pub caps : (s : Severity) → (b.queues s).capacity ≡ b.options.capacity
  pub fits : total v ≤ b.options.capacity

pub total-put :
    (v : View) (s : Severity) (xs : List IngestionSignal)
    → total (put v s xs) + length (v s) ≡ total v + length xs
unfolding total
total-put v p0 xs = omega arith
total-put v p1 xs = omega arith
total-put v p2 xs = omega arith
total-put v p3 xs = omega arith

pub total-append_at :
    (v : View) (s : Severity) (x : IngestionSignal) → total (append_at v s x) ≡ total v + 1
total-append_at v s x =
    omega (arith, total-put v s (v s ++ x ∷ []), length-append {0} (v s) (x ∷ []))

pub length-le-total : (v : View) (s : Severity) → length (v s) ≤ total v
unfolding total
length-le-total v p0 = omega arith
length-le-total v p1 = omega arith
length-le-total v p2 = omega arith
length-le-total v p3 = omega arith

pub total_size-total : (b : SignalBuffer) (v : View) → IsSound b v → total_size b ≡ total v
unfolding total_size total
total_size-total b v h =
    omega (
      arith,
      (h.lanes p0).counted,
      (h.lanes p1).counted,
      (h.lanes p2).counted,
      (h.lanes p3).counted,
    )

pub lanes_put :
    (q : Severity → Ring IngestionSignal) (v : View) (s : Severity) (r : Ring IngestionSignal)
    (xs : List IngestionSignal)
    → ((t : Severity) → Represents (q t) (v t))
    → Represents r xs
    → (t : Severity) → Represents (put q s r t) (put v s xs t)
lanes_put q v s r xs h new t = elim (Bool-cases (same_severity s t)) [
  | inl e ↦ rw e new
  | inr e ↦ rw e (h t)
]

pub caps_put :
    (q : Severity → Ring IngestionSignal) (s : Severity) (r : Ring IngestionSignal) (c : ℕ)
    → ((t : Severity) → (q t).capacity ≡ c)
    → r.capacity ≡ c
    → (t : Severity) → (put q s r t).capacity ≡ c
caps_put q s r c h new t = elim (Bool-cases (same_severity s t)) [
  | inl e ↦ rw e new
  | inr e ↦ rw e (h t)
]

-- Counters and the shedding state play no part in what is held.
pub record_drop-IsSound :
    (b : SignalBuffer) (v : View) (s : Severity) (r : DropReason)
    → IsSound b v
    → IsSound (record_drop b s r) v
unfolding record_drop
record_drop-IsSound b v s r h = record { lanes = h.lanes; caps = h.caps; fits = h.fits }

pub recompute_state-IsSound :
    (b : SignalBuffer) (v : View) → IsSound b v → IsSound (recompute_state b) v
unfolding recompute_state
recompute_state-IsSound b v h = record { lanes = h.lanes; caps = h.caps; fits = h.fits }

pub new_buffer-IsSound :
    (o : SignalBufferOptions) → 0 < o.capacity → IsSound (new_buffer o) (λ s. [])
unfolding new_buffer create total
new_buffer-IsSound o h = record {
  lanes = λ s. create-Represents o.capacity h;
  caps = λ s. refl;
  fits = omega arith;
}

-- All drops, by the counters of their reasons.
unfoldable pub dropped_total : SignalBuffer → ℕ
dropped_total b =
    b.dropped_by_reason shed_ceiling
    + b.dropped_by_reason hard_capacity
    + b.dropped_by_reason sink_failure

pub dropped_total-record_drop :
    (b : SignalBuffer) (s : Severity) (r : DropReason)
    → dropped_total (record_drop b s r) ≡ dropped_total b + 1
unfolding dropped_total record_drop
dropped_total-record_drop b s shed_ceiling = omega arith
dropped_total-record_drop b s hard_capacity = omega arith
dropped_total-record_drop b s sink_failure = omega arith

pub dropped_total-store :
    (b : SignalBuffer) (x : IngestionSignal) → dropped_total (store b x) ≡ dropped_total b
unfolding dropped_total recompute_state
dropped_total-store b x = refl

-- With room in the shared capacity the signal goes behind its lane.
pub store-IsSound :
    (b : SignalBuffer) (v : View) (x : IngestionSignal)
    → IsSound b v
    → total v < b.options.capacity
    → IsSound (store b x) (append_at v x.severity x)
unfolding recompute_state
store-IsSound b v x h room =
    let s = x.severity in
    let lane_room : length (v s) < (b.queues s).capacity =
      omega (arith, length-le-total v s, h.caps s) in
    let (r, pushed, rep, cap) = push-concat (b.queues s) (v s) (h.lanes s) x lane_room in
    let e : r ≡ (push (b.queues s) x).0 =
      ap (λ (p : Ring IngestionSignal × Bool). p.0) (sym pushed) in
    subst
      (λ (q : Ring IngestionSignal).
        IsSound (recompute_state (record b { queues = put b.queues s q })) (append_at v s x))
      e
      (record {
        lanes = lanes_put b.queues v s r (v s ++ x ∷ []) h.lanes rep;
        caps = caps_put b.queues s r b.options.capacity h.caps (cap ∙ h.caps s);
        fits = omega (arith, total-put v s (v s ++ x ∷ []), length-append {0} (v s) (x ∷ []));
      })
