-- ===== src/Buffer/Drain.antt =====
-- What a drain takes out: signals in order of severity, then of age.
use inveni_ops.Base.{
  ℕ, ◌-◌, ◌≡◌, refl, ap, ◌∙◌, List, [], ◌∷◌, ◌++◌, length, arith, length-append, Bool-cases, inl,
  inr, leb, take, drop,
}
use inveni_ops.Types.{p0, p1, p2, p3, Severity}
use inveni_ops.Buffer.Ring.{pop_batch}
use inveni_ops.Buffer.{
  IngestionSignal, SignalBuffer, put, recompute_state, recompute_if_any, priority_order, pop_lanes,
  pop_priority_batch, start_drain,
}
use inveni_ops.Buffer.View.{View, total, IsSound, recompute_state-IsSound}
use inveni_ops.Buffer.Lanes.{backlog_of, backlog, Distinct, Distinct, pop_lanes-Popped}

priority_order-Distinct : Distinct priority_order
priority_order-Distinct = ((refl, (refl, (refl, tt))), ((refl, (refl, tt)), ((refl, tt), (tt, tt))))

pub pop_priority_batch-take :
    (b : SignalBuffer) (v : View) (n : ℕ)
    → IsSound b v
    → (w : View) × IsSound (pop_priority_batch b n).1 w
      × ((pop_priority_batch b n).0 ≡ take n (backlog v))
      × (backlog w ≡ drop n (backlog v))
unfolding pop_priority_batch backlog
pop_priority_batch-take b v n h =
    let p = pop_lanes-Popped b v n [] priority_order priority_order-Distinct h in
    let whole : n - 0 ≡ n = omega arith in
    (
      p.after,
      p.sound,
      p.batch ∙ ap (λ (j : ℕ). take j (backlog_of v priority_order)) whole,
      p.left ∙ ap (λ (j : ℕ). drop j (backlog_of v priority_order)) whole,
    )

pub length-backlog : (v : View) → length (backlog v) ≡ total v
unfolding backlog backlog_of total
length-backlog v = omega (
  arith,
  length-append {0} (v p0) (v p1 ++ (v p2 ++ (v p3 ++ []))),
  length-append {0} (v p1) (v p2 ++ (v p3 ++ [])),
  length-append {0} (v p2) (v p3 ++ []),
  length-append {0} (v p3) [],
)

pop_lanes-options :
    (b : SignalBuffer) (n : ℕ) (acc : List IngestionSignal) (ss : List Severity)
    → (pop_lanes b n acc ss).1.options ≡ b.options
unfolding pop_lanes
pop_lanes-options b n acc [] = refl
pop_lanes-options b n acc (s ∷ ss) = elim (Bool-cases (leb n (length acc))) [
  | inl full ↦ rw full refl
  | inr more ↦ rw more (
      pop_lanes-options
        (record b { queues = put b.queues s (pop_batch (b.queues s) (n - length acc)).1 }) n
        (acc ++ (pop_batch (b.queues s) (n - length acc)).0) ss)
]

recompute_if_any-IsSound :
    (batch : List IngestionSignal) (b : SignalBuffer) (w : View)
    → IsSound b w
    → IsSound (recompute_if_any batch b) w × ((recompute_if_any batch b).options ≡ b.options)
unfolding recompute_state
recompute_if_any-IsSound [] b w h = (h, refl)
recompute_if_any-IsSound (s ∷ ss) b w h = (recompute_state-IsSound b w h, refl)

-- The first half of drainToSink takes out the same batch.
pub start_drain-take :
    (b : SignalBuffer) (v : View) (n : ℕ)
    → IsSound b v
    → (w : View) × IsSound (start_drain b n).1 w
      × ((start_drain b n).0 ≡ take n (backlog v))
      × (backlog w ≡ drop n (backlog v))
      × ((start_drain b n).1.options ≡ b.options)
unfolding start_drain pop_priority_batch
start_drain-take b v n h =
    let (w, sound, batch, left) = pop_priority_batch-take b v n h in
    let (sound', options) =
      recompute_if_any-IsSound (pop_priority_batch b n).0 (pop_priority_batch b n).1 w sound in
    (w, sound', batch, left, options ∙ pop_lanes-options b n [] priority_order)
