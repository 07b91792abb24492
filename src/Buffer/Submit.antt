-- ===== src/Buffer/Submit.antt =====
-- What `submit` does on each of its branches, told by the lists of signals that the buffer holds.
use inveni_ops.Base.{
  ◌+◌, ◌≤◌, ◌<◌, ◌≡◌, ◌≢◌, refl, ap, Bool, true, false, not, ◌&&◌, List, [], ◌∷◌, length, arith,
  Bool-cases, inl, inr, leb,
}
use inveni_ops.Types.{Severity, p0, severity_rank}
use inveni_ops.Buffer.Ring.{size}
use inveni_ops.Buffer.{
  IngestionSignal, SignalBuffer, SignalBufferOptions, shedding, SubmitResult, accepted, rejected,
  shed_ceiling, hard_capacity, put, total_size, evict_to_make_room_for_p0, is_p0, is_shedding,
  ceiling, store, submit,
}
use inveni_ops.Buffer.Evict.{victim_exists, evicted-IsSound}
use inveni_ops.Buffer.View.{
  dropped_total, dropped_total-store, dropped_total-record_drop, total-append_at, View, total,
  append_at, IsSound, total-put, total_size-total, record_drop-IsSound, store-IsSound,
}

-- The buffer is shedding, and the lane of a signal that is no P0 has reached its ceiling.
abbrev pub IsOver : SignalBuffer → View → IngestionSignal → Type 0
IsOver b v x =
    (b.state ≡ shedding)
    × (x.severity ≢ p0)
    × (ceiling b.options x.severity ≤ length (v x.severity))

-- How a submission may end: `v` is held before, `w` after it.
pub data Submitted (b : SignalBuffer) (v : View) (x : IngestionSignal) (w : View)
    (result : SubmitResult) : Type 0 where
  stored :
      total v < b.options.capacity
      → ¬ IsOver b v x
      → w ≡ append_at v x.severity x
      → result ≡ accepted
      → Submitted b v x w result
  evicting :
      (victim : Severity) (oldest : IngestionSignal) (rest : List IngestionSignal)
      → total v ≡ b.options.capacity
      → x.severity ≡ p0
      → v victim ≡ oldest ∷ rest
      → ((t : Severity) → severity_rank victim < severity_rank t → v t ≡ [])
      → w ≡ append_at (put v victim rest) p0 x
      → result ≡ accepted
      → Submitted b v x w result
  over_ceiling : IsOver b v x → w ≡ v → result ≡ rejected shed_ceiling → Submitted b v x w result
  full :
      total v ≡ b.options.capacity
      → x.severity ≢ p0
      → ¬ IsOver b v x
      → w ≡ v
      → result ≡ rejected hard_capacity
      → Submitted b v x w result

-- The tests of `submit`, read on the view.
module _ (b : SignalBuffer) (v : View) (h : IsSound b v) (x : IngestionSignal) where
  abbrev over : Bool
  over =
      is_shedding b.state
      && (not (is_p0 x.severity) && leb (ceiling b.options x.severity) (size (b.queues x.severity)))

  abbrev Ends : Type 0
  Ends =
      (w : View) × IsSound (submit b x).0 w
      × Submitted b v x w (submit b x).1
      × (dropped_total (submit b x).0 + total w ≡ dropped_total b + total v + 1)

  over_ends : over ≡ true → Ends
  unfolding submit
  over_ends e = rw e (
    v,
    record_drop-IsSound b v x.severity shed_ceiling h,
    over_ceiling (ground arith, ground arith, ground (arith, (h.lanes x.severity).counted)) refl
        refl,
    omega (arith, dropped_total-record_drop b x.severity shed_ceiling),
  )

  under : over ≡ false → ¬ IsOver b v x
  under e (shed, other, reached) = absurd (ground (arith, (h.lanes x.severity).counted))

  room_ends : over ≡ false → leb b.options.capacity (total_size b) ≡ false → Ends
  unfolding submit
  room_ends e k =
      let same = total_size-total b v h in
      let room : total v < b.options.capacity = ground arith in
      rw (e, k)
        (
          append_at v x.severity x,
          store-IsSound b v x h room,
          stored room (under e) refl refl,
          omega (arith, dropped_total-store b x, total-append_at v x.severity x),
        )

  at_capacity : leb b.options.capacity (total_size b) ≡ true → total v ≡ b.options.capacity
  at_capacity k = let same = total_size-total b v h in let fit = h.fits in ground arith

  p0_ends :
      total v ≡ b.options.capacity
      → x.severity ≡ p0
      → (w : View) × IsSound (store (evict_to_make_room_for_p0 b) x) w
        × Submitted b v x w accepted
        × (dropped_total (store (evict_to_make_room_for_p0 b) x) + total w
            ≡ dropped_total b + total v + 1)
  p0_ends full_up e0 =
      let (w, old, rest, found, lane, below) =
        victim_exists b v h (omega (arith, (h.lanes p0).head_in_range, h.caps p0)) in
      let (sound, same, dropped) = evicted-IsSound b v h w old rest found lane in
      (
        append_at (put v w rest) x.severity x,
        store-IsSound (evict_to_make_room_for_p0 b) (put v w rest) x sound (
            omega (
              arith,
              total-put v w rest,
              ap length lane,
              ap (λ (o : SignalBufferOptions). o.capacity) same,
            )),
        evicting w old rest full_up e0 lane below
            (ap (λ (s : Severity). append_at (put v w rest) s x) e0) refl,
        omega (
          arith,
          dropped,
          dropped_total-store (evict_to_make_room_for_p0 b) x,
          total-append_at (put v w rest) x.severity x,
          total-put v w rest,
          ap length lane,
        ),
      )

  full_ends : over ≡ false → leb b.options.capacity (total_size b) ≡ true → Ends
  unfolding submit
  full_ends e k = elim (Bool-cases (is_p0 x.severity)) [
    | inl urgent ↦ rw (e, k, urgent) (p0_ends (at_capacity k) (ground arith))
    | inr other ↦
        rw (e, k, other)
          (
            v,
            record_drop-IsSound b v x.severity hard_capacity h,
            full (at_capacity k) (ground arith) (under e) refl refl,
            omega (arith, dropped_total-record_drop b x.severity hard_capacity),
          )
  ]

-- Whatever the buffer holds, a submission ends in one of four ways, of which exactly one applies.
-- While shedding a signal that is no P0 is refused if its lane has reached its ceiling. Otherwise the
-- signal is stored behind its lane while there is room; at capacity a P0 is stored in the place of
-- the oldest signal of the least severe lane that is not empty, and any other is refused. What the
-- buffer holds is otherwise unchanged, and never more than the capacity. Signals held and drops
-- counted grow by one together.
pub submit-Submitted :
    (b : SignalBuffer) (v : View) (x : IngestionSignal)
    → IsSound b v
    → (w : View) × IsSound (submit b x).0 w
      × Submitted b v x w (submit b x).1
      × (dropped_total (submit b x).0 + total w ≡ dropped_total b + total v + 1)
submit-Submitted b v x h = elim (Bool-cases (over b v h x)) [
  | inl e ↦ over_ends b v h x e
  | inr e ↦ elim (Bool-cases (leb b.options.capacity (total_size b))) [
    | inl k ↦ full_ends b v h x e k
    | inr k ↦ room_ends b v h x e k
  ]
]
