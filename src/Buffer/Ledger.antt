-- ===== src/Buffer/Ledger.antt =====
-- The three tables of drops in backend/src/services/ingestion/buffer.ts and how they agree.
use inveni_ops.Base.{
  ℕ, ◌+◌, ◌≡◌, refl, inl, inr, Bool, true, false, not, ◌&&◌, List, [], ◌∷◌, Option, none, some,
  Bool-cases, Option-cases, arith, leb, length, subst,
}
use inveni_ops.Types.{Severity, p0, p1, p2, p3, same_severity, same_severity_iff}
use inveni_ops.Buffer.Ring.{Ring, size, pop_oldest}
use inveni_ops.Buffer.{
  IngestionSignal, SignalBuffer, DropReason, shed_ceiling, hard_capacity, sink_failure, same_reason,
  record_drop, find_victim, lowest_first, after_eviction, evict_to_make_room_for_p0, store, submit,
  record_drops, recompute_state, is_p0, is_shedding, ceiling, total_size, pop_lanes,
  pop_priority_batch, priority_order, recompute_if_any, finish_drain, start_drain, new_buffer,
  SignalBufferOptions,
}

-- The table of both keys adds up to the two tables of one key.
pub record Balanced (b : SignalBuffer) : Type 0 where
  pub by_severity :
      (s : Severity)
      → b.dropped_by_severity s
        ≡ b.dropped_by_severity_and_reason s shed_ceiling
          + b.dropped_by_severity_and_reason s hard_capacity
          + b.dropped_by_severity_and_reason s sink_failure
  pub by_reason :
      (r : DropReason)
      → b.dropped_by_reason r
        ≡ b.dropped_by_severity_and_reason p0 r
          + b.dropped_by_severity_and_reason p1 r
          + b.dropped_by_severity_and_reason p2 r
          + b.dropped_by_severity_and_reason p3 r

abbrev Row : SignalBuffer → Severity → Type 0
Row b s =
    b.dropped_by_severity s
    ≡ b.dropped_by_severity_and_reason s shed_ceiling
      + b.dropped_by_severity_and_reason s hard_capacity
      + b.dropped_by_severity_and_reason s sink_failure

record_drop-Row :
    (b : SignalBuffer) (s : Severity) (r : DropReason) → Row b s → Row (record_drop b s r) s
unfolding record_drop
record_drop-Row b s shed_ceiling h = rw ((same_severity_iff s s).1 refl) (omega (arith, h))
record_drop-Row b s hard_capacity h = rw ((same_severity_iff s s).1 refl) (omega (arith, h))
record_drop-Row b s sink_failure h = rw ((same_severity_iff s s).1 refl) (omega (arith, h))

drop_by_severity :
    (b : SignalBuffer) (s : Severity) (r : DropReason)
    → Balanced b
    → (t : Severity) → Row (record_drop b s r) t
unfolding record_drop
drop_by_severity b s r h t = elim (Bool-cases (same_severity s t)) [
  | inr differ ↦ rw differ (h.by_severity t)
  | inl same ↦
      subst (Row (record_drop b s r)) ((same_severity_iff s t).0 same)
        (record_drop-Row b s r (h.by_severity s))
]

drop_by_reason :
    (b : SignalBuffer) (s : Severity) (r q : DropReason)
    → Balanced b
    → (record_drop b s r).dropped_by_reason q
      ≡ (record_drop b s r).dropped_by_severity_and_reason p0 q
        + (record_drop b s r).dropped_by_severity_and_reason p1 q
        + (record_drop b s r).dropped_by_severity_and_reason p2 q
        + (record_drop b s r).dropped_by_severity_and_reason p3 q
unfolding record_drop
drop_by_reason b p0 r q h = elim (Bool-cases (same_reason r q)) [
  | inl same ↦ rw same (omega (arith, h.by_reason q))
  | inr differ ↦ rw differ (h.by_reason q)
]
drop_by_reason b p1 r q h = elim (Bool-cases (same_reason r q)) [
  | inl same ↦ rw same (omega (arith, h.by_reason q))
  | inr differ ↦ rw differ (h.by_reason q)
]
drop_by_reason b p2 r q h = elim (Bool-cases (same_reason r q)) [
  | inl same ↦ rw same (omega (arith, h.by_reason q))
  | inr differ ↦ rw differ (h.by_reason q)
]
drop_by_reason b p3 r q h = elim (Bool-cases (same_reason r q)) [
  | inl same ↦ rw same (omega (arith, h.by_reason q))
  | inr differ ↦ rw differ (h.by_reason q)
]

record_drop-Balanced :
    (b : SignalBuffer) (s : Severity) (r : DropReason) → Balanced b → Balanced (record_drop b s r)
record_drop-Balanced b s r h = record {
  by_severity = drop_by_severity b s r h;
  by_reason = λ q. drop_by_reason b s r q h;
}

-- What does not touch the tables keeps them.
queues-Balanced :
    (b : SignalBuffer) (queues : Severity → Ring IngestionSignal)
    → Balanced b
    → Balanced (record b { queues = queues })
queues-Balanced b queues h = record { by_severity = h.by_severity; by_reason = h.by_reason }

recompute_state-Balanced : (b : SignalBuffer) → Balanced b → Balanced (recompute_state b)
unfolding recompute_state
recompute_state-Balanced b h = record { by_severity = h.by_severity; by_reason = h.by_reason }

store-Balanced : (b : SignalBuffer) (x : IngestionSignal) → Balanced b → Balanced (store b x)
store-Balanced b x h = recompute_state-Balanced _ (queues-Balanced b _ h)

after_eviction-Balanced :
    (b : SignalBuffer) (victim : Severity) (p : Option IngestionSignal × Ring IngestionSignal)
    → Balanced b
    → Balanced (after_eviction b victim p)
after_eviction-Balanced b victim (none, rest) h = queues-Balanced b _ h
after_eviction-Balanced b victim (some x, rest) h =
    record_drop-Balanced _ victim hard_capacity (queues-Balanced b _ h)

evict-Balanced : (b : SignalBuffer) → Balanced b → Balanced (evict_to_make_room_for_p0 b)
unfolding evict_to_make_room_for_p0
evict-Balanced b h = elim (Option-cases (find_victim b lowest_first)) [
  | inl nobody ↦ rw (evict_to_make_room_for_p0, nobody) h
  | inr (victim, found) ↦
      rw (evict_to_make_room_for_p0, found)
        (after_eviction-Balanced b victim (pop_oldest (b.queues victim)) h)
]

submit-Balanced : (b : SignalBuffer) (x : IngestionSignal) → Balanced b → Balanced (submit b x).0
unfolding submit
submit-Balanced b x h =
    elim (Bool-cases (
      is_shedding b.state
      && (not (is_p0 x.severity)
          && leb (ceiling b.options x.severity) (size (b.queues x.severity))))) [
            | inl over ↦ rw (submit, over) (record_drop-Balanced b x.severity shed_ceiling h)
            | inr fine ↦ elim (Bool-cases (leb b.options.capacity (total_size b))) [
              | inr room ↦ rw (submit, fine, room) (store-Balanced b x h)
              | inl full ↦ elim (Bool-cases (is_p0 x.severity)) [
                | inl urgent ↦
                    rw (submit, fine, full, urgent)
                      (store-Balanced (evict_to_make_room_for_p0 b) x (evict-Balanced b h))
                | inr other ↦
                    rw (submit, fine, full, other)
                      (record_drop-Balanced b x.severity hard_capacity h)
              ]
            ]
          ]

record_drops-Balanced :
    (xs : List IngestionSignal) (b : SignalBuffer) → Balanced b → Balanced (record_drops b xs)
unfolding record_drops
record_drops-Balanced [] b h = h
record_drops-Balanced (x ∷ xs) b h =
    record_drops-Balanced xs _ (record_drop-Balanced b x.severity sink_failure h)

pop_lanes-Balanced :
    (ss : List Severity) (b : SignalBuffer) (n : ℕ) (acc : List IngestionSignal)
    → Balanced b
    → Balanced (pop_lanes b n acc ss).1
unfolding pop_lanes
pop_lanes-Balanced [] b n acc h = h
pop_lanes-Balanced (s ∷ ss) b n acc h = elim (Bool-cases (leb n (length acc))) [
  | inl full ↦ rw (pop_lanes, full) h
  | inr more ↦ rw (pop_lanes, more) (pop_lanes-Balanced ss _ n _ (queues-Balanced b _ h))
]

recompute_if_any-Balanced :
    (batch : List IngestionSignal) (b : SignalBuffer)
    → Balanced b
    → Balanced (recompute_if_any batch b)
recompute_if_any-Balanced [] b h = h
recompute_if_any-Balanced (x ∷ xs) b h = recompute_state-Balanced b h

finish_drain-Balanced :
    (b : SignalBuffer) (batch : List IngestionSignal) (ok : Bool)
    → Balanced b
    → Balanced (finish_drain b batch ok).0
unfolding finish_drain
finish_drain-Balanced b batch true h = h
finish_drain-Balanced b batch false h = record_drops-Balanced batch b h

start_drain-Balanced : (b : SignalBuffer) (n : ℕ) → Balanced b → Balanced (start_drain b n).1
unfolding start_drain pop_priority_batch
start_drain-Balanced b n h =
    recompute_if_any-Balanced (pop_priority_batch b n).0 _
      (pop_lanes-Balanced priority_order b n [] h)

new_buffer-Balanced : (o : SignalBufferOptions) → Balanced (new_buffer o)
unfolding new_buffer
new_buffer-Balanced o = record { by_severity = λ s. refl; by_reason = λ r. refl }

-- What can happen to a buffer. A drain is two events, since submissions run while the sink works.
pub data BufferEvent : Type 0 where
  submission : IngestionSignal → BufferEvent
  drain_starts : ℕ → BufferEvent
  sink_answers : List IngestionSignal → Bool → BufferEvent

abbrev after_event : SignalBuffer → BufferEvent → SignalBuffer
after_event b (submission x) = (submit b x).0
after_event b (drain_starts n) = (start_drain b n).1
after_event b (sink_answers batch ok) = (finish_drain b batch ok).0

abbrev pub after_events : SignalBuffer → List BufferEvent → SignalBuffer
after_events b [] = b
after_events b (e ∷ es) = after_events (after_event b e) es

after_event-Balanced :
    (b : SignalBuffer) (e : BufferEvent) → Balanced b → Balanced (after_event b e)
after_event-Balanced b (submission x) h = submit-Balanced b x h
after_event-Balanced b (drain_starts n) h = start_drain-Balanced b n h
after_event-Balanced b (sink_answers batch ok) h = finish_drain-Balanced b batch ok h

after_events-Balanced :
    (es : List BufferEvent) (b : SignalBuffer) → Balanced b → Balanced (after_events b es)
after_events-Balanced [] b h = h
after_events-Balanced (e ∷ es) b h = after_events-Balanced es _ (after_event-Balanced b e h)

-- Whatever submissions and drains a new buffer goes through, in whatever order, and whether the
-- sink takes a batch or fails, its table of drops by severity and reason adds up to the drops by
-- severity and to the drops by reason.
pub after_events-new_buffer-Balanced :
    (options : SignalBufferOptions) (events : List BufferEvent)
    → Balanced (after_events (new_buffer options) events)
after_events-new_buffer-Balanced options events =
    after_events-Balanced events (new_buffer options) (new_buffer-Balanced options)
