-- ===== src/Buffer.antt =====
-- SignalBuffer of backend/src/services/ingestion/buffer.ts: four severity lanes over one shared
-- capacity. A fraction of the options is an exact quotient; logging has no effect on the state.
-- The sink is not part of the state: a drain takes the batch out, and `finish_drain` is what
-- happens once the sink's promise has been kept or broken, perhaps after other calls.
pub mod Ring
pub mod View
pub mod Evict
pub mod Submit
pub mod Watermarks
pub mod Ledger
pub mod Stats
pub mod Lanes
pub mod Drain
pub mod DrainAll
use inveni_ops.Base.{
  ℕ, zero, suc, ◌+◌, ◌-◌, ◌*◌, ◌/◌, ◌==◌, leb, ltb, if◌then◌else◌, Bool, true, false, not, ◌&&◌,
  List, [], ◌∷◌, ◌++◌, Option, none, some, length,
}
use inveni_ops.Base.Int.{ℤ}
use inveni_ops.Types.{Ident, Severity, p0, p1, p2, p3, ComponentType, same_severity}
use Ring.{create, size, push, pop_oldest, pop_batch}

-- The payload is carried along and never read: an identifier stands for it.
pub record IngestionSignal : Type 0 where
  pub signal_id : Ident
  pub component_id : Ident
  pub component_type : ComponentType
  pub severity : Severity
  pub raw_payload : Ident
  pub occurred_at : ℤ
  pub received_at : ℤ
  pub correlation_id : Ident

pub data BufferState : Type 0 where
  normal shedding : BufferState

pub data DropReason : Type 0 where
  shed_ceiling hard_capacity sink_failure : DropReason

pub data SubmitResult : Type 0 where
  accepted : SubmitResult
  rejected : DropReason → SubmitResult

-- numerator / denominator
pub record Fraction : Type 0 where
  pub numerator : ℕ
  pub denominator : ℕ

pub record SignalBufferOptions : Type 0 where
  pub capacity : ℕ
  pub high_water_mark : Fraction
  pub low_water_mark : Fraction
  pub shed_ceiling_fractions : Severity → Fraction
  pub drain_batch_size : ℕ

pub record SignalBuffer : Type 0 where
  pub options : SignalBufferOptions
  pub queues : Severity → Ring.Ring IngestionSignal
  pub dropped_by_severity : Severity → ℕ
  pub dropped_by_reason : DropReason → ℕ
  pub dropped_by_severity_and_reason : Severity → DropReason → ℕ
  pub state : BufferState

abbrev pub same_reason : DropReason → DropReason → Bool
same_reason shed_ceiling shed_ceiling = true
same_reason hard_capacity hard_capacity = true
same_reason sink_failure sink_failure = true
same_reason _ _ = false

-- `record[severity] = value`
abbrev pub put {ℓ} : {A : Type ℓ} → (Severity → A) → Severity → A → Severity → A
put f s a t = if same_severity s t then a else f t

abbrev pub priority_order : List Severity
priority_order = p0 ∷ p1 ∷ p2 ∷ p3 ∷ []

pub new_buffer : SignalBufferOptions → SignalBuffer
new_buffer options = record {
  options = options;
  queues = λ s. create options.capacity;
  dropped_by_severity = λ s. 0;
  dropped_by_reason = λ r. 0;
  dropped_by_severity_and_reason = λ s r. 0;
  state = normal;
}

abbrev sum_sizes : (Severity → Ring.Ring IngestionSignal) → ℕ → List Severity → ℕ
sum_sizes queues sum [] = sum
sum_sizes queues sum (s ∷ ss) = sum_sizes queues (sum + size (queues s)) ss

unfoldable pub total_size : SignalBuffer → ℕ
total_size b = sum_sizes b.queues 0 priority_order

-- fill ≥ f and fill ≤ f for fill = total / capacity, which the code takes as 0 at capacity 0.
pub fill_at_least : ℕ → ℕ → Fraction → Bool
fill_at_least total capacity f =
    if capacity == 0 then f.numerator == 0 else leb (f.numerator * capacity) (total * f.denominator)

pub fill_at_most : ℕ → ℕ → Fraction → Bool
fill_at_most total capacity f =
    if capacity == 0 then true else leb (total * f.denominator) (f.numerator * capacity)

abbrev next_state : BufferState → ℕ → SignalBufferOptions → BufferState
next_state normal total o =
    if fill_at_least total o.capacity o.high_water_mark then shedding else normal
next_state shedding total o =
    if fill_at_most total o.capacity o.low_water_mark then normal else shedding

pub recompute_state : SignalBuffer → SignalBuffer
unfolding fill_at_least fill_at_most total_size
recompute_state b = record b { state = next_state b.state (total_size b) b.options }

pub record_drop : SignalBuffer → Severity → DropReason → SignalBuffer
record_drop b s r = record b {
  dropped_by_severity = put b.dropped_by_severity s (b.dropped_by_severity s + 1);
  dropped_by_reason =
      λ q. if same_reason r q then b.dropped_by_reason q + 1 else b.dropped_by_reason q;
  dropped_by_severity_and_reason = λ t q.
      if same_severity s t
      then if same_reason r q
        then b.dropped_by_severity_and_reason t q + 1
        else b.dropped_by_severity_and_reason t q
      else b.dropped_by_severity_and_reason t q;
}

-- The first lane, from P3 up, that holds something.
pub find_victim : SignalBuffer → List Severity → Option Severity
find_victim b [] = none
find_victim b (s ∷ ss) =
    let later = find_victim b ss in if ltb 0 (size (b.queues s)) then some s else later

abbrev pub lowest_first : List Severity
lowest_first = p3 ∷ p2 ∷ p1 ∷ p0 ∷ []

abbrev after_eviction :
    SignalBuffer → Severity → Option IngestionSignal × Ring.Ring IngestionSignal → SignalBuffer
after_eviction b victim (none, rest) = record b { queues = put b.queues victim rest }
after_eviction b victim (some evicted, rest) =
    record_drop (record b { queues = put b.queues victim rest }) victim hard_capacity

pub evict_to_make_room_for_p0 : SignalBuffer → SignalBuffer
evict_to_make_room_for_p0 b = elim (find_victim b lowest_first) [
  | none ↦ b
  | some victim ↦ after_eviction b victim (pop_oldest (b.queues victim))
]

abbrev is_p0 : Severity → Bool
is_p0 p0 = true
is_p0 _ = false

abbrev is_shedding : BufferState → Bool
is_shedding normal = false
is_shedding shedding = true

pub ceiling : SignalBufferOptions → Severity → ℕ
ceiling o s =
    o.capacity * (o.shed_ceiling_fractions s).numerator / (o.shed_ceiling_fractions s).denominator

-- The push's own result is ignored, as in the source.
abbrev store : SignalBuffer → IngestionSignal → SignalBuffer
store b signal =
    let s = signal.severity in
    recompute_state (record b { queues = put b.queues s (push (b.queues s) signal).0 })

pub submit : SignalBuffer → IngestionSignal → SignalBuffer × SubmitResult
submit b signal =
    let s = signal.severity in
    if is_shedding b.state && (not (is_p0 s) && leb (ceiling b.options s) (size (b.queues s)))
    then (record_drop b s shed_ceiling, rejected shed_ceiling)
    else if leb b.options.capacity (total_size b)
    then if is_p0 s
      then (store (evict_to_make_room_for_p0 b) signal, accepted)
      else (record_drop b s hard_capacity, rejected hard_capacity)
    else (store b signal, accepted)

-- popPriorityBatch's loop over the severities that are left.
pub pop_lanes :
    SignalBuffer → ℕ → List IngestionSignal → List Severity → List IngestionSignal × SignalBuffer
pop_lanes b max_items result [] = (result, b)
pop_lanes b max_items result (s ∷ ss) =
    let (items, rest) = pop_batch (b.queues s) (max_items - length result) in
    let further =
      pop_lanes (record b { queues = put b.queues s rest }) max_items (result ++ items) ss in
    if leb max_items (length result) then (result, b) else further

pub pop_priority_batch : SignalBuffer → ℕ → List IngestionSignal × SignalBuffer
unfolding pop_lanes
pop_priority_batch b max_items = pop_lanes b max_items [] priority_order

-- An empty batch returns before the state is recomputed.
abbrev pub recompute_if_any : List IngestionSignal → SignalBuffer → SignalBuffer
recompute_if_any [] b = b
recompute_if_any (s ∷ ss) b = recompute_state b

-- drainToSink up to the sink's call: the batch, and the buffer without it.
pub start_drain : SignalBuffer → ℕ → List IngestionSignal × SignalBuffer
start_drain b max_items =
    let (batch, b') = pop_priority_batch b max_items in (batch, recompute_if_any batch b')

pub record_drops : SignalBuffer → List IngestionSignal → SignalBuffer
record_drops b [] = b
record_drops b (signal ∷ signals) =
    record_drops (record_drop b signal.severity sink_failure) signals

pub record DrainResult : Type 0 where
  pub drained : ℕ
  pub failed : ℕ

-- drainToSink from the sink's answer on.
pub finish_drain : SignalBuffer → List IngestionSignal → Bool → SignalBuffer × DrainResult
finish_drain b batch true = (b, record { drained = length batch; failed = 0 })
finish_drain b batch false = (record_drops b batch, record { drained = 0; failed = length batch })

-- A whole drainToSink during which nothing else runs.
pub drain_to_sink : SignalBuffer → ℕ → Bool → SignalBuffer × DrainResult
drain_to_sink b max_items ok = let (batch, b') = start_drain b max_items in finish_drain b' batch ok

pub record DrainAllResult : Type 0 where
  pub processed : ℕ
  pub succeeded : ℕ
  pub failed : ℕ
  pub remaining : ℕ

abbrev drain_all_result : SignalBuffer → ℕ → ℕ → DrainAllResult
drain_all_result b succeeded failed = record {
  processed = succeeded + failed;
  succeeded = succeeded;
  failed = failed;
  remaining = total_size b;
}

-- The loop of drainAll: an entry for each time that the clock is read before the deadline, with the
-- sink's answer in that round. The list is finite because the clock passes the deadline.
pub drain_loop : List Bool → SignalBuffer → ℕ → ℕ → SignalBuffer × DrainAllResult
drain_loop [] b succeeded failed = (b, drain_all_result b succeeded failed)
drain_loop (ok ∷ oks) b succeeded failed =
    let (b', result) = drain_to_sink b b.options.drain_batch_size ok in
    let more = drain_loop oks b' (succeeded + result.drained) (failed + result.failed) in
    if ltb 0 (total_size b) then more else (b, drain_all_result b succeeded failed)

pub drain_all : List Bool → SignalBuffer → SignalBuffer × DrainAllResult
unfolding drain_loop
drain_all rounds b = drain_loop rounds b 0 0
