-- ===== src/Tests/BufferTests.antt =====
-- backend/src/services/ingestion/buffer.ts at concrete inputs.
use inveni_ops.Base.{List, ℕ, ◌+◌, ◌≡◌, refl, true, false, [], ◌∷◌, none, some, arith}
use inveni_ops.Base.Int.{pos}
use inveni_ops.Types.{Severity, p0, p1, p2, p3, api}
use inveni_ops.Buffer.Ring.{Ring, pop_batch}
use inveni_ops.Buffer.Ring.Laws.{Represents, pop_batch-take}
use inveni_ops.Buffer.Ledger.{
  Balanced, BufferEvent, submission, drain_starts, sink_answers, after_events,
  after_events-new_buffer-Balanced,
}
use inveni_ops.Buffer.{new_buffer}
use inveni_ops.Buffer.{
  total_size, IngestionSignal, SignalBuffer, SignalBufferOptions, normal, total_size, submit,
  drain_all,
}
use inveni_ops.Buffer.View.{View, total, IsSound, dropped_total}
use inveni_ops.Buffer.Submit.{Submitted, submit-Submitted}
use inveni_ops.Buffer.DrainAll.{drain_all_accounts, drain_all_empties}

-- A ring of three slots whose two items run round its end.
abbrev wrapped : Ring ℕ
wrapped = record { capacity = 3; slots = some 8 ∷ none ∷ some 7 ∷ []; head = 2; count = 2 }

wrapped-Represents : Represents wrapped (7 ∷ 8 ∷ [])
wrapped-Represents = record {
  allocated = refl;
  head_in_range = omega arith;
  counted = refl;
  fits = omega arith;
  held = (refl, (refl, tt));
}

pop_batch-take_example :
    (r : Ring ℕ) × (pop_batch wrapped 1 ≡ (7 ∷ [], r)) × Represents r (8 ∷ []) × (r.capacity ≡ 3)
pop_batch-take_example = pop_batch-take wrapped 1 (7 ∷ 8 ∷ []) wrapped-Represents

abbrev options : SignalBufferOptions
options = record {
  capacity = 2;
  high_water_mark = record { numerator = 4; denominator = 5 };
  low_water_mark = record { numerator = 3; denominator = 5 };
  shed_ceiling_fractions = λ s. record { numerator = 1; denominator = 2 };
  drain_batch_size = 1;
}

abbrev a_signal : ℕ → Severity → IngestionSignal
a_signal id s = record {
  signal_id = id;
  component_id = 1;
  component_type = api;
  severity = s;
  raw_payload = 0;
  occurred_at = pos 5;
  received_at = pos 6;
  correlation_id = 9;
}

abbrev full_lanes : Severity → Ring IngestionSignal
full_lanes p1 = record {
  capacity = 2;
  slots = none ∷ some (a_signal 1 p1) ∷ [];
  head = 1;
  count = 1;
}
full_lanes p3 = record {
  capacity = 2;
  slots = some (a_signal 3 p3) ∷ none ∷ [];
  head = 0;
  count = 1;
}
full_lanes _ = record { capacity = 2; slots = none ∷ none ∷ []; head = 0; count = 0 }

-- At capacity, with a P1 and a P3.
abbrev full_buffer : SignalBuffer
full_buffer = record {
  options = options;
  queues = full_lanes;
  dropped_by_severity = λ s. 0;
  dropped_by_reason = λ r. 0;
  dropped_by_severity_and_reason = λ s r. 0;
  state = normal;
}

abbrev full_view : View
full_view p1 = a_signal 1 p1 ∷ []
full_view p3 = a_signal 3 p3 ∷ []
full_view _ = []

lanes-Represents : (s : Severity) → Represents (full_lanes s) (full_view s)
lanes-Represents p0 = record {
  allocated = refl;
  head_in_range = omega arith;
  counted = refl;
  fits = omega arith;
  held = tt;
}
lanes-Represents p1 = record {
  allocated = refl;
  head_in_range = omega arith;
  counted = refl;
  fits = omega arith;
  held = (refl, tt);
}
lanes-Represents p2 = record {
  allocated = refl;
  head_in_range = omega arith;
  counted = refl;
  fits = omega arith;
  held = tt;
}
lanes-Represents p3 = record {
  allocated = refl;
  head_in_range = omega arith;
  counted = refl;
  fits = omega arith;
  held = (refl, tt);
}

lanes_capacity : (s : Severity) → (full_lanes s).capacity ≡ 2
lanes_capacity p0 = refl
lanes_capacity p1 = refl
lanes_capacity p2 = refl
lanes_capacity p3 = refl

full_buffer-IsSound : IsSound full_buffer full_view
unfolding total
full_buffer-IsSound = record { lanes = lanes-Represents; caps = lanes_capacity; fits = omega arith }

submit-Submitted_example :
    (w : View) × IsSound (submit full_buffer (a_signal 4 p0)).0 w
    × Submitted full_buffer full_view (a_signal 4 p0) w (submit full_buffer (a_signal 4 p0)).1
    × (dropped_total (submit full_buffer (a_signal 4 p0)).0 + total w
        ≡ dropped_total full_buffer + total full_view + 1)
submit-Submitted_example =
    submit-Submitted full_buffer full_view (a_signal 4 p0) full_buffer-IsSound

drain_all_accounts_example :
    let out = drain_all (false ∷ true ∷ []) full_buffer in
    (out.1.processed ≡ out.1.succeeded + out.1.failed)
    × (out.1.processed + out.1.remaining ≡ total full_view)
    × (out.1.remaining ≡ total_size out.0)
drain_all_accounts_example =
    drain_all_accounts full_buffer full_view (false ∷ true ∷ []) full_buffer-IsSound

drain_all_empties_example :
    ((drain_all (false ∷ true ∷ []) full_buffer).1.remaining ≡ 0)
    × ((drain_all (false ∷ true ∷ []) full_buffer).1.processed ≡ total full_view)
unfolding total
drain_all_empties_example =
    drain_all_empties full_buffer full_view (false ∷ true ∷ []) full_buffer-IsSound (omega arith)
      (omega arith)

-- A submission, a drain whose sink fails on the signal, and another submission.
abbrev events : List BufferEvent
events =
    submission (a_signal 1 p1)
    ∷ drain_starts 5
    ∷ sink_answers (a_signal 1 p1 ∷ []) false
    ∷ submission (a_signal 2 p3)
    ∷ []

after_events-new_buffer-Balanced_example : Balanced (after_events (new_buffer options) events)
after_events-new_buffer-Balanced_example = after_events-new_buffer-Balanced options events
