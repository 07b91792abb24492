-- ===== src/Tests/WorkerTests.antt =====
-- The worker's pipeline and the debouncer at concrete inputs.
use inveni_ops.Base.{
  ℕ, ◌≡◌, refl, false, ◌&&◌, List, [], ◌∷◌, none, length, keep_if, ◌==◌, if◌then◌else◌, map,
}
use inveni_ops.Base.Int.{pos}
use inveni_ops.Types.{Ident, p1, p2, cache, opened}
use inveni_ops.Buffer.{IngestionSignal}
use inveni_ops.WorkItems.{WorkItem}
use inveni_ops.Retry.{Result, ok, err}
use inveni_ops.Worker.{
  DebounceResult, ProcessBatchDeps, process_batch, increments, has, record_signal_volume,
  record_work_items_created,
}
use inveni_ops.Worker.Counts.{get_count, total}
use inveni_ops.Worker.Batch.{increments-counted, process_batch_redelivered}
use inveni_ops.Debouncer.{Stores, SignalDebouncerOptions}
use inveni_ops.Debouncer.Links.{Links}

abbrev signal_of : Ident → Ident → IngestionSignal
signal_of i c = record {
  signal_id = i;
  component_id = c;
  component_type = cache;
  severity = p2;
  raw_payload = 0;
  occurred_at = pos 5;
  received_at = pos 6;
  correlation_id = 1;
}

abbrev linked_to : Ident → DebounceResult
linked_to i = record { work_item_id = i; created = false }

abbrev pairs : List (IngestionSignal × DebounceResult)
pairs =
    (signal_of 1 30, linked_to 7)
    ∷ (signal_of 2 31, linked_to 8)
    ∷ (signal_of 3 30, linked_to 7)
    ∷ []

increments-counted_example :
    (get_count (λ a b. a == b) (increments (1 ∷ 3 ∷ []) pairs) 7
      ≡ length (keep_if (λ p. has (1 ∷ 3 ∷ []) p.0.signal_id && p.1.work_item_id == 7) pairs))
    × (total (increments (1 ∷ 3 ∷ []) pairs)
        ≡ length (keep_if (λ p. has (1 ∷ 3 ∷ []) p.0.signal_id) pairs))
increments-counted_example = increments-counted (1 ∷ 3 ∷ []) pairs 7

abbrev signals : List IngestionSignal
signals = signal_of 1 30 ∷ signal_of 2 31 ∷ signal_of 3 30 ∷ []

abbrev item_of : Ident → ℕ → WorkItem
item_of i n = record {
  id = i;
  component_id = 30;
  component_type = cache;
  severity = p1;
  state = opened;
  title = 9;
  first_signal_at = pos 6;
  resolved_at = none;
  closed_at = none;
  signal_count = n;
  created_at = pos 6;
  updated_at = pos 6;
}

-- A world that is the number of increments made; everything is stored already.
abbrev all_stored : ProcessBatchDeps ℕ
all_stored = record {
  resolve_batch = λ w ss. (w, map (λ s. linked_to 7) ss);
  insert_many_idempotent = λ w docs. (w, []);
  increment_signal_count = λ w i n. (n, item_of i n);
  clock = λ w. pos 9;
}

process_batch_redelivered_example : process_batch all_stored 0 (signal_of 1 30 ∷ []) ≡ (
  0,
  record_signal_volume [] ∷ record_work_items_created [] ∷ [],
  record { total_signals = 1; newly_persisted = 0; work_items_touched = 0 },
)
process_batch_redelivered_example = process_batch_redelivered all_stored 0 (signal_of 1 30) [] refl

-- Postgres as the active work items of each component, without any Redis session.
abbrev Active : Type 0
Active = Ident → List Ident

abbrev add_first : Active → Ident → List Ident → Active × Result ℕ Ident
add_first w c [] = (λ j. if c == j then 7 ∷ [] else w j, ok 7)
add_first w c (i ∷ is) = (w, err 1)

abbrev postgres_only : Stores
postgres_only = record {
  W = Active;
  Error = ℕ;
  is_conflict_error = λ e. e == 1;
  now = λ w. pos 10;
  hgetall = λ w c. (w, ok none);
  hset = λ w c s. (w, err 2);
  expire = λ w c ttl. (w, ok tt);
  hincrby_count = λ w c. (w, ok tt);
  set_lock = λ w c ttl. (w, ok false);
  del_lock = λ w c. (w, ok tt);
  find_active = λ w c. (w, ok (w c));
  create_work_item = λ w input. add_first w input.component_id (w input.component_id);
  active = λ w c. w c;
  others = λ n w. w;
}

abbrev options : SignalDebouncerOptions
options = record { window_seconds = 10; threshold = 100; lock_ttl_ms = 5000; polls = 2 }

abbrev nothing_active : Active
nothing_active c = []

abbrev one_active : Active
one_active c = 7 ∷ []
