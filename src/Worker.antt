-- ===== src/Worker.antt =====
-- backend/src/workers/processBatch.ts: the worker's pipeline for one job. Its collaborators are
-- parameters over a world W that they change; what it then tells the cache, the alerts, the feed and
-- the metrics is a list of effects, in order. A Map is an association list in insertion order.
pub mod Counts
pub mod Batch
use inveni_ops.Base.{
  ℕ, ◌+◌, Bool, true, false, ◌&&◌, List, [], ◌∷◌, ◌++◌, Option, none, some, map, length, keep_if,
  ◌==◌, if◌then◌else◌,
}
use inveni_ops.Base.Int.{ℤ}
use inveni_ops.Types.{Ident, Severity, ComponentType, same_severity}
use inveni_ops.Buffer.{IngestionSignal}
use inveni_ops.WorkItems.{WorkItem}

pub record SignalDocument : Type 0 where
  pub signal_id : Ident
  pub component_id : Ident
  pub component_type : ComponentType
  pub severity : Severity
  pub raw_payload : Ident
  pub occurred_at : ℤ
  pub received_at : ℤ
  pub work_item_id : Option Ident

pub record DebounceResult : Type 0 where
  pub work_item_id : Ident
  pub created : Bool

pub record SignalVolumePoint : Type 0 where
  pub ts : ℤ
  pub component_id : Ident
  pub severity : Severity
  pub count : ℕ

pub record WorkItemCreatedPoint : Type 0 where
  pub ts : ℤ
  pub component_type : ComponentType
  pub severity : Severity

pub record ProcessBatchResult : Type 0 where
  pub total_signals : ℕ
  pub newly_persisted : ℕ
  pub work_items_touched : ℕ

pub data BatchEffect : Type 0 where
  upsert_active_incident : WorkItem → BatchEffect
  dispatch_created : WorkItem → BatchEffect
  publish_work_item_created : WorkItem → BatchEffect
  record_signal_volume : List SignalVolumePoint → BatchEffect
  record_work_items_created : List WorkItemCreatedPoint → BatchEffect

unfoldable pub signal_to_document : IngestionSignal → Option Ident → SignalDocument
signal_to_document s work_item_id = record {
  signal_id = s.signal_id;
  component_id = s.component_id;
  component_type = s.component_type;
  severity = s.severity;
  raw_payload = s.raw_payload;
  occurred_at = s.occurred_at;
  received_at = s.received_at;
  work_item_id = work_item_id;
}

-- `has` of a Set.
abbrev pub has : List Ident → Ident → Bool
has [] i = false
has (x ∷ xs) i = if x == i then true else has xs i

-- `new Set(ids)`, in insertion order.
abbrev pub set_of : List Ident → List Ident
set_of [] = []
set_of (x ∷ xs) = x ∷ keep_if (λ y. if x == y then false else true) (set_of xs)

-- counts.set(key, (counts.get(key) ?? 0) + 1), for a test of equality on the keys.
unfoldable pub add_one : {K : Type 0} → (K → K → Bool) → List (K × ℕ) → K → List (K × ℕ)
add_one same [] k = (k, 1) ∷ []
add_one same (e ∷ es) k =
    let rest = add_one same es k in if same e.0 k then (e.0, e.1 + 1) ∷ es else e ∷ rest

unfoldable pub count_all : {K : Type 0} → (K → K → Bool) → List (K × ℕ) → List K → List (K × ℕ)
count_all same acc [] = acc
count_all same acc (k ∷ ks) = count_all same (add_one same acc k) ks

abbrev pub zip :
    List IngestionSignal → List DebounceResult → List (IngestionSignal × DebounceResult)
zip (s ∷ ss) (r ∷ rs) = (s, r) ∷ zip ss rs
zip _ _ = []

-- The work items of the signals that count, one entry per signal.
unfoldable pub counted : List Ident → List (IngestionSignal × DebounceResult) → List Ident
counted inserted [] = []
counted inserted (p ∷ ps) =
    let rest = counted inserted ps in
    if has inserted p.0.signal_id then p.1.work_item_id ∷ rest else rest

unfoldable pub increments : List Ident → List (IngestionSignal × DebounceResult) → List (Ident × ℕ)
increments inserted ps = count_all (λ i j. i == j) [] (counted inserted ps)

-- The key of buildSignalVolumePoints, component and severity.
abbrev pub volume_key : IngestionSignal → Ident × Severity
volume_key s = (s.component_id, s.severity)

abbrev pub same_key : Ident × Severity → Ident × Severity → Bool
same_key a b = a.0 == b.0 && same_severity a.1 b.1

abbrev pub volume_point : ℤ → (Ident × Severity) × ℕ → SignalVolumePoint
volume_point now e = record { ts = now; component_id = e.0.0; severity = e.0.1; count = e.1 }

unfoldable pub build_signal_volume_points : ℤ → List IngestionSignal → List SignalVolumePoint
build_signal_volume_points now signals =
    map (volume_point now) (count_all same_key [] (map volume_key signals))

abbrev pub to_work_item_created_point : WorkItem → WorkItemCreatedPoint
to_work_item_created_point w = record {
  ts = w.created_at;
  component_type = w.component_type;
  severity = w.severity;
}

abbrev pub created_ids : List DebounceResult → List Ident
created_ids [] = []
created_ids (r ∷ rs) = if r.created then r.work_item_id ∷ created_ids rs else created_ids rs

pub record ProcessBatchDeps (W : Type 0) : Type 0 where
  pub resolve_batch : W → List IngestionSignal → W × List DebounceResult
  pub insert_many_idempotent : W → List SignalDocument → W × List Ident
  pub increment_signal_count : W → Ident → ℕ → W × WorkItem
  pub clock : W → ℤ

abbrev pub documents_of : List (IngestionSignal × DebounceResult) → List SignalDocument
documents_of ps = map (λ p. signal_to_document p.0 (some p.1.work_item_id)) ps

module _ {W : Type 0} (deps : ProcessBatchDeps W) where
  -- Promise.all over the entries of the Map.
  unfoldable pub increment_all : W → List (Ident × ℕ) → W × List WorkItem
  increment_all w [] = (w, [])
  increment_all w ((i, by) ∷ es) =
      let (w', item) = deps.increment_signal_count w i by in
      let (w'', items) = increment_all w' es in (w'', item ∷ items)

  -- What is told once the counts are written.
  unfoldable pub batch_effects :
      ℤ → List IngestionSignal → List DebounceResult → List Ident → List WorkItem → List BatchEffect
  batch_effects now signals resolutions inserted updated =
      let created = keep_if (λ w. has (created_ids resolutions) w.id) updated in
      let kept = keep_if (λ s. has inserted s.signal_id) signals in
      map upsert_active_incident updated
      ++ (map dispatch_created created
          ++ (map publish_work_item_created created
              ++ (record_signal_volume (build_signal_volume_points now kept)
                  ∷ record_work_items_created (map to_work_item_created_point created)
                  ∷ [])))

  -- processBatch with all three optional collaborators given.
  unfoldable pub process_batch :
      W → List IngestionSignal → W × List BatchEffect × ProcessBatchResult
  unfolding increment_all batch_effects
  process_batch w [] =
      (w, [], record { total_signals = 0; newly_persisted = 0; work_items_touched = 0 })
  process_batch w (s ∷ ss) =
      let signals = s ∷ ss in
      let (w1, resolutions) = deps.resolve_batch w signals in
      let pairs = zip signals resolutions in
      let (w2, inserted) = deps.insert_many_idempotent w1 (documents_of pairs) in
      let (w3, updated) = increment_all w2 (increments inserted pairs) in
      (
        w3,
        batch_effects (deps.clock w3) signals resolutions inserted updated,
        record {
          total_signals = length signals;
          newly_persisted = length (set_of inserted);
          work_items_touched = length updated;
        },
      )
