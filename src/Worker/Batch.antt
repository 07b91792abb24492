-- ===== src/Worker/Batch.antt =====
-- What processBatch of backend/src/workers/processBatch.ts counts and tells.
use inveni_ops.Base.{
  ℕ, suc, ◌+◌, ◌≡◌, refl, sym, ◌∙◌, ap, ◌↔◌, inl, inr, Bool, true, ◌&&◌, List, [], ◌∷◌, length,
  keep_if, map, ◌==◌, ==_iff, if◌then◌else◌, Bool-cases, arith, and_parts, ap₂, subst,
}
use inveni_ops.Base.Int.{ℤ}
use inveni_ops.Types.{Ident, Severity, same_severity_iff}
use inveni_ops.Buffer.{IngestionSignal}
use inveni_ops.Worker.{
  DebounceResult, SignalVolumePoint, ProcessBatchDeps, record_signal_volume,
  record_work_items_created, has, zip, count_all, counted, increments, volume_key, volume_point,
  same_key, build_signal_volume_points, documents_of, process_batch, increment_all, batch_effects,
}
use inveni_ops.Worker.Counts.{
  one_if, keep_if-cons, get_count, total, occurrences, total-count_all, get_count-count_all,
}

-- Whether a pair adds to the count of work item `i`.
abbrev adds_to : List Ident → Ident → IngestionSignal × DebounceResult → Bool
adds_to inserted i p = has inserted p.0.signal_id && p.1.work_item_id == i

counted-cons :
    (inserted : List Ident) (p : IngestionSignal × DebounceResult)
    (ps : List (IngestionSignal × DebounceResult)) (i : Ident)
    → occurrences (λ a b. a == b) i (counted inserted (p ∷ ps))
      ≡ one_if (adds_to inserted i p) + occurrences (λ a b. a == b) i (counted inserted ps)
unfolding counted
counted-cons inserted p ps i = elim (Bool-cases (has inserted p.0.signal_id)) [
  | inr absent ↦ rw absent (omega arith)
  | inl there ↦ rw there (keep_if-cons (λ x. x == i) p.1.work_item_id (counted inserted ps))
]

counted-occurrences :
    (inserted : List Ident) (ps : List (IngestionSignal × DebounceResult)) (i : Ident)
    → occurrences (λ a b. a == b) i (counted inserted ps) ≡ length (keep_if (adds_to inserted i) ps)
unfolding counted
counted-occurrences inserted [] i = refl
counted-occurrences inserted (p ∷ ps) i =
    counted-cons inserted p ps i
    ∙ (ap (λ n. one_if (adds_to inserted i p) + n) (counted-occurrences inserted ps i)
        ∙ sym (keep_if-cons (adds_to inserted i) p ps))

counted-length :
    (inserted : List Ident) (ps : List (IngestionSignal × DebounceResult))
    → length (counted inserted ps) ≡ length (keep_if (λ p. has inserted p.0.signal_id) ps)
unfolding counted
counted-length inserted [] = refl
counted-length inserted (p ∷ ps) = elim (Bool-cases (has inserted p.0.signal_id)) [
  | inr absent ↦ rw (keep_if, absent) (counted-length inserted ps)
  | inl there ↦ rw (keep_if, there) (ap suc (counted-length inserted ps))
]

-- The increment of a work item is the number of the batch's signals that were resolved to it and
-- whose id the signal store reports as inserted, and the increments add up to the number of all
-- signals with such an id.
pub increments-counted :
    (inserted : List Ident) (ps : List (IngestionSignal × DebounceResult)) (i : Ident)
    → (get_count (λ a b. a == b) (increments inserted ps) i
        ≡ length (keep_if (λ p. has inserted p.0.signal_id && p.1.work_item_id == i) ps))
      × (total (increments inserted ps) ≡ length (keep_if (λ p. has inserted p.0.signal_id) ps))
unfolding increments
increments-counted inserted ps i = (
  omega (
    arith,
    get_count-count_all (λ a b. a == b) ==_iff [] (counted inserted ps) i,
    counted-occurrences inserted ps i,
  ),
  omega
      (arith, total-count_all (λ a b. a == b) [] (counted inserted ps), counted-length inserted ps),
)

same_key_refl : (a : Ident × Severity) → same_key a a ≡ true
same_key_refl a = rw ((==_iff a.0 a.0).1 refl, (same_severity_iff a.1 a.1).1 refl) refl

same_key_iff : (a b : Ident × Severity) → (same_key a b ≡ true) ↔ (a ≡ b)
same_key_iff a b = (
  λ h.
      let (same_component, same_rank) = and_parts _ _ h in
      let one : a.0 ≡ b.0 = (==_iff a.0 b.0).0 same_component in
      let two : a.1 ≡ b.1 = (same_severity_iff a.1 b.1).0 same_rank in ap₂ (λ x y. (x, y)) one two,
  λ e. subst (λ c. same_key a c ≡ true) e (same_key_refl a),
)

-- The count of a point.
abbrev pub volume_of : List SignalVolumePoint → Ident × Severity → ℕ
volume_of [] k = 0
volume_of (p ∷ ps) k = if same_key (p.component_id, p.severity) k then p.count else volume_of ps k

volume_of-map :
    (now : ℤ) (es : List ((Ident × Severity) × ℕ)) (k : Ident × Severity)
    → volume_of (map (volume_point now) es) k ≡ get_count same_key es k
volume_of-map now [] k = refl
volume_of-map now (e ∷ es) k = ap (λ n. if same_key e.0 k then e.1 else n) (volume_of-map now es k)

occurrences-map :
    (signals : List IngestionSignal) (k : Ident × Severity)
    → occurrences same_key k (map volume_key signals)
      ≡ length (keep_if (λ s. same_key (volume_key s) k) signals)
occurrences-map [] k = refl
occurrences-map (s ∷ ss) k =
    keep_if-cons (λ x. same_key x k) (volume_key s) (map volume_key ss)
    ∙ (ap (λ n. one_if (same_key (volume_key s) k) + n) (occurrences-map ss k)
        ∙ sym (keep_if-cons (λ s. same_key (volume_key s) k) s ss))

-- The volume points of a batch report, for each component and severity, the number of its signals
-- with that component and that severity.
pub build_signal_volume_points-counted :
    (now : ℤ) (signals : List IngestionSignal) (k : Ident × Severity)
    → volume_of (build_signal_volume_points now signals) k
      ≡ length (keep_if (λ s. same_key (volume_key s) k) signals)
unfolding build_signal_volume_points
build_signal_volume_points-counted now signals k =
    volume_of-map now _ k
    ∙ omega (
      arith,
      get_count-count_all same_key same_key_iff [] (map volume_key signals) k,
      occurrences-map signals k,
    )

counted_none : (ps : List (IngestionSignal × DebounceResult)) → counted [] ps ≡ []
unfolding counted
counted_none [] = refl
counted_none (p ∷ ps) = counted_none ps

none_kept : (ss : List IngestionSignal) → keep_if (λ s. has [] s.signal_id) ss ≡ []
none_kept [] = refl
none_kept (s ∷ ss) = none_kept ss

module _ {W : Type 0} (deps : ProcessBatchDeps W) where
  -- A second delivery of a batch whose signals are all stored already counts nothing and tells
  -- nobody: no work item is incremented, no alert, no event and no cache update is made, and both
  -- metrics calls are empty.
  pub process_batch_redelivered :
      (w : W) (s : IngestionSignal) (ss : List IngestionSignal)
      → (deps.insert_many_idempotent
          (deps.resolve_batch w (s ∷ ss)).0
          (documents_of (zip (s ∷ ss) (deps.resolve_batch w (s ∷ ss)).1))).1
        ≡ []
      → process_batch deps w (s ∷ ss) ≡ (
        (deps.insert_many_idempotent
            (deps.resolve_batch w (s ∷ ss)).0
            (documents_of (zip (s ∷ ss) (deps.resolve_batch w (s ∷ ss)).1))).0,
        record_signal_volume [] ∷ record_work_items_created [] ∷ [],
        record { total_signals = length (s ∷ ss); newly_persisted = 0; work_items_touched = 0 },
      )
  unfolding process_batch increment_all batch_effects increments count_all
      build_signal_volume_points
  process_batch_redelivered w s ss none_new =
      rw (none_new, counted_none (zip (s ∷ ss) (deps.resolve_batch w (s ∷ ss)).1), none_kept ss)
        refl
