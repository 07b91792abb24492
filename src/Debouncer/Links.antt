-- ===== src/Debouncer/Links.antt =====
-- resolve of backend/src/services/ingestion/debouncer.ts for a component that has a work item.
use inveni_ops.Base.{◌≡◌}
use inveni_ops.Types.{Ident}
use inveni_ops.Worker.{DebounceResult}
use inveni_ops.Debouncer.{
  Stores, SignalDebouncerOptions, DebounceError, store_error, no_active_after_conflict,
  linked_result, Act,
}
use inveni_ops.Debouncer.Laws.{Lawful, HasActive, CallThrew, Post}

module _ (stores : Stores) (law : Lawful stores) (o : SignalDebouncerOptions) where
  open stores use {
    W, Error, hgetall, hincrby_count, set_lock, del_lock, find_active, active, others,
  }

  -- A link, and an error that a call of Redis, or reading the work items, threw.
  abbrev pub Linked : W → DebounceResult → Type 0
  Linked w r = (i : Ident) × (r ≡ linked_result i)

  abbrev pub Threw : W → DebounceError Error → Type 0
  Threw w (store_error e) = CallThrew stores e
  Threw w (no_active_after_conflict c) = ⊥

  abbrev pub Links : Act stores o DebounceResult → Type 0
  Links = Post stores o Linked Threw

  -- What leaves the component with an active work item.
  abbrev Keeping : {A : Type 0} → Ident → Act stores o A → Type 0
  Keeping c = Post stores o (λ w a. HasActive stores w c) Threw
