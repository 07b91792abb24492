-- ===== src/Debouncer.antt =====
-- backend/src/services/ingestion/debouncer.ts. Redis and Postgres are not this program's code: they
-- are parameters, with the operations that the class calls over one state W of both. Other workers
-- run while this one waits: `others` is what they do at the n-th wait of a call.
pub mod Laws
pub mod FromStore
pub mod Links
use inveni_ops.Base.{
  ℕ, zero, suc, ◌*◌, Bool, true, false, not, List, [], ◌∷◌, Option, none, some, if◌then◌else◌, leb,
}
use inveni_ops.Base.Int.{ℤ, pos, ◌-ℤ◌, ltb_ℤ}
use inveni_ops.Types.{Ident, Severity, ComponentType}
use inveni_ops.Buffer.{IngestionSignal}
use inveni_ops.Worker.{SignalDocument, DebounceResult, signal_to_document}
use inveni_ops.Retry.{Result, ok, err}

pub record CreateWorkItemInput : Type 0 where
  pub component_id : Ident
  pub component_type : ComponentType
  pub severity : Severity
  pub first_signal_at : ℤ
  pub signal_count : ℕ

pub record SignalDebouncerOptions : Type 0 where
  pub window_seconds : ℕ
  pub threshold : ℕ
  pub lock_ttl_ms : ℕ
  -- How many polls of pollForSession start before its deadline.
  pub polls : ℕ

-- The session hash of a component, with its two numbers read.
pub record RawSession : Type 0 where
  pub work_item_id : Ident
  pub count : ℕ
  pub started_at_ms : ℤ

-- Redis, `WorkItemStore` and the clock. Every call may throw, and a write that throws may have been
-- done: what it leaves is its first component in any case.
pub record Stores : Type 1 where
  pub W : Type 0
  pub Error : Type 0
  pub is_conflict_error : Error → Bool
  pub now : W → ℤ
  pub hgetall : W → Ident → W × Result Error (Option RawSession)
  pub hset : W → Ident → RawSession → W × Result Error (Unit {0})
  pub expire : W → Ident → ℕ → W × Result Error (Unit {0})
  pub hincrby_count : W → Ident → W × Result Error (Unit {0})
  -- SET NX PX on the lock, and DEL.
  pub set_lock : W → Ident → ℕ → W × Result Error Bool
  pub del_lock : W → Ident → W × Result Error (Unit {0})
  -- The ids of findActiveByComponentId, oldest first signal first.
  pub find_active : W → Ident → W × Result Error (List Ident)
  pub create_work_item : W → CreateWorkItemInput → W × Result Error Ident
  -- The rows that findActiveByComponentId is to find.
  pub active : W → Ident → List Ident
  pub others : ℕ → W → W

pub data DebounceError (E : Type 0) : Type 0 where
  store_error : E → DebounceError E
  -- Create conflicted, but no active work item was found afterward.
  no_active_after_conflict : Ident → DebounceError E

abbrev pub first : List Ident → Option Ident
first [] = none
first (i ∷ is) = some i

-- The title is left out: nothing reads it back.
abbrev pub to_create_input : IngestionSignal → CreateWorkItemInput
to_create_input s = record {
  component_id = s.component_id;
  component_type = s.component_type;
  severity = s.severity;
  first_signal_at = s.received_at;
  signal_count = 0;
}

abbrev pub created_result : Ident → DebounceResult
created_result i = record { work_item_id = i; created = true }

abbrev pub linked_result : Ident → DebounceResult
linked_result i = record { work_item_id = i; created = false }

module _ (stores : Stores) (o : SignalDebouncerOptions) where
  open stores use {
    W, Error, is_conflict_error, now, hgetall, hset, expire, hincrby_count, set_lock, del_lock,
    find_active, create_work_item, others,
  }

  abbrev pub Act : Type 0 → Type 0
  Act A = W × Result (DebounceError Error) A

  abbrev pub Reply : Type 0
  Reply = Act DebounceResult

  -- What a call throws is thrown on.
  abbrev pub call : {A : Type 0} → W × Result Error A → Act A
  call (w, ok a) = (w, ok a)
  call (w, err e) = (w, err (store_error e))

  infixl 5 ◌>>=◌
  abbrev pub ◌>>=◌ : {A B : Type 0} → Act A → (W → A → Act B) → Act B
  (w, ok a) >>= f = f w a
  (w, err e) >>= f = (w, err e)

  -- A cached session is trusted below the threshold and inside the window.
  abbrev pub trusted : ℤ → Option RawSession → Option Ident
  trusted t none = none
  trusted t (some s) =
      if leb o.threshold s.count
      then none
      else if not (ltb_ℤ (t -ℤ s.started_at_ms) (pos (o.window_seconds * 1000)))
      then none
      else some s.work_item_id

  unfoldable pub read_valid_session : W → Ident → Act (Option Ident)
  read_valid_session w c = call (hgetall w c) >>= λ v raw. (v, ok (trusted (now v) raw))

  unfoldable pub seed_session : W → Ident → Ident → Act (Unit {0})
  seed_session w c i =
      call (hset w c (record { work_item_id = i; count = 0; started_at_ms = now w })) >>= λ v u.
      call (expire v c o.window_seconds)

  abbrev pub bump_session_count : W → Ident → Act (Unit {0})
  bump_session_count w c = call (hincrby_count w c)

  abbrev pub link : DebounceResult → Act (Unit {0}) → Reply
  link r done = done >>= λ v u. (v, ok r)

  -- After a conflict: link to whatever the winner of the race created.
  unfoldable pub link_to_winner : W → Ident → Error → Reply
  link_to_winner w c e =
      if is_conflict_error e
      then (call (find_active (others 1 w) c) >>= λ v found. elim (first found) [
        | none ↦ (v, err (no_active_after_conflict c))
        | some winner ↦ link (linked_result winner) (seed_session v c winner)
      ])
      else (w, err (store_error e))

  -- `catch`, for what the create and the seeding after it throw.
  abbrev pub caught : Ident → Reply → Reply
  caught c (w, ok r) = (w, ok r)
  caught c (w, err (store_error e)) = link_to_winner w c e
  caught c (w, err e) = (w, err e)

  unfoldable pub create_and_seed : W → IngestionSignal → Reply
  create_and_seed w s = call (create_work_item w (to_create_input s)) >>= λ v i.
      link (created_result i) (seed_session v s.component_id i)

  unfoldable pub resolve_from_store : W → IngestionSignal → Reply
  resolve_from_store w s = call (find_active w s.component_id) >>= λ v found. elim (first found) [
    | some existing ↦ link (linked_result existing) (seed_session v s.component_id existing)
    | none ↦ caught s.component_id (create_and_seed (others 0 v) s)
  ]

  -- The loop, for the polls that are left; the others run while it sleeps.
  unfoldable pub poll_for_session : ℕ → W → Ident → Act (Option Ident)
  poll_for_session zero w c = (w, ok none)
  poll_for_session (suc left) w c = read_valid_session w c >>= λ v session. elim session [
    | some i ↦ (v, ok (some i))
    | none ↦ poll_for_session left (others (suc left) v) c
  ]

  -- `finally`: the lock goes whether or not the resolution threw, and what DEL throws is thrown.
  abbrev pub finally : Result (DebounceError Error) DebounceResult → Act (Unit {0}) → Reply
  finally r (w, ok u) = (w, r)
  finally r (w, err e) = (w, err e)

  abbrev pub release : Ident → Reply → Reply
  release c (w, r) = finally r (call (del_lock w c))

  -- What losing the lock comes to.
  unfoldable pub wait_for_winner : W → IngestionSignal → Reply
  wait_for_winner w s = poll_for_session o.polls w s.component_id >>= λ v waited. elim waited [
    | some i ↦ link (linked_result i) (bump_session_count v s.component_id)
    | none ↦ resolve_from_store v s
  ]

  unfoldable pub resolve_via_lock : W → IngestionSignal → Reply
  resolve_via_lock w s = call (set_lock w s.component_id o.lock_ttl_ms) >>= λ v acquired.
      if acquired then release s.component_id (resolve_from_store v s) else wait_for_winner v s

  unfoldable pub resolve : W → IngestionSignal → Reply
  resolve w s = read_valid_session w s.component_id >>= λ v cached. elim cached [
    | some i ↦ link (linked_result i) (bump_session_count v s.component_id)
    | none ↦ resolve_via_lock v s
  ]

  unfoldable pub resolve_batch : W → List IngestionSignal → Act (List DebounceResult)
  resolve_batch w [] = (w, ok [])
  resolve_batch w (s ∷ ss) = resolve w s >>= λ v r. resolve_batch v ss >>= λ u rs. (u, ok (r ∷ rs))
