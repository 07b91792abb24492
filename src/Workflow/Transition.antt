-- ===== src/Workflow/Transition.antt =====
-- transitionWorkItem of backend/src/services/workitems/workflowService.ts.
use inveni_ops.Base.{
  ℕ, ◌≡◌, refl, sym, ◌∙◌, ap, ◌≢◌, inl, inr, Bool, true, false, List, [], ◌∷◌, Option, some, none,
  Option-cases, arith, Bool-cases,
}
use mathlib.Core.Bool.{false≢true}
use inveni_ops.Base.Int.{ℤ, ◌-ℤ◌, pos_part}
use inveni_ops.Types.{Ident, WorkItemStateName, opened, investigating, resolved, closed}
use inveni_ops.State.Lifecycle.{Step, investigate, resolve, close, transition-Step_or_invalid}
use inveni_ops.Rca.{no_object, rca_close_guard}
use inveni_ops.Retry.{Result, RetryError, thrown}
use inveni_ops.Postgres.{PgError, PrismaError, prisma}
use inveni_ops.Postgres.Tried.{Raised}
use inveni_ops.WorkItems.{Database, Lawful, WorkItem}
use inveni_ops.WorkItems.Reading.{find_by_id-Read}
use inveni_ops.WorkItems.Transitions.{
  Applied, moved_item, TransitionTried, TransitionEnded, applied, overtaken, broken,
  transition_state-TransitionEnded,
}
use inveni_ops.WorkItems.Closing.{ClosedHasRca, Applied-ClosedHasRca, Transition-kept}
use inveni_ops.Workflow.{
  Effect, upsert_active_incident, dispatch, record_state_transition,
  publish_work_item_state_changed, store_error, cache_error, CallFaults, TransitionOutcome,
  not_found, illegal_transition, conflict, transitioned, transition_thrown, transition_input,
  request, finish_transition, transition_work_item,
}

-- The part of the life cycle that needs no RCA.
abbrev pub OpenStep : WorkItemStateName → WorkItemStateName → Type 0
OpenStep s t = Step false s t

OpenStep-closed : {s t : WorkItemStateName} → OpenStep s t → t ≢ closed
OpenStep-closed investigate e = ground arith
OpenStep-closed resolve e = ground arith
OpenStep-closed (close h) e = false≢true h

-- Only the entry to RESOLVED sets its date.
abbrev resolved_date : WorkItemStateName → ℤ → Option ℤ → Option ℤ
resolved_date resolved now old = some now
resolved_date _ now old = old

-- The row `v` after a move to `to_state`: these three fields and no other.
abbrev pub moved_on : WorkItemStateName → ℤ → ℤ → WorkItem → WorkItem
moved_on to_state now stamp v = record v {
  state = to_state;
  resolved_at = resolved_date to_state now v.resolved_at;
  updated_at = stamp;
}

moved_item-moved_on :
    (w : WorkItem) (i : Ident) (to_state : WorkItemStateName) (actor : Ident) (now stamp : ℤ)
    (v : WorkItem)
    → moved_item (transition_input w i to_state actor now) stamp v ≡ moved_on to_state now stamp v
moved_item-moved_on w i opened actor now stamp v = refl
moved_item-moved_on w i investigating actor now stamp v = refl
moved_item-moved_on w i resolved actor now stamp v = refl
moved_item-moved_on w i closed actor now stamp v = refl

module _ (d : Database) (law : Lawful d) where
  open d use {Db, item, rca, trail, clock}

  -- `db'` is `db` with the work item moved on from `from` to `to_state`.
  pub record Moved (db : Db) (i : Ident) (from to_state : WorkItemStateName) (actor : Ident)
      (now : ℤ) (v : WorkItem) (db' : Db) : Type 0 where
    pub before : item db i ≡ some v
    pub was_there : v.state ≡ from
    pub after : item db' i ≡ some (moved_on to_state now (clock db) v)
    pub others : (j : Ident) → i ≢ j → item db' j ≡ item db j
    pub rca_kept : (j : Ident) → rca db' j ≡ rca db j
    pub audited :
        trail db'
        ≡ (record { work_item_id = i; from_state = from; to_state = to_state; actor = actor })
          ∷ trail db

  abbrev pub InState : Db → Ident → WorkItemStateName → Type 0
  InState db i s = (v : WorkItem) × (item db i ≡ some v) × (v.state ≡ s)

  Applied-Moved :
      (db : Db) (w : WorkItem) (i : Ident) (to_state : WorkItemStateName) (actor : Ident) (now : ℤ)
      (v : WorkItem) (db' : Db)
      → Applied d law db (transition_input w i to_state actor now) v db'
      → Moved db i w.state to_state actor now v db'
  Applied-Moved db w i to_state actor now v db' step = record {
    before = step.before;
    was_there = step.matched;
    after = step.after ∙ ap some (moved_item-moved_on w i to_state actor now (clock db) v);
    others = step.others;
    rca_kept = step.rca_kept;
    audited = step.audited;
  }

  Moved-Applied :
      (db : Db) (w : WorkItem) (i : Ident) (to_state : WorkItemStateName) (actor : Ident) (now : ℤ)
      (v : WorkItem) (db' : Db)
      → Moved db i w.state to_state actor now v db'
      → Applied d law db (transition_input w i to_state actor now) v db'
  Moved-Applied db w i to_state actor now v db' step = record {
    before = step.before;
    matched = step.was_there;
    after = step.after ∙ ap some (sym (moved_item-moved_on w i to_state actor now (clock db) v));
    others = step.others;
    rca_kept = step.rca_kept;
    audited = step.audited;
  }

module _ (d : Database) (law : Lawful d) (cache_up : Bool) (others : ℕ → d.Db → d.Db)
    (faults : CallFaults) where
  open d use {Db, item, clock}

  -- What the cache, the alerts, the metrics and the feed are told, in this order.
  abbrev pub told : WorkItem → WorkItem → WorkItemStateName → ℤ → List Effect
  told w u to_state now =
      upsert_active_incident u
      ∷ dispatch u to_state
      ∷ record_state_transition (record {
        ts = now;
        from_state = w.state;
        to_state = to_state;
        time_in_state_ms = pos_part (now -ℤ w.updated_at);
      })
      ∷ publish_work_item_state_changed u w.state to_state
      ∷ []

  -- The database that the last try of the write finds.
  abbrev pub Later : Db → WorkItem → Ident → WorkItemStateName → Ident → ℤ → Db → Type 0
  Later db w i to_state actor now =
      TransitionTried d law others (transition_input w i to_state actor now) db

  -- The seven ways in which a request for `to_state` can end, each with the database that it leaves,
  -- the calls that it made and its answer. `db` is read; `between` is what the write begins with.
  pub data Transitioned (db between : Db) (i : Ident) (to_state : WorkItemStateName) (actor : Ident)
      (now : ℤ) : Db × List Effect × TransitionOutcome → Type 0 where
    unread :
        (e : PrismaError)
        → Raised faults.reading e
        → Transitioned db between i to_state actor now
            (db, [], transition_thrown (store_error (thrown (prisma e))))
    unknown_item :
        item db i ≡ none → Transitioned db between i to_state actor now (db, [], not_found)
    illegal :
        (w : WorkItem)
        → item db i ≡ some w
        → ¬ OpenStep w.state to_state
        → Transitioned db between i to_state actor now (db, [], illegal_transition w.state to_state)
    beaten :
        (w : WorkItem) (later : Db)
        → item db i ≡ some w
        → OpenStep w.state to_state
        → Later between w i to_state actor now later
        → ¬ InState d law later i w.state
        → Transitioned db between i to_state actor now (later, [], conflict)
    unwritten :
        (w : WorkItem) (later : Db) (e : PrismaError)
        → item db i ≡ some w
        → OpenStep w.state to_state
        → Later between w i to_state actor now later
        → Raised faults.writing e
        → Transitioned db between i to_state actor now
            (later, [], transition_thrown (store_error (thrown (prisma e))))
    written :
        (w : WorkItem) (later : Db) (v : WorkItem) (db' : Db)
        → item db i ≡ some w
        → OpenStep w.state to_state
        → Later between w i to_state actor now later
        → Moved d law later i w.state to_state actor now v db'
        → cache_up ≡ true
        → Transitioned db between i to_state actor now (
          db',
          told w (moved_on to_state now (clock later) v) to_state now,
          transitioned (moved_on to_state now (clock later) v),
        )
    unreported :
        (w : WorkItem) (later : Db) (v : WorkItem) (db' : Db)
        → item db i ≡ some w
        → OpenStep w.state to_state
        → Later between w i to_state actor now later
        → Moved d law later i w.state to_state actor now v db'
        → cache_up ≡ false
        → Transitioned db between i to_state actor now (db', [], transition_thrown cache_error)

  finish_transition-Transitioned :
      (db between : Db) (i : Ident) (to_state : WorkItemStateName) (actor : Ident) (now : ℤ)
      (w : WorkItem)
      → item db i ≡ some w
      → OpenStep w.state to_state
      → (r : Db × Result (RetryError PgError) WorkItem)
      → TransitionEnded d law others faults.writing between
          (transition_input w i to_state actor now)
          r
      → Transitioned db between i to_state actor now
          (finish_transition d cache_up others faults w to_state now r)
  unfolding finish_transition
  finish_transition-Transitioned db between i to_state actor now w found step _
        (applied later v db' so_far change) =
      let same = moved_item-moved_on w i to_state actor now (clock later) v in
      let moved = Applied-Moved d law later w i to_state actor now v db' change in
      elim (Bool-cases cache_up) [
        | inl up ↦ rw (same, up) (written w later v db' found step so_far moved refl)
        | inr down ↦ rw (same, down) (unreported w later v db' found step so_far moved refl)
      ]
  finish_transition-Transitioned db between i to_state actor now w found step _
        (overtaken later so_far miss) =
      beaten w later found step so_far miss
  finish_transition-Transitioned db between i to_state actor now w found step _
        (broken later e so_far raised) =
      unwritten w later e found step so_far raised

  pub transition_work_item-Transitioned :
      (db : Db) (between : Db → Db) (i : Ident) (to_state : WorkItemStateName) (actor : Ident)
      (now : ℤ)
      → Transitioned db
          (between db)
          i
          to_state
          actor
          now
          (transition_work_item d cache_up others faults db between i to_state actor now)
  unfolding transition_work_item rca_close_guard
  transition_work_item-Transitioned db between i to_state actor now =
      elim (find_by_id-Read d faults.reading db i) [
        | inr (e, raised, answer) ↦ rw (transition_work_item, answer) (unread e raised)
        | inl answer ↦ elim (Option-cases (item db i)) [
          | inl missing ↦ rw (transition_work_item, answer, missing) (unknown_item missing)
          | inr (w, found) ↦
              elim (transition-Step_or_invalid (rca_close_guard now) w.state
                (request w to_state no_object)) [
                  | inr (no_step, refused) ↦
                      rw (transition_work_item, answer, found, refused) (illegal w found no_step)
                  | inl (step, allowed) ↦
                      rw (transition_work_item, answer, found, allowed)
                        (finish_transition-Transitioned db (between db) i to_state actor now w found
                          step _
                          (transition_state-TransitionEnded d law others faults.writing (between db)
                            (transition_input w i to_state actor now)))
                ]
        ]
      ]

  module _
      (fair : (n : ℕ) (db : Db) → ClosedHasRca d law db → ClosedHasRca d law (others n db)) where
    Later-ClosedHasRca :
        (between later : Db) (w : WorkItem) (i : Ident) (t : WorkItemStateName) (actor : Ident)
        (now : ℤ)
        → OpenStep w.state t
        → Later between w i t actor now later
        → ClosedHasRca d law between
        → ClosedHasRca d law later
    Later-ClosedHasRca between later w i t actor now step =
        Transition-kept d law others fair between (transition_input w i t actor now) later
          (OpenStep-closed step)

    Moved-ClosedHasRca :
        (later : Db) (w : WorkItem) (i : Ident) (t : WorkItemStateName) (actor : Ident) (now : ℤ)
        (v : WorkItem) (db' : Db)
        → OpenStep w.state t
        → Moved d law later i w.state t actor now v db'
        → ClosedHasRca d law later
        → ClosedHasRca d law db'
    Moved-ClosedHasRca later w i t actor now v db' step moved =
        Applied-ClosedHasRca d law later (transition_input w i t actor now) v db'
          (OpenStep-closed step) (Moved-Applied d law later w i t actor now v db' moved)

    Transitioned-ClosedHasRca :
        (db between : Db) (i : Ident) (to_state : WorkItemStateName) (actor : Ident) (now : ℤ)
        (reply : Db × List Effect × TransitionOutcome)
        → Transitioned db between i to_state actor now reply
        → ClosedHasRca d law db
        → ClosedHasRca d law between
        → ClosedHasRca d law reply.0
    Transitioned-ClosedHasRca db b i t a now _ (unread e raised) inv inv' = inv
    Transitioned-ClosedHasRca db b i t a now _ (unknown_item missing) inv inv' = inv
    Transitioned-ClosedHasRca db b i t a now _ (illegal w found no_step) inv inv' = inv
    Transitioned-ClosedHasRca db b i t a now _ (beaten w later found step so_far lost) inv inv' =
        Later-ClosedHasRca b later w i t a now step so_far inv'
    Transitioned-ClosedHasRca db b i t a now _ (unwritten w later e found step so_far r) inv inv' =
        Later-ClosedHasRca b later w i t a now step so_far inv'
    Transitioned-ClosedHasRca db b i t a now _ (written w later v db' found step so_far moved up)
          inv inv' =
        Moved-ClosedHasRca later w i t a now v db' step moved
          (Later-ClosedHasRca b later w i t a now step so_far inv')
    Transitioned-ClosedHasRca db b i t a now _
          (unreported w later v db' found step so_far moved down) inv inv' =
        Moved-ClosedHasRca later w i t a now v db' step moved
          (Later-ClosedHasRca b later w i t a now step so_far inv')

    -- If every closed work item has an RCA, in the database that is read and in the one that the
    -- other writers leave before the write, and other writers keep it so between the tries, then it
    -- is so after transitionWorkItem, whatever state it is asked for and whatever becomes of its
    -- tries: CLOSED cannot be reached without an RCA.
    pub transition_work_item-ClosedHasRca :
        (db : Db) (between : Db → Db) (i : Ident) (to_state : WorkItemStateName) (actor : Ident)
        (now : ℤ)
        → ClosedHasRca d law db
        → ClosedHasRca d law (between db)
        → ClosedHasRca d law
            (transition_work_item d cache_up others faults db between i to_state actor now).0
    transition_work_item-ClosedHasRca db between i to_state actor now inv inv' =
        Transitioned-ClosedHasRca db (between db) i to_state actor now _
          (transition_work_item-Transitioned db between i to_state actor now) inv inv'
