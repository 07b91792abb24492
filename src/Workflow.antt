-- ===== src/Workflow.antt =====
-- backend/src/services/workitems/workflowService.ts: the two operations on a work item. The read at
-- the start and the guarded write are two accesses to the database: `between` is what other
-- writers do in between. What the operation then tells the cache, the alert dispatcher, the metrics
-- and the live feed is a list of effects, in order; `cache_up` says whether the cache accepts the
-- update, which is the only one of these calls that may throw.
pub mod Transition
pub mod Guarded
pub mod Submission
use inveni_ops.Base.{ℕ, ◌*◌, Bool, true, false, List, [], ◌∷◌, Option, none, some, if◌then◌else◌}
use inveni_ops.Base.Int.{ℤ, pos, ◌-ℤ◌, pos_part}
use inveni_ops.Types.{Ident, Severity, ComponentType, WorkItemStateName, closed, resolved}
use inveni_ops.Text.{Text}
use inveni_ops.State.{
  WorkItemSnapshot, TransitionContext, moved, invalid_transition, transition, graph,
}
use inveni_ops.Rca.{
  JsValue, string, date, RcaRecord, RcaFieldError, RcaValidationResult, valid, invalid,
  RcaValidationContext, validate_rca, Payload, no_object, object, rca_close_guard, MttrResult,
  mttr_seconds, clock_skew, calculate_mttr,
}
use inveni_ops.Rca.Candidate.{RawInput, to_rca_candidate}
use inveni_ops.Retry.{Result, ok, err, RetryError, thrown}
use inveni_ops.Postgres.{PgError, optimistic_concurrency, Fault}
use inveni_ops.WorkItems.{
  Database, WorkItem, RcaRow, TransitionStateInput, SubmitRcaInput, transition_state, submit_rca,
  find_by_id,
}

pub record StateTransitionPoint : Type 0 where
  pub ts : ℤ
  pub from_state : WorkItemStateName
  pub to_state : WorkItemStateName
  pub time_in_state_ms : ℕ

pub record MttrPoint : Type 0 where
  pub ts : ℤ
  pub component_type : ComponentType
  pub severity : Severity
  pub component_id : Ident
  pub mttr_ms : ℕ

-- Calls of WorkflowCache, WorkflowAlertDispatcher, WorkflowMetricsWriter, WorkflowEventPublisher.
pub data Effect : Type 0 where
  upsert_active_incident : WorkItem → Effect
  remove_incident : Ident → Effect
  dispatch : WorkItem → WorkItemStateName → Effect
  record_state_transition : StateTransitionPoint → Effect
  record_mttr : MttrPoint → Effect
  publish_work_item_state_changed : WorkItem → WorkItemStateName → WorkItemStateName → Effect

-- What the service lets through as an exception.
pub data ServiceError : Type 0 where
  store_error : RetryError PgError → ServiceError
  cache_error : ServiceError
  mttr_error : ServiceError

pub data TransitionOutcome : Type 0 where
  not_found : TransitionOutcome
  illegal_transition : WorkItemStateName → WorkItemStateName → TransitionOutcome
  conflict : TransitionOutcome
  transitioned : WorkItem → TransitionOutcome
  transition_thrown : ServiceError → TransitionOutcome

pub data RcaSubmissionOutcome : Type 0 where
  rca_not_found : RcaSubmissionOutcome
  invalid_rca : List RcaFieldError → RcaSubmissionOutcome
  invalid_state : RcaSubmissionOutcome
  incident_closed : WorkItem → ℕ → RcaSubmissionOutcome
  rca_thrown : ServiceError → RcaSubmissionOutcome

abbrev pub to_snapshot : WorkItem → WorkItemSnapshot
to_snapshot w = record { id = w.id; state = w.state; first_signal_at = w.first_signal_at }

-- What `currentState.transition` is called with.
abbrev pub request : WorkItem → WorkItemStateName → Payload → TransitionContext Payload
request w to_state payload = record { work_item = to_snapshot w; to = to_state; payload = payload }

abbrev only_on_resolved : WorkItemStateName → ℤ → Option ℤ
only_on_resolved resolved now = some now
only_on_resolved _ now = none

abbrev pub transition_input :
    WorkItem → Ident → WorkItemStateName → Ident → ℤ → TransitionStateInput
transition_input w i to_state actor now = record {
  work_item_id = i;
  from_state = w.state;
  to_state = to_state;
  actor = actor;
  resolved_at = only_on_resolved to_state now;
  closed_at = none;
}

-- Math.max(0, now.getTime() - workItem.updatedAt.getTime())
abbrev pub transition_point : WorkItem → WorkItemStateName → ℤ → StateTransitionPoint
transition_point w to_state now = record {
  ts = now;
  from_state = w.state;
  to_state = to_state;
  time_in_state_ms = pos_part (now -ℤ w.updated_at);
}

-- `rcaCandidate.incidentStartTime!` and the like, at the values that pass the validation.
abbrev pub time_of : JsValue → ℤ
time_of (date (some t)) = t
time_of _ = pos 0

abbrev pub text_of : JsValue → Text
text_of (string s) = s
text_of _ = []

abbrev pub rca_input : RcaRecord → Ident → Ident → ℕ → ℤ → SubmitRcaInput
rca_input c i actor seconds now = record {
  work_item_id = i;
  actor = actor;
  mttr_seconds = seconds;
  now = now;
  rca = record {
    incident_start_time = time_of c.incident_start_time;
    incident_end_time = time_of c.incident_end_time;
    root_cause_category = text_of c.root_cause_category;
    root_cause_description = text_of c.root_cause_description;
    fix_applied = text_of c.fix_applied;
    prevention_steps = text_of c.prevention_steps;
  };
}

abbrev pub validation_context : WorkItem → ℤ → RcaValidationContext
validation_context w now = record { first_signal_at = w.first_signal_at; now = now }

-- The calls after a committed transition, and after a committed closing.
abbrev pub transition_effects : WorkItem → WorkItem → WorkItemStateName → ℤ → List Effect
transition_effects w updated to_state now =
    upsert_active_incident updated
    ∷ dispatch updated to_state
    ∷ record_state_transition (transition_point w to_state now)
    ∷ publish_work_item_state_changed updated w.state to_state
    ∷ []

abbrev pub mttr_point : WorkItem → ℕ → ℤ → MttrPoint
mttr_point w seconds now = record {
  ts = now;
  component_type = w.component_type;
  severity = w.severity;
  component_id = w.component_id;
  mttr_ms = seconds * 1000;
}

abbrev pub closing_effects : WorkItem → WorkItem → Ident → ℕ → ℤ → List Effect
closing_effects w closed_item i seconds now =
    remove_incident i
    ∷ dispatch closed_item closed
    ∷ record_state_transition (transition_point w closed now)
    ∷ record_mttr (mttr_point closed_item seconds now)
    ∷ publish_work_item_state_changed closed_item w.state closed
    ∷ []

-- What happens to the tries of the read and of the write.
pub record CallFaults : Type 0 where
  pub reading : List Fault
  pub writing : List Fault

module _ (d : Database) (cache_up : Bool) (others : ℕ → d.Db → d.Db) (faults : CallFaults) where
  open d use {Db}

  abbrev pub Reply : Type 0 → Type 0
  Reply A = Db × List Effect × A

  unfoldable pub finish_transition :
      WorkItem
      → WorkItemStateName
      → ℤ
      → Db × Result (RetryError PgError) WorkItem
      → Reply TransitionOutcome
  finish_transition w to_state now (db, ok updated) =
      if cache_up
      then (db, transition_effects w updated to_state now, transitioned updated)
      else (db, [], transition_thrown cache_error)
  finish_transition w to_state now (db, err (thrown (optimistic_concurrency i s))) =
      (db, [], conflict)
  finish_transition w to_state now (db, err e) = (db, [], transition_thrown (store_error e))

  unfoldable pub transition_work_item :
      Db → (Db → Db) → Ident → WorkItemStateName → Ident → ℤ → Reply TransitionOutcome
  unfolding finish_transition
  transition_work_item db between i to_state actor now = elim (find_by_id d faults.reading db i) [
    | err e ↦ (db, [], transition_thrown (store_error e))
    | ok none ↦ (db, [], not_found)
    | ok (some w) ↦
        elim (transition (graph (rca_close_guard now) w.state) (request w to_state no_object)) [
          | invalid_transition from to ↦ (db, [], illegal_transition from to)
          | moved target ↦ finish_transition w to_state now (
              transition_state d others faults.writing (between db)
                (transition_input w i to_state actor now))
        ]
  ]

  unfoldable pub finish_submission :
      WorkItem
      → Ident
      → ℕ
      → ℤ
      → Db × Result (RetryError PgError) WorkItem
      → Reply RcaSubmissionOutcome
  finish_submission w i seconds now (db, ok closed_item) =
      if cache_up
      then (db, closing_effects w closed_item i seconds now, incident_closed closed_item seconds)
      else (db, [], rca_thrown cache_error)
  finish_submission w i seconds now (db, err (thrown (optimistic_concurrency j s))) =
      (db, [], invalid_state)
  finish_submission w i seconds now (db, err e) = (db, [], rca_thrown (store_error e))

  -- What the guard's refusal is reported as.
  abbrev pub rejection : RcaValidationResult → RcaSubmissionOutcome
  rejection (invalid errors) = invalid_rca errors
  rejection valid = invalid_state

  -- From the MTTR on, once the transition is known to be legal.
  unfoldable pub close_incident :
      Db → Db → WorkItem → RcaRecord → Ident → Ident → ℤ → MttrResult → Reply RcaSubmissionOutcome
  unfolding finish_submission
  close_incident db later w candidate i actor now clock_skew = (db, [], rca_thrown mttr_error)
  close_incident db later w candidate i actor now (mttr_seconds seconds) =
      finish_submission w i seconds now
        (submit_rca d others faults.writing later (rca_input candidate i actor seconds now))

  unfoldable pub submit_incident_rca :
      (Text → Option ℤ) → Db → (Db → Db) → Ident → RawInput → Ident → ℤ → Reply RcaSubmissionOutcome
  unfolding close_incident
  submit_incident_rca new_date db between i raw actor now =
      elim (find_by_id d faults.reading db i) [
        | err e ↦ (db, [], rca_thrown (store_error e))
        | ok none ↦ (db, [], rca_not_found)
        | ok (some w) ↦
            let candidate = to_rca_candidate new_date raw in
            let validation = validate_rca candidate (validation_context w now) in
            elim (transition (graph (rca_close_guard now) w.state)
              (request w closed (object candidate))) [
                | invalid_transition from to ↦ (db, [], rejection validation)
                | moved target ↦
                    close_incident db (between db) w candidate i actor now
                      (calculate_mttr w.first_signal_at now)
              ]
      ]
