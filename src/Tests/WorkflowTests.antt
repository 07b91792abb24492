-- ===== src/Tests/WorkflowTests.antt =====
-- The repository and the workflow service on a database in memory with one work item.
use mathlib.Core.Option.{some-injective, none-ne-some}
use inveni_ops.Base.{
  ◌≡◌, sym, ap, ℕ, Bool, true, false, List, [], ◌∷◌, Option, none, some, ◌==◌, arith,
}
use inveni_ops.Base.Int.{ℤ, pos}
use inveni_ops.Types.{investigating, resolved, p1, cache}
use inveni_ops.Text.{Text, units}
use inveni_ops.Rca.{string, number}
use inveni_ops.Rca.Candidate.{RawInput, fields, to_rca_candidate}
use inveni_ops.Postgres.{Fault, lost, known_request_error}
use inveni_ops.WorkItems.{WorkItem, TransitionStateInput, SubmitRcaInput}
use inveni_ops.WorkItems.Closing.{ClosedHasRca}
use inveni_ops.WorkItems.Memory.{Tables, memory, memory-Lawful}
use inveni_ops.Workflow.{CallFaults, transition_work_item, submit_incident_rca, rca_input}
use inveni_ops.Workflow.Transition.{transition_work_item-ClosedHasRca}
use inveni_ops.Workflow.Submission.{submit_incident_rca-ClosedHasRca}

abbrev incident : WorkItem
incident = record {
  id = 7;
  component_id = 30;
  component_type = cache;
  severity = p1;
  state = resolved;
  title = 9;
  first_signal_at = pos 100;
  resolved_at = some (pos 800);
  closed_at = none;
  signal_count = 4;
  created_at = pos 100;
  updated_at = pos 800;
}

abbrev incident_at : Bool → Option WorkItem
incident_at true = some incident
incident_at false = none

abbrev tables : Tables
tables = record { items = λ i. incident_at (i == 7); rcas = λ i. none; trail = [] }

abbrev raw_rca : RawInput
raw_rca = fields (record {
  incident_start_time = number (pos 200);
  incident_end_time = number (pos 500);
  root_cause_category = string (units "NETWORK");
  root_cause_description = string (units "A switch failed");
  fix_applied = string (units "Replaced the switch");
  prevention_steps = string (units "Monitor the switches");
})

abbrev no_dates : Text → Option ℤ
no_dates s = none

abbrev reopening : TransitionStateInput
reopening = record {
  work_item_id = 7;
  from_state = resolved;
  to_state = investigating;
  actor = 5;
  resolved_at = none;
  closed_at = none;
}

abbrev submission : SubmitRcaInput
submission = rca_input (to_rca_candidate no_dates raw_rca) 7 5 1 (pos 900)

-- The first try's answer is lost, the second is answered.
abbrev blips : List Fault
blips = lost (known_request_error (units "P1017")) ∷ []

abbrev calls : CallFaults
calls = record { reading = []; writing = blips }

abbrev nobody : ℕ → Tables → Tables
nobody n t = t

state_of_incident : (b : Bool) (w : WorkItem) → incident_at b ≡ some w → w.state ≡ resolved
state_of_incident true w found = ap (λ u. u.state) (sym (some-injective incident w found))
state_of_incident false w found = absurd (none-ne-some w found)

tables-ClosedHasRca : ClosedHasRca memory memory-Lawful tables
unfolding ClosedHasRca
tables-ClosedHasRca i w found is_closed =
    absurd (ground (arith, state_of_incident (i == 7) w found))

transition_work_item-ClosedHasRca_example :
    ClosedHasRca memory memory-Lawful
      (transition_work_item memory true nobody calls tables
        (λ db. db)
        7
        investigating
        5
        (pos 900)).0
transition_work_item-ClosedHasRca_example =
    transition_work_item-ClosedHasRca memory memory-Lawful true nobody calls (λ n t inv. inv) tables
      (λ db. db) 7 investigating 5 (pos 900) tables-ClosedHasRca tables-ClosedHasRca

submit_incident_rca-ClosedHasRca_example :
    ClosedHasRca memory memory-Lawful
      (submit_incident_rca memory true nobody calls no_dates tables
        (λ db. db)
        7
        raw_rca
        5
        (pos 900)).0
submit_incident_rca-ClosedHasRca_example =
    submit_incident_rca-ClosedHasRca memory memory-Lawful true nobody calls (λ n t inv. inv)
      no_dates tables (λ db. db) 7 raw_rca 5 (pos 900) tables-ClosedHasRca tables-ClosedHasRca
