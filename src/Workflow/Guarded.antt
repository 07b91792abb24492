-- ===== src/Workflow/Guarded.antt =====
-- What a candidate that passes the guard of submitIncidentRca
-- (backend/src/services/workitems/workflowService.ts) is known to hold.
use inveni_ops.Base.{ℕ, ◌≡◌, refl, ◌⊎◌, inl, inr, Bool, true, List, some, arith}
use mathlib.Core.Bool.{false≢true}
use inveni_ops.Base.Int.{ℤ}
use inveni_ops.Types.{Ident, WorkItemStateName, closed, resolved}
use inveni_ops.State.Lifecycle.{Step, close}
use inveni_ops.Rca.{
  string, date, RcaRecord, RcaFieldError, RcaValidationContext, object, valid, invalid,
  validate_rca, is_valid, rca_close_guard, calculate_mttr, mttr_seconds, RcaValidationResult,
}
use inveni_ops.Rca.Laws.{IsComplete}
use inveni_ops.Rca.Mttr.{calculate_mttr_nearest}
use inveni_ops.WorkItems.{WorkItem, RcaRow}
use inveni_ops.WorkItems.Closing.{submitted_row}
use inveni_ops.Workflow.{rca_input, validation_context, request}

-- The row holds what the candidate says, field by field.
pub record Records (c : RcaRecord) (r : RcaRow) : Type 0 where
  pub start : c.incident_start_time ≡ date (some r.incident_start_time)
  pub end : c.incident_end_time ≡ date (some r.incident_end_time)
  pub category : c.root_cause_category ≡ string r.root_cause_category
  pub description : c.root_cause_description ≡ string r.root_cause_description
  pub fix : c.fix_applied ≡ string r.fix_applied
  pub prevention : c.prevention_steps ≡ string r.prevention_steps

pub valid_cases :
    (v : RcaValidationResult) → (v ≡ valid) ⊎ ((es : List RcaFieldError) × (v ≡ invalid es))
valid_cases valid = inl refl
valid_cases (invalid es) = inr (es, refl)

pub valid-invalid : (es : List RcaFieldError) → ¬ Path RcaValidationResult valid (invalid es)
valid-invalid es h = cc

is_valid_sound : (v : RcaValidationResult) → is_valid v ≡ true → v ≡ valid
is_valid_sound valid h = refl
is_valid_sound (invalid es) h = absurd (false≢true h)

pub not_moved : {s : WorkItemStateName} {b : Bool} → Step b s closed → s ≡ resolved
not_moved (close h) = refl

pub guard_passed : {s : WorkItemStateName} {b : Bool} → Step b s closed → b ≡ true
guard_passed (close h) = h

pub IsComplete-Records :
    (c : RcaRecord) (context : RcaValidationContext) (i actor : Ident) (seconds : ℕ) (now : ℤ)
    → IsComplete c context
    → Records c (submitted_row (rca_input c i actor seconds now))
IsComplete-Records c context i actor seconds now whole =
    let (category, is_category, listed) = whole.category in
    let (description, is_description, long) = whole.description in
    let (fix, is_fix, long') = whole.fix in
    let (prevention, is_prevention, long'') = whole.prevention in
    record {
      start = rw whole.start_given refl;
      end = rw whole.end_given refl;
      category = rw is_category refl;
      description = rw is_description refl;
      fix = rw is_fix refl;
      prevention = rw is_prevention refl;
    }

-- A valid candidate leaves no clock skew: the first signal is not after the submission.
pub IsComplete-mttr :
    (c : RcaRecord) (context : RcaValidationContext)
    → IsComplete c context
    → (n : ℕ) × (calculate_mttr context.first_signal_at context.now ≡ mttr_seconds n)
IsComplete-mttr c context whole =
    elim (calculate_mttr_nearest context.first_signal_at context.now) [
      | inl (n, computed, not_early, below, above) ↦ (n, computed)
      | inr (skew, early) ↦
          absurd (omega (arith, early, whole.not_before, whole.ordered, whole.past))
    ]

pub guard-valid :
    (w : WorkItem) (c : RcaRecord) (now : ℤ)
    → rca_close_guard now (request w closed (object c)) ≡ true
    → validate_rca c (validation_context w now) ≡ valid
unfolding rca_close_guard
guard-valid w c now h = is_valid_sound (validate_rca c (validation_context w now)) h

pub valid-guard :
    (w : WorkItem) (c : RcaRecord) (now : ℤ)
    → validate_rca c (validation_context w now) ≡ valid
    → rca_close_guard now (request w closed (object c)) ≡ true
unfolding rca_close_guard
valid-guard w c now h = rw h refl
