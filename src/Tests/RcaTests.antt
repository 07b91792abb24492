-- ===== src/Tests/RcaTests.antt =====
-- backend/src/domain/rca and the form's validation at concrete inputs.
use inveni_ops.Base.{
  ℕ, ◌+◌, ◌*◌, ◌≤◌, ◌<◌, ◌≡◌, ◌≢◌, refl, ap, ◌↔◌, ◌⊎◌, inl, inr, Bool-cases, true, false, [], ◌∷◌,
  Option, none, some, arith, if◌then◌else◌, length,
}
use inveni_ops.Base.Int.{ℤ, pos, negsuc, ◌≤ℤ◌}
use inveni_ops.Text.{Text, units, trim, trim_start, trim_end, is_empty, is_space, includes}
use inveni_ops.Rca.{
  RcaRecord, RcaValidationContext, string, date, valid, validate_rca, mttr_seconds, clock_skew,
  calculate_mttr, root_cause_categories, is_root_cause_category,
}
use inveni_ops.Rca.Laws.{◌<ℤ◌, IsComplete, validate_rca-IsComplete}
use inveni_ops.Rca.Mttr.{calculate_mttr_nearest}
use inveni_ops.Rca.Candidate.{fields, to_rca_candidate}
use inveni_ops.Rca.Form.{RcaFormValues, has_errors, validate_rca_form, request_body}
use inveni_ops.Rca.Form.Agreement.{
  Accepted, validate_rca_form-validate_rca, untrimmed_category_rejected,
}

abbrev context : RcaValidationContext
context = record { first_signal_at = pos 100; now = pos 900 }

abbrev candidate : RcaRecord
candidate = record {
  incident_start_time = date (some (pos 200));
  incident_end_time = date (some (pos 500));
  root_cause_category = string (units "NETWORK");
  root_cause_description = string (units "A switch failed");
  fix_applied = string (units "  Replaced it  ");
  prevention_steps = string (units "Monitor the switches");
}

validate_rca-IsComplete_example :
    (validate_rca candidate context ≡ valid) ↔ IsComplete candidate context
validate_rca-IsComplete_example = validate_rca-IsComplete candidate context

calculate_mttr_nearest_example :
    ((n : ℕ) × (calculate_mttr (pos 1000) (pos 3600) ≡ mttr_seconds n)
      × (pos 1000 ≤ℤ pos 3600)
      × (3600 + 0 < n * 1000 + 500 + (1000 + 0))
      × (n * 1000 + (1000 + 0) ≤ 3600 + 0 + 500))
    ⊎ ((calculate_mttr (pos 1000) (pos 3600) ≡ clock_skew) × (pos 3600 <ℤ pos 1000))
calculate_mttr_nearest_example = calculate_mttr_nearest (pos 1000) (pos 3600)

-- Dates that are written as one code unit, which is their time value.
abbrev one_unit_date : Text → Option ℤ
one_unit_date (c ∷ []) = if is_space c then none else some (pos c)
one_unit_date _ = none

abbrev to_one_unit : ℤ → Text
to_one_unit (pos n) = n ∷ []
to_one_unit (negsuc n) = []

blank_invalid : (s : Text) → is_empty (trim s) ≡ true → one_unit_date s ≡ none
unfolding trim_start trim_end trim
blank_invalid [] h = refl
blank_invalid (c ∷ []) h = elim (Bool-cases (is_space c)) [
  | inl space ↦ rw space refl
  | inr other ↦ absurd (cc (rw other at h))
]
blank_invalid (c ∷ d ∷ s) h = refl

iso_parses : (s : Text) (t : ℤ) → one_unit_date s ≡ some t → one_unit_date (to_one_unit t) ≡ some t
iso_parses [] t e = cc
iso_parses (c ∷ []) (pos n) e = ground arith
iso_parses (c ∷ []) (negsuc n) e = absurd (ground arith)
iso_parses (c ∷ d ∷ s) t e = cc

abbrev filled : Text → RcaFormValues
filled category = record {
  incident_start_time = 200 ∷ [];
  incident_end_time = 500 ∷ [];
  root_cause_category = category;
  root_cause_description = units "A switch failed";
  fix_applied = units "Replaced the switch";
  prevention_steps = units "Monitor the switches";
}

validate_rca_form-validate_rca_example :
    (has_errors (validate_rca_form one_unit_date (filled (units "NETWORK")) context) ≡ false) ↔ (
      (body : RcaRecord) × (request_body one_unit_date to_one_unit (filled (units "NETWORK"))
        ≡ some body)
      × Accepted one_unit_date to_one_unit blank_invalid iso_parses
          (filled (units "NETWORK"))
          context
          body)
validate_rca_form-validate_rca_example =
    validate_rca_form-validate_rca one_unit_date to_one_unit blank_invalid iso_parses
      (filled (units "NETWORK")) context

untrimmed_category_rejected_example :
    (body : RcaRecord) × (request_body one_unit_date to_one_unit (filled (units " NETWORK"))
      ≡ some body)
    × (validate_rca (to_rca_candidate one_unit_date (fields body)) context ≢ valid)
unfolding trim has_errors validate_rca_form root_cause_categories is_root_cause_category includes
untrimmed_category_rejected_example =
    untrimmed_category_rejected one_unit_date to_one_unit blank_invalid iso_parses
      (filled (units " NETWORK")) context refl (λ e. cc (ap length e))
