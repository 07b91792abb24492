-- ===== src/Rca/Candidate.antt =====
-- The request body of an RCA on its way to the validation: toRcaCandidate of
-- backend/src/services/workitems/workflowService.ts. The language's parsing of a date string is
-- the parameter `new_date`, with `none` for an Invalid Date.
use inveni_ops.Base.{ℕ, leb, if◌then◌else◌, Option, none, some, ◌&&◌}
use inveni_ops.Base.Int.{ℤ, pos_part, neg_part}
use inveni_ops.Text.{Text}
use inveni_ops.Rca.{JsValue, undefined, number, string, date, RcaRecord}

-- `rawRcaInput`: no object, or one with the six properties that are read.
pub data RawInput : Type 0 where
  not_an_object : RawInput
  fields : RcaRecord → RawInput

-- The largest distance from the epoch, in milliseconds, of a Date that is valid.
abbrev max_time : ℕ
max_time = 8_640_000_000_000_000

-- `new Date(n)` for an integer n.
pub date_of_number : ℤ → Option ℤ
date_of_number n = if leb (pos_part n) max_time && leb (neg_part n) max_time then some n else none

pub to_optional_string : JsValue → JsValue
to_optional_string (string s) = string s
to_optional_string _ = undefined

abbrev no_fields : RcaRecord
no_fields = record {
  incident_start_time = undefined;
  incident_end_time = undefined;
  root_cause_category = undefined;
  root_cause_description = undefined;
  fix_applied = undefined;
  prevention_steps = undefined;
}

abbrev raw_fields : RawInput → RcaRecord
raw_fields not_an_object = no_fields
raw_fields (fields r) = r

module _ (new_date : Text → Option ℤ) where
  pub to_date : JsValue → JsValue
  to_date (string s) = date (new_date s)
  to_date (number n) = date (date_of_number n)
  to_date _ = undefined

  unfoldable pub to_rca_candidate : RawInput → RcaRecord
  unfolding to_date to_optional_string
  to_rca_candidate input =
      let raw = raw_fields input in
      record {
        incident_start_time = to_date raw.incident_start_time;
        incident_end_time = to_date raw.incident_end_time;
        root_cause_category = to_optional_string raw.root_cause_category;
        root_cause_description = to_optional_string raw.root_cause_description;
        fix_applied = to_optional_string raw.fix_applied;
        prevention_steps = to_optional_string raw.prevention_steps;
      }
