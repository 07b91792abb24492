-- ===== src/Rca.antt =====
-- backend/src/domain/rca: the candidate record, its validation, the closing guard and the MTTR.
-- A Date is the number of milliseconds that it stands for, or invalid; messages are constructors.
pub mod Laws
pub mod Mttr
pub mod Candidate
pub mod Form
use inveni_ops.Base.{
  ℕ, ◌+◌, ◌*◌, ◌/◌, Bool, true, false, not, ◌&&◌, ◌||◌, List, [], ◌∷◌, ◌++◌, Option, none, some,
  ltb, leb, if◌then◌else◌, length,
}
use inveni_ops.Base.Int.{ℤ, pos, negsuc, ltb_ℤ, ◌-ℤ◌}
use inveni_ops.State.{TransitionContext, TransitionGuard}
use inveni_ops.Text.{Text, units, trim, is_empty, includes}

-- What a field of an untrusted candidate may hold. A date with no time value is an Invalid Date.
pub data JsValue : Type 0 where
  undefined null : JsValue
  boolean : Bool → JsValue
  number : ℤ → JsValue
  string : Text → JsValue
  date : Option ℤ → JsValue
  other_object : JsValue

unfoldable pub root_cause_categories : List Text
root_cause_categories =
    units "CODE_DEFECT"
    ∷ units "INFRASTRUCTURE_FAILURE"
    ∷ units "CONFIGURATION_ERROR"
    ∷ units "CAPACITY_EXHAUSTION"
    ∷ units "EXTERNAL_DEPENDENCY"
    ∷ units "NETWORK"
    ∷ units "HUMAN_ERROR"
    ∷ units "UNKNOWN"
    ∷ []

pub record RcaRecord : Type 0 where
  pub incident_start_time : JsValue
  pub incident_end_time : JsValue
  pub root_cause_category : JsValue
  pub root_cause_description : JsValue
  pub fix_applied : JsValue
  pub prevention_steps : JsValue

pub data RcaField : Type 0 where
  start_field end_field category_field description_field fix_field prevention_field : RcaField

pub data RcaMessage : Type 0 where
  is_required too_short unknown_category not_after_start before_first_signal in_future : RcaMessage

pub record RcaFieldError : Type 0 where
  pub field : RcaField
  pub message : RcaMessage

pub data RcaValidationResult : Type 0 where
  valid : RcaValidationResult
  invalid : List RcaFieldError → RcaValidationResult

pub record RcaValidationContext : Type 0 where
  pub first_signal_at : ℤ
  pub now : ℤ

abbrev pub min_text_field_length : ℕ
min_text_field_length = 10

-- isValidDate, with the time value that the code reads by getTime once the test has passed.
abbrev pub valid_date : JsValue → Option ℤ
valid_date (date t) = t
valid_date _ = none

abbrev pub error : RcaField → RcaMessage → List RcaFieldError
error f m = record { field = f; message = m } ∷ []

-- One optional `errors.push`.
abbrev pub error_if : Bool → RcaField → RcaMessage → List RcaFieldError
error_if b f m = if b then error f m else []

unfoldable pub is_root_cause_category : Text → Bool
unfolding root_cause_categories
is_root_cause_category s = includes root_cause_categories s

pub validate_text_field : JsValue → RcaField → List RcaFieldError
validate_text_field (string s) f =
    if is_empty (trim s)
    then error f is_required
    else error_if (ltb (length (trim s)) min_text_field_length) f too_short
validate_text_field _ f = error f is_required

pub validate_category : JsValue → List RcaFieldError
validate_category (string s) =
    if is_empty (trim s)
    then error category_field is_required
    else error_if (not (is_root_cause_category s)) category_field unknown_category
validate_category _ = error category_field is_required

abbrev pub required_if_none : Option ℤ → RcaField → List RcaFieldError
required_if_none none f = error f is_required
required_if_none (some t) f = []

-- The checks that compare dates: each runs only if what it compares is valid.
pub end_after_start : Option ℤ → Option ℤ → List RcaFieldError
end_after_start (some start) (some end) = error_if (not (ltb_ℤ start end)) end_field not_after_start
end_after_start _ _ = []

pub start_in_range : Option ℤ → RcaValidationContext → List RcaFieldError
start_in_range none context = []
start_in_range (some start) context =
    error_if (ltb_ℤ start context.first_signal_at) start_field before_first_signal
    ++ error_if (ltb_ℤ context.now start) start_field in_future

pub end_in_range : Option ℤ → RcaValidationContext → List RcaFieldError
end_in_range none context = []
end_in_range (some end) context = error_if (ltb_ℤ context.now end) end_field in_future

-- All errors, in the order in which validateRca pushes them.
unfoldable pub rca_errors : RcaRecord → RcaValidationContext → List RcaFieldError
rca_errors rca context =
    required_if_none (valid_date rca.incident_start_time) start_field
    ++ (required_if_none (valid_date rca.incident_end_time) end_field
        ++ (validate_category rca.root_cause_category
            ++ (validate_text_field rca.root_cause_description description_field
                ++ (validate_text_field rca.fix_applied fix_field
                    ++ (validate_text_field rca.prevention_steps prevention_field
                        ++ (end_after_start (valid_date rca.incident_start_time)
                              (valid_date rca.incident_end_time)
                            ++ (start_in_range (valid_date rca.incident_start_time) context
                                ++ end_in_range (valid_date rca.incident_end_time) context)))))))

abbrev pub result_of : List RcaFieldError → RcaValidationResult
result_of [] = valid
result_of (e ∷ es) = invalid (e ∷ es)

unfoldable pub validate_rca : RcaRecord → RcaValidationContext → RcaValidationResult
validate_rca rca context = result_of (rca_errors rca context)

-- A context's `payload?: unknown`: no object, or one whose six properties the validation reads.
pub data Payload : Type 0 where
  no_object : Payload
  object : RcaRecord → Payload

abbrev pub is_valid : RcaValidationResult → Bool
is_valid valid = true
is_valid (invalid errors) = false

abbrev guard_payload : Payload → RcaValidationContext → Bool
guard_payload no_object context = false
guard_payload (object rca) context = is_valid (validate_rca rca context)

-- createRcaCloseGuard; the clock's reading is an argument.
unfoldable pub rca_close_guard : ℤ → TransitionGuard Payload
rca_close_guard now context =
    guard_payload context.payload
      (record { first_signal_at = context.work_item.first_signal_at; now = now })

pub data MttrResult : Type 0 where
  mttr_seconds : ℕ → MttrResult
  clock_skew : MttrResult

-- Math.round of a quotient that is not negative: the nearest integer, halves upwards.
abbrev pub round_div : ℕ → ℕ → ℕ
round_div a b = (2 * a + b) / (2 * b)

abbrev mttr_of : ℤ → MttrResult
mttr_of (pos diff_ms) = mttr_seconds (round_div diff_ms 1000)
mttr_of (negsuc n) = clock_skew

unfoldable pub calculate_mttr : ℤ → ℤ → MttrResult
unfolding ◌-ℤ◌
calculate_mttr first_signal_at rca_submitted_at = mttr_of (rca_submitted_at -ℤ first_signal_at)
