-- ===== src/Rca/Form.antt =====
-- frontend/src/features/rca/rcaValidation.ts, the form's own validation, and the body that
-- RcaForm.tsx sends. Messages are the constructors that the server's validation uses too.
pub mod Agreement
use inveni_ops.Base.{
  ℕ, Bool, true, false, not, ◌&&◌, ◌||◌, List, [], ◌∷◌, Option, none, some, ltb, if◌then◌else◌,
  length,
}
use inveni_ops.Base.Int.{ℤ, ltb_ℤ}
use inveni_ops.Text.{Text, trim, is_empty}
use inveni_ops.Rca.{
  string, RcaRecord, RcaField, start_field, end_field, category_field, description_field, fix_field,
  prevention_field, RcaMessage, is_required, too_short, unknown_category, not_after_start,
  before_first_signal, in_future, RcaValidationContext, is_root_cause_category,
  min_text_field_length,
}

-- The inputs' texts; the two dates as `datetime-local` strings.
pub record RcaFormValues : Type 0 where
  pub incident_start_time : Text
  pub incident_end_time : Text
  pub root_cause_category : Text
  pub root_cause_description : Text
  pub fix_applied : Text
  pub prevention_steps : Text

-- Partial<Record<RcaFieldName, string>>: at most one message for a field.
pub record RcaFieldErrors : Type 0 where
  pub start_error : Option RcaMessage
  pub end_error : Option RcaMessage
  pub category_error : Option RcaMessage
  pub description_error : Option RcaMessage
  pub fix_error : Option RcaMessage
  pub prevention_error : Option RcaMessage

abbrev pub is_set : Option RcaMessage → Bool
is_set none = false
is_set (some m) = true

abbrev missing : Option ℤ → Option RcaMessage
missing none = some is_required
missing (some t) = none

unfoldable pub category_check : Text → Option RcaMessage
category_check value =
    let category = trim value in
    if is_empty category
    then some is_required
    else if not (is_root_cause_category category)
    then some unknown_category
    else none

unfoldable pub text_check : Text → Option RcaMessage
text_check value =
    let trimmed = trim value in
    if is_empty trimmed
    then some is_required
    else if ltb (length trimmed) min_text_field_length
    then some too_short
    else none

-- A date test, `false` where the date is null.
abbrev holds_of : Option ℤ → (ℤ → Bool) → Bool
holds_of none p = false
holds_of (some t) p = p t

-- One relational check: the message is set if the field has none and the test holds.
abbrev unless_set : Option RcaMessage → Bool → RcaMessage → Option RcaMessage
unless_set old test m = if not (is_set old) && test then some m else old

unfoldable pub start_check : Option ℤ → RcaValidationContext → Option RcaMessage
start_check start context =
    let e1 =
      unless_set (missing start) (holds_of start (λ t. ltb_ℤ t context.first_signal_at))
        before_first_signal in
    unless_set e1 (holds_of start (λ t. ltb_ℤ context.now t)) in_future

unfoldable pub end_check : Option ℤ → Option ℤ → RcaValidationContext → Option RcaMessage
end_check start end context =
    let e1 =
      unless_set (missing end) (holds_of start (λ s. holds_of end (λ e. not (ltb_ℤ s e))))
        not_after_start in
    unless_set e1 (holds_of end (λ t. ltb_ℤ context.now t)) in_future

unfoldable pub has_errors : RcaFieldErrors → Bool
has_errors e =
    is_set e.start_error
    || is_set e.end_error
    || is_set e.category_error
    || is_set e.description_error
    || is_set e.fix_error
    || is_set e.prevention_error

-- RCA_FIELD_ORDER, and the first field of it with an error.
pub first_invalid_field : RcaFieldErrors → Option RcaField
first_invalid_field e =
    if is_set e.start_error
    then some start_field
    else if is_set e.end_error
    then some end_field
    else if is_set e.category_error
    then some category_field
    else if is_set e.description_error
    then some description_field
    else if is_set e.fix_error
    then some fix_field
    else if is_set e.prevention_error
    then some prevention_field
    else none

abbrev pub body_of : RcaFormValues → Text → Text → RcaRecord
body_of v start end = record {
  incident_start_time = string start;
  incident_end_time = string end;
  root_cause_category = string v.root_cause_category;
  root_cause_description = string v.root_cause_description;
  fix_applied = string v.fix_applied;
  prevention_steps = string v.prevention_steps;
}

module _ (new_date : Text → Option ℤ) where
  pub parse_local : Text → Option ℤ
  parse_local value = if is_empty (trim value) then none else new_date value

  -- The checks of one field follow one another; fields are independent of each other.
  unfoldable pub validate_rca_form : RcaFormValues → RcaValidationContext → RcaFieldErrors
  unfolding parse_local category_check text_check start_check end_check
  validate_rca_form v context =
      let start = parse_local v.incident_start_time in
      let end = parse_local v.incident_end_time in
      record {
        start_error = start_check start context;
        end_error = end_check start end context;
        category_error = category_check v.root_cause_category;
        description_error = text_check v.root_cause_description;
        fix_error = text_check v.fix_applied;
        prevention_error = text_check v.prevention_steps;
      }

  -- The body of the request, `none` where `toISOString` throws on an Invalid Date.
  unfoldable pub request_body : (ℤ → Text) → RcaFormValues → Option RcaRecord
  request_body to_iso_string v = elim (new_date v.incident_start_time) [
    | none ↦ none
    | some start ↦ elim (new_date v.incident_end_time) [
      | none ↦ none
      | some end ↦ some (body_of v (to_iso_string start) (to_iso_string end))
    ]
  ]
