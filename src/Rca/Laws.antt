-- ===== src/Rca/Laws.antt =====
-- When a candidate passes validateRca, told without the list of errors.
use mathlib.Core.List.Memᴰ.{head, tail, not-nil}
use mathlib.Core.List.{Memᴰ}
use inveni_ops.Base.{
  ◌+◌, ◌≤◌, ◌<◌, ◌≡◌, refl, sym, ◌↔◌, true, false, List, [], ◌∷◌, ◌++◌, none, some, length, arith,
  Bool-cases, inl, inr, All,
}
use inveni_ops.Base.Int.{ℤ, ◌≤ℤ◌, pos_part, neg_part}
use inveni_ops.Text.{Text, trim, is_empty, includes, same_text, same_text_sound, same_text_refl}
use inveni_ops.Rca.{
  JsValue, string, date, root_cause_categories, RcaRecord, RcaField, RcaFieldError, valid,
  RcaValidationContext, valid_date, is_root_cause_category, validate_text_field, validate_category,
  required_if_none, end_after_start, start_in_range, end_in_range, rca_errors, result_of,
  validate_rca, min_text_field_length, start_field, end_field, description_field, fix_field,
  prevention_field,
}

infix 50 ◌<ℤ◌
abbrev pub ◌<ℤ◌ : ℤ → ℤ → Type 0
a <ℤ b = pos_part a + neg_part b < pos_part b + neg_part a

-- A text of at least ten code units between its outer white space.
abbrev pub IsExplained : JsValue → Type 0
IsExplained v = (s : Text) × (v ≡ string s) × (min_text_field_length ≤ length (trim s))

abbrev pub IsKnownCategory : JsValue → Type 0
IsKnownCategory v = (s : Text) × (v ≡ string s) × Memᴰ s root_cause_categories

-- A complete record: every field given, and first signal ≤ start < end ≤ now.
pub record IsComplete (rca : RcaRecord) (context : RcaValidationContext) : Type 0 where
  pub start : ℤ
  pub end : ℤ
  pub start_given : rca.incident_start_time ≡ date (some start)
  pub end_given : rca.incident_end_time ≡ date (some end)
  pub not_before : context.first_signal_at ≤ℤ start
  pub ordered : start <ℤ end
  pub past : end ≤ℤ context.now
  pub category : IsKnownCategory rca.root_cause_category
  pub description : IsExplained rca.root_cause_description
  pub fix : IsExplained rca.fix_applied
  pub prevention : IsExplained rca.prevention_steps

pub append-eq-nil {ℓ} : {A : Type ℓ} (xs ys : List A) → xs ++ ys ≡ [] → (xs ≡ []) × (ys ≡ [])
append-eq-nil [] ys h = (refl, h)
append-eq-nil (x ∷ xs) ys h = cc

pub includes-Memᴰ : (ts : List Text) (s : Text) → includes ts s ≡ true → Memᴰ s ts
unfolding includes
includes-Memᴰ [] s h = cc
includes-Memᴰ (t ∷ ts) s h = elim (Bool-cases (same_text t s)) [
  | inl e ↦ head (sym (same_text_sound t s e))
  | inr e ↦ tail (includes-Memᴰ ts s (rw e at h))
]

pub Memᴰ-includes : (ts : List Text) {s : Text} → Memᴰ s ts → includes ts s ≡ true
unfolding includes
Memᴰ-includes (t ∷ ts) {s} (head e) = rw (e, same_text_refl t)
Memᴰ-includes (t ∷ ts) {s} (tail m) = ground (arith, Memᴰ-includes ts m)
Memᴰ-includes [] m = absurd (not-nil m)

valid_date_sound : (v : JsValue) (t : ℤ) → valid_date v ≡ some t → v ≡ date (some t)
valid_date_sound v t h = ground arith

text_field_sound : (v : JsValue) (f : RcaField) → validate_text_field v f ≡ [] → IsExplained v
unfolding validate_text_field
text_field_sound (string s) f h = (s, refl, ground arith)
text_field_sound v f h = cc

text_field_complete : (v : JsValue) (f : RcaField) → IsExplained v → validate_text_field v f ≡ []
unfolding validate_text_field
text_field_complete v f (s, given, long) = rw given (ground arith)

text_field_iff : (v : JsValue) (f : RcaField) → (validate_text_field v f ≡ []) ↔ IsExplained v
text_field_iff v f = (text_field_sound v f, text_field_complete v f)

pub All-Memᴰ {ℓ κ} :
    {A : Type ℓ} (P : A → Type κ) (xs : List A) {x : A} → All P xs → Memᴰ x xs → P x
All-Memᴰ P [] h m = absurd (not-nil m)
All-Memᴰ P (y ∷ ys) (p, h) (head e) = rw e p
All-Memᴰ P (y ∷ ys) (p, h) (tail m) = All-Memᴰ P ys h m

categories_not_blank : All (λ t. is_empty (trim t) ≡ false) root_cause_categories
unfolding root_cause_categories trim
categories_not_blank = (refl, (refl, (refl, (refl, (refl, (refl, (refl, (refl, tt))))))))

category_sound : (v : JsValue) → validate_category v ≡ [] → IsKnownCategory v
unfolding validate_category is_root_cause_category
category_sound (string s) h = (s, refl, includes-Memᴰ root_cause_categories s (ground arith))
category_sound v h = cc

category_complete : (v : JsValue) → IsKnownCategory v → validate_category v ≡ []
unfolding validate_category is_root_cause_category
category_complete v (s, given, m) =
    rw
      (
        given,
        validate_category,
        All-Memᴰ (λ t. is_empty (trim t) ≡ false) root_cause_categories categories_not_blank m,
        is_root_cause_category,
        Memᴰ-includes root_cause_categories m,
      )
      refl

dates_complete :
    (start end : ℤ) (context : RcaValidationContext)
    → context.first_signal_at ≤ℤ start
    → start <ℤ end
    → end ≤ℤ context.now
    → end_after_start (some start) (some end)
        ++ (start_in_range (some start) context ++ end_in_range (some end) context)
      ≡ []
unfolding end_after_start start_in_range end_in_range
dates_complete start end context a b c = ground arith

-- The three date checks report nothing exactly when the dates are in order.
dates_ordered :
    (start end : ℤ) (context : RcaValidationContext)
    → end_after_start (some start) (some end) ≡ []
    → start_in_range (some start) context ≡ []
    → end_in_range (some end) context ≡ []
    → (context.first_signal_at ≤ℤ start) × (start <ℤ end) × (end ≤ℤ context.now)
unfolding end_after_start start_in_range end_in_range
dates_ordered start end context a b c = (ground arith, ground arith, ground arith)

required_given :
    (v : JsValue) (f : RcaField)
    → required_if_none (valid_date v) f ≡ []
    → (t : ℤ) × (v ≡ date (some t))
required_given (date (some t)) f h = (t, refl)
required_given (date none) f h = cc
required_given v f h = cc

nil_of_valid : (es : List RcaFieldError) → result_of es ≡ valid → es ≡ []
nil_of_valid [] h = refl
nil_of_valid (e ∷ es) h = cc

no_errors-IsComplete :
    (rca : RcaRecord) (context : RcaValidationContext)
    → rca_errors rca context ≡ []
    → IsComplete rca context
unfolding rca_errors
no_errors-IsComplete rca context h0 =
    let (h_start, h1) = append-eq-nil _ _ h0 in
    let (h_end, h2) = append-eq-nil _ _ h1 in
    let (h_category, h3) = append-eq-nil _ _ h2 in
    let (h_description, h4) = append-eq-nil _ _ h3 in
    let (h_fix, h5) = append-eq-nil _ _ h4 in
    let (h_prevention, h6) = append-eq-nil _ _ h5 in
    let (h_after, h7) =
      append-eq-nil
        (end_after_start (valid_date rca.incident_start_time) (valid_date rca.incident_end_time)) _
        h6 in
    let (h_start_range, h_end_range) =
      append-eq-nil (start_in_range (valid_date rca.incident_start_time) context)
        (end_in_range (valid_date rca.incident_end_time) context) h7 in
    let (start, start_given) = required_given rca.incident_start_time start_field h_start in
    let (end, end_given) = required_given rca.incident_end_time end_field h_end in
    let (not_before, ordered, past) =
      dates_ordered start end context (rw (start_given, end_given) at h_after)
        (rw start_given at h_start_range) (rw end_given at h_end_range) in
    record {
      start = start;
      end = end;
      start_given = start_given;
      end_given = end_given;
      not_before = not_before;
      ordered = ordered;
      past = past;
      category = category_sound _ h_category;
      description = text_field_sound _ _ h_description;
      fix = text_field_sound _ _ h_fix;
      prevention = text_field_sound _ _ h_prevention;
    }

IsComplete-no_errors :
    (rca : RcaRecord) (context : RcaValidationContext)
    → IsComplete rca context
    → rca_errors rca context ≡ []
unfolding rca_errors
IsComplete-no_errors rca context c =
    rw
      (
        c.start_given,
        c.end_given,
        category_complete _ c.category,
        text_field_complete _ description_field c.description,
        text_field_complete _ fix_field c.fix,
        text_field_complete _ prevention_field c.prevention,
      )
      (dates_complete c.start c.end context c.not_before c.ordered c.past)

-- A candidate is valid exactly if its record is complete: both dates are valid dates with
-- first signal ≤ start < end ≤ now, the category is one of the listed ones (untrimmed), and each
-- of the three texts has at least ten code units without its outer white space.
pub validate_rca-IsComplete :
    (rca : RcaRecord) (context : RcaValidationContext)
    → (validate_rca rca context ≡ valid) ↔ IsComplete rca context
unfolding validate_rca
validate_rca-IsComplete rca context = (
  λ h. no_errors-IsComplete rca context (nil_of_valid (rca_errors rca context) h),
  λ c. rw (IsComplete-no_errors rca context c) refl,
)
