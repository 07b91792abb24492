-- ===== src/Rca/Form/Agreement.antt =====
-- The form against the server: which inputs the form lets through, and what validateRca says of
-- the body that it then sends.
use mathlib.Core.List.{Memᴰ}
use inveni_ops.Base.{
  ◌≤◌, ◌≡◌, ◌≢◌, refl, sym, ◌∙◌, ap, ◌↔◌, true, false, Option, none, some, length, arith,
  Option-cases, inl, inr, All,
}
use inveni_ops.Base.Int.{ℤ, ◌≤ℤ◌}
use inveni_ops.Text.{Text, trim, is_empty}
use inveni_ops.Rca.{
  string, date, RcaRecord, valid, RcaValidationContext, validate_rca, root_cause_categories,
  is_root_cause_category, min_text_field_length,
}
use inveni_ops.Rca.Laws.{
  ◌<ℤ◌, IsExplained, IsKnownCategory, includes-Memᴰ, Memᴰ-includes, All-Memᴰ,
  validate_rca-IsComplete,
}
use inveni_ops.Rca.Candidate.{fields, to_rca_candidate}
use inveni_ops.Rca.Form.{
  RcaFormValues, RcaFieldErrors, category_check, text_check, start_check, end_check, has_errors,
  body_of, parse_local, validate_rca_form, request_body,
}

text_check_sound : (s : Text) → text_check s ≡ none → IsExplained (string s)
unfolding text_check
text_check_sound s h = (s, refl, ground arith)

text_check_complete : (s : Text) → min_text_field_length ≤ length (trim s) → text_check s ≡ none
unfolding text_check
text_check_complete s h = ground arith

category_check_sound : (s : Text) → category_check s ≡ none → IsKnownCategory (string (trim s))
unfolding category_check is_root_cause_category
category_check_sound s h =
    (trim s, refl, includes-Memᴰ root_cause_categories (trim s) (ground arith))

categories_not_empty : All (λ t. is_empty t ≡ false) root_cause_categories
unfolding root_cause_categories
categories_not_empty = (refl, (refl, (refl, (refl, (refl, (refl, (refl, (refl, tt))))))))

category_check_complete : (s : Text) → Memᴰ (trim s) root_cause_categories → category_check s ≡ none
unfolding category_check is_root_cause_category
category_check_complete s m = ground (
  arith,
  All-Memᴰ (λ t. is_empty t ≡ false) root_cause_categories categories_not_empty m,
  Memᴰ-includes root_cause_categories m,
)

start_check_sound :
    (start : Option ℤ) (context : RcaValidationContext)
    → start_check start context ≡ none
    → (t : ℤ) × (start ≡ some t) × (context.first_signal_at ≤ℤ t) × (t ≤ℤ context.now)
unfolding start_check
start_check_sound none context h = cc
start_check_sound (some t) context h = (t, refl, ground arith, ground arith)

start_check_complete :
    (t : ℤ) (context : RcaValidationContext)
    → context.first_signal_at ≤ℤ t
    → t ≤ℤ context.now
    → start_check (some t) context ≡ none
unfolding start_check
start_check_complete t context h k = ground arith

end_check_sound :
    (t : ℤ) (end : Option ℤ) (context : RcaValidationContext)
    → end_check (some t) end context ≡ none
    → (u : ℤ) × (end ≡ some u) × (t <ℤ u) × (u ≤ℤ context.now)
unfolding end_check
end_check_sound t none context h = cc
end_check_sound t (some u) context h = (u, refl, ground arith, ground arith)

end_check_complete :
    (t u : ℤ) (context : RcaValidationContext)
    → t <ℤ u
    → u ≤ℤ context.now
    → end_check (some t) (some u) context ≡ none
unfolding end_check
end_check_complete t u context h k = ground arith

start_check_at :
    (o : Option ℤ) (t u : ℤ) (context : RcaValidationContext)
    → o ≡ some t
    → u ≡ t
    → context.first_signal_at ≤ℤ u
    → u ≤ℤ context.now
    → start_check o context ≡ none
start_check_at o t u context e same h k = rw (e, ← same) (start_check_complete u context h k)

end_check_at :
    (o p : Option ℤ) (t w t' w' : ℤ) (context : RcaValidationContext)
    → o ≡ some t
    → p ≡ some w
    → t' ≡ t
    → w' ≡ w
    → t' <ℤ w'
    → w' ≤ℤ context.now
    → end_check o p context ≡ none
end_check_at o p t w t' w' context e f same same' h k =
    rw (e, f, ← same, ← same') (end_check_complete t' w' context h k)

≤ℤ_end : (a b c : ℤ) → a <ℤ b → b ≤ℤ c → a ≤ℤ c
≤ℤ_end a b c h k = omega arith

categories_trimmed : All (λ t. trim t ≡ t) root_cause_categories
unfolding root_cause_categories trim
categories_trimmed = (refl, (refl, (refl, (refl, (refl, (refl, (refl, (refl, tt))))))))

-- No error in any field, field by field.
record AllUnset (e : RcaFieldErrors) : Type 0 where
  start_unset : e.start_error ≡ none
  end_unset : e.end_error ≡ none
  category_unset : e.category_error ≡ none
  description_unset : e.description_error ≡ none
  fix_unset : e.fix_error ≡ none
  prevention_unset : e.prevention_error ≡ none

has_errors-AllUnset : (e : RcaFieldErrors) → has_errors e ≡ false → AllUnset e
unfolding has_errors
has_errors-AllUnset e h = ground arith

AllUnset-has_errors : (e : RcaFieldErrors) → AllUnset e → has_errors e ≡ false
unfolding has_errors
AllUnset-has_errors e u = ground arith

module _ (new_date : Text → Option ℤ) (to_iso_string : ℤ → Text)
    (blank_invalid : (s : Text) → is_empty (trim s) ≡ true → new_date s ≡ none)
    (iso_parses : (s : Text) (t : ℤ) → new_date s ≡ some t → new_date (to_iso_string t) ≡ some t)
    (v : RcaFormValues) (context : RcaValidationContext) where
  parse_local-new_date : (s : Text) → parse_local new_date s ≡ new_date s
  unfolding parse_local
  parse_local-new_date s = ground (arith, blank_invalid s)

  -- The body with its category trimmed.
  abbrev pub trimmed_category : RcaRecord → RcaRecord
  trimmed_category body = record body { root_cause_category = string (trim v.root_cause_category) }

  abbrev pub Accepted : RcaRecord → Type 0
  Accepted body =
      validate_rca (to_rca_candidate new_date (fields (trimmed_category body))) context ≡ valid

  request_body_at :
      (t w : ℤ)
      → new_date v.incident_start_time ≡ some t
      → new_date v.incident_end_time ≡ some w
      → request_body new_date to_iso_string v ≡ some (body_of v (to_iso_string t) (to_iso_string w))
  unfolding request_body
  request_body_at t w st en = rw (st, en, request_body) refl

  passes_sound :
      has_errors (validate_rca_form new_date v context) ≡ false
      → (body : RcaRecord) × (request_body new_date to_iso_string v ≡ some body) × Accepted body
  unfolding validate_rca_form to_rca_candidate
  passes_sound h =
      let u = has_errors-AllUnset (validate_rca_form new_date v context) h in
      let (t, st, first, past) =
        start_check_sound (parse_local new_date v.incident_start_time) context u.start_unset in
      let (w, en, after, past') =
        end_check_sound t (parse_local new_date v.incident_end_time) context
          (rw st at u.end_unset) in
      let st' = sym (parse_local-new_date v.incident_start_time) ∙ st in
      let en' = sym (parse_local-new_date v.incident_end_time) ∙ en in
      (
        body_of v (to_iso_string t) (to_iso_string w),
        request_body_at t w st' en',
        (validate_rca-IsComplete _ context).1 (record {
          start = t;
          end = w;
          start_given = ap date (iso_parses v.incident_start_time t st');
          end_given = ap date (iso_parses v.incident_end_time w en');
          not_before = first;
          ordered = after;
          past = past';
          category = category_check_sound v.root_cause_category u.category_unset;
          description = text_check_sound v.root_cause_description u.description_unset;
          fix = text_check_sound v.fix_applied u.fix_unset;
          prevention = text_check_sound v.prevention_steps u.prevention_unset;
        }),
      )

  request_body_inv :
      (body : RcaRecord)
      → request_body new_date to_iso_string v ≡ some body
      → (t w : ℤ) × (new_date v.incident_start_time ≡ some t)
        × (new_date v.incident_end_time ≡ some w)
        × (body ≡ body_of v (to_iso_string t) (to_iso_string w))
  unfolding request_body
  request_body_inv body h = elim (Option-cases (new_date v.incident_start_time)) [
    | inl none_s ↦ absurd (ground arith)
    | inr (t, st) ↦ elim (Option-cases (new_date v.incident_end_time)) [
      | inl none_e ↦ absurd (ground arith)
      | inr (w, en) ↦ (t, w, st, en, ground arith)
    ]
  ]

  date_injective : (a : Option ℤ) (t u : ℤ) → a ≡ some t → date a ≡ date (some u) → u ≡ t
  date_injective a t u e h = cc

  text_long : (s : Text) → IsExplained (string s) → min_text_field_length ≤ length (trim s)
  text_long s (r, same, long) = let e : s ≡ r = cc in rw e long

  category_listed : (s : Text) → IsKnownCategory (string s) → Memᴰ s root_cause_categories
  category_listed s (r, same, m) = let e : s ≡ r = cc in rw e m

  passes_complete :
      (body : RcaRecord)
      → request_body new_date to_iso_string v ≡ some body
      → Accepted body
      → has_errors (validate_rca_form new_date v context) ≡ false
  unfolding validate_rca_form to_rca_candidate
  passes_complete body sent accepted =
      let (t, w, st, en, same) = request_body_inv body sent in
      let c = (validate_rca-IsComplete _ context).0 (rw same at accepted) in
      let st' = parse_local-new_date v.incident_start_time ∙ st in
      let en' = parse_local-new_date v.incident_end_time ∙ en in
      let s_eq : c.start ≡ t = date_injective _ t c.start (iso_parses _ t st) c.start_given in
      let e_eq : c.end ≡ w = date_injective _ w c.end (iso_parses _ w en) c.end_given in
      AllUnset-has_errors (validate_rca_form new_date v context) (record {
        start_unset =
            start_check_at _ t c.start context st' s_eq c.not_before
              (≤ℤ_end c.start c.end context.now c.ordered c.past);
        end_unset = end_check_at _ _ t w c.start c.end context st' en' s_eq e_eq c.ordered c.past;
        category_unset =
            category_check_complete v.root_cause_category (category_listed _ c.category);
        description_unset =
            text_check_complete v.root_cause_description (text_long _ c.description);
        fix_unset = text_check_complete v.fix_applied (text_long _ c.fix);
        prevention_unset = text_check_complete v.prevention_steps (text_long _ c.prevention);
      })

  sent_category_trimmed :
      (body : RcaRecord) (t w : ℤ)
      → body ≡ body_of v (to_iso_string t) (to_iso_string w)
      → validate_rca (to_rca_candidate new_date (fields body)) context ≡ valid
      → trim v.root_cause_category ≡ v.root_cause_category
  unfolding to_rca_candidate
  sent_category_trimmed body t w same accepted =
      let c = (validate_rca-IsComplete _ context).0 (rw same at accepted) in
      All-Memᴰ (λ s. trim s ≡ s) root_cause_categories categories_trimmed
        (category_listed _ c.category)

  -- The form shows no error exactly if the body that it sends passes the server's validation once
  -- its category is trimmed. The hypotheses on the language's dates: a blank text is an Invalid
  -- Date, and the ISO string of a date parses to that date.
  pub validate_rca_form-validate_rca :
      (has_errors (validate_rca_form new_date v context) ≡ false)
      ↔ ((body : RcaRecord) × (request_body new_date to_iso_string v ≡ some body) × Accepted body)
  validate_rca_form-validate_rca =
      (passes_sound, λ (body, sent, accepted). passes_complete body sent accepted)

  -- An input that the form passes, but whose category has white space around it, is sent as it
  -- is and rejected by the server.
  pub untrimmed_category_rejected :
      has_errors (validate_rca_form new_date v context) ≡ false
      → trim v.root_cause_category ≢ v.root_cause_category
      → (body : RcaRecord) × (request_body new_date to_iso_string v ≡ some body)
        × (validate_rca (to_rca_candidate new_date (fields body)) context ≢ valid)
  untrimmed_category_rejected passes untrimmed =
      let (body, sent, _) = passes_sound passes in
      let (t, w, st, en, same) = request_body_inv body sent in
      (body, sent, λ accepted. untrimmed (sent_category_trimmed body t w same accepted))
