-- ===== src/Ingest/Validation/Laws.antt =====
-- What parseSignalBatch of backend/src/api/routes/signalValidation.ts accepts and reports.
use mathlib.Core.List.{Memᴰ}
use mathlib.Core.List.Memᴰ as Memᴰ
use inveni_ops.Base.{
  ℕ, ◌+◌, ◌≤◌, ◌<◌, ◌≡◌, ◌≢◌, ◌↔◌, refl, ap, ◌∙◌, Bool, List, [], ◌∷◌, map, some, length, get_elem?,
}
use inveni_ops.Retry.{Result, ok, err}
use inveni_ops.Ingest.Validation.{
  SignalInput, Issue, ValidationFieldError, SignalBatchParseResult, parsed, empty_batch,
  batch_too_large, validation_failed, Body, is_batch, items_of, field_error, parse_items,
}

module _ {J : Type 0} (safe_parse : J → Result (List Issue) SignalInput) where
  -- The error is an issue of the item at some index.
  pub Reported : Bool → ℕ → List J → ValidationFieldError → Type 0
  Reported batch n js e =
      (k : ℕ) × (j : J) × (issues : List Issue) × (i : Issue) × (get_elem? js k ≡ some j)
      × (safe_parse j ≡ err issues)
      × Memᴰ i issues
      × (e ≡ field_error batch (n + k) i)

  items-ok :
      (batch : Bool) (n : ℕ) (j : J) (js : List J) (signal : SignalInput)
      → safe_parse j ≡ ok signal
      → parse_items safe_parse batch n (j ∷ js) ≡ (
        (parse_items safe_parse batch (n + 1) js).0,
        signal ∷ (parse_items safe_parse batch (n + 1) js).1,
      )
  unfolding parse_items
  items-ok batch n j js signal parses = rw parses refl

  signals-no_error :
      (batch : Bool) (n : ℕ) (js : List J) (signals : List SignalInput)
      → map safe_parse js ≡ map ok signals
      → parse_items safe_parse batch n js ≡ ([], signals)
  unfolding parse_items
  signals-no_error batch n [] [] e = refl
  signals-no_error batch n [] (s ∷ ss) e = absurd (cc)
  signals-no_error batch n (j ∷ js) [] e = absurd (cc)
  signals-no_error batch n (j ∷ js) (s ∷ ss) e =
      let first : safe_parse j ≡ ok s = cc in
      let others : map safe_parse js ≡ map ok ss = cc in
      items-ok batch n j js s first
      ∙ ap (λ q. (q.0, s ∷ q.1)) (signals-no_error batch (n + 1) js ss others)

  -- What a body is taken for.
  pub data Parsed (body : Body J) (max_batch_size : ℕ) : SignalBatchParseResult → Type 0 where
    empty : items_of body ≡ [] → Parsed body max_batch_size empty_batch
    too_large : max_batch_size < length (items_of body) → Parsed body max_batch_size batch_too_large
    all_parsed :
        (signals : List SignalInput)
        → 0 < length (items_of body)
        → length (items_of body) ≤ max_batch_size
        → map safe_parse (items_of body) ≡ map ok signals
        → Parsed body max_batch_size (parsed signals)
    some_failed :
        (errors : List ValidationFieldError)
        → 0 < length (items_of body)
        → length (items_of body) ≤ max_batch_size
        → errors ≢ []
        → ((e : ValidationFieldError)
            → Memᴰ e errors ↔ Reported (is_batch body) 0 (items_of body) e)
        → Parsed body max_batch_size (validation_failed errors)
