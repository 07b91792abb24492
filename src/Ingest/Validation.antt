-- ===== src/Ingest/Validation.antt =====
-- backend/src/api/routes/signalValidation.ts. The zod schema is not this program's code: it is a
-- parameter `safe_parse`, which gives an item as it is parsed, or its issues.
pub mod Laws
use inveni_ops.Base.{
  ℕ, zero, suc, ◌+◌, ◌==◌, leb, ltb, if◌then◌else◌, Bool, true, false, List, [], ◌∷◌, ◌++◌, map,
  Option, none, some, length,
}
use inveni_ops.Base.Int.{ℤ}
use inveni_ops.Types.{Ident, Severity, ComponentType}
use inveni_ops.Retry.{Result, ok, err}

pub record SignalInput : Type 0 where
  pub signal_id : Option Ident
  pub component_id : Ident
  pub component_type : ComponentType
  pub severity : Severity
  pub raw_payload : Ident
  pub occurred_at : ℤ

-- An issue of the schema: its path, joined, or "(root)"; and its message.
pub record Issue : Type 0 where
  pub path : Ident
  pub message : Ident

-- `field` is the index in the batch, unless the body is no batch, and the issue's path.
pub record ValidationFieldError : Type 0 where
  pub index : Option ℕ
  pub path : Ident
  pub message : Ident

pub data SignalBatchParseResult : Type 0 where
  parsed : List SignalInput → SignalBatchParseResult
  empty_batch : SignalBatchParseResult
  batch_too_large : SignalBatchParseResult
  validation_failed : List ValidationFieldError → SignalBatchParseResult

-- The request's body: an array, or anything else.
pub data Body (J : Type 0) : Type 0 where
  array : List J → Body J
  other : J → Body J

abbrev pub is_batch : {J : Type 0} → Body J → Bool
is_batch (array js) = true
is_batch (other j) = false

abbrev pub items_of : {J : Type 0} → Body J → List J
items_of (array js) = js
items_of (other j) = j ∷ []

abbrev pub field_error : Bool → ℕ → Issue → ValidationFieldError
field_error batch index i = record {
  index = if batch then some index else none;
  path = i.path;
  message = i.message;
}

module _ {J : Type 0} (safe_parse : J → Result (List Issue) SignalInput) where
  abbrev collect :
      Bool
      → ℕ
      → Result (List Issue) SignalInput
      → List ValidationFieldError × List SignalInput
      → List ValidationFieldError × List SignalInput
  collect batch index (err issues) (errors, signals) =
      (map (field_error batch index) issues ++ errors, signals)
  collect batch index (ok signal) (errors, signals) = (errors, signal ∷ signals)

  -- The errors and the signals that `forEach` pushes, from the item at `index` on.
  unfoldable pub parse_items : Bool → ℕ → List J → List ValidationFieldError × List SignalInput
  parse_items batch index [] = ([], [])
  parse_items batch index (j ∷ js) =
      collect batch index (safe_parse j) (parse_items batch (index + 1) js)

  abbrev verdict : List ValidationFieldError × List SignalInput → SignalBatchParseResult
  verdict ([], signals) = parsed signals
  verdict (e ∷ errors, signals) = validation_failed (e ∷ errors)

  unfoldable pub parse_signal_batch : Body J → ℕ → SignalBatchParseResult
  unfolding parse_items
  parse_signal_batch body max_batch_size =
      let items = items_of body in
      if length items == 0
      then empty_batch
      else if ltb max_batch_size (length items)
      then batch_too_large
      else verdict (parse_items (is_batch body) 0 items)
