-- ===== src/Tests/SignalTests.antt =====
-- insertManyIdempotent on a collection that is the test of what it stores.
use inveni_ops.Base.{
  ℕ, ◌≡◌, refl, ap, sym, ◌∙◌, arith, Bool, true, false, List, [], ◌∷◌, map, keep_if, none, ◌==◌,
  ==_iff, Bool-cases, inl, inr,
}
use inveni_ops.Base.Int.{pos}
use inveni_ops.Types.{Ident, p2, api}
use inveni_ops.Worker.{SignalDocument}
use inveni_ops.Signals.{
  WriteError, InsertReply, inserted, bulk_write_error, Collection, contains, write_error_indexes,
  insert_many_idempotent,
}
use inveni_ops.Signals.Each.{Stored, insert_each}
use inveni_ops.Signals.Insert.{Lawful, Wrote, insert_many_idempotent-Wrote}

abbrev duplicates : List ℕ → List WriteError
duplicates es = map (λ n. record { index = n; is_duplicate_key = true }) es

abbrev reply_of : List ℕ → InsertReply Unit
reply_of [] = inserted
reply_of (e ∷ es) = bulk_write_error (duplicates (e ∷ es))

abbrev test_collection : Collection
test_collection = record {
  Db = Stored;
  Error = Unit;
  find_ids = λ s ids. keep_if s ids;
  insert_many_unordered = λ s docs. ((insert_each s 0 docs).0, reply_of (insert_each s 0 docs).1);
}

found_in :
    (s : Stored) (j : Ident) (ids : List Ident) (i : Ident) (b : Bool)
    → s j ≡ b
    → (contains ids i ≡ true → s i ≡ true)
    → contains (elim b [ true ↦ j ∷ ids | false ↦ ids ]) i ≡ true
    → s i ≡ true
found_in s j ids i false e later k = later k
found_in s j ids i true e later k = elim (Bool-cases (j == i)) [
  | inl same ↦ ap s (sym ((==_iff j i).0 same)) ∙ e
  | inr other ↦ later (ground (arith, k, other))
]

found_stored :
    (s : Stored) (ids : List Ident) (i : Ident) → contains (keep_if s ids) i ≡ true → s i ≡ true
found_stored s [] i h = absurd (cc)
found_stored s (j ∷ js) i h = found_in s j (keep_if s js) i (s j) refl (found_stored s js i) h

no_errors : (es : List ℕ) → reply_of es ≡ inserted → es ≡ []
no_errors [] h = refl
no_errors (e ∷ es) h = absurd (cc)

indexes_of : (es : List ℕ) → write_error_indexes (duplicates es) ≡ es
indexes_of [] = refl
indexes_of (e ∷ es) = ap (λ ks. e ∷ ks) (indexes_of es)

the_errors :
    (es : List ℕ) (ws : List WriteError)
    → reply_of es ≡ bulk_write_error ws
    → es ≡ write_error_indexes ws
the_errors [] ws h = absurd (cc)
the_errors (e ∷ es) ws h =
    let same : duplicates (e ∷ es) ≡ ws = cc in
    sym (indexes_of (e ∷ es)) ∙ ap write_error_indexes same

test_collection-Lawful : Lawful test_collection (λ s. s)
test_collection-Lawful = record {
  found = λ s ids i h. found_stored s ids i h;
  all_inserted =
      λ s s' docs e. (no_errors (insert_each s 0 docs).1 (ap (λ q. q.1) e), sym (ap (λ q. q.0) e));
  some_inserted = λ s s' docs ws e g.
      (the_errors (insert_each s 0 docs).1 ws (ap (λ q. q.1) e), sym (ap (λ q. q.0) e));
}

abbrev a_document : ℕ → SignalDocument
a_document i = record {
  signal_id = i;
  component_id = 5;
  component_type = api;
  severity = p2;
  raw_payload = 0;
  occurred_at = pos 1;
  received_at = pos 2;
  work_item_id = none;
}

abbrev only_4 : Stored
only_4 i = i == 4

insert_many_idempotent-Wrote_example :
    Wrote only_4
      (insert_many_idempotent test_collection
        (λ s. s)
        only_4
        (a_document 3 ∷ a_document 4 ∷ a_document 3 ∷ [])).0
      (a_document 3 ∷ a_document 4 ∷ a_document 3 ∷ [])
      (3 ∷ [])
unfolding insert_many_idempotent
insert_many_idempotent-Wrote_example =
    insert_many_idempotent-Wrote test_collection (λ s. s) test_collection-Lawful (λ s. s) only_4
      (λ i h. h) (a_document 3) (a_document 4 ∷ a_document 3 ∷ []) (3 ∷ []) refl
