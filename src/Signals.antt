-- ===== src/Signals.antt =====
-- insertManyIdempotent of backend/src/repositories/mongo/signalRepository.ts. The collection is the
-- record `Collection`: MongoDB's own operations over one state Db of it.
pub mod Each
pub mod Insert
use inveni_ops.Base.{
  ℕ, ◌+◌, Bool, true, false, not, ◌&&◌, List, [], ◌∷◌, map, keep_if, if◌then◌else◌, ◌==◌, ◌||◌,
}
use inveni_ops.Types.{Ident}
use inveni_ops.Retry.{Result, ok, err}
use inveni_ops.Worker.{SignalDocument}

-- A write error of a bulk write: the index of its document, and whether its code is 11000.
pub record WriteError : Type 0 where
  pub index : ℕ
  pub is_duplicate_key : Bool

-- How an unordered insertMany ends: with all documents stored, with a MongoBulkWriteError, or with
-- another error.
pub data InsertReply (E : Type 0) : Type 0 where
  inserted : InsertReply E
  bulk_write_error : List WriteError → InsertReply E
  other_error : E → InsertReply E

pub record Collection : Type 1 where
  pub Db : Type 0
  pub Error : Type 0
  -- The ids among those given that are stored.
  pub find_ids : Db → List Ident → List Ident
  pub insert_many_unordered : Db → List SignalDocument → Db × InsertReply Error

pub data InsertError (E : Type 0) : Type 0 where
  bulk_error : List WriteError → InsertError E
  thrown_error : E → InsertError E

abbrev pub contains : List ℕ → ℕ → Bool
contains [] x = false
contains (y ∷ ys) x = y == x || contains ys x

abbrev pub ids_of : List SignalDocument → List Ident
ids_of docs = map (λ (d : SignalDocument). d.signal_id) docs

abbrev pub every_duplicate : List WriteError → Bool
every_duplicate [] = true
every_duplicate (e ∷ es) = e.is_duplicate_key && every_duplicate es

abbrev pub is_all_duplicate_key_errors : List WriteError → Bool
is_all_duplicate_key_errors [] = false
is_all_duplicate_key_errors (e ∷ es) = every_duplicate (e ∷ es)

abbrev pub write_error_indexes : List WriteError → List ℕ
write_error_indexes es = map (λ (e : WriteError). e.index) es

-- The ids of the documents, from an index on, whose index did not fail.
abbrev pub landed : List ℕ → ℕ → List SignalDocument → List Ident
landed failed index [] = []
landed failed index (d ∷ ds) =
    let rest = landed failed (index + 1) ds in
    if contains failed index then rest else d.signal_id ∷ rest

abbrev pub new_docs : List Ident → List SignalDocument → List SignalDocument
new_docs existing signals =
    keep_if (λ (s : SignalDocument). not (contains existing s.signal_id)) signals

module _ (collection : Collection) where
  open collection use {Db, Error, find_ids, insert_many_unordered}

  abbrev pub reply_ids :
      List SignalDocument → Db × InsertReply Error → Db × Result (InsertError Error) (List Ident)
  reply_ids docs (db, inserted) = (db, ok (ids_of docs))
  reply_ids docs (db, bulk_write_error es) =
      if is_all_duplicate_key_errors es
      then (db, ok (landed (write_error_indexes es) 0 docs))
      else (db, err (bulk_error es))
  reply_ids docs (db, other_error e) = (db, err (thrown_error e))

  abbrev pub insert_new : Db → List SignalDocument → Db × Result (InsertError Error) (List Ident)
  insert_new db [] = (db, ok [])
  insert_new db (d ∷ ds) = reply_ids (d ∷ ds) (insert_many_unordered db (d ∷ ds))

  -- `others` is what other workers do between the look-up and the insertion.
  unfoldable pub insert_many_idempotent :
      (Db → Db) → Db → List SignalDocument → Db × Result (InsertError Error) (List Ident)
  insert_many_idempotent others db [] = (db, ok [])
  insert_many_idempotent others db (s ∷ signals) =
      insert_new (others db) (new_docs (find_ids db (ids_of (s ∷ signals))) (s ∷ signals))
