-- ===== src/Signals/Insert.antt =====
-- What insertManyIdempotent of backend/src/repositories/mongo/signalRepository.ts stores and reports.
use mathlib.Core.Bool.{false≢true}
use mathlib.Core.List.{Memᴰ}
use mathlib.Core.List.Memᴰ.{head, tail, not-nil, cases_cons}
use inveni_ops.Base.{
  ℕ, ◌+◌, ◌≡◌, inl, inr, refl, ap, sym, ◌∙◌, subst, Bool, true, false, List, [], ◌∷◌, keep_if,
  if◌then◌else◌, Bool-cases,
}
use inveni_ops.Types.{Ident}
use inveni_ops.Retry.{Result, ok, err}
use inveni_ops.Worker.{SignalDocument}
use inveni_ops.Signals.{
  WriteError, InsertReply, inserted, bulk_write_error, other_error, Collection, contains, ids_of,
  landed, new_docs, write_error_indexes, is_all_duplicate_key_errors, reply_ids, insert_new,
  insert_many_idempotent, InsertError, bulk_error,
}
use inveni_ops.Signals.Each.{Stored, insert_each, stays, all_stored, landed_new, new_landed}

-- What MongoDB documents of a collection with a unique index on the id, by the test of what it
-- stores: the ids that are found are stored, and an unordered insertion that reports no other error
-- than duplicate keys has inserted each document in turn whose id was not stored, and reports the
-- indexes of the others.
pub record Lawful (collection : Collection) (stored : collection.Db → Stored) : Type 0 where
  pub found :
      (db : collection.Db) (ids : List Ident) (i : Ident)
      → contains (collection.find_ids db ids) i ≡ true
      → stored db i ≡ true
  pub all_inserted :
      (db db' : collection.Db) (docs : List SignalDocument)
      → collection.insert_many_unordered db docs ≡ (db', inserted)
      → ((insert_each (stored db) 0 docs).1 ≡ [])
        × (stored db' ≡ (insert_each (stored db) 0 docs).0)
  pub some_inserted :
      (db db' : collection.Db) (docs : List SignalDocument) (es : List WriteError)
      → collection.insert_many_unordered db docs ≡ (db', bulk_write_error es)
      → is_all_duplicate_key_errors es ≡ true
      → ((insert_each (stored db) 0 docs).1 ≡ write_error_indexes es)
        × (stored db' ≡ (insert_each (stored db) 0 docs).0)

ok-injective : {E A : Type 0} (a b : A) → Path (Result E A) (ok a) (ok b) → a ≡ b
ok-injective a b e = cc

-- How the stored ids go from `s` to `s'`, and the ids that are reported.
pub record Wrote (s s' : Stored) (signals : List SignalDocument) (ids : List Ident) : Type 0 where
  pub there : (i : Ident) → Memᴰ i (ids_of signals) → s' i ≡ true
  pub kept : (i : Ident) → s i ≡ true → s' i ≡ true
  pub fresh : (i : Ident) → Memᴰ i ids → s i ≡ false
  pub complete : (i : Ident) → Memᴰ i (ids_of signals) → s i ≡ false → Memᴰ i ids

Wrote-moved :
    (s s' t : Stored) (docs : List SignalDocument) (ids is : List Ident)
    → Wrote s s' docs ids
    → t ≡ s'
    → ids ≡ is
    → Wrote s t docs is
Wrote-moved s s' t docs ids is w e f =
    subst (λ x. Wrote s t docs x) f (subst (λ x. Wrote s x docs ids) (sym e) w)

insert_each-Wrote :
    (s : Stored) (docs : List SignalDocument)
    → Wrote s (insert_each s 0 docs).0 docs (landed (insert_each s 0 docs).1 0 docs)
insert_each-Wrote s docs = record {
  there = λ i m. all_stored docs s 0 i m;
  kept = λ i h. stays docs s 0 i h;
  fresh = λ i m. landed_new docs s 0 i m;
  complete = λ i m h. new_landed docs s 0 i m h;
}

landed_all : (k : ℕ) (docs : List SignalDocument) → landed [] k docs ≡ ids_of docs
landed_all k [] = refl
landed_all k (d ∷ ds) = ap (λ ids. d.signal_id ∷ ids) (landed_all (k + 1) ds)

-- What is not looked up as stored goes into the insertion.
listed_new :
    (existing : List Ident) (signals : List SignalDocument) (i : Ident)
    → Memᴰ i (ids_of signals)
    → contains existing i ≡ false
    → Memᴰ i (ids_of (new_docs existing signals))
listed_new existing [] i m h = absurd (not-nil m)
listed_new existing (s ∷ ss) i m h = elim (Bool-cases (contains existing s.signal_id)) [
  | inl e ↦
      rw (e, new_docs, keep_if)
        (elim (cases_cons m) [
          | inl same ↦ absurd (false≢true (sym h ∙ ap (contains existing) same ∙ e))
          | inr later ↦ listed_new existing ss i later h
        ])
  | inr e ↦
      rw (e, new_docs, keep_if)
        (elim (cases_cons m) [
          | inl same ↦ head same
          | inr later ↦ tail (listed_new existing ss i later h)
        ])
]

module _ (collection : Collection) (stored : collection.Db → Stored)
    (lawful : Lawful collection stored) where
  open collection use {Db, Error, find_ids, insert_many_unordered}

  bulk_reply :
      List SignalDocument
      → Db
      → List WriteError
      → Bool
      → Db × Result (InsertError Error) (List Ident)
  bulk_reply docs db es true = (db, ok (landed (write_error_indexes es) 0 docs))
  bulk_reply docs db es false = (db, err (bulk_error es))

  bulk-Wrote :
      (db : Db) (docs : List SignalDocument) (db' : Db) (es : List WriteError) (b : Bool)
      → is_all_duplicate_key_errors es ≡ b
      → insert_many_unordered db docs ≡ (db', bulk_write_error es)
      → (ids : List Ident) → (bulk_reply docs db' es b).1 ≡ ok ids
      → Wrote (stored db) (stored (bulk_reply docs db' es b).0) docs ids
  unfolding bulk_reply
  bulk-Wrote db docs db' es true g e ids f =
      let (failed, now) = lawful.some_inserted db db' docs es e g in
      Wrote-moved (stored db) (insert_each (stored db) 0 docs).0 (stored db') docs
        (landed (insert_each (stored db) 0 docs).1 0 docs) ids (insert_each-Wrote (stored db) docs)
        now
        (ap (λ k. landed k 0 docs) failed
          ∙ ok-injective (landed (write_error_indexes es) 0 docs) ids f)
  bulk-Wrote db docs db' es false g e ids f = absurd (cc)

  bulk_same :
      (docs : List SignalDocument) (db : Db) (es : List WriteError) (b : Bool)
      → (if b then (db, ok (landed (write_error_indexes es) 0 docs)) else (db, err (bulk_error es)))
        ≡ bulk_reply docs db es b
  unfolding bulk_reply
  bulk_same docs db es true = refl
  bulk_same docs db es false = refl

  reply-Wrote :
      (db : Db) (docs : List SignalDocument) (r : Db × InsertReply Error)
      → insert_many_unordered db docs ≡ r
      → (ids : List Ident) → (reply_ids collection docs r).1 ≡ ok ids
      → Wrote (stored db) (stored (reply_ids collection docs r).0) docs ids
  reply-Wrote db docs (db', inserted) e ids f =
      let (none_failed, now) = lawful.all_inserted db db' docs e in
      Wrote-moved (stored db) (insert_each (stored db) 0 docs).0 (stored db') docs
        (landed (insert_each (stored db) 0 docs).1 0 docs) ids (insert_each-Wrote (stored db) docs)
        now
        (ap (λ es. landed es 0 docs) none_failed
          ∙ landed_all 0 docs
          ∙ ok-injective (ids_of docs) ids f)
  reply-Wrote db docs (db', bulk_write_error es) e ids f =
      let same = bulk_same docs db' es (is_all_duplicate_key_errors es) in
      subst (λ q. Wrote (stored db) (stored q.0) docs ids) (sym same)
        (bulk-Wrote db docs db' es (is_all_duplicate_key_errors es) refl e ids
          (sym (ap (λ q. q.1) same) ∙ f))
  reply-Wrote db docs (db', other_error x) e ids f = absurd (cc)

  new-Wrote :
      (db : Db) (docs : List SignalDocument) (ids : List Ident)
      → (insert_new collection db docs).1 ≡ ok ids
      → Wrote (stored db) (stored (insert_new collection db docs).0) docs ids
  new-Wrote db [] ids f =
      Wrote-moved (stored db) (stored db) (stored db) [] [] ids (insert_each-Wrote (stored db) [])
        refl (ok-injective [] ids f)
  new-Wrote db (d ∷ ds) ids f =
      reply-Wrote db (d ∷ ds) (insert_many_unordered db (d ∷ ds)) refl ids f

  -- If the insertion returns ids, then every signal of the batch is stored, nothing that was stored
  -- is lost, and the ids are those of the batch that were not stored when the insertion began: all
  -- of them and no others, so that a batch that is delivered again reports none. Other workers may
  -- store signals between the look-up and the insertion, but not remove any.
  pub insert_many_idempotent-Wrote :
      (others : Db → Db) (db : Db)
      → ((i : Ident) → stored db i ≡ true → stored (others db) i ≡ true)
      → (s : SignalDocument) (signals : List SignalDocument) (ids : List Ident)
      → (insert_many_idempotent collection others db (s ∷ signals)).1 ≡ ok ids
      → Wrote
          (stored (others db))
          (stored (insert_many_idempotent collection others db (s ∷ signals)).0)
          (s ∷ signals)
          ids
  unfolding insert_many_idempotent
  insert_many_idempotent-Wrote others db keep s signals ids f =
      let existing = find_ids db (ids_of (s ∷ signals)) in
      let w = new-Wrote (others db) (new_docs existing (s ∷ signals)) ids f in
      let seen = λ (i : Ident) (e : contains existing i ≡ true).
        keep i (lawful.found db (ids_of (s ∷ signals)) i e) in
      record {
        there = λ i m. elim (Bool-cases (contains existing i)) [
          | inl e ↦ w.kept i (seen i e)
          | inr e ↦ w.there i (listed_new existing (s ∷ signals) i m e)
        ];
        kept = w.kept;
        fresh = w.fresh;
        complete = λ i m h. elim (Bool-cases (contains existing i)) [
          | inl e ↦ absurd (false≢true (sym h ∙ seen i e))
          | inr e ↦ w.complete i (listed_new existing (s ∷ signals) i m e) h
        ];
      }
