-- ===== src/WorkItems/Closing.antt =====
-- submitRca of backend/src/repositories/postgres/workItemRepository.ts: the closing transition and
-- the RCA row are written together or not at all.
use inveni_ops.Base.{
  ◌≡◌, refl, sym, ◌∙◌, ap, ◌≢◌, ◌⊎◌, inl, inr, ◌∷◌, some, none, Bool-cases, Option-cases, ◌==◌,
  ==_iff, ltb, ◌<◌, ◌≤◌, ℕ, List, arith,
}
use mathlib.Core.Bool.{false≢true}
use mathlib.Core.Option.{some-injective}
use inveni_ops.Types.{Ident, closed, resolved}
use inveni_ops.Base.Int.{ℤ}
use inveni_ops.Retry.{Result, ok, err, RetryError, thrown}
use inveni_ops.Postgres.{
  PgError, PrismaError, Fault, optimistic_concurrency, unique_violation, prisma,
}
use inveni_ops.Postgres.Tried.{
  Tried, Ended, heard, failed, Raised, throwing, with_postgres_retry-Ended, Tried-kept,
}
use inveni_ops.WorkItems.{
  Database, Lawful, WorkItem, RcaRow, TransitionStateInput, SubmitRcaInput, closing_input, rca_row,
  transition_once, insert_rca, submit_once, submit_rca,
}
use inveni_ops.WorkItems.Transitions.{
  Applied, Matching-cases, moved_db, moved_db-Applied, guarded_hit, guarded_miss, found_then,
  transition_once-Applied_or_conflict, TransitionTried, TransitionEnded, applied, overtaken, broken,
}

-- The row `w` after it has been closed: these three fields and no other.
abbrev pub closed_item : ℤ → ℤ → WorkItem → WorkItem
closed_item now stamp w = record w { state = closed; closed_at = some now; updated_at = stamp }

-- The row that holds what was submitted.
abbrev pub submitted_row : SubmitRcaInput → RcaRow
submitted_row input = record {
  work_item_id = input.work_item_id;
  incident_start_time = input.rca.incident_start_time;
  incident_end_time = input.rca.incident_end_time;
  root_cause_category = input.rca.root_cause_category;
  root_cause_description = input.rca.root_cause_description;
  fix_applied = input.rca.fix_applied;
  prevention_steps = input.rca.prevention_steps;
  mttr_seconds = input.mttr_seconds;
  submitted_at = input.now;
}

module _ (d : Database) (law : Lawful d) where
  open d use {Db, item, rca, trail, clock, create_rca}

  -- The work item is there, and RESOLVED.
  abbrev pub IsResolved : Db → Ident → Type 0
  IsResolved db i = (w : WorkItem) × (item db i ≡ some w) × (w.state ≡ resolved)

  -- `db'` is `db` with the work item of `input` closed and its RCA stored.
  pub record Closed (db : Db) (input : SubmitRcaInput) (w : WorkItem) (db' : Db) : Type 0 where
    pub before : item db input.work_item_id ≡ some w
    pub was_resolved : w.state ≡ resolved
    pub unanswered : rca db input.work_item_id ≡ none
    pub fits : input.mttr_seconds < 2147483648
    pub after : item db' input.work_item_id ≡ some (closed_item input.now (clock db) w)
    pub stored : rca db' input.work_item_id ≡ some (submitted_row input)
    pub other_items : (j : Ident) → input.work_item_id ≢ j → item db' j ≡ item db j
    pub other_rcas : (j : Ident) → input.work_item_id ≢ j → rca db' j ≡ rca db j
    pub audited :
        trail db'
        ≡ (record {
          work_item_id = input.work_item_id;
          from_state = resolved;
          to_state = closed;
          actor = input.actor;
        })
          ∷ trail db

  -- How one run of the transaction ends.
  pub data SubmittedOnce (db : Db) (input : SubmitRcaInput)
      : Db × Result PgError WorkItem → Type 0 where
    closing :
        (w : WorkItem) (db' : Db)
        → Closed db input w db'
        → SubmittedOnce db input (db', ok (closed_item input.now (clock db) w))
    unresolved :
        ¬ IsResolved db input.work_item_id
        → SubmittedOnce db input (db, err (optimistic_concurrency input.work_item_id resolved))
    duplicate :
        (r : RcaRow)
        → IsResolved db input.work_item_id
        → rca db input.work_item_id ≡ some r
        → SubmittedOnce db input (db, err unique_violation)
    too_long :
        (e : PrismaError)
        → IsResolved db input.work_item_id
        → 2147483648 ≤ input.mttr_seconds
        → SubmittedOnce db input (db, err (prisma e))

  insert_then :
      (db db' : Db) (r : RcaRow) → create_rca db r ≡ ok db' → insert_rca d db r ≡ ok (db', tt)
  unfolding insert_rca
  insert_then db db' r stored = rw (insert_rca, stored) refl

  insert_fails :
      (db : Db) (r : RcaRow) (e : PgError) → create_rca db r ≡ err e → insert_rca d db r ≡ err e
  unfolding insert_rca
  insert_fails db r e taken = rw (insert_rca, taken) refl

  submit_resolved :
      (db : Db) (input : SubmitRcaInput) (w : WorkItem)
      → item db input.work_item_id ≡ some w
      → w.state ≡ resolved
      → SubmittedOnce db input (submit_once d input db)
  unfolding submit_once
  submit_resolved db input w found same =
      let step = closing_input input in
      let i = input.work_item_id in
      let r = rca_row input in
      let mid = moved_db d law db step in
      let hit = guarded_hit d law db step w found same in
      let moved = moved_db-Applied d law db step w found same in
      elim (Bool-cases (ltb input.mttr_seconds 2147483648)) [
        | inr large ↦
            let big : 2147483648 ≤ input.mttr_seconds = ground arith in
            let (e, refusal) = law.rca_too_large mid r big in
            rw (hit, insert_fails mid r (prisma e) refusal) (too_long e (w, found, same) big)
        | inl small ↦
            let fits : input.mttr_seconds < 2147483648 = ground arith in
            elim (Option-cases (rca db i)) [
              | inr (s, taken) ↦
                  rw
                    (
                      hit,
                      insert_fails mid r unique_violation
                          (law.rca_taken mid r s fits (moved.rca_kept i ∙ taken)),
                    )
                    (duplicate s (w, found, same) taken)
              | inl free ↦
                  let (db', done, stored, items, rcas, audit) =
                    law.rca_stored mid r fits (moved.rca_kept i ∙ free) in
                  rw
                    (
                      hit,
                      insert_then mid db' r done,
                      found_then d law db' i _ (items i ∙ moved.after),
                    )
                    (closing w db' (record {
                      before = found;
                      was_resolved = same;
                      unanswered = free;
                      fits = fits;
                      after = items i ∙ moved.after;
                      stored = stored;
                      other_items = λ j apart. items j ∙ moved.others j apart;
                      other_rcas = λ j apart. rcas j apart ∙ moved.rca_kept j;
                      audited = audit ∙ moved.audited;
                    }))
            ]
      ]

  pub submit_once-SubmittedOnce :
      (db : Db) (input : SubmitRcaInput) → SubmittedOnce db input (submit_once d input db)
  unfolding submit_once
  submit_once-SubmittedOnce db input = elim (Matching-cases d law db (closing_input input)) [
    | inl (w, found, same) ↦ submit_resolved db input w found same
    | inr miss ↦
        rw (guarded_miss d law db (closing_input input) miss) (unresolved (λ m. miss m.0 m.1 m.2))
  ]

  module _ (others : ℕ → Db → Db) where
    abbrev pub SubmissionTried : SubmitRcaInput → Db → Db → Type 0
    SubmissionTried input = Tried others (submit_once d input)

    -- How submitRca ends, `later` being the database that its last try finds.
    pub data SubmissionEnded (faults : List Fault) (db : Db) (input : SubmitRcaInput)
        : Db × Result (RetryError PgError) WorkItem → Type 0 where
      tried :
          (later : Db) (r : Db × Result PgError WorkItem)
          → SubmissionTried input db later
          → SubmittedOnce later input r
          → SubmissionEnded faults db input (throwing others (submit_once d input) r)
      interrupted :
          (later : Db) (e : PrismaError)
          → SubmissionTried input db later
          → Raised faults e
          → SubmissionEnded faults db input (later, err (thrown (prisma e)))

    Ended-SubmissionEnded :
        (faults : List Fault) (db : Db) (input : SubmitRcaInput)
        (r : Db × Result (RetryError PgError) WorkItem)
        → Ended others (submit_once d input) faults db r
        → SubmissionEnded faults db input r
    Ended-SubmissionEnded faults db input _ (heard later so_far) =
        tried later (submit_once d input later) so_far (submit_once-SubmittedOnce later input)
    Ended-SubmissionEnded faults db input _ (failed later e so_far raised) =
        interrupted later e so_far raised

    pub submit_rca-Closed_or_rolled_back :
        (faults : List Fault) (db : Db) (input : SubmitRcaInput)
        → SubmissionEnded faults db input (submit_rca d others faults db input)
    unfolding submit_rca
    submit_rca-Closed_or_rolled_back faults db input =
        Ended-SubmissionEnded faults db input _
          (with_postgres_retry-Ended others (submit_once d input) faults db)

  -- Every closed work item has an RCA.
  unfoldable pub ClosedHasRca : Db → Type 0
  ClosedHasRca db =
      (i : Ident) (w : WorkItem)
      → item db i ≡ some w
      → w.state ≡ closed
      → (r : RcaRow) × (rca db i ≡ some r)

  abbrev is_this : (i j : Ident) → (i ≡ j) ⊎ (i ≢ j)
  is_this i j = elim (Bool-cases (i == j)) [
    | inl same ↦ inl ((==_iff i j).0 same)
    | inr differ ↦ inr (λ e. false≢true (sym differ ∙ (==_iff i j).1 e))
  ]

  -- A transition whose target is not CLOSED keeps the invariant.
  pub Applied-ClosedHasRca :
      (db : Db) (input : TransitionStateInput) (w : WorkItem) (db' : Db)
      → input.to_state ≢ closed
      → Applied d law db input w db'
      → ClosedHasRca db
      → ClosedHasRca db'
  unfolding ClosedHasRca
  Applied-ClosedHasRca db input w db' not_closing step inv i v found is_closed =
      elim (is_this input.work_item_id i) [
        | inr apart ↦
            let (r, has) = inv i v (sym (step.others i apart) ∙ found) is_closed in
            (r, step.rca_kept i ∙ has)
        | inl same ↦ absurd (
            not_closing (
              ap (λ u. u.state) (some-injective _ _ (sym step.after ∙ (ap (item db') same ∙ found)))
              ∙ is_closed))
      ]

  pub Closed-ClosedHasRca :
      (db : Db) (input : SubmitRcaInput) (w : WorkItem) (db' : Db)
      → Closed db input w db'
      → ClosedHasRca db
      → ClosedHasRca db'
  unfolding ClosedHasRca
  Closed-ClosedHasRca db input w db' step inv i v found is_closed =
      elim (is_this input.work_item_id i) [
        | inr apart ↦
            let (r, has) = inv i v (sym (step.other_items i apart) ∙ found) is_closed in
            (r, step.other_rcas i apart ∙ has)
        | inl same ↦ (submitted_row input, ap (rca db') (sym same) ∙ step.stored)
      ]

  pub transition_once-ClosedHasRca :
      (input : TransitionStateInput) (db : Db)
      → input.to_state ≢ closed
      → ClosedHasRca db
      → ClosedHasRca (transition_once d input db).0
  transition_once-ClosedHasRca input db not_closing inv =
      elim (transition_once-Applied_or_conflict d law db input) [
        | inl (w, db', step, result) ↦
            rw result (Applied-ClosedHasRca db input w db' not_closing step inv)
        | inr (miss, result) ↦ rw result inv
      ]

  SubmittedOnce-ClosedHasRca :
      (input : SubmitRcaInput) (db : Db) (r : Db × Result PgError WorkItem)
      → SubmittedOnce db input r
      → ClosedHasRca db
      → ClosedHasRca r.0
  SubmittedOnce-ClosedHasRca input db _ (closing w db' step) inv =
      Closed-ClosedHasRca db input w db' step inv
  SubmittedOnce-ClosedHasRca input db _ (unresolved h) inv = inv
  SubmittedOnce-ClosedHasRca input db _ (duplicate r h taken) inv = inv
  SubmittedOnce-ClosedHasRca input db _ (too_long e h large) inv = inv

  pub submit_once-ClosedHasRca :
      (input : SubmitRcaInput) (db : Db) → ClosedHasRca db → ClosedHasRca (submit_once d input db).0
  submit_once-ClosedHasRca input db inv =
      SubmittedOnce-ClosedHasRca input db _ (submit_once-SubmittedOnce db input) inv

  module _ (others : ℕ → Db → Db)
      (fair : (n : ℕ) (db : Db) → ClosedHasRca db → ClosedHasRca (others n db)) where
    pub Transition-kept :
        (db : Db) (input : TransitionStateInput) (later : Db)
        → input.to_state ≢ closed
        → TransitionTried d law others input db later
        → ClosedHasRca db
        → ClosedHasRca later
    Transition-kept db input later not_closing =
        Tried-kept others (transition_once d input) ClosedHasRca fair
          (λ v inv. transition_once-ClosedHasRca input v not_closing inv) db later

    pub TransitionEnded-ClosedHasRca :
        (faults : List Fault) (db : Db) (input : TransitionStateInput)
        (r : Db × Result (RetryError PgError) WorkItem)
        → input.to_state ≢ closed
        → TransitionEnded d law others faults db input r
        → ClosedHasRca db
        → ClosedHasRca r.0
    TransitionEnded-ClosedHasRca faults db input _ not_closing (applied later w db' so_far step)
          inv =
        Applied-ClosedHasRca later input w db' not_closing step
          (Transition-kept db input later not_closing so_far inv)
    TransitionEnded-ClosedHasRca faults db input _ not_closing (overtaken later so_far miss) inv =
        Transition-kept db input later not_closing so_far inv
    TransitionEnded-ClosedHasRca faults db input _ not_closing (broken later e so_far raised) inv =
        Transition-kept db input later not_closing so_far inv

    pub Submission-kept :
        (db : Db) (input : SubmitRcaInput) (later : Db)
        → SubmissionTried others input db later
        → ClosedHasRca db
        → ClosedHasRca later
    Submission-kept db input later =
        Tried-kept others (submit_once d input) ClosedHasRca fair (submit_once-ClosedHasRca input)
          db later
