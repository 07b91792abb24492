-- ===== src/Workflow/Submission.antt =====
-- submitIncidentRca of backend/src/services/workitems/workflowService.ts.
use inveni_ops.Base.{
  ℕ, ◌*◌, ◌≤◌, ◌∷◌, ◌≡◌, refl, sym, ◌∙◌, ◌≢◌, inl, inr, Bool, true, false, List, [], some, none,
  Option, Option-cases, Bool-cases, subst,
}
use inveni_ops.Base.Int.{ℤ, ◌-ℤ◌, pos_part}
use inveni_ops.Types.{Ident, closed, resolved}
use inveni_ops.Text.{Text}
use inveni_ops.State.Lifecycle.{Step, close, transition-Step_or_invalid}
use inveni_ops.Rca.{
  RcaRecord, RcaFieldError, object, invalid, validate_rca, rca_close_guard, calculate_mttr,
  mttr_seconds,
}
use inveni_ops.Rca.Laws.{IsComplete, validate_rca-IsComplete}
use inveni_ops.Rca.Candidate.{RawInput, to_rca_candidate}
use inveni_ops.Retry.{Result, RetryError, thrown}
use inveni_ops.Postgres.{PgError, PrismaError, prisma, unique_violation}
use inveni_ops.Postgres.Tried.{Raised, throwing}
use inveni_ops.WorkItems.{Database, Lawful, WorkItem, RcaRow, submit_once}
use inveni_ops.WorkItems.Reading.{find_by_id-Read}
use inveni_ops.Workflow.Guarded.{
  Records, valid_cases, valid-invalid, not_moved, guard_passed, IsComplete-Records, IsComplete-mttr,
  guard-valid, valid-guard,
}
use inveni_ops.WorkItems.Closing.{
  Closed, closed_item, submitted_row, IsResolved, closing, unresolved, duplicate, too_long,
  SubmissionTried, SubmittedOnce, SubmissionEnded, tried, interrupted, ClosedHasRca,
  Closed-ClosedHasRca, Submission-kept, submit_rca-Closed_or_rolled_back,
}
use inveni_ops.Workflow.{
  Effect, remove_incident, dispatch, record_state_transition, record_mttr,
  publish_work_item_state_changed, store_error, cache_error, CallFaults, RcaSubmissionOutcome,
  rca_not_found, invalid_rca, invalid_state, incident_closed, rca_thrown, rca_input,
  validation_context, request, finish_submission, close_incident, submit_incident_rca,
}

module _ (d : Database) (law : Lawful d) where
  open d use {Db, item}

  -- What holds of every closing: the item was read in RESOLVED, its candidate is complete, the row
  -- says what the candidate says, and the time to repair is the one computed from the first signal.
  pub record Justified (db later : Db) (i : Ident) (c : RcaRecord) (actor : Ident) (now : ℤ)
      (w v : WorkItem) (seconds : ℕ) (db' : Db) : Type 0 where
    pub found : item db i ≡ some w
    pub was_resolved : w.state ≡ resolved
    pub whole : IsComplete c (validation_context w now)
    pub time_to_repair : calculate_mttr w.first_signal_at now ≡ mttr_seconds seconds
    pub of_item : (rca_input c i actor seconds now).work_item_id ≡ i
    pub by_actor : (rca_input c i actor seconds now).actor ≡ actor
    pub in_time : (rca_input c i actor seconds now).mttr_seconds ≡ seconds
    pub at_once : (rca_input c i actor seconds now).now ≡ now
    pub as_submitted : Records c (submitted_row (rca_input c i actor seconds now))
    pub together : Closed d law later (rca_input c i actor seconds now) v db'

module _ (d : Database) (law : Lawful d) (cache_up : Bool) (others : ℕ → d.Db → d.Db)
    (faults : CallFaults) where
  open d use {Db, item, rca, clock}

  -- What the cache, the alerts, the metrics and the feed are told, in this order.
  abbrev pub told : WorkItem → WorkItem → Ident → ℕ → ℤ → List Effect
  told w u i seconds now =
      remove_incident i
      ∷ dispatch u closed
      ∷ record_state_transition (record {
        ts = now;
        from_state = w.state;
        to_state = closed;
        time_in_state_ms = pos_part (now -ℤ w.updated_at);
      })
      ∷ record_mttr (record {
        ts = now;
        component_type = u.component_type;
        severity = u.severity;
        component_id = u.component_id;
        mttr_ms = seconds * 1000;
      })
      ∷ publish_work_item_state_changed u w.state closed
      ∷ []

  -- The database that the last try of the write finds.
  abbrev pub Later : Db → RcaRecord → Ident → Ident → ℕ → ℤ → Db → Type 0
  Later between c i actor seconds now =
      SubmissionTried d law others (rca_input c i actor seconds now) between

  -- The ways in which a submission can end; the reply is the database, the calls and the answer.
  -- `db` is read; `between` is what the write begins with.
  pub data Submitted (db between : Db) (i : Ident) (c : RcaRecord) (actor : Ident) (now : ℤ)
      : Db × List Effect × RcaSubmissionOutcome → Type 0 where
    unread :
        (e : PrismaError)
        → Raised faults.reading e
        → Submitted db between i c actor now (db, [], rca_thrown (store_error (thrown (prisma e))))
    unknown_item : item db i ≡ none → Submitted db between i c actor now (db, [], rca_not_found)
    incomplete :
        (w : WorkItem) (es : List RcaFieldError)
        → item db i ≡ some w
        → ¬ IsComplete c (validation_context w now)
        → validate_rca c (validation_context w now) ≡ invalid es
        → Submitted db between i c actor now (db, [], invalid_rca es)
    wrong_state :
        (w : WorkItem)
        → item db i ≡ some w
        → IsComplete c (validation_context w now)
        → w.state ≢ resolved
        → Submitted db between i c actor now (db, [], invalid_state)
    overtaken :
        (w : WorkItem) (seconds : ℕ) (later : Db)
        → item db i ≡ some w
        → IsComplete c (validation_context w now)
        → Later between c i actor seconds now later
        → ¬ IsResolved d law later i
        → Submitted db between i c actor now (later, [], invalid_state)
    answered :
        (w : WorkItem) (seconds : ℕ) (later : Db) (r : RcaRow)
        → item db i ≡ some w
        → IsComplete c (validation_context w now)
        → Later between c i actor seconds now later
        → rca later i ≡ some r
        → Submitted db between i c actor now
            (later, [], rca_thrown (store_error (thrown unique_violation)))
    overflow :
        (w : WorkItem) (seconds : ℕ) (later : Db) (e : PrismaError)
        → item db i ≡ some w
        → calculate_mttr w.first_signal_at now ≡ mttr_seconds seconds
        → 2147483648 ≤ seconds
        → Later between c i actor seconds now later
        → Submitted db between i c actor now
            (later, [], rca_thrown (store_error (thrown (prisma e))))
    unwritten :
        (w : WorkItem) (seconds : ℕ) (later : Db) (e : PrismaError)
        → item db i ≡ some w
        → IsComplete c (validation_context w now)
        → Later between c i actor seconds now later
        → Raised faults.writing e
        → Submitted db between i c actor now
            (later, [], rca_thrown (store_error (thrown (prisma e))))
    done :
        (w v : WorkItem) (seconds : ℕ) (later db' : Db)
        → Later between c i actor seconds now later
        → Justified d law db later i c actor now w v seconds db'
        → cache_up ≡ true
        → Submitted db between i c actor now (
          db',
          told w (closed_item now (clock later) v) i seconds now,
          incident_closed (closed_item now (clock later) v) seconds,
        )
    unreported :
        (w v : WorkItem) (seconds : ℕ) (later db' : Db)
        → Later between c i actor seconds now later
        → Justified d law db later i c actor now w v seconds db'
        → cache_up ≡ false
        → Submitted db between i c actor now (db', [], rca_thrown cache_error)

  tried_submission-Submitted :
      (db between : Db) (i : Ident) (c : RcaRecord) (actor : Ident) (now : ℤ) (w : WorkItem)
      (seconds : ℕ)
      → item db i ≡ some w
      → w.state ≡ resolved
      → IsComplete c (validation_context w now)
      → calculate_mttr w.first_signal_at now ≡ mttr_seconds seconds
      → (later : Db) → Later between c i actor seconds now later
      → (r : Db × Result PgError WorkItem)
      → SubmittedOnce d law later (rca_input c i actor seconds now) r
      → Submitted db between i c actor now (
          finish_submission d cache_up others faults w i seconds now
            (throwing others (submit_once d (rca_input c i actor seconds now)) r))
  unfolding finish_submission
  tried_submission-Submitted db between i c actor now w seconds found at_resolved whole computed
        later so_far _ (closing v db' together) =
      let why : Justified d law db later i c actor now w v seconds db' = record {
        found = found;
        was_resolved = at_resolved;
        whole = whole;
        time_to_repair = computed;
        of_item = refl;
        by_actor = refl;
        in_time = refl;
        at_once = refl;
        as_submitted = IsComplete-Records c (validation_context w now) i actor seconds now whole;
        together = together;
      } in
      elim (Bool-cases cache_up) [
        | inl up ↦ rw up (done w v seconds later db' so_far why refl)
        | inr down ↦ rw down (unreported w v seconds later db' so_far why refl)
      ]
  tried_submission-Submitted db between i c actor now w seconds found at_resolved whole computed
        later so_far _ (unresolved lost) =
      overtaken w seconds later found whole so_far lost
  tried_submission-Submitted db between i c actor now w seconds found at_resolved whole computed
        later so_far _ (duplicate r there taken) =
      answered w seconds later r found whole so_far taken
  tried_submission-Submitted db between i c actor now w seconds found at_resolved whole computed
        later so_far _ (too_long e there large) =
      overflow w seconds later e found computed large so_far

  finish_submission-Submitted :
      (db between : Db) (i : Ident) (c : RcaRecord) (actor : Ident) (now : ℤ) (w : WorkItem)
      (seconds : ℕ)
      → item db i ≡ some w
      → w.state ≡ resolved
      → IsComplete c (validation_context w now)
      → calculate_mttr w.first_signal_at now ≡ mttr_seconds seconds
      → (r : Db × Result (RetryError PgError) WorkItem)
      → SubmissionEnded d law others faults.writing between (rca_input c i actor seconds now) r
      → Submitted db between i c actor now
          (finish_submission d cache_up others faults w i seconds now r)
  unfolding finish_submission
  finish_submission-Submitted db between i c actor now w seconds found at_resolved whole computed _
        (tried later r so_far ends) =
      tried_submission-Submitted db between i c actor now w seconds found at_resolved whole computed
        later so_far r ends
  finish_submission-Submitted db between i c actor now w seconds found at_resolved whole computed _
        (interrupted later e so_far raised) =
      unwritten w seconds later e found whole so_far raised

  close_incident-Submitted :
      (db between : Db) (i : Ident) (c : RcaRecord) (actor : Ident) (now : ℤ) (w : WorkItem)
      → item db i ≡ some w
      → w.state ≡ resolved
      → IsComplete c (validation_context w now)
      → Submitted db between i c actor now (
          close_incident d cache_up others faults db between w c i actor now
            (calculate_mttr w.first_signal_at now))
  unfolding close_incident
  close_incident-Submitted db between i c actor now w found at_resolved whole =
      let (seconds, computed) = IsComplete-mttr c (validation_context w now) whole in
      rw computed (
        finish_submission-Submitted db between i c actor now w seconds found at_resolved whole
          computed _
          (submit_rca-Closed_or_rolled_back d law others faults.writing between
            (rca_input c i actor seconds now)))

  pub submit_incident_rca-Submitted :
      (new_date : Text → Option ℤ) (db : Db) (between : Db → Db) (i : Ident) (raw : RawInput)
      (actor : Ident) (now : ℤ)
      → Submitted db
          (between db)
          i
          (to_rca_candidate new_date raw)
          actor
          now
          (submit_incident_rca d cache_up others faults new_date db between i raw actor now)
  unfolding submit_incident_rca
  submit_incident_rca-Submitted new_date db between i raw actor now =
      let c = to_rca_candidate new_date raw in
      elim (find_by_id-Read d faults.reading db i) [
        | inr (e, raised, answer) ↦ rw (submit_incident_rca, answer) (unread e raised)
        | inl answer ↦ elim (Option-cases (item db i)) [
          | inl missing ↦ rw (submit_incident_rca, answer, missing) (unknown_item missing)
          | inr (w, found) ↦
              elim (transition-Step_or_invalid (rca_close_guard now) w.state
                (request w closed (object c))) [
                  | inl (step, allowed) ↦
                      rw (submit_incident_rca, answer, found, allowed)
                        (close_incident-Submitted db (between db) i c actor now w found
                          (not_moved step)
                          ((validate_rca-IsComplete c (validation_context w now)).0
                            (guard-valid w c now (guard_passed step))))
                  | inr (no_step, refused) ↦
                      elim (valid_cases (validate_rca c (validation_context w now))) [
                        | inl fine ↦
                            rw (submit_incident_rca, answer, found, refused, fine)
                              (wrong_state w found
                                ((validate_rca-IsComplete c (validation_context w now)).0 fine)
                                (λ e. no_step (
                                  subst
                                    (λ s.
                                      Step (rca_close_guard now (request w closed (object c))) s
                                        closed)
                                    (sym e) (close (valid-guard w c now fine)))))
                        | inr (es, bad) ↦
                            rw (submit_incident_rca, answer, found, refused, bad)
                              (incomplete w es found
                                (λ whole. valid-invalid es (
                                  sym
                                    ((validate_rca-IsComplete c (validation_context w now)).1 whole)
                                  ∙ bad))
                                bad)
                      ]
                ]
        ]
      ]

  module _
      (fair : (n : ℕ) (db : Db) → ClosedHasRca d law db → ClosedHasRca d law (others n db)) where
    Later-ClosedHasRca :
        (between later : Db) (c : RcaRecord) (i actor : Ident) (seconds : ℕ) (now : ℤ)
        → Later between c i actor seconds now later
        → ClosedHasRca d law between
        → ClosedHasRca d law later
    Later-ClosedHasRca between later c i actor seconds now =
        Submission-kept d law others fair between (rca_input c i actor seconds now) later

    Submitted-ClosedHasRca :
        (db between : Db) (i : Ident) (c : RcaRecord) (actor : Ident) (now : ℤ)
        (reply : Db × List Effect × RcaSubmissionOutcome)
        → Submitted db between i c actor now reply
        → ClosedHasRca d law db
        → ClosedHasRca d law between
        → ClosedHasRca d law reply.0
    Submitted-ClosedHasRca db b i c a now _ (unread e raised) inv inv' = inv
    Submitted-ClosedHasRca db b i c a now _ (unknown_item missing) inv inv' = inv
    Submitted-ClosedHasRca db b i c a now _ (incomplete w es found bad errors) inv inv' = inv
    Submitted-ClosedHasRca db b i c a now _ (wrong_state w found whole other) inv inv' = inv
    Submitted-ClosedHasRca db b i c a now _ (overtaken w n later found whole t lost) inv inv' =
        Later-ClosedHasRca b later c i a n now t inv'
    Submitted-ClosedHasRca db b i c a now _ (answered w n later r found whole t taken) inv inv' =
        Later-ClosedHasRca b later c i a n now t inv'
    Submitted-ClosedHasRca db b i c a now _ (overflow w n later e found computed large t) inv inv' =
        Later-ClosedHasRca b later c i a n now t inv'
    Submitted-ClosedHasRca db b i c a now _ (unwritten w n later e found whole t raised) inv inv' =
        Later-ClosedHasRca b later c i a n now t inv'
    Submitted-ClosedHasRca db b i c a now _ (done w v n later db' t why up) inv inv' =
        Closed-ClosedHasRca d law later (rca_input c i a n now) v db' why.together
          (Later-ClosedHasRca b later c i a n now t inv')
    Submitted-ClosedHasRca db b i c a now _ (unreported w v n later db' t why down) inv inv' =
        Closed-ClosedHasRca d law later (rca_input c i a n now) v db' why.together
          (Later-ClosedHasRca b later c i a n now t inv')

    -- If every closed work item has an RCA, in the database that is read and in the one that the
    -- other writers leave before the write, and other writers keep it so between the tries, then it
    -- is so after submitIncidentRca, whatever becomes of its tries.
    pub submit_incident_rca-ClosedHasRca :
        (new_date : Text → Option ℤ) (db : Db) (between : Db → Db) (i : Ident) (raw : RawInput)
        (actor : Ident) (now : ℤ)
        → ClosedHasRca d law db
        → ClosedHasRca d law (between db)
        → ClosedHasRca d law
            (submit_incident_rca d cache_up others faults new_date db between i raw actor now).0
    submit_incident_rca-ClosedHasRca new_date db between i raw actor now inv inv' =
        Submitted-ClosedHasRca db (between db) i (to_rca_candidate new_date raw) actor now _
          (submit_incident_rca-Submitted new_date db between i raw actor now) inv inv'
