-- ===== src/WorkItems/Transitions.antt =====
-- transitionState of backend/src/repositories/postgres/workItemRepository.ts: what it does to the
-- database, and when.
use inveni_ops.Base.{
  ℕ, ◌≡◌, refl, sym, ◌∙◌, ap, ◌≢◌, ◌⊎◌, inl, inr, List, ◌∷◌, Option, none, some, Bool-cases,
  Option-cases,
}
use mathlib.Core.Bool.{false≢true}
use mathlib.Core.Option.{some-injective, some-ne-none}
use inveni_ops.Types.{Ident, same_state, same_state_iff}
use inveni_ops.Base.Int.{ℤ}
use inveni_ops.Retry.{Result, ok, err, RetryError, thrown}
use inveni_ops.Postgres.{PgError, PrismaError, Fault, optimistic_concurrency, prisma}
use inveni_ops.Postgres.Tried.{
  Tried, Ended, heard, failed, Raised, throwing, with_postgres_retry-Ended,
}
use inveni_ops.WorkItems.{
  Database, Lawful, WorkItem, TransitionStateInput, apply_change, or_kept, change_of, audit_row,
  transition_once, transition_state, apply_guarded_transition, find_unique_or_throw,
}

-- A date that the caller may set: it is kept where the caller sets none.
abbrev date_after : Option ℤ → Option ℤ → Option ℤ
date_after given old = elim given [ none ↦ old | some t ↦ some t ]

-- The row `w` after it has been moved: these four fields and no other.
abbrev pub moved_item : TransitionStateInput → ℤ → WorkItem → WorkItem
moved_item input stamp w = record w {
  state = input.to_state;
  resolved_at = date_after input.resolved_at w.resolved_at;
  closed_at = date_after input.closed_at w.closed_at;
  updated_at = stamp;
}

or_kept-date_after : (given old : Option ℤ) → or_kept given old ≡ date_after given old
or_kept-date_after none old = refl
or_kept-date_after (some t) old = refl

apply_change-moved_item :
    (input : TransitionStateInput) (stamp : ℤ) (w : WorkItem)
    → apply_change (change_of input) stamp w ≡ moved_item input stamp w
apply_change-moved_item input stamp w =
    rw
      (
        or_kept-date_after input.resolved_at w.resolved_at,
        or_kept-date_after input.closed_at w.closed_at,
      )
      refl

module _ (d : Database) (law : Lawful d) where
  open d use {Db, item, rca, trail, clock, update_where, create_transition}

  -- `db'` is `db` with the guarded transition applied to the row `w`.
  pub record Applied (db : Db) (input : TransitionStateInput) (w : WorkItem) (db' : Db)
      : Type 0 where
    pub before : item db input.work_item_id ≡ some w
    pub matched : w.state ≡ input.from_state
    pub after : item db' input.work_item_id ≡ some (moved_item input (clock db) w)
    pub others : (j : Ident) → input.work_item_id ≢ j → item db' j ≡ item db j
    pub rca_kept : (j : Ident) → rca db' j ≡ rca db j
    pub audited :
        trail db'
        ≡ (record {
          work_item_id = input.work_item_id;
          from_state = input.from_state;
          to_state = input.to_state;
          actor = input.actor;
        })
          ∷ trail db

  -- The row that the guard asks for is there.
  abbrev pub Matching : Db → TransitionStateInput → Type 0
  Matching db input =
      (w : WorkItem) × (item db input.work_item_id ≡ some w) × (w.state ≡ input.from_state)

  abbrev pub moved_db : Db → TransitionStateInput → Db
  moved_db db input =
      create_transition (update_where db input.work_item_id input.from_state (change_of input)).0
        (audit_row input)

  abbrev pub update_of : Db → TransitionStateInput → Db × ℕ
  update_of db input = update_where db input.work_item_id input.from_state (change_of input)

  pub moved_db-Applied :
      (db : Db) (input : TransitionStateInput) (w : WorkItem)
      → item db input.work_item_id ≡ some w
      → w.state ≡ input.from_state
      → Applied db input w (moved_db db input)
  moved_db-Applied db input w found same = record {
    before = found;
    matched = same;
    after =
        law.transition_item _ _ _
        ∙ (law.update_hit db _ _ (change_of input) w found same).1
        ∙ ap some (apply_change-moved_item input (clock db) w);
    others = λ j apart. law.transition_item _ _ _ ∙ law.update_other db _ j _ _ apart;
    rca_kept = λ j. law.transition_rca _ _ _ ∙ law.update_rca db _ j _ _;
    audited = law.transition_trail _ _ ∙ ap (λ t. audit_row input ∷ t) (law.update_trail db _ _ _);
  }

  pub guarded_hit :
      (db : Db) (input : TransitionStateInput) (w : WorkItem)
      → item db input.work_item_id ≡ some w
      → w.state ≡ input.from_state
      → apply_guarded_transition d db input ≡ ok (moved_db db input, tt)
  unfolding apply_guarded_transition
  guarded_hit db input w found same =
      rw ((law.update_hit db _ _ (change_of input) w found same).0) refl

  pub guarded_miss :
      (db : Db) (input : TransitionStateInput)
      → ((w : WorkItem) → item db input.work_item_id ≡ some w → w.state ≢ input.from_state)
      → apply_guarded_transition d db input
        ≡ err (optimistic_concurrency input.work_item_id input.from_state)
  unfolding apply_guarded_transition
  guarded_miss db input none_there = rw (law.update_miss db _ _ (change_of input) none_there) refl

  pub found_then :
      (db : Db) (i : Ident) (w : WorkItem)
      → item db i ≡ some w
      → find_unique_or_throw d db i ≡ ok (db, w)
  unfolding find_unique_or_throw
  found_then db i w found = rw (find_unique_or_throw, found) refl

  pub Matching-cases :
      (db : Db) (input : TransitionStateInput)
      → Matching db input
        ⊎ ((w : WorkItem) → item db input.work_item_id ≡ some w → w.state ≢ input.from_state)
  Matching-cases db input = elim (Option-cases (item db input.work_item_id)) [
    | inl missing ↦ inr (λ w found. absurd (some-ne-none w (sym found ∙ missing)))
    | inr (w, found) ↦ elim (Bool-cases (same_state w.state input.from_state)) [
      | inl same ↦ inl (w, found, (same_state_iff w.state input.from_state).0 same)
      | inr differ ↦ inr (λ v found' same. false≢true (
          sym differ
          ∙ (same_state_iff w.state input.from_state).1
              (ap (λ u. u.state) (some-injective w v (sym found ∙ found')) ∙ same)))
    ]
  ]

  -- One run of the transaction.
  pub transition_once-Applied_or_conflict :
      (db : Db) (input : TransitionStateInput)
      → ((w : WorkItem) × (db' : Db) × Applied db input w db'
          × (transition_once d input db ≡ (db', ok (moved_item input (clock db) w))))
        ⊎ ((¬ Matching db input)
            × (transition_once d input db
                ≡ (db, err (optimistic_concurrency input.work_item_id input.from_state))))
  unfolding transition_once
  transition_once-Applied_or_conflict db input = elim (Matching-cases db input) [
    | inl (w, found, same) ↦
        let applied = moved_db-Applied db input w found same in
        inl (
          w,
          moved_db db input,
          applied,
          rw (guarded_hit db input w found same, found_then _ _ _ applied.after) refl,
        )
    | inr miss ↦ inr (λ m. miss m.0 m.1 m.2, rw (guarded_miss db input miss) refl)
  ]

  module _ (others : ℕ → Db → Db) where
    abbrev pub TransitionTried : TransitionStateInput → Db → Db → Type 0
    TransitionTried input = Tried others (transition_once d input)

    -- How transitionState ends, `later` being the database that its last try finds.
    pub data TransitionEnded (faults : List Fault) (db : Db) (input : TransitionStateInput)
        : Db × Result (RetryError PgError) WorkItem → Type 0 where
      applied :
          (later : Db) (w : WorkItem) (db' : Db)
          → TransitionTried input db later
          → Applied later input w db'
          → TransitionEnded faults db input (db', ok (moved_item input (clock later) w))
      overtaken :
          (later : Db)
          → TransitionTried input db later
          → ¬ Matching later input
          → TransitionEnded faults db input
              (later, err (thrown (optimistic_concurrency input.work_item_id input.from_state)))
      broken :
          (later : Db) (e : PrismaError)
          → TransitionTried input db later
          → Raised faults e
          → TransitionEnded faults db input (later, err (thrown (prisma e)))

    heard-TransitionEnded :
        (faults : List Fault) (db later : Db) (input : TransitionStateInput)
        → TransitionTried input db later
        → TransitionEnded faults db input
            (throwing others (transition_once d input) (transition_once d input later))
    heard-TransitionEnded faults db later input so_far =
        elim (transition_once-Applied_or_conflict later input) [
          | inl (w, db', step, result) ↦ rw result (applied later w db' so_far step)
          | inr (miss, result) ↦ rw result (overtaken later so_far miss)
        ]

    Ended-TransitionEnded :
        (faults : List Fault) (db : Db) (input : TransitionStateInput)
        (r : Db × Result (RetryError PgError) WorkItem)
        → Ended others (transition_once d input) faults db r
        → TransitionEnded faults db input r
    Ended-TransitionEnded faults db input _ (heard later so_far) =
        heard-TransitionEnded faults db later input so_far
    Ended-TransitionEnded faults db input _ (failed later e so_far raised) =
        broken later e so_far raised

    pub transition_state-TransitionEnded :
        (faults : List Fault) (db : Db) (input : TransitionStateInput)
        → TransitionEnded faults db input (transition_state d others faults db input)
    unfolding transition_state
    transition_state-TransitionEnded faults db input =
        Ended-TransitionEnded faults db input _
          (with_postgres_retry-Ended others (transition_once d input) faults db)
