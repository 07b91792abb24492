-- ===== src/Debouncer/FromStore.antt =====
-- resolveFromStore of backend/src/services/ingestion/debouncer.ts.
use inveni_ops.Base.{◌≡◌, ◌∙◌, ◌⊎◌, inl, inr, false, [], ◌∷◌, none, some}
use inveni_ops.Types.{Ident}
use inveni_ops.Worker.{DebounceResult}
use inveni_ops.Debouncer.{
  Stores, SignalDebouncerOptions, DebounceError, store_error, no_active_after_conflict, first,
  created_result, linked_result, Act, seed_session,
}
use inveni_ops.Debouncer.Laws.{
  Lawful, FindThrew, CreateThrew, SeedThrew, Post, bind-Post, call-Post,
}

module _ (stores : Stores) (law : Lawful stores) (o : SignalDebouncerOptions) where
  open stores use {
    W, Error, is_conflict_error, now, hset, expire, find_active, create_work_item, active, others,
  }

  -- Seeding a session leaves the work items alone, whether it throws or not.
  abbrev pub Seeding : W → Ident → W → DebounceError Error → Type 0
  Seeding w c v (store_error e) = (active v c ≡ active w c) × SeedThrew stores e
  Seeding w c v (no_active_after_conflict d) = ⊥

  pub seed_session-Post :
      (w : W) (c i : Ident)
      → Post stores o (λ v u. active v c ≡ active w c) (Seeding w c) (seed_session stores o w c i)
  unfolding seed_session
  seed_session-Post w c i =
      bind-Post stores o _ _
        (call-Post stores o (λ v u. active v c ≡ active w c) (Seeding w c) (hset w c _)
          (λ u done. law.hset_keeps w c _ c)
          (λ e bad. (law.hset_keeps w c _ c, inl (w, c, _, bad))))
        (λ v u same.
          call-Post stores o (λ v' u'. active v' c ≡ active w c) (Seeding w c)
            (expire v c o.window_seconds) (λ u' done. law.expire_keeps v c _ c ∙ same)
            (λ e bad. (law.expire_keeps v c _ c ∙ same, inr (v, c, _, bad))))

  -- The answers: a link to an active work item, or a creation where there was none.
  pub data Answer (w : W) (c : Ident) (w' : W) : DebounceResult → Type 0 where
    linked : (i : Ident) → first (active w' c) ≡ some i → Answer w c w' (linked_result i)
    created :
        (i : Ident)
        → first (active w c) ≡ none
        → active w' c ≡ i ∷ []
        → Answer w c w' (created_result i)

  -- The errors.
  pub data Failure (w : W) (c : Ident) (w' : W) : DebounceError Error → Type 0 where
    unfound : (e : Error) → FindThrew stores e → Failure w c w' (store_error e)
    uncreated :
        (e : Error)
        → is_conflict_error e ≡ false
        → CreateThrew stores e
        → Failure w c w' (store_error e)
    unseeded :
        (i : Ident) (e : Error)
        → first (active w' c) ≡ some i
        → SeedThrew stores e
        → Failure w c w' (store_error e)
    winner_gone : first (active w' c) ≡ none → Failure w c w' (no_active_after_conflict c)

  abbrev pub Resolved : W → Ident → Act stores o DebounceResult → Type 0
  Resolved w c = Post stores o (Answer w c) (Failure w c)

  -- What the create and the seeding after it throw.
  abbrev Creating : Ident → W → DebounceError Error → Type 0
  Creating c v (store_error e) =
      CreateThrew stores e ⊎ ((i : Ident) × (first (active v c) ≡ some i) × SeedThrew stores e)
  Creating c v (no_active_after_conflict d) = ⊥
