-- ===== src/Debouncer/Laws.antt =====
-- What the debouncer of backend/src/services/ingestion/debouncer.ts owes to the unique index of
-- Postgres alone, whatever Redis answers and whichever of its calls throw.
use inveni_ops.Base.{ℕ, ◌≡◌, refl, ◌⊎◌, List, [], ◌∷◌, some}
use inveni_ops.Types.{Ident}
use inveni_ops.Retry.{Result, ok, err}
use inveni_ops.Debouncer.{
  Stores, CreateWorkItemInput, RawSession, SignalDebouncerOptions, DebounceError, store_error,
  first, Act, call, ◌>>=◌,
}

module _ (stores : Stores) where
  open stores use {
    W, Error, hgetall, hset, expire, hincrby_count, set_lock, del_lock, find_active,
    create_work_item, active,
  }

  -- Redis and a read do not touch the work items, a read answers with the rows, and a created work
  -- item is the only active one of its component, which the partial unique index asks for.
  pub record Lawful : Type 0 where
    pub hgetall_keeps : (w : W) (c j : Ident) → active (hgetall w c).0 j ≡ active w j
    pub hset_keeps :
        (w : W) (c : Ident) (s : RawSession) (j : Ident) → active (hset w c s).0 j ≡ active w j
    pub expire_keeps :
        (w : W) (c : Ident) (ttl : ℕ) (j : Ident) → active (expire w c ttl).0 j ≡ active w j
    pub hincrby_keeps : (w : W) (c j : Ident) → active (hincrby_count w c).0 j ≡ active w j
    pub set_lock_keeps :
        (w : W) (c : Ident) (ttl : ℕ) (j : Ident) → active (set_lock w c ttl).0 j ≡ active w j
    pub del_lock_keeps : (w : W) (c j : Ident) → active (del_lock w c).0 j ≡ active w j
    pub find_keeps : (w : W) (c j : Ident) → active (find_active w c).0 j ≡ active w j
    pub find_answers :
        (w : W) (c : Ident) (found : List Ident)
        → (find_active w c).1 ≡ ok found
        → found ≡ active w c
    pub created_alone :
        (w : W) (input : CreateWorkItemInput) (i : Ident)
        → (create_work_item w input).1 ≡ ok i
        → active (create_work_item w input).0 input.component_id ≡ i ∷ []

  -- The component has an active work item.
  abbrev pub HasActive : W → Ident → Type 0
  HasActive w c = (i : Ident) × (first (active w c) ≡ some i)

  -- The calls that throw `e`, in some state.
  abbrev pub FindThrew : Error → Type 0
  FindThrew e = (w : W) × (c : Ident) × ((find_active w c).1 ≡ err e)

  abbrev pub CreateThrew : Error → Type 0
  CreateThrew e = (w : W) × (input : CreateWorkItemInput) × ((create_work_item w input).1 ≡ err e)

  abbrev pub SeedThrew : Error → Type 0
  SeedThrew e =
      ((w : W) × (c : Ident) × (s : RawSession) × ((hset w c s).1 ≡ err e))
      ⊎ ((w : W) × (c : Ident) × (ttl : ℕ) × ((expire w c ttl).1 ≡ err e))

  pub data CallThrew (e : Error) : Type 0 where
    hgetall_threw : (w : W) (c : Ident) → (hgetall w c).1 ≡ err e → CallThrew e
    hincrby_threw : (w : W) (c : Ident) → (hincrby_count w c).1 ≡ err e → CallThrew e
    set_lock_threw : (w : W) (c : Ident) (ttl : ℕ) → (set_lock w c ttl).1 ≡ err e → CallThrew e
    del_lock_threw : (w : W) (c : Ident) → (del_lock w c).1 ≡ err e → CallThrew e
    find_threw : FindThrew e → CallThrew e
    seed_threw : SeedThrew e → CallThrew e

module _ (stores : Stores) (o : SignalDebouncerOptions) where
  open stores use {W, Error}

  -- `r` is an answer of which Q holds, or an error of which R does.
  pub data Post {A : Type 0} (Q : W → A → Type 0) (R : W → DebounceError Error → Type 0)
      : Act stores o A → Type 0 where
    returns : (w : W) (a : A) → Q w a → Post Q R (w, ok a)
    throws : (w : W) (x : DebounceError Error) → R w x → Post Q R (w, err x)

  module _ {A B : Type 0} {Q : W → A → Type 0} {Q' : W → B → Type 0}
      {R : W → DebounceError Error → Type 0} where
    pub bind-Post :
        (x : Act stores o A) (f : W → A → Act stores o B)
        → Post Q R x
        → ((w : W) (a : A) → Q w a → Post Q' R (f w a))
        → Post Q' R (◌>>=◌ stores o x f)
    bind-Post _ f (returns w a q) next = next w a q
    bind-Post _ f (throws w x r) next = throws w x r

  pub call-Post :
      {A : Type 0} (Q : W → A → Type 0) (R : W → DebounceError Error → Type 0)
      (x : W × Result Error A)
      → ((a : A) → x.1 ≡ ok a → Q x.0 a)
      → ((e : Error) → x.1 ≡ err e → R x.0 (store_error e))
      → Post Q R (call stores o x)
  call-Post Q R (w, ok a) good bad = returns w a (good a refl)
  call-Post Q R (w, err e) good bad = throws w (store_error e) (bad e refl)
