-- ===== src/Buffer/Ring/Laws.antt =====
-- The ring buffer is a bounded queue: its operations on the list of items that it represents.
use native.Mathlib.Nat.{mod-eq_of_lt, mod-eq-sub-mod, mod-lt, mod-add-mod}
use inveni_ops.Base.{
  ℕ, zero, suc, ◌+◌, ◌-◌, ◌%◌, ◌≤◌, ◌<◌, ◌≡◌, ◌≢◌, refl, sym, ap, subst, ◌∙◌, ltb, if◌then◌else◌,
  true, false, List, [], ◌∷◌, ◌++◌, Option, none, some, min, get_elem?, set, length, take, drop,
  take-min, drop-min, arith, length-append, length-set, length-replicate, get_elem?-set_self,
  get_elem?-set_ne,
}
use inveni_ops.Buffer.Ring.{Ring, create, push, pop_oldest, pop_rounds, pop_batch, kept}

mod_wrap : (x c : ℕ) → x < c + c → x % c ≡ (if ltb x c then x else x - c)
mod_wrap x c h = grind (arith, mod-eq_of_lt, mod-eq-sub-mod)

wrap_next : (g d c : ℕ) → g < c → suc d < c → ((g + 1) % c + d) % c ≡ (g + suc d) % c
wrap_next g d c h k = mod-add-mod (g + 1) c d ∙ ap (λ (t : ℕ). t % c) (omega arith)

wrap_ne : (g d c : ℕ) → g < c → suc d < c → (g + suc d) % c ≢ g
wrap_ne g d c h k = ground (arith, mod_wrap (g + suc d) c)

wrap_round : (g c : ℕ) → g < c → ((g + 1) % c + (c - 1)) % c ≡ g
wrap_round g c h = mod-add-mod (g + 1) c (c - 1) ∙ ground (arith, mod_wrap (g + 1 + (c - 1)) c)

module _ {ℓ} {A : Type ℓ} where
  -- The slots from `g` on, round the end, hold the items in order.
  abbrev pub Holds : List (Option A) → ℕ → ℕ → List A → Type ℓ
  Holds slots c g [] = Unit
  Holds slots c g (x ∷ xs) = (get_elem? slots g ≡ some (some x)) × Holds slots c ((g + 1) % c) xs

  pub record Represents (r : Ring A) (xs : List A) : Type ℓ where
    pub allocated : length r.slots ≡ r.capacity
    pub head_in_range : r.head < r.capacity
    pub counted : r.count ≡ length xs
    pub fits : length xs ≤ r.capacity
    pub held : Holds r.slots r.capacity r.head xs

  -- A write `d` slots beyond `g` leaves the first `d` items alone.
  Holds-set :
      (slots : List (Option A)) (c g d : ℕ) (xs : List A) (v : Option A)
      → g < c
      → d < c
      → length xs ≤ d
      → Holds slots c g xs
      → Holds (set slots ((g + d) % c) v) c g xs
  Holds-set slots c g d [] v hg hd hl hold = tt
  Holds-set slots c g zero (x ∷ xs) v hg hd hl hold = absurd (omega arith)
  Holds-set slots c g (suc d) (x ∷ xs) v hg hd hl (here, rest) = (
    get_elem?-set_ne slots ((g + suc d) % c) g v (wrap_ne g d c hg hd) ∙ here,
    subst (λ (j : ℕ). Holds (set slots j v) c ((g + 1) % c) xs) (wrap_next g d c hg hd)
        (Holds-set slots c ((g + 1) % c) d xs v (mod-lt (g + 1) (omega arith)) (omega arith)
          (omega arith) rest),
  )

  Holds-concat :
      (slots : List (Option A)) (c g : ℕ) (xs : List A) (x : A)
      → g < c
      → length xs < c
      → Holds slots c g xs
      → get_elem? slots ((g + length xs) % c) ≡ some (some x)
      → Holds slots c g (xs ++ x ∷ [])
  Holds-concat slots c g [] x hg hl hold at_end = (
    subst (λ (j : ℕ). get_elem? slots j ≡ some (some x))
        (mod-eq_of_lt {n = g + 0} (omega arith) ∙ omega arith) at_end,
    tt,
  )
  Holds-concat slots c g (y ∷ xs) x hg hl (here, rest) at_end = (
    here,
    Holds-concat slots c ((g + 1) % c) xs x (mod-lt (g + 1) (omega arith)) (omega arith) rest
        (rw (wrap_next g (length xs) c hg hl) at_end),
  )

  -- A new buffer is empty.
  pub create-Represents : (capacity : ℕ) → 0 < capacity → Represents (create capacity) []
  unfolding create
  create-Represents capacity h = record {
    allocated = length-replicate capacity none;
    head_in_range = h;
    counted = refl;
    fits = omega arith;
    held = tt;
  }

  module _ (r : Ring A) (xs : List A) (rep : Represents r xs) where
    pushed_ring : A → Ring A
    pushed_ring x = record r {
      slots = set r.slots ((r.head + r.count) % r.capacity) (some x);
      count = r.count + 1;
    }

    push_room : (x : A) → length xs < r.capacity → push r x ≡ (pushed_ring x, true)
    unfolding push pushed_ring
    push_room x room = let h = rep.counted in ground arith

    pushed-Represents : (x : A) → length xs < r.capacity → Represents (pushed_ring x) (xs ++ x ∷ [])
    unfolding pushed_ring
    pushed-Represents x room =
        let target = (r.head + r.count) % r.capacity in
        let e : r.count ≡ length xs = rep.counted in
        record {
          allocated = length-set r.slots target (some x) ∙ rep.allocated;
          head_in_range = rep.head_in_range;
          counted = omega (arith, length-append {ℓ} xs (x ∷ []));
          fits = omega (arith, length-append {ℓ} xs (x ∷ []));
          held =
              Holds-concat (set r.slots target (some x)) r.capacity r.head xs x rep.head_in_range
                room
                (subst
                  (λ (n : ℕ).
                    Holds (set r.slots ((r.head + n) % r.capacity) (some x)) r.capacity r.head xs)
                  (sym e)
                  (Holds-set r.slots r.capacity r.head (length xs) xs (some x) rep.head_in_range
                    room (omega arith) rep.held))
                (subst
                  (λ (n : ℕ).
                    get_elem? (set r.slots target (some x)) ((r.head + n) % r.capacity)
                    ≡ some (some x))
                  e
                  (get_elem?-set_self r.slots target (some x)
                    (omega (arith, mod-lt (r.head + r.count) {m = r.capacity}, rep.allocated))));
        }

    -- With room left a push succeeds and adds the item behind all others.
    pub push-concat :
        (x : A)
        → length xs < r.capacity
        → (r' : Ring A) × (push r x ≡ (r', true))
          × Represents r' (xs ++ x ∷ [])
          × (r'.capacity ≡ r.capacity)
    unfolding pushed_ring
    push-concat x room = (pushed_ring x, push_room x room, pushed-Represents x room, refl)

    -- A full buffer refuses the item and stays as it is.
    pub push_full : (x : A) → length xs ≡ r.capacity → push r x ≡ (r, false)
    unfolding push
    push_full x full = let h = rep.counted in ground arith

  pub pop_oldest-nil : (r : Ring A) → Represents r [] → pop_oldest r ≡ (none, r)
  unfolding pop_oldest
  pop_oldest-nil r rep = let h = rep.counted in ground arith

  popped_ring : Ring A → Ring A
  popped_ring r = record r {
    slots = set r.slots r.head none;
    head = (r.head + 1) % r.capacity;
    count = r.count - 1;
  }

  pop_oldest-some :
      (r : Ring A) (x : A) (xs : List A)
      → Represents r (x ∷ xs)
      → pop_oldest r ≡ (some x, popped_ring r)
  unfolding pop_oldest popped_ring
  pop_oldest-some r x xs rep = let h = rep.counted in let k = rep.held.0 in ground arith

  popped-Represents :
      (r : Ring A) (x : A) (xs : List A) → Represents r (x ∷ xs) → Represents (popped_ring r) xs
  unfolding popped_ring
  popped-Represents r x xs rep =
      let h : r.head < r.capacity = rep.head_in_range in
      let k : suc (length xs) ≤ r.capacity = rep.fits in
      record {
        allocated = length-set r.slots r.head none ∙ rep.allocated;
        head_in_range = mod-lt (r.head + 1) (omega arith);
        counted = let e = rep.counted in omega arith;
        fits = omega arith;
        held =
            subst (λ (j : ℕ). Holds (set r.slots j none) r.capacity ((r.head + 1) % r.capacity) xs)
              (wrap_round r.head r.capacity h)
              (Holds-set r.slots r.capacity ((r.head + 1) % r.capacity) (r.capacity - 1) xs none
                (mod-lt (r.head + 1) (omega arith)) (omega arith) (omega arith) rep.held.1);
      }

  -- Popping takes the oldest item.
  pub pop_oldest-cons :
      (r : Ring A) (x : A) (xs : List A)
      → Represents r (x ∷ xs)
      → (r' : Ring A) × (pop_oldest r ≡ (some x, r'))
        × Represents r' xs
        × (r'.capacity ≡ r.capacity)
  unfolding popped_ring
  pop_oldest-cons r x xs rep =
      (popped_ring r, pop_oldest-some r x xs rep, popped-Represents r x xs rep, refl)

  pop_rounds-suc :
      (n : ℕ) (r r1 r2 : Ring A) (x : A) (rest : List A)
      → pop_oldest r ≡ (some x, r1)
      → pop_rounds n r1 ≡ (rest, r2)
      → pop_rounds (suc n) r ≡ (x ∷ rest, r2)
  unfolding pop_rounds
  pop_rounds-suc n r r1 r2 x rest popped others =
      let e : pop_rounds n (pop_oldest r).1 ≡ (rest, r2) =
        ap (λ (p : Option A × Ring A). pop_rounds n p.1) popped ∙ others in
      λ i. (kept (popped i).0 (e i).0, (e i).1)

  pop_rounds-take :
      (n : ℕ) (r : Ring A) (xs : List A)
      → Represents r xs
      → n ≤ length xs
      → (r' : Ring A) × (pop_rounds n r ≡ (take n xs, r'))
        × Represents r' (drop n xs)
        × (r'.capacity ≡ r.capacity)
  unfolding pop_rounds
  pop_rounds-take zero r xs rep h = (r, refl, rep, refl)
  pop_rounds-take (suc n) r [] rep h = elim h [ ]
  pop_rounds-take (suc n) r (x ∷ xs) rep h =
      let (r1, popped, rep1, cap1) = pop_oldest-cons r x xs rep in
      let (r2, rest, rep2, cap2) = pop_rounds-take n r1 xs rep1 (omega arith) in
      (r2, pop_rounds-suc n r r1 r2 x (take n xs) popped rest, rep2, cap2 ∙ cap1)

  -- popBatch(n) takes the n oldest items, or all if there are fewer, and keeps the others.
  pub pop_batch-take :
      (r : Ring A) (n : ℕ) (xs : List A)
      → Represents r xs
      → (r' : Ring A) × (pop_batch r n ≡ (take n xs, r'))
        × Represents r' (drop n xs)
        × (r'.capacity ≡ r.capacity)
  unfolding pop_batch
  pop_batch-take r n xs rep =
      let e : min n r.count ≡ min n (length xs) = ap (min n) rep.counted in
      let (r', popped, rep', cap) = pop_rounds-take (min n (length xs)) r xs rep (omega arith) in
      (
        r',
        ap (λ (k : ℕ). pop_rounds k r) e ∙ popped ∙ ap (λ (ys : List A). (ys, r')) (take-min n xs),
        subst (Represents r') (drop-min n xs) rep',
        cap,
      )
