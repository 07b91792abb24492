-- ===== src/Buffer/Watermarks.antt =====
-- recomputeState of backend/src/services/ingestion/buffer.ts: the two marks and what lies between.
use inveni_ops.Base.{
  ℕ, ◌*◌, ◌≤◌, ◌<◌, ◌≡◌, ◌≢◌, refl, sym, ◌∙◌, ◌↔◌, ◌⊎◌, inl, inr, Bool-cases, arith, true, false,
}
use inveni_ops.Buffer.{
  SignalBuffer, SignalBufferOptions, BufferState, normal, shedding, Fraction, total_size,
  recompute_state, next_state, fill_at_least, fill_at_most,
}

-- What the state has to be, and the fill to be, for the next state to be shedding.
abbrev pub Sheds : SignalBufferOptions → ℕ → BufferState → Type 0
Sheds o total s =
    ((s ≡ normal)
      × (o.high_water_mark.numerator * o.capacity ≤ total * o.high_water_mark.denominator))
    ⊎ ((s ≡ shedding)
        × (o.low_water_mark.numerator * o.capacity < total * o.low_water_mark.denominator))

module _ (o : SignalBufferOptions) (some_room : 0 < o.capacity) (total : ℕ) where
  at_least :
      (f : Fraction)
      → (fill_at_least total o.capacity f ≡ true)
        ↔ (f.numerator * o.capacity ≤ total * f.denominator)
  unfolding fill_at_least
  at_least f = ground arith

  at_most :
      (f : Fraction)
      → (fill_at_most total o.capacity f ≡ true)
        ↔ (total * f.denominator ≤ f.numerator * o.capacity)
  unfolding fill_at_most
  at_most f = ground arith

  over_mark :
      (f : Fraction)
      → fill_at_most total o.capacity f ≡ false
      → f.numerator * o.capacity < total * f.denominator
  unfolding fill_at_most
  over_mark f h = ground arith

  kept :
      fill_at_least total o.capacity o.high_water_mark ≡ false → next_state normal total o ≡ normal
  kept h = rw h refl

  left :
      fill_at_most total o.capacity o.low_water_mark ≡ true → next_state shedding total o ≡ normal
  left h = rw h refl

  apart : normal ≢ shedding
  apart e = cc

  Sheds-next_state : (s : BufferState) → Sheds o total s → next_state s total o ≡ shedding
  Sheds-next_state normal (inl (e, high)) = rw ((at_least o.high_water_mark).1 high) refl
  Sheds-next_state normal (inr (e, low)) = absurd (apart e)
  Sheds-next_state shedding (inl (e, high)) = absurd (apart (sym e))
  Sheds-next_state shedding (inr (e, low)) =
      elim (Bool-cases (fill_at_most total o.capacity o.low_water_mark)) [
        | inl below ↦ absurd (omega (arith, (at_most o.low_water_mark).0 below))
        | inr above ↦ rw above refl
      ]

  next_state-Sheds : (s : BufferState) → next_state s total o ≡ shedding → Sheds o total s
  next_state-Sheds normal h = elim (Bool-cases (fill_at_least total o.capacity o.high_water_mark)) [
    | inl high ↦ inl (refl, (at_least o.high_water_mark).0 high)
    | inr low ↦ absurd (apart (sym (kept low) ∙ h))
  ]
  next_state-Sheds shedding h = elim (Bool-cases (fill_at_most total o.capacity o.low_water_mark)) [
    | inl below ↦ absurd (apart (sym (left below) ∙ h))
    | inr above ↦ inr (refl, over_mark o.low_water_mark above)
  ]

-- With room for some signal, recomputeState ends in shedding exactly if the buffer was normal and
-- is filled to the high mark at least, or was shedding and is filled above the low mark: between
-- the marks the state stays what it was.
pub recompute_state-Sheds :
    (b : SignalBuffer)
    → 0 < b.options.capacity
    → ((recompute_state b).state ≡ shedding) ↔ Sheds b.options (total_size b) b.state
unfolding recompute_state
recompute_state-Sheds b room = (
  next_state-Sheds b.options room (total_size b) b.state,
  Sheds-next_state b.options room (total_size b) b.state,
)
