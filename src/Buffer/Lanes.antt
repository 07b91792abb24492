-- ===== src/Buffer/Lanes.antt =====
-- What popPriorityBatch of backend/src/services/ingestion/buffer.ts takes out of some of the lanes.
use inveni_ops.Base.{
  ℕ, ◌-◌, ◌≤◌, ◌≡◌, refl, sym, ap, subst, ◌∙◌, false, List, [], ◌∷◌, ◌++◌, length, arith,
  length-append, Bool-cases, inl, inr, leb, ◌⊎◌, take, drop, All, length-drop, append-nil,
  append_assoc, take-append, drop-append, leb→le, length-take, ap₂, take-nil, drop-nil,
}
use inveni_ops.Types.{p0, p1, p2, p3, Severity, same_severity}
use inveni_ops.Buffer.Ring.{Ring, pop_batch}
use inveni_ops.Buffer.Ring.Laws.{pop_batch-take}
use inveni_ops.Buffer.{IngestionSignal, SignalBuffer, put, priority_order, pop_lanes}
use inveni_ops.Buffer.View.{View, IsSound, total-put, lanes_put, caps_put}

-- The lanes of the severities listed, one after the other.
unfoldable pub backlog_of : View → List Severity → List IngestionSignal
backlog_of v [] = []
backlog_of v (s ∷ ss) = v s ++ backlog_of v ss

-- All signals held, the most urgent severity first and the oldest first within a severity.
unfoldable pub backlog : View → List IngestionSignal
backlog v = backlog_of v priority_order

abbrev Absent : Severity → List Severity → Type 0
Absent s = All (λ t. same_severity s t ≡ false)

-- The same the other way round, as `put` compares.
abbrev Foreign : Severity → List Severity → Type 0
Foreign t = All (λ s. same_severity s t ≡ false)

abbrev pub Distinct : List Severity → Type 0
Distinct [] = Unit
Distinct (s ∷ ss) = Absent s ss × Distinct ss

backlog_of-put :
    (v : View) (s : Severity) (xs : List IngestionSignal) (ss : List Severity)
    → Absent s ss
    → backlog_of (put v s xs) ss ≡ backlog_of v ss
unfolding backlog_of
backlog_of-put v s xs [] h = refl
backlog_of-put v s xs (t ∷ ss) (e, h) = rw (e, backlog_of-put v s xs ss h) refl

backlog_of-nil : (v : View) → backlog_of v [] ≡ []
unfolding backlog_of
backlog_of-nil v = refl

put_self : (v : View) (s : Severity) (xs : List IngestionSignal) → put v s xs s ≡ xs
put_self v p0 xs = refl
put_self v p1 xs = refl
put_self v p2 xs = refl
put_self v p3 xs = refl

take_none {ℓ} : {A : Type ℓ} (n : ℕ) (xs : List A) → n ≡ 0 → take n xs ≡ []
take_none n xs e = rw e refl

drop_none {ℓ} : {A : Type ℓ} (n : ℕ) (xs : List A) → n ≡ 0 → drop n xs ≡ xs
drop_none n xs e = rw e refl

-- One lane's part of popPriorityBatch.
pop_lane-IsSound :
    (b : SignalBuffer) (v : View) (s : Severity) (n : ℕ)
    → IsSound b v
    → (r : Ring IngestionSignal) × (pop_batch (b.queues s) n ≡ (take n (v s), r))
      × IsSound (record b { queues = put b.queues s r }) (put v s (drop n (v s)))
pop_lane-IsSound b v s n h =
    let (r, popped, rep, cap) = pop_batch-take (b.queues s) n (v s) (h.lanes s) in
    (
      r,
      popped,
      record {
        lanes = lanes_put b.queues v s r (drop n (v s)) h.lanes rep;
        caps = caps_put b.queues s r b.options.capacity h.caps (cap ∙ h.caps s);
        fits = omega (arith, h.fits, total-put v s (drop n (v s)), length-drop {0} n (v s));
      },
    )

-- What a loop over the lanes `ss` leaves and returns, for a result `acc` so far.
pub record Popped (b : SignalBuffer) (v : View) (n : ℕ) (acc : List IngestionSignal)
    (ss : List Severity) (out : List IngestionSignal × SignalBuffer) : Type 0 where
  pub after : View
  pub sound : IsSound out.1 after
  pub batch : out.0 ≡ acc ++ take (n - length acc) (backlog_of v ss)
  pub others : (t : Severity) → Foreign t ss → after t ≡ v t
  pub left : backlog_of after ss ≡ drop (n - length acc) (backlog_of v ss)

same_severity_comm : (s t : Severity) → same_severity s t ≡ same_severity t s
same_severity_comm s t = ground arith

Absent-Foreign : (s : Severity) (ss : List Severity) → Absent s ss → Foreign s ss
Absent-Foreign s [] h = tt
Absent-Foreign s (t ∷ ss) (e, h) = (same_severity_comm t s ∙ e, Absent-Foreign s ss h)

put_other :
    (v : View) (s : Severity) (xs : List IngestionSignal) (t : Severity)
    → same_severity s t ≡ false
    → put v s xs t ≡ v t
put_other v s xs t e = rw e refl

Popped-nil :
    (b : SignalBuffer) (v : View) (n : ℕ) (acc : List IngestionSignal) (ss : List Severity)
    → IsSound b v
    → (backlog_of v ss ≡ []) ⊎ (n ≤ length acc)
    → Popped b v n acc ss (acc, b)
Popped-nil b v n acc ss h (inl e) = record {
  after = v;
  sound = h;
  batch = rw e (sym (ap (◌++◌ acc) (take-nil (n - length acc)) ∙ append-nil acc));
  others = λ t k. refl;
  left = rw e (sym (drop-nil (n - length acc)));
}
Popped-nil b v n acc ss h (inr full) =
    let z : n - length acc ≡ 0 = omega arith in
    record {
      after = v;
      sound = h;
      batch = sym (ap (◌++◌ acc) (take_none (n - length acc) (backlog_of v ss) z) ∙ append-nil acc);
      others = λ t k. refl;
      left = sym (drop_none (n - length acc) (backlog_of v ss) z);
    }

-- One more lane in front of those that `out` was popped from.
Popped-cons :
    (b b' : SignalBuffer) (v : View) (n : ℕ) (acc : List IngestionSignal) (s : Severity)
    (ss : List Severity) (out : List IngestionSignal × SignalBuffer)
    → Absent s ss
    → Popped b'
        (put v s (drop (n - length acc) (v s)))
        n
        (acc ++ take (n - length acc) (v s))
        ss
        out
    → Popped b v n acc (s ∷ ss) out
unfolding backlog_of
Popped-cons b b' v n acc s ss out d p =
    let k = n - length acc in
    let rest = backlog_of v ss in
    let used : n - length (acc ++ take k (v s)) ≡ k - length (v s) =
      omega (arith, length-append {0} acc (take k (v s)), length-take {0} k (v s)) in
    let unmoved = backlog_of-put v s (drop k (v s)) ss d in
    let lane : p.after s ≡ drop k (v s) =
      p.others s (Absent-Foreign s ss d) ∙ put_self v s (drop k (v s)) in
    record {
      after = p.after;
      sound = p.sound;
      batch =
          p.batch
          ∙ ap (λ (zs : List IngestionSignal). (acc ++ take k (v s)) ++ zs)
              (ap₂ (λ (j : ℕ) (zs : List IngestionSignal). take j zs) used unmoved)
          ∙ append_assoc acc (take k (v s)) (take (k - length (v s)) rest)
          ∙ ap (◌++◌ acc) (sym (take-append k (v s) rest));
      others = λ t (e, foreign). p.others t foreign ∙ put_other v s (drop k (v s)) t e;
      left =
          ap₂ (◌++◌ {A = IngestionSignal}) lane
            (p.left ∙ ap₂ (λ (j : ℕ) (zs : List IngestionSignal). drop j zs) used unmoved)
          ∙ sym (drop-append k (v s) rest);
    }

pub pop_lanes-Popped :
    (b : SignalBuffer) (v : View) (n : ℕ) (acc : List IngestionSignal) (ss : List Severity)
    → Distinct ss
    → IsSound b v
    → Popped b v n acc ss (pop_lanes b n acc ss)
unfolding pop_lanes
pop_lanes-Popped b v n acc [] d h = Popped-nil b v n acc [] h (inl (backlog_of-nil v))
pop_lanes-Popped b v n acc (s ∷ ss) (d, ds) h = elim (Bool-cases (leb n (length acc))) [
  | inl full ↦ rw full (Popped-nil b v n acc (s ∷ ss) h (inr (leb→le n (length acc) full)))
  | inr more ↦
      let k = n - length acc in
      let (r, popped, sound) = pop_lane-IsSound b v s k h in
      let go = λ (p : List IngestionSignal × Ring IngestionSignal).
        pop_lanes (record b { queues = put b.queues s p.1 }) n (acc ++ p.0) ss in
      rw more (
        subst (Popped b v n acc (s ∷ ss)) (sym (ap go popped)) (
          Popped-cons b (record b { queues = put b.queues s r }) v n acc s ss (go (take k (v s), r))
            d
            (pop_lanes-Popped (record b { queues = put b.queues s r }) (put v s (drop k (v s))) n
              (acc ++ take k (v s)) ss ds sound)))
]
