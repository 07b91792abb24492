-- ===== src/Ingest/Submit.antt =====
-- submitOrReject of backend/src/api/routes/signals.ts against the buffer's own theorem.
use inveni_ops.Base.{
  ℕ, ◌+◌, ◌≤◌, ◌≡◌, ◌≢◌, ◌⊎◌, inl, inr, refl, ap, arith, List, [], ◌∷◌, length, if◌then◌else◌,
}
use inveni_ops.Types.{Severity, p0, same_severity}
use inveni_ops.Buffer.{
  IngestionSignal, SignalBuffer, SubmitResult, DropReason, accepted, rejected, submit,
}
use inveni_ops.Buffer.View.{View, total, IsSound, dropped_total}
use inveni_ops.Buffer.Submit.{submit-Submitted, Submitted, stored, evicting, over_ceiling, full}
use inveni_ops.Ingest.{submit_all}

-- How many of the signals have a severity.
abbrev pub of_severity : Severity → List IngestionSignal → ℕ
of_severity s [] = 0
of_severity s (x ∷ xs) = (if same_severity x.severity s then 1 else 0) + of_severity s xs

-- What a submission of each signal in turn answers: `taken` are those that were accepted.
pub data Outcomes
    : SignalBuffer → List IngestionSignal → SignalBuffer → List IngestionSignal → Type 0 where
  all_done : (b : SignalBuffer) → Outcomes b [] b []
  took :
      (b : SignalBuffer) (x : IngestionSignal) (xs : List IngestionSignal) (b' : SignalBuffer)
      (taken : List IngestionSignal)
      → (submit b x).1 ≡ accepted
      → Outcomes (submit b x).0 xs b' taken
      → Outcomes b (x ∷ xs) b' (x ∷ taken)
  refused :
      (b : SignalBuffer) (x : IngestionSignal) (xs : List IngestionSignal) (b' : SignalBuffer)
      (taken : List IngestionSignal) (why : DropReason)
      → (submit b x).1 ≡ rejected why
      → Outcomes (submit b x).0 xs b' taken
      → Outcomes b (x ∷ xs) b' taken

-- What a loop over `signals` that starts with the view `v` comes to.
pub record Ends (b : SignalBuffer) (v : View) (signals : List IngestionSignal) (b' : SignalBuffer)
    (taken : List IngestionSignal) (dropped : ℕ) : Type 0 where
  pub held : View
  pub sound : IsSound b' held
  pub conserved : dropped_total b' + total held ≡ dropped_total b + total v + length signals
  pub split : length taken + dropped ≡ length signals
  pub whole : dropped ≡ 0 → taken ≡ signals
  pub outcomes : Outcomes b signals b' taken
  pub urgent : of_severity p0 taken ≡ of_severity p0 signals
  pub fewer : (s : Severity) → of_severity s taken ≤ of_severity s signals

result-cases : (r : SubmitResult) → (r ≡ accepted) ⊎ ((why : DropReason) × (r ≡ rejected why))
result-cases accepted = inl refl
result-cases (rejected why) = inr (why, refl)

rejected-not_p0 :
    (b : SignalBuffer) (v w : View) (x : IngestionSignal) (why : DropReason) (r : SubmitResult)
    → Submitted b v x w r
    → r ≡ rejected why
    → x.severity ≢ p0
rejected-not_p0 b v w x why r (stored room under held e) f = absurd (cc)
rejected-not_p0 b v w x why r (evicting victim oldest rest full_up urgent lane below held e) f =
    absurd (cc)
rejected-not_p0 b v w x why r (over_ceiling (shed, other, reached) held e) f = other
rejected-not_p0 b v w x why r (full full_up other under held e) f = other

pub submit_all-Ends :
    (signals : List IngestionSignal) (b : SignalBuffer) (v : View)
    → IsSound b v
    → let (b', taken, dropped) = submit_all b signals in Ends b v signals b' taken dropped
unfolding submit_all
submit_all-Ends [] b v h = record {
  held = v;
  sound = h;
  conserved = omega arith;
  split = refl;
  whole = λ e. refl;
  outcomes = all_done b;
  urgent = refl;
  fewer = λ s. omega arith;
}
submit_all-Ends (x ∷ xs) b v h =
    let (w, sound, ended, conserved) = submit-Submitted b v x h in
    let later = submit_all-Ends xs (submit b x).0 w sound in
    elim (result-cases (submit b x).1) [
      | inl e ↦ rw e (record {
        held = later.held;
        sound = later.sound;
        conserved = omega (arith, later.conserved, conserved);
        split = omega (arith, later.split);
        whole = λ z. ap (◌∷◌ x) (later.whole z);
        outcomes = took b x xs _ _ e later.outcomes;
        urgent = omega (arith, later.urgent);
        fewer = λ s. omega (arith, later.fewer s);
      })
      | inr (why, e) ↦
          let other = rejected-not_p0 b v w x why (submit b x).1 ended e in
          rw e (record {
            held = later.held;
            sound = later.sound;
            conserved = omega (arith, later.conserved, conserved);
            split = omega (arith, later.split);
            whole = λ z. absurd (omega (arith, z));
            outcomes = refused b x xs _ _ why e later.outcomes;
            urgent = ground (arith, later.urgent, other);
            fewer = λ s. omega (arith, later.fewer s);
          })
    ]
