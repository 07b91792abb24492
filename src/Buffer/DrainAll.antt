-- ===== src/Buffer/DrainAll.antt =====
-- drainToSink and drainAll as a whole: the counts that they report, and when the buffer is empty.
use inveni_ops.Base.{
  ℕ, ◌+◌, ◌-◌, ◌≤◌, ◌<◌, ◌≡◌, refl, ap, ◌∙◌, Bool, true, false, List, [], ◌∷◌, length, arith,
  Bool-cases, inl, inr, ltb, drop, length-take, length-drop, min,
}
use inveni_ops.Buffer.{
  IngestionSignal, SignalBuffer, SignalBufferOptions, DrainAllResult, total_size, record_drop,
  record_drops, finish_drain, sink_failure, start_drain, drain_to_sink, drain_loop, drain_all,
}
use inveni_ops.Buffer.View.{View, total, IsSound, total_size-total, record_drop-IsSound}
use inveni_ops.Buffer.Drain.{length-backlog, start_drain-take}
use inveni_ops.Buffer.Lanes.{backlog}

record_drops-IsSound :
    (b : SignalBuffer) (w : View) (batch : List IngestionSignal)
    → IsSound b w
    → IsSound (record_drops b batch) w × ((record_drops b batch).options ≡ b.options)
unfolding record_drops record_drop
record_drops-IsSound b w [] h = (h, refl)
record_drops-IsSound b w (x ∷ xs) h =
    record_drops-IsSound (record_drop b x.severity sink_failure) w xs
      (record_drop-IsSound b w x.severity sink_failure h)

finish_drain-IsSound :
    (b : SignalBuffer) (w : View) (batch : List IngestionSignal) (ok : Bool)
    → IsSound b w
    → IsSound (finish_drain b batch ok).0 w
      × ((finish_drain b batch ok).0.options ≡ b.options)
      × ((finish_drain b batch ok).1.drained + (finish_drain b batch ok).1.failed ≡ length batch)
unfolding finish_drain
finish_drain-IsSound b w batch true h = (h, refl, omega arith)
finish_drain-IsSound b w batch false h =
    let (sound, options) = record_drops-IsSound b w batch h in (sound, options, omega arith)

-- One drainToSink leaves what follows the batch in the backlog, whether the sink takes the batch or
-- fails, and the two counts that it returns add up to the batch.
pub drain_to_sink-drop :
    (b : SignalBuffer) (v : View) (n : ℕ) (ok : Bool)
    → IsSound b v
    → (w : View) × IsSound (drain_to_sink b n ok).0 w
      × (backlog w ≡ drop n (backlog v))
      × ((drain_to_sink b n ok).1.drained + (drain_to_sink b n ok).1.failed ≡ min n (total v))
      × ((drain_to_sink b n ok).0.options ≡ b.options)
unfolding drain_to_sink
drain_to_sink-drop b v n ok h =
    let (w, sound, batch, left, options) = start_drain-take b v n h in
    let (sound', options', sum) =
      finish_drain-IsSound (start_drain b n).1 w (start_drain b n).0 ok sound in
    (
      w,
      sound',
      left,
      omega (arith, sum, ap length batch, length-take {0} n (backlog v), length-backlog v),
      options' ∙ options,
    )

-- What drainAll's loop has done when it started with `succeeded` and `failed`.
record Accounts (v : View) (batch_size rounds : ℕ) (start : ℕ) (out : SignalBuffer × DrainAllResult)
    : Type 0 where
  pub processed_sum : out.1.processed ≡ out.1.succeeded + out.1.failed
  pub nothing_lost : out.1.processed + out.1.remaining ≡ start + total v
  pub reported : out.1.remaining ≡ total_size out.0
  pub emptied : 0 < batch_size → total v ≤ rounds → out.1.remaining ≡ 0

drain_loop-Accounts :
    (oks : List Bool) (b : SignalBuffer) (v : View) (s f : ℕ)
    → IsSound b v
    → Accounts v b.options.drain_batch_size (length oks) (s + f) (drain_loop oks b s f)
unfolding drain_loop
drain_loop-Accounts [] b v s f h =
    let same = total_size-total b v h in
    record {
      processed_sum = refl;
      nothing_lost = omega arith;
      reported = refl;
      emptied = λ k l. omega arith;
    }
drain_loop-Accounts (ok ∷ oks) b v s f h = elim (Bool-cases (ltb 0 (total_size b))) [
  | inr done ↦
      let same = total_size-total b v h in
      let none_held : total v ≡ 0 = ground arith in
      rw done (record {
        processed_sum = refl;
        nothing_lost = omega arith;
        reported = refl;
        emptied = λ k l. omega arith;
      })
  | inl more ↦
      let n = b.options.drain_batch_size in
      let (w, sound, left, sum, options) = drain_to_sink-drop b v n ok h in
      let out = drain_to_sink b n ok in
      let rest : total w ≡ total v - n = omega (
        arith,
        length-backlog w,
        length-backlog v,
        ap length left,
        length-drop {0} n (backlog v),
      ) in
      let same_n : out.0.options.drain_batch_size ≡ n =
        ap (λ (o : SignalBufferOptions). o.drain_batch_size) options in
      let ih = drain_loop-Accounts oks out.0 w (s + out.1.drained) (f + out.1.failed) sound in
      let some_held : 0 < total v = ground (arith, total_size-total b v h) in
      rw more (record {
        processed_sum = ih.processed_sum;
        nothing_lost = omega (arith, ih.nothing_lost);
        reported = ih.reported;
        emptied = λ k l. ih.emptied (omega arith) (omega arith);
      })
]

-- drainAll reports what it did: `processed` is the sum of what the sink took and what it failed
-- on, no signal that the buffer held is missing from `processed` plus `remaining`, and `remaining`
-- is what the buffer still holds.
pub drain_all_accounts :
    (b : SignalBuffer) (v : View) (rounds : List Bool)
    → IsSound b v
    → let out = drain_all rounds b in
      (out.1.processed ≡ out.1.succeeded + out.1.failed)
      × (out.1.processed + out.1.remaining ≡ total v)
      × (out.1.remaining ≡ total_size out.0)
unfolding drain_all
drain_all_accounts b v rounds h =
    let a = drain_loop-Accounts rounds b v 0 0 h in
    (a.processed_sum, omega (arith, a.nothing_lost), a.reported)

-- With a positive batch size nothing remains, and every signal has been processed, if the clock
-- allows as many rounds as there are signals, whatever the sink answers.
pub drain_all_empties :
    (b : SignalBuffer) (v : View) (rounds : List Bool)
    → IsSound b v
    → 0 < b.options.drain_batch_size
    → total v ≤ length rounds
    → ((drain_all rounds b).1.remaining ≡ 0) × ((drain_all rounds b).1.processed ≡ total v)
unfolding drain_all
drain_all_empties b v rounds h k l =
    let a = drain_loop-Accounts rounds b v 0 0 h in
    let none_left = a.emptied k l in (none_left, omega (arith, a.nothing_lost))
