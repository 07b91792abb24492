-- ===== src/Dispatch/Claims.antt =====
-- The claim of an escalation level: suppression.ts and dispatchEscalation of
-- backend/src/services/alerting/dispatcher.ts, on what Redis documents of SADD and EXPIRE.
use inveni_ops.Base.{ℕ, ◌≡◌, ◌≢◌, Bool, true, false, List, [], ◌∷◌}
use inveni_ops.Types.{Ident}
use inveni_ops.Retry.{Result, ok, err, RetryError}
use inveni_ops.Retry.Keeps.{retry_kept}
use inveni_ops.Metrics.{AlertMetricsRecorder}
use inveni_ops.Alerting.{Alert, AlertContext}
use inveni_ops.Dispatch.Framing.{Notifier}
use inveni_ops.Dispatch.{
  AlertWorld, AlertDispatcherOptions, AlertState, send_via, fan_out, sent, escalation_level,
}

-- The level of an item is in its set, as long as the key has not expired.
pub record Lawful (world : AlertWorld) (Taken : world.W → Ident → Type 0) : Type 0 where
  pub added :
      (w : world.W) (i : Ident) (b : Bool)
      → (world.sadd w i escalation_level).1 ≡ ok b
      → Taken (world.sadd w i escalation_level).0 i
  pub not_added :
      (w : world.W) (i : Ident) → Taken w i → (world.sadd w i escalation_level).1 ≢ ok true
  pub sadd_kept :
      (w : world.W) (i j : Ident) → Taken w i → Taken (world.sadd w j escalation_level).0 i
  pub expire_kept :
      (w : world.W) (i j : Ident) (seconds : ℕ) → Taken w i → Taken (world.expire w j seconds).0 i
  pub send_kept :
      (w : world.W) (i : Ident) (n : Notifier) (a : Alert) (c : AlertContext)
      → Taken w i
      → Taken (world.send w n a c).0 i
  pub metric_kept :
      (w : world.W) (i c : Ident) (b : Bool) → Taken w i → Taken (world.write_metric w c b) i

module _ (world : AlertWorld) (o : AlertDispatcherOptions) (Taken : world.W → Ident → Type 0)
    (lawful : Lawful world Taken) where
  open world use {W, Error, sadd, expire}

  sent_kept :
      (i : Ident) (n : Notifier) (m : AlertMetricsRecorder)
      (r : W × Result (RetryError Error) Unit × List ℕ)
      → Taken r.0 i
      → Taken (sent world o n m r).outside i
  sent_kept i n m (w, ok u, delays) h = lawful.metric_kept w i _ true h
  sent_kept i n m (w, err e, delays) h = lawful.metric_kept w i _ false h

  send_via_kept :
      (i : Ident) (a : Alert) (c : AlertContext) (s : AlertState world o) (n : Notifier)
      → Taken s.outside i
      → Taken (send_via world o a c s n).outside i
  unfolding send_via
  send_via_kept i a c s n h =
      sent_kept i n s.metrics _
        (retry_kept _ _ (λ w. Taken w i) (λ w k. lawful.send_kept w i n a c k) s.outside h)

  pub fan_out_kept :
      (i : Ident) (a : Alert) (c : AlertContext) (ns : List Notifier) (s : AlertState world o)
      → Taken s.outside i
      → Taken (fan_out world o a c ns s).outside i
  unfolding fan_out
  fan_out_kept i a c [] s h = h
  fan_out_kept i a c (n ∷ ns) s h =
      fan_out_kept i a c ns (send_via world o a c s n) (send_via_kept i a c s n h)
