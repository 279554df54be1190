-- ===== src/Client/Worker/Stop.antt =====
-- client.go, sendPayload: sending after a stop error.
use statokgo.Prelude.{true, List, [], ◌∷◌, ◌++◌, some, ◌≡◌, refl, ◌∙◌, arith, ℕ, ◌+◌}
use statokgo.Float.{Float}
use statokgo.Event.{Event}
use statokgo.Batch.{Payload}
use statokgo.Transport.{HttpTransportError, stop_ingest, is_stop_ingest_error}
use statokgo.Client.Worker.{
  Worker, World, Input, after_send, transmit, with_batch_id, send_payload, run, drain,
}
use statokgo.Client.Worker.Steps.{without}
use statokgo.Client.Worker.Induction.{IsInvariant, run_keeps, drain_keeps}

-- Sending is off, and the record of what was sent is `log`.
record IsStopped {V : Type 0} (log : List (Payload V)) (w : Worker V) : Type 0 where
  off : w.stop_sending ≡ true
  same : w.sent ≡ log

module _ {V : Type 0} (F : Float V) (env : World V) where
  send_payload_stopped :
      (p : Payload V) (attempt : ℕ) (w : Worker V)
      → w.stop_sending ≡ true
      → send_payload F env p attempt w ≡ w
  unfolding send_payload
  send_payload_stopped p attempt w h = ground arith

  with_batch_id-IsStopped :
      (log : List (Payload V)) (p : Payload V) (w : Worker V)
      → IsStopped log w
      → IsStopped log (with_batch_id F env p w).1
  unfolding with_batch_id
  with_batch_id-IsStopped log p w h = record {
    off = ground (arith, h.off);
    same = ground (arith, h.same);
  }

  IsStopped-invariant : (log : List (Payload V)) → IsInvariant F env (IsStopped log)
  IsStopped-invariant log = record {
    frame = λ w w' agree h. record { off = agree.stop_sending ∙ h.off; same = agree.sent ∙ h.same };
    first = λ p w blank h.
        let k = with_batch_id-IsStopped log p w h in
        rw (send_payload_stopped (with_batch_id F env p w).0 1 (with_batch_id F env p w).1 k.off) k;
    again = λ i item w at h.
        rw (send_payload_stopped item.payload (item.attempts + 1) (without i w) h.off)
          (record { off = h.off; same = h.same });
  }

  stop_lem :
      (p : Payload V) (attempt code : ℕ) (e : HttpTransportError) (w : Worker V)
      → env.transport w.sent p ≡ some (stop_ingest code e)
      → IsStopped (w.sent ++ p ∷ []) (transmit F env p attempt w)
  unfolding transmit after_send is_stop_ingest_error
  stop_lem p attempt code e w h = rw h (record { off = refl; same = refl })

  -- If the transport answers the sending of a batch with a stop error, then no batch is sent any
  -- more, neither by any further turns of the loop nor by the drain, and that batch is not queued
  -- for a retry.
  pub stop_is_final :
      (p : Payload V) (attempt code : ℕ) (e : HttpTransportError) (w : Worker V)
      (is : List (Input V)) (evs : List (Event V))
      → env.transport w.sent p ≡ some (stop_ingest code e)
      → ((drain F env evs (run F env is (transmit F env p attempt w))).sent ≡ w.sent ++ p ∷ [])
        × ((transmit F env p attempt w).retry_queue ≡ w.retry_queue)
  unfolding transmit after_send is_stop_ingest_error
  stop_is_final p attempt code e w is evs h =
      let log = w.sent ++ p ∷ [] in
      let inv = IsStopped-invariant log in
      let stopped = stop_lem p attempt code e w h in
      let end =
        drain_keeps F env (IsStopped log) inv evs _
          (run_keeps F env (IsStopped log) inv is _ stopped) in
      (end.same, rw h refl)
