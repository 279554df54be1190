-- ===== src/Client/Worker/Gate.antt =====
-- client.go, deferForClientBackoff: sending while the client's backoff lasts.
use statokgo.Prelude.{
  true, List, Option, none, some, ◌≡◌, refl, ◌∙◌, arith, ◌||◌, ℕ, ◌+◌, ◌-◌, ◌<◌, if_ind,
}
use statokgo.Float.{Float}
use statokgo.Event.{Event}
use statokgo.Batch.{Payload, empty}
use statokgo.Client.Worker.{
  Worker, World, Input, with_batch_id, send_payload, run, drain, defer_for_client_backoff,
  read_gate, must_wait, enqueue_retry_at,
}
use statokgo.Client.Worker.Induction.{IsInvariant, run_keeps, drain_keeps}

-- No send is due before `until`, and the record of what was sent is `log`.
record IsShut {V : Type 0} (until : ℕ) (log : List (Payload V)) (w : Worker V) : Type 0 where
  gate : w.next_send_attempt ≡ some until
  same : w.sent ≡ log

module _ {V : Type 0} (F : Float V) (env : World V) (until : ℕ)
    (early : (n : ℕ) → env.clock n < until) where
  enqueue_retry_at-IsShut :
      (log : List (Payload V)) (p : Payload V) (attempts next : ℕ) (w : Worker V)
      → IsShut until log w
      → IsShut until log (enqueue_retry_at F env p attempts next w).1
  unfolding enqueue_retry_at
  enqueue_retry_at-IsShut log p attempts next w h = record {
    gate = ground (arith, h.gate);
    same = ground (arith, h.same);
  }

  read_gate-IsShut :
      (log : List (Payload V)) (w : Worker V)
      → IsShut until log w
      → IsShut until log (read_gate F env w)
  unfolding read_gate
  read_gate-IsShut log w h = record { gate = ground (arith, h.gate); same = ground (arith, h.same) }

  must_wait_early :
      (next : Option ℕ) (n : ℕ) → next ≡ some until → must_wait F env next (env.clock n) ≡ true
  unfolding must_wait
  must_wait_early none n h = cc
  must_wait_early (some t) n h = ground (arith, early n)

  defer_early :
      (log : List (Payload V)) (p : Payload V) (attempt : ℕ) (w : Worker V)
      → IsShut until log w
      → ((defer_for_client_backoff F env p attempt w).0 ≡ true)
        × IsShut until log (defer_for_client_backoff F env p attempt w).1
  unfolding defer_for_client_backoff
  defer_early log p attempt w h = rw (must_wait_early w.next_send_attempt w.reads h.gate) (
    refl,
    enqueue_retry_at-IsShut log p (attempt - 1) _ (read_gate F env w) (read_gate-IsShut log w h),
  )

  with_batch_id-IsShut :
      (log : List (Payload V)) (p : Payload V) (w : Worker V)
      → IsShut until log w
      → IsShut until log (with_batch_id F env p w).1
  unfolding with_batch_id
  with_batch_id-IsShut log p w h = record {
    gate = ground (arith, h.gate);
    same = ground (arith, h.same);
  }

  send_payload-IsShut :
      (log : List (Payload V)) (p : Payload V) (attempt : ℕ) (w : Worker V)
      → IsShut until log w
      → IsShut until log (send_payload F env p attempt w)
  unfolding send_payload
  send_payload-IsShut log p attempt w h =
      let named = with_batch_id F env p w in
      let (put_off, shut) =
        defer_early log named.0 attempt named.1 (with_batch_id-IsShut log p w h) in
      if_ind (IsShut until log) (empty p || w.stop_sending) w _ (λ idle. h)
        (λ busy. rw put_off shut)

  IsShut-invariant : (log : List (Payload V)) → IsInvariant F env (IsShut until log)
  IsShut-invariant log = record {
    frame = λ w w' agree h. record {
      gate = agree.next_send_attempt ∙ h.gate;
      same = agree.sent ∙ h.same;
    };
    first = λ p w blank h. send_payload-IsShut log _ 1 _ (with_batch_id-IsShut log p w h);
    again = λ i item w at h.
        send_payload-IsShut log item.payload (item.attempts + 1) _
          (record { gate = h.gate; same = h.same });
  }

  -- While every reading of the clock lies before the end of the client's backoff, no turn of the loop
  -- sends anything, and the drain of Close does not either: neither the batch that is pending nor a
  -- batch that waits for its retry gets a last attempt.
  pub backoff_holds_back :
      (w : Worker V) (is : List (Input V)) (evs : List (Event V))
      → w.next_send_attempt ≡ some until
      → (drain F env evs (run F env is w)).sent ≡ w.sent
  backoff_holds_back w is evs h =
      let inv = IsShut-invariant w.sent in
      let shut : IsShut until w.sent w = record { gate = h; same = refl } in
      let end =
        drain_keeps F env (IsShut until w.sent) inv evs _
          (run_keeps F env (IsShut until w.sent) inv is w shut) in
      end.same
