-- ===== src/Client/Worker/Keeps.antt =====
-- client.go: what each operation of the worker keeps of the queue of retries, the batch and the totals.
use statokgo.Prelude.{
  ℕ, zero, suc, ◌+◌, ◌-◌, ◌≤◌, ◌<◌, ltb, leb, ◌&&◌, not, Bool, List, [], ◌∷◌, ◌++◌, Option, none,
  some, ◌≡◌, refl, arith, All, All-append, All-remove, length, length-append, take, drop,
  length-take, length-drop, get_elem?, Bool-cases, inl, inr, min, is_empty, ◌||◌, ◌∙◌, Option-cases,
}
use statokgo.Float.{Float}
use statokgo.Batch.{Payload, empty}
use statokgo.Transport.{SendError, is_stop_ingest_error}
use statokgo.Client.Retry.{
  default_retry_queue_size, default_retry_max_attempts, default_retry_flush_max_sends,
  should_retry_transport,
}
use statokgo.Client.Worker.Steps.{
  without, resent, flush_loop-end, flush_loop-out, flush_loop-skip, flush_loop-send,
}
use statokgo.Client.Worker.{
  Worker, World, RetryBatch, enqueue_retry_at, enqueue_retry, note_transient_failure,
  reset_transient_backoff, defer_for_client_backoff, read_gate, after_send, transmit, with_batch_id,
  send_payload, flush_loop, flush_retry_queue, must_wait, next_batch_id, named,
}

-- The queue of retries fits, and each of its batches has attempts left.
pub record QueueFits {V : Type 0} (q : List (RetryBatch V)) : Type 0 where
  pub size : length q ≤ default_retry_queue_size
  pub budget : All (λ r. r.attempts < default_retry_max_attempts) q

-- `w'` has a queue that fits, and the batch and the totals of `w`.
pub record Keeps {V : Type 0} (w w' : Worker V) : Type 0 where
  pub fits : QueueFits w'.retry_queue
  pub batch : w'.batch ≡ w.batch
  pub totals : w'.totals ≡ w.totals

-- the queue without its place i
pub QueueFits-remove :
    {V : Type 0} (q : List (RetryBatch V)) (i : ℕ)
    → QueueFits q
    → QueueFits (take i q ++ drop (suc i) q)
QueueFits-remove q i h = record {
  size = omega (
    arith,
    h.size,
    length-append (take i q) (drop (suc i) q),
    length-take i q,
    length-drop (suc i) q,
  );
  budget = All-remove _ q i h.budget;
}

module _ {V : Type 0} (F : Float V) (env : World V) where
  enqueue_retry_at-Keeps :
      (p : Payload V) (attempts next : ℕ) (w : Worker V)
      → QueueFits w.retry_queue
      → Keeps w (enqueue_retry_at F env p attempts next w).1
  unfolding enqueue_retry_at
  enqueue_retry_at-Keeps p attempts next w h =
      elim (Bool-cases (leb default_retry_max_attempts attempts)) [
        | inl spent ↦ rw spent (record { fits = h; batch = refl; totals = refl })
        | inr left ↦ elim (Bool-cases (leb default_retry_queue_size (length w.retry_queue))) [
          | inl full ↦ rw (left, full) (record { fits = h; batch = refl; totals = refl })
          | inr room ↦
              rw (left, room)
                (record {
                  fits = record {
                    size = rw length-append (ground arith);
                    budget = All-append _ w.retry_queue _ h.budget (ground arith, tt);
                  };
                  batch = refl;
                  totals = refl;
                })
        ]
      ]

  pub same : (w : Worker V) → QueueFits w.retry_queue → Keeps w w
  same w h = record { fits = h; batch = refl; totals = refl }

  pub Keeps-trans : {u v w : Worker V} → Keeps u v → Keeps v w → Keeps u w
  Keeps-trans h k = record {
    fits = k.fits;
    batch = k.batch ∙ h.batch;
    totals = k.totals ∙ h.totals;
  }

  read_gate-Keeps : (w : Worker V) → QueueFits w.retry_queue → Keeps w (read_gate F env w)
  unfolding read_gate
  read_gate-Keeps w h = go w.next_send_attempt
    where
      go :
          (next : Option ℕ)
          → Keeps w (elim next [ none ↦ w | some t ↦ record w { reads = w.reads + 1 } ])
      go none = same w h
      go (some t) = record { fits = h; batch = refl; totals = refl }

  defer-Keeps :
      (p : Payload V) (attempt : ℕ) (w : Worker V)
      → QueueFits w.retry_queue
      → Keeps w (defer_for_client_backoff F env p attempt w).1
  unfolding defer_for_client_backoff
  defer-Keeps p attempt w h =
      let gate = read_gate-Keeps w h in
      elim (Bool-cases (must_wait F env w.next_send_attempt (env.clock w.reads))) [
        | inl wait ↦ rw wait (
            Keeps-trans gate
              (enqueue_retry_at-Keeps p (attempt - 1) _ (read_gate F env w) gate.fits))
        | inr go ↦ rw go gate
      ]

  after_send-Keeps :
      (p : Payload V) (attempt : ℕ) (result : Option SendError) (w : Worker V)
      → QueueFits w.retry_queue
      → Keeps w (after_send F env p attempt result w)
  unfolding after_send enqueue_retry note_transient_failure reset_transient_backoff
  after_send-Keeps p attempt none w h = record { fits = h; batch = refl; totals = refl }
  after_send-Keeps p attempt (some err) w h = elim (Bool-cases (is_stop_ingest_error err)) [
    | inl stop ↦ rw stop (record { fits = h; batch = refl; totals = refl })
    | inr goes_on ↦ elim (Bool-cases (should_retry_transport (some err))) [
      | inl retry ↦
          let noted = note_transient_failure F env w in
          let k = enqueue_retry_at-Keeps p attempt _ (record noted { reads = noted.reads + 2 }) h in
          rw (goes_on, retry) (record { fits = k.fits; batch = k.batch; totals = k.totals })
      | inr lost ↦ rw (goes_on, lost) (same w h)
    ]
  ]

  pub with_batch_id-Keeps :
      (p : Payload V) (w : Worker V) → QueueFits w.retry_queue → Keeps w (with_batch_id F env p w).1
  unfolding with_batch_id
  with_batch_id-Keeps p w h = elim (Bool-cases (is_empty p.batch_id)) [
    | inl blank ↦
        rw blank (unfold next_batch_id in record { fits = h; batch = refl; totals = refl })
    | inr named ↦ rw named (same w h)
  ]

  pub send_payload-Keeps :
      (p : Payload V) (attempt : ℕ) (w : Worker V)
      → QueueFits w.retry_queue
      → Keeps w (send_payload F env p attempt w)
  unfolding send_payload transmit
  send_payload-Keeps p attempt w h = elim (Bool-cases (empty p || w.stop_sending)) [
    | inl idle ↦ rw idle (same w h)
    | inr busy ↦
        let (p', w') = with_batch_id F env p w in
        let named = with_batch_id-Keeps p w h in
        let gated = defer-Keeps p' attempt w' named.fits in
        elim (Bool-cases (defer_for_client_backoff F env p' attempt w').0) [
          | inl deferred ↦ rw (busy, deferred) (Keeps-trans named gated)
          | inr passes ↦
              let w'' = (defer_for_client_backoff F env p' attempt w').1 in
              let sent =
                after_send-Keeps p' attempt (env.transport w''.sent p')
                  (record w'' { sent = w''.sent ++ p' ∷ [] }) gated.fits in
              rw (busy, passes)
                (Keeps-trans named (
                  Keeps-trans gated
                    (record { fits = sent.fits; batch = sent.batch; totals = sent.totals })))
        ]
  ]

  flush_loop-Keeps :
      (f : ℕ) (ignore : Bool) (i processed limit now : ℕ) (w : Worker V)
      → QueueFits w.retry_queue
      → Keeps w (flush_loop F env f ignore i processed limit now w)
  unfolding flush_loop
  flush_loop-Keeps zero ignore i processed limit now w h = same w h
  flush_loop-Keeps (suc f) ignore i processed limit now w h =
      elim (Bool-cases (ltb i (length w.retry_queue) && ltb processed limit)) [
        | inr done ↦ rw (flush_loop-end F env f ignore i processed limit now w done) (same w h)
        | inl more ↦ elim (Option-cases (get_elem? w.retry_queue i)) [
          | inl out ↦ rw (flush_loop-out F env f ignore i processed limit now w more out) (same w h)
          | inr (item, at) ↦ elim (Bool-cases (not ignore && ltb now item.next_attempt)) [
            | inl early ↦
                rw (flush_loop-skip F env f ignore i processed limit now w more item at early)
                  (flush_loop-Keeps f ignore (i + 1) processed limit now w h)
            | inr due ↦
                let sent =
                  send_payload-Keeps item.payload (item.attempts + 1) (without i w)
                    (QueueFits-remove w.retry_queue i h) in
                let w' = resent F env i item w in
                let rest =
                  flush_loop-Keeps f ignore i (processed + 1) limit (env.clock w'.reads)
                    (record w' { reads = w'.reads + 1 }) sent.fits in
                rw (flush_loop-send F env f ignore i processed limit now w more item at due)
                  (record {
                    fits = rest.fits;
                    batch = rest.batch ∙ sent.batch;
                    totals = rest.totals ∙ sent.totals;
                  })
          ]
        ]
      ]

  pub flush_retry_queue-Keeps :
      (ignore : Bool) (w : Worker V)
      → QueueFits w.retry_queue
      → Keeps w (flush_retry_queue F env ignore w)
  unfolding flush_retry_queue
  flush_retry_queue-Keeps ignore w h =
      elim (Bool-cases (is_empty w.retry_queue || w.stop_sending)) [
        | inl idle ↦ rw idle (same w h)
        | inr busy ↦
            let k =
              flush_loop-Keeps
                (length w.retry_queue + min (length w.retry_queue) default_retry_flush_max_sends)
                ignore 0 0 (min (length w.retry_queue) default_retry_flush_max_sends)
                (env.clock w.reads) (record w { reads = w.reads + 1 }) h in
            rw busy (record { fits = k.fits; batch = k.batch; totals = k.totals })
      ]
