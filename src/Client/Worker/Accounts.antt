-- ===== src/Client/Worker/Accounts.antt =====
-- client.go, sendPayload: what sending a batch does to the ledger.
use statokgo.Prelude.{
  ℕ, ◌-◌, ◌≤◌, ◌<◌, leb, ◌||◌, Bool, false, [], ◌∷◌, ◌++◌, Option, none, some, ◌≡◌, arith, length,
  is_empty, Bool-cases, inl, inr, if_ind,
}
use statokgo.Float.{Float}
use statokgo.Batch.{Payload, empty}
use statokgo.Transport.{SendError, is_stop_ingest_error}
use statokgo.Client.Retry.{
  should_retry_transport, default_retry_max_attempts, default_retry_queue_size,
}
use statokgo.Client.Worker.{
  Worker, World, enqueue_retry_at, enqueue_retry, note_transient_failure, reset_transient_backoff,
  defer_for_client_backoff, read_gate, must_wait, gate_time, after_send, transmit, send_payload,
}
use statokgo.Client.Worker.Attempts.{
  times, times-append_self, IsIssued, Absent, Ledger, Ledger-enqueue, Ledger-send,
}
use statokgo.Client.Worker.Numbers.{read_gate_ind, send_payload_named}

module _ {V : Type 0} (F : Float V) (env : World V) where
  -- the ledger of a worker, at a sequence number that the call does not change
  unfoldable pub Accounts : ℕ → Worker V → Type 0
  Accounts seq w = Ledger env.batch_session seq w.sent w.retry_queue

  enqueue_retry_at-Accounts :
      (seq : ℕ) (p : Payload V) (attempts next : ℕ) (w : Worker V)
      → Accounts seq w
      → Absent p.batch_id w.retry_queue
      → times p.batch_id w.sent ≤ attempts
      → IsIssued env.batch_session seq p.batch_id
      → Accounts seq (enqueue_retry_at F env p attempts next w).1
  unfolding enqueue_retry_at Accounts
  enqueue_retry_at-Accounts seq p attempts next w h a c issued =
      if_ind (λ (r : Bool × Worker V). Accounts seq r.1) (leb default_retry_max_attempts attempts) _
        _ (λ spent. h)
        (λ left.
          if_ind (λ (r : Bool × Worker V). Accounts seq r.1)
            (leb default_retry_queue_size (length w.retry_queue)) _ _ (λ full. h)
            (λ room.
              Ledger-enqueue env.batch_session seq w.sent w.retry_queue _ h a
                (record { count = c; left = ground arith; issued = issued })))

  after_send-Accounts :
      (seq : ℕ) (p : Payload V) (attempt : ℕ) (result : Option SendError) (w : Worker V)
      → Accounts seq w
      → Absent p.batch_id w.retry_queue
      → times p.batch_id w.sent ≤ attempt
      → IsIssued env.batch_session seq p.batch_id
      → Accounts seq (after_send F env p attempt result w)
  unfolding after_send reset_transient_backoff enqueue_retry note_transient_failure Accounts
  after_send-Accounts seq p attempt none w h a c issued = h
  after_send-Accounts seq p attempt (some err) w h a c issued =
      if_ind (Accounts seq) (is_stop_ingest_error err) _ _ (λ stop. h)
        (λ goes_on.
          if_ind (Accounts seq) (should_retry_transport (some err)) _ w
            (λ retry. enqueue_retry_at-Accounts seq p attempt _ _ h a c issued) (λ lost. h))

  transmit-Accounts :
      (seq : ℕ) (p : Payload V) (attempt : ℕ) (w : Worker V)
      → Accounts seq w
      → Absent p.batch_id w.retry_queue
      → times p.batch_id w.sent < attempt
      → attempt ≤ default_retry_max_attempts
      → IsIssued env.batch_session seq p.batch_id
      → Accounts seq (transmit F env p attempt w)
  unfolding transmit Accounts
  transmit-Accounts seq p attempt w h a c limit issued =
      after_send-Accounts seq p attempt (env.transport w.sent p)
        (record w { sent = w.sent ++ p ∷ [] })
        (Ledger-send env.batch_session seq w.sent w.retry_queue p h a (omega arith) issued) a
        (omega (arith, times-append_self w.sent p)) issued

  module _ (seq : ℕ) (p : Payload V) (attempt : ℕ) (limit : attempt ≤ default_retry_max_attempts)
      (issued : IsIssued env.batch_session seq p.batch_id) where
    -- A worker that may send p for the attempt-th time.
    pub record MaySend (w : Worker V) : Type 0 where
      pub ledger : Accounts seq w
      pub absent : Absent p.batch_id w.retry_queue
      pub count : times p.batch_id w.sent < attempt

    defer-Accounts :
        (w : Worker V)
        → MaySend w
        → Accounts seq (defer_for_client_backoff F env p attempt w).1
          × ((defer_for_client_backoff F env p attempt w).0 ≡ false
              → MaySend (defer_for_client_backoff F env p attempt w).1)
    unfolding defer_for_client_backoff Accounts
    defer-Accounts w h =
        let gate =
          read_gate_ind F env MaySend w h
            (record { ledger = h.ledger; absent = h.absent; count = h.count }) in
        elim (Bool-cases (must_wait F env w.next_send_attempt (env.clock w.reads))) [
          | inl wait ↦ rw wait (
            enqueue_retry_at-Accounts seq p (attempt - 1) (gate_time F env w.next_send_attempt)
                (read_gate F env w) gate.ledger gate.absent (omega (arith, gate.count)) issued,
            λ e. absurd (cc),
          )
          | inr go ↦ rw go (gate.ledger, λ e. gate)
        ]

    pub send_payload-Accounts :
        (w : Worker V)
        → is_empty p.batch_id ≡ false
        → MaySend w
        → Accounts seq (send_payload F env p attempt w)
    send_payload-Accounts w named h =
        let (put_off, may) = defer-Accounts w h in
        rw (send_payload_named F env p attempt w named) (
          if_ind (Accounts seq) (empty p || w.stop_sending) w _ (λ idle. h.ledger)
            (λ busy.
              if_ind (Accounts seq) (defer_for_client_backoff F env p attempt w).0 _ _
                (λ deferred. put_off)
                (λ passes.
                  let m = may passes in
                  transmit-Accounts seq p attempt (defer_for_client_backoff F env p attempt w).1
                    m.ledger m.absent m.count limit issued)))
