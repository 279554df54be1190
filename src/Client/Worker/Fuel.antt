-- ===== src/Client/Worker/Fuel.antt =====
-- client.go, flushRetryQueue: its loop ends, on the fuel that it is given.
use statokgo.Prelude.{
  ℕ, zero, suc, ◌+◌, ◌-◌, ◌≤◌, ◌<◌, ltb, leb, ◌&&◌, ◌||◌, not, Bool, true, false, List, [], ◌∷◌,
  ◌++◌, Option, none, some, ◌≡◌, refl, ap, sym, ◌∙◌, arith, length, length-append, length-take,
  length-drop, take, drop, get_elem?, Bool-cases, Option-cases, inl, inr, if_ind, &&-true, tests,
  min, is_empty, subst, ◌≢◌, ◌⊎◌,
}
use statokgo.Float.{Float}
use statokgo.Batch.{Payload, empty}
use statokgo.Transport.{SendError, is_stop_ingest_error}
use statokgo.Client.Retry.{
  should_retry_transport, default_retry_max_attempts, default_retry_queue_size,
  default_retry_flush_max_sends,
}
use statokgo.Client.Worker.{
  Worker, World, RetryBatch, enqueue_retry_at, enqueue_retry, note_transient_failure,
  reset_transient_backoff, defer_for_client_backoff, read_gate, must_wait, after_send, transmit,
  with_batch_id, send_payload, gate_time, flush_loop, flush_retry_queue,
}
use statokgo.Client.Worker.Steps.{without, resent, flush_loop-end, flush_loop-skip, flush_loop-send}

module _ {V : Type 0} (F : Float V) (env : World V) where
  -- at most one retry more
  abbrev Grows : List (RetryBatch V) → Worker V → Type 0
  Grows q w = length w.retry_queue ≤ length q + 1

  enqueue_retry_at-Grows :
      (p : Payload V) (attempts next : ℕ) (w : Worker V)
      → Grows w.retry_queue (enqueue_retry_at F env p attempts next w).1
  unfolding enqueue_retry_at
  enqueue_retry_at-Grows p attempts next w =
      if_ind (λ (r : Bool × Worker V). Grows w.retry_queue r.1)
        (leb default_retry_max_attempts attempts) _ _ (λ spent. omega arith)
        (λ left.
          if_ind (λ (r : Bool × Worker V). Grows w.retry_queue r.1)
            (leb default_retry_queue_size (length w.retry_queue)) _ _ (λ full. omega arith)
            (λ room. rw length-append (omega arith)))

  read_gate-queue : (w : Worker V) → (read_gate F env w).retry_queue ≡ w.retry_queue
  unfolding read_gate
  read_gate-queue w = ground arith

  with_batch_id-queue :
      (p : Payload V) (w : Worker V) → (with_batch_id F env p w).1.retry_queue ≡ w.retry_queue
  unfolding with_batch_id
  with_batch_id-queue p w = ground arith

  after_send-Grows :
      (p : Payload V) (attempt : ℕ) (result : Option SendError) (w : Worker V)
      → Grows w.retry_queue (after_send F env p attempt result w)
  unfolding after_send enqueue_retry note_transient_failure
  after_send-Grows p attempt none w = unfold reset_transient_backoff in omega arith
  after_send-Grows p attempt (some err) w =
      if_ind (Grows w.retry_queue) (is_stop_ingest_error err) _ _ (λ stop. omega arith)
        (λ goes_on.
          if_ind (Grows w.retry_queue) (should_retry_transport (some err)) _ w
            (λ retry. enqueue_retry_at-Grows p attempt _ _) (λ lost. omega arith))

  -- What happens to a payload adds at most one retry.
  pub send_payload-Grows :
      (p : Payload V) (attempt : ℕ) (w : Worker V)
      → Grows w.retry_queue (send_payload F env p attempt w)
  unfolding send_payload transmit defer_for_client_backoff
  send_payload-Grows p attempt w =
      let (p', w') = with_batch_id F env p w in
      let kept = with_batch_id-queue p w in
      if_ind (Grows w.retry_queue) (empty p || w.stop_sending) w _ (λ idle. omega arith)
        (λ busy. elim (Bool-cases (must_wait F env w'.next_send_attempt (env.clock w'.reads))) [
          | inl wait ↦ rw wait (
              omega (
                arith,
                enqueue_retry_at-Grows p' (attempt - 1) (gate_time F env w'.next_send_attempt)
                    (read_gate F env w'),
                ap length (read_gate-queue w' ∙ kept),
              ))
          | inr go ↦ rw go (
              omega (
                arith,
                after_send-Grows p' attempt _
                    (record (read_gate F env w') { sent = (read_gate F env w').sent ++ p' ∷ [] }),
                ap length (read_gate-queue w' ∙ kept),
              ))
        ])

  -- What is left to do: the places not yet passed, and the sends still allowed.
  abbrev pub work : List (RetryBatch V) → ℕ → ℕ → ℕ → ℕ
  work q i processed limit = (length q - i) + (limit - processed)

  -- The loop as the source has it, without fuel: n rounds take the worker w to w', and then the test
  -- of the loop fails. A round that reads behind the end of the queue would be a panic, and there is
  -- none here.
  pub data Rounds (ignore : Bool) (limit : ℕ)
      : (n i processed now : ℕ) → Worker V → Worker V → Type 0 where
    ends :
        {i processed now : ℕ} {w : Worker V}
        → (ltb i (length w.retry_queue) && ltb processed limit) ≡ false
        → Rounds ignore limit 0 i processed now w w
    skips :
        {n i processed now : ℕ} {w w' : Worker V} (item : RetryBatch V)
        → (ltb i (length w.retry_queue) && ltb processed limit) ≡ true
        → get_elem? w.retry_queue i ≡ some item
        → (not ignore && ltb now item.next_attempt) ≡ true
        → Rounds ignore limit n (i + 1) processed now w w'
        → Rounds ignore limit (suc n) i processed now w w'
    sends :
        {n i processed now : ℕ} {w w' : Worker V} (item : RetryBatch V)
        → (ltb i (length w.retry_queue) && ltb processed limit) ≡ true
        → get_elem? w.retry_queue i ≡ some item
        → (not ignore && ltb now item.next_attempt) ≡ false
        → Rounds ignore limit n i
            (processed + 1)
            (env.clock (resent F env i item w).reads)
            (record (resent F env i item w) { reads = (resent F env i item w).reads + 1 })
            w'
        → Rounds ignore limit (suc n) i processed now w w'

  -- the loop goes on from w for at most `most` rounds
  abbrev pub Ends : ℕ → Bool → ℕ → ℕ → ℕ → ℕ → Worker V → Worker V → Type 0
  Ends most ignore limit i processed now w w' =
      (n : ℕ) × (n ≤ most) × Rounds ignore limit n i processed now w w'

  resent-work :
      (i processed limit : ℕ) (item : RetryBatch V) (w : Worker V)
      → (ltb i (length w.retry_queue) && ltb processed limit) ≡ true
      → work (resent F env i item w).retry_queue i (processed + 1) limit
        < work w.retry_queue i processed limit
  resent-work i processed limit item w more =
      let (within, allowed) = &&-true (ltb i (length w.retry_queue)) (ltb processed limit) more in
      omega (
        tests,
        within,
        allowed,
        send_payload-Grows item.payload (item.attempts + 1) (without i w),
        length-append (take i w.retry_queue) (drop (suc i) w.retry_queue),
        length-take i w.retry_queue,
        length-drop (suc i) w.retry_queue,
      )

  in_queue : {A : Type 0} (xs : List A) (i : ℕ) → i < length xs → get_elem? xs i ≢ none
  in_queue [] i h = absurd (omega arith)
  in_queue (x ∷ xs) zero h = λ out. absurd (cc)
  in_queue (x ∷ xs) (suc i) h = in_queue xs i (omega arith)

  flush_loop-Ends :
      (f : ℕ) (ignore : Bool) (i processed limit now : ℕ) (w : Worker V)
      → work w.retry_queue i processed limit ≤ f
      → Ends f ignore limit i processed now w (flush_loop F env f ignore i processed limit now w)
  unfolding flush_loop
  flush_loop-Ends zero ignore i processed limit now w h = (0, omega arith, ends (ground arith))
  flush_loop-Ends (suc f) ignore i processed limit now w h =
      let goes_on = Ends (suc f) ignore limit i processed now w in
      elim (Bool-cases (ltb i (length w.retry_queue) && ltb processed limit)) [
        | inr done ↦
            subst goes_on (sym (flush_loop-end F env f ignore i processed limit now w done))
              (0, omega arith, ends done)
        | inl more ↦ elim (Option-cases (get_elem? w.retry_queue i)) [
          | inl out ↦
              let (within, allowed) =
                &&-true (ltb i (length w.retry_queue)) (ltb processed limit) more in
              absurd (in_queue w.retry_queue i (omega (tests, within)) out)
          | inr (item, at) ↦ elim (Bool-cases (not ignore && ltb now item.next_attempt)) [
            | inl early ↦
                let (n, few, rest) =
                  flush_loop-Ends f ignore (i + 1) processed limit now w (ground arith) in
                subst goes_on
                  (sym (flush_loop-skip F env f ignore i processed limit now w more item at early))
                  (suc n, omega (arith, few), skips item more at early rest)
            | inr due ↦
                let w' = resent F env i item w in
                let less = resent-work i processed limit item w more in
                let (n, few, rest) =
                  flush_loop-Ends f ignore i (processed + 1) limit (env.clock w'.reads)
                    (record w' { reads = w'.reads + 1 }) (omega (arith, less)) in
                subst goes_on
                  (sym (flush_loop-send F env f ignore i processed limit now w more item at due))
                  (suc n, omega (arith, few), sends item more at due rest)
          ]
        ]
      ]

  -- flushRetryQueue ends, whatever the transport answers and the clock reads. With an empty queue, or
  -- behind a stop, it does nothing. Else its loop, as the source has it, fails its own test behind at
  -- most as many rounds as the queue has batches and the round of sends may have, no round reads
  -- behind the end of the queue, and the worker is where these rounds take it.
  pub flush_retry_queue-Ends :
      (ignore : Bool) (w : Worker V)
      → (((is_empty w.retry_queue || w.stop_sending) ≡ true)
          × (flush_retry_queue F env ignore w ≡ w))
        ⊎ (((is_empty w.retry_queue || w.stop_sending) ≡ false)
            × Ends
                (length w.retry_queue + min (length w.retry_queue) default_retry_flush_max_sends)
                ignore
                (min (length w.retry_queue) default_retry_flush_max_sends)
                0
                0
                (env.clock w.reads)
                (record w { reads = w.reads + 1 })
                (flush_retry_queue F env ignore w))
  unfolding flush_retry_queue
  flush_retry_queue-Ends ignore w = elim (Bool-cases (is_empty w.retry_queue || w.stop_sending)) [
    | inl idle ↦ inl (idle, rw idle refl)
    | inr busy ↦ inr (
      busy,
      rw busy (
          flush_loop-Ends _ ignore 0 0 (min (length w.retry_queue) default_retry_flush_max_sends)
            (env.clock w.reads) (record w { reads = w.reads + 1 }) (omega arith)),
    )
  ]
