-- ===== src/Client/Worker/Numbers.antt =====
-- client.go, nextBatchID: the batch IDs and the sequence number that a call moves on.
use statokgo.Prelude.{
  ℕ, ◌+◌, ◌-◌, ◌≤◌, ◌||◌, false, Bytes, [], ◌∷◌, ◌++◌, Option, none, some, ◌≡◌, refl, ◌∙◌, arith,
  is_empty, Bool-cases, inl, inr, if_ind, if◌then◌else◌,
}
use statokgo.Float.{Float}
use statokgo.Batch.{Payload, empty}
use statokgo.Go.Strconv.Base36.{format_base36-injective}
use statokgo.Transport.{SendError, is_stop_ingest_error}
use statokgo.Client.Retry.{should_retry_transport}
use statokgo.Client.Worker.{
  Worker, World, batch_id, enqueue_retry_at, enqueue_retry, note_transient_failure,
  reset_transient_backoff, defer_for_client_backoff, read_gate, must_wait, gate_time, after_send,
  transmit, with_batch_id, next_batch_id, send_payload,
}

append_cancel : (s x y : Bytes) → s ++ x ≡ s ++ y → x ≡ y
append_cancel [] x y e = e
append_cancel (c ∷ s) x y e = append_cancel s x y (cc)

pub batch_id-injective :
    (session : Bytes) (a b : ℕ) → batch_id session a ≡ batch_id session b → a ≡ b
unfolding batch_id
batch_id-injective session a b e =
    let same = append_cancel session _ _ e in format_base36-injective a b (cc)

pub batch_id-not_empty : (session : Bytes) (n : ℕ) → is_empty (batch_id session n) ≡ false
unfolding batch_id is_empty
batch_id-not_empty [] n = refl
batch_id-not_empty (c ∷ s) n = refl

module _ {V : Type 0} (F : Float V) (env : World V) where
  pub read_gate_ind :
      (P : Worker V → Type 0) (w : Worker V)
      → P w
      → P (record w { reads = w.reads + 1 })
      → P (read_gate F env w)
  unfolding read_gate
  read_gate_ind P w h k = go w.next_send_attempt
    where
      go :
          (next : Option ℕ) → P (elim next [ none ↦ w | some t ↦ record w { reads = w.reads + 1 } ])
      go none = h
      go (some t) = k

  pub with_batch_id_named :
      (p : Payload V) (w : Worker V)
      → is_empty p.batch_id ≡ false
      → with_batch_id F env p w ≡ (p, w)
  unfolding with_batch_id
  with_batch_id_named p w named = rw named

  pub send_payload_named :
      (p : Payload V) (attempt : ℕ) (w : Worker V)
      → is_empty p.batch_id ≡ false
      → send_payload F env p attempt w ≡ (
          if empty p || w.stop_sending
          then w
          else if (defer_for_client_backoff F env p attempt w).0
          then (defer_for_client_backoff F env p attempt w).1
          else transmit F env p attempt (defer_for_client_backoff F env p attempt w).1)
  unfolding send_payload
  send_payload_named p attempt w named = rw named

  -- sending a batch that has its ID takes no number
  enqueue_retry_at-batch_seq :
      (p : Payload V) (attempts next : ℕ) (w : Worker V)
      → (enqueue_retry_at F env p attempts next w).1.batch_seq ≡ w.batch_seq
  unfolding enqueue_retry_at
  enqueue_retry_at-batch_seq p attempts next w = ground arith

  defer-batch_seq :
      (p : Payload V) (attempt : ℕ) (w : Worker V)
      → (defer_for_client_backoff F env p attempt w).1.batch_seq ≡ w.batch_seq
  unfolding defer_for_client_backoff
  defer-batch_seq p attempt w =
      let gate = read_gate_ind (λ w'. w'.batch_seq ≡ w.batch_seq) w refl refl in
      elim (Bool-cases (must_wait F env w.next_send_attempt (env.clock w.reads))) [
        | inl wait ↦ rw wait (
            enqueue_retry_at-batch_seq p (attempt - 1) (gate_time F env w.next_send_attempt)
              (read_gate F env w)
            ∙ gate)
        | inr go ↦ rw go gate
      ]

  after_send-batch_seq :
      (p : Payload V) (attempt : ℕ) (result : Option SendError) (w : Worker V)
      → (after_send F env p attempt result w).batch_seq ≡ w.batch_seq
  unfolding after_send enqueue_retry note_transient_failure reset_transient_backoff
  after_send-batch_seq p attempt none w = refl
  after_send-batch_seq p attempt (some err) w =
      if_ind (λ (w' : Worker V). w'.batch_seq ≡ w.batch_seq) (is_stop_ingest_error err) _ _
        (λ stop. refl)
        (λ goes_on.
          if_ind (λ (w' : Worker V). w'.batch_seq ≡ w.batch_seq) (should_retry_transport (some err))
            _ w (λ retry. enqueue_retry_at-batch_seq p attempt _ _) (λ lost. refl))

  transmit-batch_seq :
      (p : Payload V) (attempt : ℕ) (w : Worker V)
      → (transmit F env p attempt w).batch_seq ≡ w.batch_seq
  unfolding transmit
  transmit-batch_seq p attempt w = after_send-batch_seq p attempt (env.transport w.sent p) _

  pub send_payload-batch_seq :
      (p : Payload V) (attempt : ℕ) (w : Worker V)
      → is_empty p.batch_id ≡ false
      → (send_payload F env p attempt w).batch_seq ≡ w.batch_seq
  send_payload-batch_seq p attempt w named = rw (send_payload_named p attempt w named) (
      if_ind (λ (w' : Worker V). w'.batch_seq ≡ w.batch_seq) (empty p || w.stop_sending) w _
        (λ idle. refl)
        (λ busy.
          if_ind (λ (w' : Worker V). w'.batch_seq ≡ w.batch_seq)
            (defer_for_client_backoff F env p attempt w).0 _ _
            (λ deferred. defer-batch_seq p attempt w)
            (λ passes.
              transmit-batch_seq p attempt (defer_for_client_backoff F env p attempt w).1
              ∙ defer-batch_seq p attempt w)))

  with_batch_id-rises :
      (p : Payload V) (w : Worker V) → w.batch_seq ≤ (with_batch_id F env p w).1.batch_seq
  unfolding with_batch_id next_batch_id
  with_batch_id-rises p w = ground arith

  -- No call takes a number back.
  pub send_payload-rises :
      (p : Payload V) (attempt : ℕ) (w : Worker V)
      → w.batch_seq ≤ (send_payload F env p attempt w).batch_seq
  unfolding send_payload
  send_payload-rises p attempt w =
      let (p', w') = with_batch_id F env p w in
      let rises = with_batch_id-rises p w in
      if_ind (λ (v : Worker V). w.batch_seq ≤ v.batch_seq) (empty p || w.stop_sending) w _
        (λ idle. omega arith)
        (λ busy.
          if_ind (λ (v : Worker V). w.batch_seq ≤ v.batch_seq)
            (defer_for_client_backoff F env p' attempt w').0 _ _
            (λ deferred. omega (arith, rises, defer-batch_seq p' attempt w'))
            (λ passes. omega (
              arith,
              rises,
              defer-batch_seq p' attempt w',
              transmit-batch_seq p' attempt (defer_for_client_backoff F env p' attempt w').1,
            )))
