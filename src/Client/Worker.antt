-- ===== src/Client/Worker.antt =====
-- client.go, run: the goroutine that owns the batch, the totals and the queue of retries. It sends
-- through a Transport that this file knows only by the outcome of each call.
pub mod Steps
pub mod Keeps
pub mod Bounds
pub mod Fuel
pub mod Delivers
pub mod Induction
pub mod Stop
pub mod Attempts
pub mod Numbers
pub mod Accounts
pub mod Budget
pub mod Gate
use statokgo.Prelude.{
  ℕ, zero, suc, ◌+◌, ◌-◌, ◌%◌, ◌^◌, min, ltb, leb, ◌&&◌, ◌||◌, Bool, true, false, not, Bytes, List,
  [], ◌∷◌, ◌++◌, Option, none, some, length, get_elem?, take, drop, if◌then◌else◌, is_empty,
}
use statokgo.Float.{Float}
use statokgo.Event.{Event, MetricType}
use statokgo.Batch.{Payload, BatchBuilder, add_all, build, new_batch_builder, empty}
use statokgo.Go.Strconv.{format_base36}
use statokgo.Transport.{SendError, is_stop_ingest_error}
use statokgo.Client.Retry.{
  default_retry_queue_size, default_retry_flush_max_sends, default_retry_max_attempts, retry_delay,
  client_backoff_delay, should_retry_transport,
}
use statokgo.Client.Totals.{apply_total, default_max_total_series}

abbrev pub default_max_batch_size : ℕ
default_max_batch_size = 512

pub record RetryBatch (V : Type 0) : Type 0 where
  pub payload : Payload V
  pub attempts : ℕ
  pub next_attempt : ℕ

-- The fields of Client that the worker writes, and its local variables. `sent` records the calls of
-- Transport.Send, the latest last; `reads` counts the readings of the clock. A `next_send_attempt` of
-- none is the zero time.
pub record Worker (V : Type 0) : Type 0 where
  pub stop_sending : Bool
  pub transient_backoff_attempt : ℕ
  pub next_send_attempt : Option ℕ
  pub batch_seq : ℕ
  pub retry_queue : List (RetryBatch V)
  pub batch : List (Event V)
  pub totals : List (Bytes × V)
  pub sent : List (Payload V)
  pub reads : ℕ

abbrev pub new_worker : {V : Type 0} → Worker V
new_worker = record {
  stop_sending = false;
  transient_backoff_attempt = 0;
  next_send_attempt = none;
  batch_seq = 0;
  retry_queue = [];
  batch = [];
  totals = [];
  sent = [];
  reads = 0;
}

-- What a client is built with, and what its world answers: the n-th reading of the clock, and the
-- result of sending a payload after others.
pub record World (V : Type 0) : Type 0 where
  pub series_hash : Bytes → List Bytes → ℕ
  pub batch_session : Bytes
  pub clock : ℕ → ℕ
  pub transport : List (Payload V) → Payload V → Option SendError

-- batchSession + "-" + FormatUint(seq, 36)
unfoldable pub batch_id : Bytes → ℕ → Bytes
batch_id session seq = session ++ (b'-' ∷ format_base36 seq)

module _ {V : Type 0} (F : Float V) (env : World V) where
  -- `batch_seq` counts the calls of c.batchSeq.Add(1), which is on a uint64.
  unfoldable pub next_batch_id : Worker V → Bytes × Worker V
  unfolding batch_id
  next_batch_id w = (
    batch_id env.batch_session ((w.batch_seq + 1) % 2 ^ 64),
    record w { batch_seq = w.batch_seq + 1 },
  )

  -- The result is dropped where only the queue matters.
  unfoldable pub enqueue_retry_at : Payload V → ℕ → ℕ → Worker V → Bool × Worker V
  enqueue_retry_at p attempts next w =
      if leb default_retry_max_attempts attempts
      then (false, w)
      else if leb default_retry_queue_size (length w.retry_queue)
      then (false, w)
      else (
        true,
        record w {
          retry_queue =
              w.retry_queue
              ++ record { payload = p; attempts = attempts; next_attempt = next } ∷ [];
        },
      )

  -- time.Now().Add(retryDelay(attempt)), which reads the clock twice
  unfoldable pub enqueue_retry : Payload V → ℕ → Worker V → Bool × Worker V
  unfolding enqueue_retry_at
  enqueue_retry p attempt w =
      enqueue_retry_at p attempt (env.clock w.reads + retry_delay attempt (env.clock (w.reads + 1)))
        (record w { reads = w.reads + 2 })

  unfoldable pub note_transient_failure : Worker V → Worker V
  note_transient_failure w = record w {
    transient_backoff_attempt = w.transient_backoff_attempt + 1;
    next_send_attempt = some (
        env.clock w.reads
        + client_backoff_delay (w.transient_backoff_attempt + 1) (env.clock (w.reads + 1)));
    reads = w.reads + 2;
  }

  unfoldable pub reset_transient_backoff : Worker V → Worker V
  reset_transient_backoff w = record w { transient_backoff_attempt = 0; next_send_attempt = none }

  -- !time.Now().Before(nextSendAttempt) is the test that lets a payload through
  unfoldable pub must_wait : Option ℕ → ℕ → Bool
  must_wait none now = false
  must_wait (some next) now = ltb now next

  -- The clock is read only if a next attempt is set.
  unfoldable pub read_gate : Worker V → Worker V
  read_gate w = elim w.next_send_attempt [ none ↦ w | some next ↦ record w { reads = w.reads + 1 } ]

  gate_time : Option ℕ → ℕ
  gate_time none = 0
  gate_time (some next) = next

  -- deferForClientBackoff: whether the payload was put off, and the worker
  unfoldable pub defer_for_client_backoff : Payload V → ℕ → Worker V → Bool × Worker V
  unfolding must_wait read_gate enqueue_retry_at gate_time
  defer_for_client_backoff p attempt w =
      let (queued, w') =
        enqueue_retry_at p (attempt - 1) (gate_time w.next_send_attempt) (read_gate w) in
      if must_wait w.next_send_attempt (env.clock w.reads) then (true, w') else (false, read_gate w)

  -- the handling of the result of Transport.Send
  unfoldable pub after_send : Payload V → ℕ → Option SendError → Worker V → Worker V
  unfolding enqueue_retry note_transient_failure reset_transient_backoff
  after_send p attempt none w = reset_transient_backoff w
  after_send p attempt (some err) w =
      if is_stop_ingest_error err
      then record w { stop_sending = true }
      else if should_retry_transport (some err)
      then (enqueue_retry p attempt (note_transient_failure w)).1
      else w

  unfoldable pub transmit : Payload V → ℕ → Worker V → Worker V
  unfolding after_send
  transmit p attempt w =
      after_send p attempt (env.transport w.sent p) (record w { sent = w.sent ++ p ∷ [] })

  -- the batch ID of a payload that has none
  unfoldable pub with_batch_id : Payload V → Worker V → Payload V × Worker V
  unfolding next_batch_id is_empty
  with_batch_id p w =
      let (id, w') = next_batch_id w in
      if is_empty p.batch_id then (record p { batch_id = id }, w') else (p, w)

  unfoldable pub send_payload : Payload V → ℕ → Worker V → Worker V
  unfolding with_batch_id defer_for_client_backoff transmit empty
  send_payload p attempt w =
      let (p', w') = with_batch_id p w in
      let (deferred, w'') = defer_for_client_backoff p' attempt w' in
      if empty p || w.stop_sending then w else if deferred then w'' else transmit p' attempt w''

  -- The loop of flushRetryQueue. Each round goes on to the next place or sends a batch, so the fuel
  -- `length + limit` is given (see Client/Worker/Fuel).
  unfoldable pub flush_loop : ℕ → Bool → ℕ → ℕ → ℕ → ℕ → Worker V → Worker V
  unfolding send_payload
  flush_loop zero ignore i processed limit now w = w
  flush_loop (suc f) ignore i processed limit now w =
      elim (ltb i (length w.retry_queue) && ltb processed limit) [
        | false ↦ w
        | true ↦ elim (get_elem? w.retry_queue i) [
          | none ↦ w
          | some item ↦ elim (not ignore && ltb now item.next_attempt) [
            | true ↦ flush_loop f ignore (i + 1) processed limit now w
            | false ↦
                let w' =
                  send_payload item.payload (item.attempts + 1) (record w {
                    retry_queue = take i w.retry_queue ++ drop (suc i) w.retry_queue;
                  }) in
                flush_loop f ignore i (processed + 1) limit (env.clock w'.reads)
                  (record w' { reads = w'.reads + 1 })
          ]
        ]
      ]

  unfoldable pub flush_retry_queue : Bool → Worker V → Worker V
  unfolding flush_loop is_empty
  flush_retry_queue ignore w =
      let limit = min (length w.retry_queue) default_retry_flush_max_sends in
      if is_empty w.retry_queue || w.stop_sending
      then w
      else flush_loop (length w.retry_queue + limit) ignore 0 0 limit (env.clock w.reads)
          (record w { reads = w.reads + 1 })

  -- the end of buildPayload: the batch ID
  unfoldable pub named : Worker V → Option (Payload V) → Option (Payload V) × Worker V
  unfolding with_batch_id
  named w none = (none, w)
  named w (some p) = let (p', w') = with_batch_id p w in (some p', w')

  -- builder.build(), behind the loop that adds the events
  unfoldable pub built : Worker V → Option (BatchBuilder V) → Option (Payload V) × Worker V
  unfolding named build
  built w none = (none, w)
  built w (some b) = named w (build b)

  -- c.buildPayload; none is a nil payload. A panic of the builder counts as a nil payload (see Batch/Refines).
  unfoldable pub build_payload : List (Event V) → Worker V → Option (Payload V) × Worker V
  unfolding built
  build_payload events w = built w (add_all F env.series_hash new_batch_builder events)

  -- c.flush behind its first guard
  unfoldable pub flush_built : Option (Payload V) × Worker V → Worker V
  unfolding send_payload
  flush_built (none, w) = w
  flush_built (some p, w) = send_payload p 1 w

  -- the closure flush of run: the events are sent or dropped, and released
  unfoldable pub flush : Worker V → Worker V
  unfolding build_payload flush_built is_empty
  flush w =
      let w' = record w { batch = [] } in
      if is_empty w.batch
      then w
      else if w.stop_sending
      then w'
      else flush_built (build_payload w.batch w')

  -- batch = append(batch, ev), and a flush if it is full
  unfoldable pub append_event : Event V → Worker V → Worker V
  unfolding flush
  append_event ev w =
      let w' = record w { batch = w.batch ++ ev ∷ [] } in
      if leb default_max_batch_size (length w'.batch) then flush w' else w'

  unfoldable pub after_total : List (Bytes × V) × Option (Event V) → Worker V → Worker V
  unfolding append_event
  after_total (totals, none) w = record w { totals = totals }
  after_total (totals, some ev) w = append_event ev (record w { totals = totals })

  unfoldable pub is_total : MetricType → Bool
  is_total MetricType.total = true
  is_total _ = false

  -- the case `ev := <-c.queue`, here and in the drain
  unfoldable pub handle_event : Event V → Worker V → Worker V
  unfolding append_event after_total is_total apply_total
  handle_event ev w =
      if is_total ev.typ
      then after_total (apply_total F ev w.totals default_max_total_series) w
      else append_event ev w

  -- the case `<-ticker.C`
  unfoldable pub handle_tick : Worker V → Worker V
  unfolding flush flush_retry_queue
  handle_tick w = flush_retry_queue false (flush w)

  -- the case `<-ctx.Done()`: the queued events, one by one, then the last flush
  unfoldable pub drain : List (Event V) → Worker V → Worker V
  unfolding handle_event flush flush_retry_queue
  drain [] w = flush_retry_queue true (flush w)
  drain (ev ∷ evs) w = drain evs (handle_event ev w)

-- What the select of the loop finds ready, one for each turn.
pub data Input (V : Type 0) : Type 0 where
  receive : Event V → Input V
  tick : Input V

module _ {V : Type 0} (F : Float V) (env : World V) where
  unfoldable pub turn : Input V → Worker V → Worker V
  unfolding handle_event handle_tick
  turn (receive ev) w = handle_event F env ev w
  turn tick w = handle_tick F env w

  -- the turns of the loop before the context is done
  unfoldable pub run : List (Input V) → Worker V → Worker V
  unfolding turn
  run [] w = w
  run (i ∷ is) w = run is (turn i w)
