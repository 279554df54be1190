-- ===== src/Client/Worker/Bounds.antt =====
-- client.go: the size of the worker's memory: the retries, their attempts, the batch and the totals.
use statokgo.Prelude.{
  ◌≤◌, ◌<◌, leb, Bool, true, false, Bytes, List, [], ◌∷◌, ◌++◌, Option, none, some, refl, arith,
  length, length-insert, text_eq, is_empty, if_ind,
}
use statokgo.Float.{Float}
use statokgo.Event.{Event}
use statokgo.Batch.{Payload, BatchBuilder, add_all, build, new_batch_builder, series_key}
use statokgo.Client.Totals.{apply_total, apply_known, default_max_total_series}
use statokgo.Client.Worker.{
  Worker, World, new_worker, default_max_batch_size, flush_retry_queue, build_payload, flush,
  append_event, handle_event, handle_tick, drain, named, built, flush_built, after_total, is_total,
  Input, receive, tick, turn, run,
}
use statokgo.Client.Worker.Keeps.{
  QueueFits, Keeps, same, Keeps-trans, with_batch_id-Keeps, send_payload-Keeps,
  flush_retry_queue-Keeps,
}

-- What stays bounded from one step of the worker to the next.
pub record IsBounded {V : Type 0} (w : Worker V) : Type 0 where
  pub queue : QueueFits w.retry_queue
  pub batch_room : length w.batch < default_max_batch_size
  pub totals_room : length w.totals ≤ default_max_total_series

module _ {V : Type 0} (F : Float V) (env : World V) where
  named-Keeps :
      (w : Worker V) (o : Option (Payload V))
      → QueueFits w.retry_queue
      → Keeps w (named F env w o).1
  unfolding named
  named-Keeps w none h = same F env w h
  named-Keeps w (some p) h = with_batch_id-Keeps F env p w h

  built-Keeps :
      (w : Worker V) (o : Option (BatchBuilder V))
      → QueueFits w.retry_queue
      → Keeps w (built F env w o).1
  unfolding built
  built-Keeps w none h = same F env w h
  built-Keeps w (some b) h = named-Keeps w (build b) h

  flush_built-Keeps :
      (o : Option (Payload V)) (w : Worker V)
      → QueueFits w.retry_queue
      → Keeps w (flush_built F env (o, w))
  unfolding flush_built
  flush_built-Keeps none w h = same F env w h
  flush_built-Keeps (some p) w h = send_payload-Keeps F env p 1 w h

  -- A flush empties the batch, and leaves the totals alone.
  pub flush-Keeps :
      (w : Worker V) → QueueFits w.retry_queue → Keeps (record w { batch = [] }) (flush F env w)
  unfolding flush build_payload
  flush-Keeps w h =
      let w' : Worker V = record w { batch = [] } in
      let payload = built F env w' (add_all F env.series_hash new_batch_builder w.batch) in
      if_ind (Keeps w') (is_empty w.batch) w _
        (λ idle. record { fits = h; batch = ground arith; totals = refl })
        (λ events.
          if_ind (Keeps w') w.stop_sending w' (flush_built F env payload)
            (λ stopped. same F env w' h)
            (λ going.
              let k = built-Keeps w' (add_all F env.series_hash new_batch_builder w.batch) h in
              Keeps-trans F env k (flush_built-Keeps payload.0 payload.1 k.fits)))

  append_event-IsBounded :
      (ev : Event V) (w : Worker V) → IsBounded w → IsBounded (append_event F env ev w)
  unfolding append_event
  append_event-IsBounded ev w b =
      let w' : Worker V = record w { batch = w.batch ++ ev ∷ [] } in
      if_ind IsBounded (leb default_max_batch_size (length w'.batch)) (flush F env w') w'
        (λ full.
          let k = flush-Keeps w' b.queue in
          record {
            queue = k.fits;
            batch_room = rw k.batch (omega arith);
            totals_room = rw k.totals b.totals_room;
          })
        (λ room. record { queue = b.queue; batch_room = ground arith; totals_room = b.totals_room })

  apply_total-room :
      (ev : Event V) (totals : List (Bytes × V))
      → length totals ≤ default_max_total_series
      → length (apply_total F ev totals default_max_total_series).0 ≤ default_max_total_series
  unfolding apply_total apply_known
  apply_total-room ev totals h =
      ground (arith, length-insert text_eq (series_key ev.name ev.labels) ev.amount totals)

  after_total-IsBounded :
      (r : List (Bytes × V) × Option (Event V)) (w : Worker V)
      → length r.0 ≤ default_max_total_series
      → IsBounded w
      → IsBounded (after_total F env r w)
  unfolding after_total
  after_total-IsBounded (totals, none) w h b = record {
    queue = b.queue;
    batch_room = b.batch_room;
    totals_room = h;
  }
  after_total-IsBounded (totals, some ev) w h b =
      append_event-IsBounded ev (record w { totals = totals })
        (record { queue = b.queue; batch_room = b.batch_room; totals_room = h })

  pub handle_event-IsBounded :
      (ev : Event V) (w : Worker V) → IsBounded w → IsBounded (handle_event F env ev w)
  unfolding handle_event
  handle_event-IsBounded ev w b =
      if_ind IsBounded (is_total F env ev.typ) _ _
        (λ total.
          after_total-IsBounded (apply_total F ev w.totals default_max_total_series) w
            (apply_total-room ev w.totals b.totals_room) b)
        (λ plain. append_event-IsBounded ev w b)

  flush_and_retry-IsBounded :
      (ignore : Bool) (w : Worker V)
      → IsBounded w
      → IsBounded (flush_retry_queue F env ignore (flush F env w))
  flush_and_retry-IsBounded ignore w b =
      let flushed = flush-Keeps w b.queue in
      let retried = flush_retry_queue-Keeps F env ignore (flush F env w) flushed.fits in
      record {
        queue = retried.fits;
        batch_room = rw (retried.batch, flushed.batch) (omega arith);
        totals_room = rw (retried.totals, flushed.totals) b.totals_room;
      }

  pub handle_tick-IsBounded : (w : Worker V) → IsBounded w → IsBounded (handle_tick F env w)
  unfolding handle_tick
  handle_tick-IsBounded w b = flush_and_retry-IsBounded false w b

  pub drain-IsBounded :
      (evs : List (Event V)) (w : Worker V) → IsBounded w → IsBounded (drain F env evs w)
  unfolding drain
  drain-IsBounded [] w b = flush_and_retry-IsBounded true w b
  drain-IsBounded (ev ∷ evs) w b =
      drain-IsBounded evs (handle_event F env ev w) (handle_event-IsBounded ev w b)

  turn-IsBounded : (i : Input V) (w : Worker V) → IsBounded w → IsBounded (turn F env i w)
  unfolding turn
  turn-IsBounded (receive ev) w b = handle_event-IsBounded ev w b
  turn-IsBounded tick w b = handle_tick-IsBounded w b

  run_from-IsBounded :
      (is : List (Input V)) (w : Worker V) → IsBounded w → IsBounded (run F env is w)
  unfolding run
  run_from-IsBounded [] w b = b
  run_from-IsBounded (i ∷ is) w b = run_from-IsBounded is (turn F env i w) (turn-IsBounded i w b)

  -- After any turns of the worker's loop, and after the drain that ends it, at most 128 batches wait
  -- for a retry, each with fewer than 8 attempts behind it, fewer than 512 events are batched, and at
  -- most 2,048 series of totals are kept.
  pub run-IsBounded :
      (is : List (Input V)) (evs : List (Event V))
      → IsBounded (run F env is new_worker) × IsBounded (drain F env evs (run F env is new_worker))
  run-IsBounded is evs =
      let start : IsBounded (new_worker {V = V}) = record {
        queue = record { size = omega arith; budget = tt };
        batch_room = omega arith;
        totals_room = omega arith;
      } in
      let b = run_from-IsBounded is new_worker start in
      (b, drain-IsBounded evs (run F env is new_worker) b)
