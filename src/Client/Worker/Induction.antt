-- ===== src/Client/Worker/Induction.antt =====
-- Invariants of the worker: what holds of it after every turn, if sending a new batch and sending one
-- once more keep it, and if it says nothing of the batch, the totals and the clock.
use statokgo.Prelude.{
  ℕ, zero, suc, ◌+◌, min, ltb, leb, ◌&&◌, ◌||◌, not, Bool, true, false, Bytes, List, [], ◌∷◌, ◌++◌,
  Option, none, some, ◌≡◌, refl, length, get_elem?, Bool-cases, Option-cases, inl, inr, is_empty,
  if_ind,
}
use statokgo.Float.{Float}
use statokgo.Event.{Event}
use statokgo.Batch.{Payload, BatchBuilder, add_all, build, new_batch_builder}
use statokgo.Batch.Identity.{build-batch_id}
use statokgo.Client.Retry.{default_retry_flush_max_sends}
use statokgo.Client.Totals.{apply_total, default_max_total_series}
use statokgo.Client.Worker.{
  Worker, World, RetryBatch, default_max_batch_size, with_batch_id, send_payload, flush_loop,
  flush_retry_queue, build_payload, named, built, flush_built, flush, append_event, after_total,
  is_total, handle_event, handle_tick, drain, Input, receive, tick, turn, run,
}
use statokgo.Client.Worker.Steps.{
  resent, flush_loop-end, flush_loop-out, flush_loop-skip, flush_loop-send,
}

module _ {V : Type 0} (F : Float V) (env : World V) where
  -- a new batch: its ID, and the first attempt to send it
  abbrev pub sent_first : Payload V → Worker V → Worker V
  sent_first p w = send_payload F env (with_batch_id F env p w).0 1 (with_batch_id F env p w).1

  -- The two workers differ at most in the batch, the totals and the readings of the clock.
  pub record Agree (w w' : Worker V) : Type 0 where
    pub stop_sending : w'.stop_sending ≡ w.stop_sending
    pub transient_backoff_attempt : w'.transient_backoff_attempt ≡ w.transient_backoff_attempt
    pub next_send_attempt : w'.next_send_attempt ≡ w.next_send_attempt
    pub batch_seq : w'.batch_seq ≡ w.batch_seq
    pub retry_queue : w'.retry_queue ≡ w.retry_queue
    pub sent : w'.sent ≡ w.sent

  pub record IsInvariant (P : Worker V → Type 0) : Type 0 where
    pub frame : (w w' : Worker V) → Agree w w' → P w → P w'
    pub first : (p : Payload V) (w : Worker V) → p.batch_id ≡ [] → P w → P (sent_first p w)
    pub again :
        (i : ℕ) (item : RetryBatch V) (w : Worker V)
        → get_elem? w.retry_queue i ≡ some item
        → P w
        → P (resent F env i item w)

  abbrev same_but :
      (w : Worker V) (batch : List (Event V)) (totals : List (Bytes × V)) (reads : ℕ)
      → Agree w (record w { batch = batch; totals = totals; reads = reads })
  same_but w batch totals reads = record {
    stop_sending = refl;
    transient_backoff_attempt = refl;
    next_send_attempt = refl;
    batch_seq = refl;
    retry_queue = refl;
    sent = refl;
  }

  module _ (P : Worker V → Type 0) (inv : IsInvariant P) where
    move :
        (w : Worker V) (batch : List (Event V)) (totals : List (Bytes × V)) (reads : ℕ)
        → P w
        → P (record w { batch = batch; totals = totals; reads = reads })
    move w batch totals reads h = inv.frame w _ (same_but w batch totals reads) h

    flush_loop_keeps :
        (f : ℕ) (ignore : Bool) (i processed limit now : ℕ) (w : Worker V)
        → P w
        → P (flush_loop F env f ignore i processed limit now w)
    unfolding flush_loop
    flush_loop_keeps zero ignore i processed limit now w h = h
    flush_loop_keeps (suc f) ignore i processed limit now w h =
        elim (Bool-cases (ltb i (length w.retry_queue) && ltb processed limit)) [
          | inr done ↦ rw (flush_loop-end F env f ignore i processed limit now w done) h
          | inl more ↦ elim (Option-cases (get_elem? w.retry_queue i)) [
            | inl out ↦ rw (flush_loop-out F env f ignore i processed limit now w more out) h
            | inr (item, at) ↦ elim (Bool-cases (not ignore && ltb now item.next_attempt)) [
              | inl early ↦
                  rw (flush_loop-skip F env f ignore i processed limit now w more item at early)
                    (flush_loop_keeps f ignore (i + 1) processed limit now w h)
              | inr due ↦
                  let w' = resent F env i item w in
                  rw (flush_loop-send F env f ignore i processed limit now w more item at due) (
                    flush_loop_keeps f ignore i (processed + 1) limit (env.clock w'.reads)
                      (record w' { reads = w'.reads + 1 })
                      (move w' w'.batch w'.totals (w'.reads + 1) (inv.again i item w at h)))
            ]
          ]
        ]

    flush_retry_queue_keeps :
        (ignore : Bool) (w : Worker V) → P w → P (flush_retry_queue F env ignore w)
    unfolding flush_retry_queue
    flush_retry_queue_keeps ignore w h =
        if_ind P (is_empty w.retry_queue || w.stop_sending) w _ (λ idle. h)
          (λ busy.
            flush_loop_keeps _ ignore 0 0 (min (length w.retry_queue) default_retry_flush_max_sends)
              (env.clock w.reads) (record w { reads = w.reads + 1 })
              (move w w.batch w.totals (w.reads + 1) h))

    named_keeps :
        (w : Worker V) (o : Option (Payload V))
        → ((p : Payload V) → o ≡ some p → p.batch_id ≡ [])
        → P w
        → P (flush_built F env (named F env w o))
    unfolding named flush_built
    named_keeps w none blank h = h
    named_keeps w (some p) blank h = inv.first p w (blank p refl) h

    built_keeps :
        (w : Worker V) (events : List (Event V)) (o : Option (BatchBuilder V))
        → add_all F env.series_hash new_batch_builder events ≡ o
        → P w
        → P (flush_built F env (built F env w o))
    unfolding built flush_built
    built_keeps w events none at h = h
    built_keeps w events (some b) at h =
        named_keeps w (build b) (λ p k. build-batch_id F env.series_hash events b p at k) h

    flush_keeps : (w : Worker V) → P w → P (flush F env w)
    unfolding flush build_payload
    flush_keeps w h =
        let w' : Worker V = record w { batch = [] } in
        let h' = move w [] w.totals w.reads h in
        if_ind P (is_empty w.batch) w _ (λ idle. h)
          (λ events.
            if_ind P w.stop_sending w' _ (λ stopped. h')
              (λ going. built_keeps w' w.batch _ refl h'))

    append_event_keeps : (ev : Event V) (w : Worker V) → P w → P (append_event F env ev w)
    unfolding append_event
    append_event_keeps ev w h =
        let w' : Worker V = record w { batch = w.batch ++ ev ∷ [] } in
        let h' = move w (w.batch ++ ev ∷ []) w.totals w.reads h in
        if_ind P (leb default_max_batch_size (length w'.batch)) _ w' (λ full. flush_keeps w' h')
          (λ room. h')

    after_total_keeps :
        (r : List (Bytes × V) × Option (Event V)) (w : Worker V) → P w → P (after_total F env r w)
    unfolding after_total
    after_total_keeps (totals, none) w h = move w w.batch totals w.reads h
    after_total_keeps (totals, some ev) w h =
        append_event_keeps ev (record w { totals = totals }) (move w w.batch totals w.reads h)

    handle_event_keeps : (ev : Event V) (w : Worker V) → P w → P (handle_event F env ev w)
    unfolding handle_event
    handle_event_keeps ev w h =
        if_ind P (is_total F env ev.typ) _ _
          (λ total. after_total_keeps (apply_total F ev w.totals default_max_total_series) w h)
          (λ plain. append_event_keeps ev w h)

    turn_keeps : (i : Input V) (w : Worker V) → P w → P (turn F env i w)
    unfolding turn handle_tick
    turn_keeps (receive ev) w h = handle_event_keeps ev w h
    turn_keeps tick w h = flush_retry_queue_keeps false (flush F env w) (flush_keeps w h)

    -- An invariant holds after any turns of the loop,
    pub run_keeps : (is : List (Input V)) (w : Worker V) → P w → P (run F env is w)
    unfolding run
    run_keeps [] w h = h
    run_keeps (i ∷ is) w h = run_keeps is (turn F env i w) (turn_keeps i w h)

    -- and after the drain.
    pub drain_keeps : (evs : List (Event V)) (w : Worker V) → P w → P (drain F env evs w)
    unfolding drain
    drain_keeps [] w h = flush_retry_queue_keeps true (flush F env w) (flush_keeps w h)
    drain_keeps (ev ∷ evs) w h =
        drain_keeps evs (handle_event F env ev w) (handle_event_keeps ev w h)
