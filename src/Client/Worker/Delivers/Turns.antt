-- ===== src/Client/Worker/Delivers/Turns.antt =====
-- client.go: each turn of the worker, and its last flush, while the transport takes every batch.
use statokgo.Prelude.{
  ℕ, ◌+◌, ◌%◌, ◌^◌, ◌≤◌, leb, Bool, true, false, Bytes, List, [], ◌∷◌, ◌++◌, append_assoc,
  append-nil, Option, none, some, ◌≡◌, refl, sym, ap, ◌∙◌, subst, arith, length, length-append,
  if_ind, is_empty, Bool-cases, inl, inr,
}
use statokgo.Float.{Float}
use statokgo.Event.{Event}
use statokgo.Batch.{Payload, BatchBuilder, add_all, build, new_batch_builder, empty}
use statokgo.Batch.Identity.{build-batch_id}
use statokgo.Client.Totals.{apply_total, default_max_total_series}
use statokgo.Client.Worker.{
  Worker, World, default_max_batch_size, batch_id, next_batch_id, reset_transient_backoff,
  must_wait, read_gate, defer_for_client_backoff, after_send, transmit, with_batch_id, send_payload,
  flush_retry_queue, build_payload, named, built, flush_built, flush, append_event, after_total,
  is_total, handle_event,
}
use statokgo.Client.Worker.Numbers.{batch_id-not_empty}
use statokgo.Client.Worker.Delivers.{
  noted, account, payload_of, Sent, posted, left_out, IsGoing, IsDelivering, Delivers, looser,
  noting,
}

module _ {V : Type 0} (F : Float V) (env : World V) where
  -- `w'` has sent the payload.
  record HasPosted (p : Payload V) (w w' : Worker V) : Type 0 where
    sent :
        w'.sent
        ≡ w.sent
          ++ record p { batch_id = batch_id env.batch_session ((w.batch_seq + 1) % 2 ^ 64) } ∷ []
    seq : w'.batch_seq ≡ w.batch_seq + 1
    going : IsGoing F env w'
    batch : w'.batch ≡ w.batch
    totals : w'.totals ≡ w.totals

  no_events : (xs : List (Event V)) → is_empty xs ≡ true → length xs ≤ 0
  unfolding is_empty
  no_events [] h = omega arith
  no_events (x ∷ xs) h = absurd (cc)

  build-full : (b : BatchBuilder V) (p : Payload V) → build b ≡ some p → empty p ≡ false
  unfolding build
  build-full b p e = ground arith

  no_retry_queue :
      (ignore : Bool) (w : Worker V) → IsGoing F env w → flush_retry_queue F env ignore w ≡ w
  unfolding flush_retry_queue is_empty
  no_retry_queue ignore w h = rw (h.no_retries, flush_retry_queue) refl

  module _ (takes : (log : List (Payload V)) (p : Payload V) → env.transport log p ≡ none) where
    posts :
        (p : Payload V) (w : Worker V)
        → p.batch_id ≡ []
        → empty p ≡ false
        → IsGoing F env w
        → HasPosted p w (flush_built F env (named F env w (some p)))
    unfolding flush_built named with_batch_id next_batch_id send_payload defer_for_client_backoff
        must_wait read_gate transmit after_send reset_transient_backoff empty is_empty
    posts p w blank full h =
        let id = batch_id-not_empty env.batch_session ((w.batch_seq + 1) % 2 ^ 64) in
        rw (blank, id, full, h.on, h.no_gate, takes)
          (record {
            sent = refl;
            seq = refl;
            going = record { on = h.on; no_retries = h.no_retries; no_gate = refl };
            batch = refl;
            totals = refl;
          })

    module _ (at : List (Bytes × V) × List (Event V)) (w : Worker V)
        (h : IsDelivering F env at default_max_batch_size w) where
      emptied : Worker V
      emptied = record w { batch = [] }

      leaves_out : payload_of F env w.batch ≡ none → IsDelivering F env at 0 emptied
      unfolding emptied
      leaves_out nobody = record {
        going = record {
          on = h.going.on;
          no_retries = h.going.no_retries;
          no_gate = h.going.no_gate;
        };
        gone = h.gone ++ w.batch;
        delivered = left_out w.batch h.delivered h.room nobody;
        whole = append-nil _ ∙ h.whole;
        totals = h.totals;
        room = omega arith;
      }

      delivers :
          (p : Payload V) (w' : Worker V)
          → payload_of F env w.batch ≡ some p
          → HasPosted p emptied w'
          → IsDelivering F env at 0 w'
      unfolding emptied
      delivers p w' some_of_it k = record {
        going = k.going;
        gone = h.gone ++ w.batch;
        delivered =
            subst (λ (log : List (Payload V)). Sent F env (h.gone ++ w.batch) log w'.batch_seq)
              (sym k.sent)
              (subst
                (λ (n : ℕ).
                  Sent F env (h.gone ++ w.batch)
                    (w.sent
                      ++ record p {
                        batch_id = batch_id env.batch_session ((w.batch_seq + 1) % 2 ^ 64);
                      }
                        ∷ [])
                    n)
                (sym k.seq) (posted w.batch p h.delivered h.room some_of_it));
        whole = ap (λ b. (h.gone ++ w.batch) ++ b) k.batch ∙ append-nil _ ∙ h.whole;
        totals = k.totals ∙ h.totals;
        room = omega (arith, ap length k.batch);
      }

      named_delivers :
          (b : BatchBuilder V) (o : Option (Payload V))
          → add_all F env.series_hash new_batch_builder w.batch ≡ some b
          → build b ≡ o
          → IsDelivering F env at 0 (flush_built F env (named F env emptied o))
      unfolding emptied payload_of named flush_built
      named_delivers b none at_b e = leaves_out (rw (at_b, payload_of) e)
      named_delivers b (some p) at_b e =
          delivers p (flush_built F env (named F env emptied (some p))) (rw (at_b, payload_of) e) (
            posts p emptied (build-batch_id F env.series_hash w.batch b p at_b e) (build-full b p e)
              (record {
                on = h.going.on;
                no_retries = h.going.no_retries;
                no_gate = h.going.no_gate;
              }))

      built_delivers :
          (o : Option (BatchBuilder V))
          → add_all F env.series_hash new_batch_builder w.batch ≡ o
          → IsDelivering F env at 0 (flush_built F env (built F env emptied o))
      unfolding emptied payload_of built flush_built
      built_delivers none e = leaves_out (rw (e, payload_of) refl)
      built_delivers (some b) e = named_delivers b (build b) e refl

      flush_delivers : IsDelivering F env at 0 (flush F env w)
      unfolding emptied flush build_payload
      flush_delivers =
          if_ind (IsDelivering F env at 0) (is_empty w.batch) w _
            (λ idle. record {
              going = h.going;
              gone = h.gone;
              delivered = h.delivered;
              whole = h.whole;
              totals = h.totals;
              room = no_events w.batch idle;
            })
            (λ events.
              if_ind (IsDelivering F env at 0) w.stop_sending emptied _
                (λ stopped. absurd (ground (arith, h.going.on))) (λ on. built_delivers _ refl))

    append_event-Delivers :
        (at : List (Bytes × V) × List (Event V)) (ev : Event V) (w : Worker V)
        → Delivers F env at w
        → Delivers F env (at.0, at.1 ++ ev ∷ []) (append_event F env ev w)
    unfolding append_event
    append_event-Delivers at ev w h =
        let w' : Worker V = record w { batch = w.batch ++ ev ∷ [] } in
        let at' : List (Bytes × V) × List (Event V) = (at.0, at.1 ++ ev ∷ []) in
        let size = length-append w.batch (ev ∷ []) in
        let longer : (most : ℕ) → length w'.batch ≤ most → IsDelivering F env at' most w' =
          λ most fits. record {
            going = record {
              on = h.going.on;
              no_retries = h.going.no_retries;
              no_gate = h.going.no_gate;
            };
            gone = h.gone;
            delivered = h.delivered;
            whole = sym (append_assoc h.gone w.batch (ev ∷ [])) ∙ ap (λ l. l ++ ev ∷ []) h.whole;
            totals = h.totals;
            room = fits;
          } in
        if_ind (Delivers F env at') (leb default_max_batch_size (length w'.batch)) _ w'
          (λ full.
            looser F env at' 0 511 _ (omega arith)
              (flush_delivers at' w' (longer default_max_batch_size (omega (arith, size, h.room)))))
          (λ room. longer 511 (ground (arith, size, h.room)))

    after_total-Delivers :
        (at : List (Bytes × V) × List (Event V)) (w : Worker V)
        (r : List (Bytes × V) × Option (Event V))
        → Delivers F env at w
        → Delivers F env (noted F env at.1 r) (after_total F env r w)
    unfolding after_total noted
    after_total-Delivers at w (totals, none) h = noting F env at w totals h
    after_total-Delivers at w (totals, some ev) h =
        append_event-Delivers (totals, at.1) ev (record w { totals = totals })
          (noting F env at w totals h)

    pub handle_event-Delivers :
        (at : List (Bytes × V) × List (Event V)) (ev : Event V) (w : Worker V)
        → Delivers F env at w
        → Delivers F env (account F env ev at) (handle_event F env ev w)
    unfolding handle_event account
    handle_event-Delivers at ev w h = elim (Bool-cases (is_total F env ev.typ)) [
      | inl total ↦
          let r = apply_total F ev w.totals default_max_total_series in
          rw total (
            subst
              (λ (t : List (Bytes × V)).
                Delivers F env (noted F env at.1 (apply_total F ev t default_max_total_series))
                  (after_total F env r w))
              h.totals (after_total-Delivers at w r h))
      | inr plain ↦ rw plain (append_event-Delivers at ev w h)
    ]

    -- flush and flushRetryQueue one behind the other, as at a tick and at the end
    pub both_deliver :
        (at : List (Bytes × V) × List (Event V)) (ignore : Bool) (w : Worker V)
        → Delivers F env at w
        → IsDelivering F env at 0 (flush_retry_queue F env ignore (flush F env w))
    both_deliver at ignore w h =
        let flushed = flush_delivers at w (looser F env at 511 512 w (omega arith) h) in
        subst (IsDelivering F env at 0) (sym (no_retry_queue ignore (flush F env w) flushed.going))
          flushed
