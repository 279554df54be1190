-- ===== src/Client/Lifecycle/Once.antt =====
-- client.go: what goes out of the whole client while the transport takes every batch.
use statokgo.Prelude.{
  ℕ, ◌≡◌, refl, sym, ap, ◌∙◌, subst, none, inl, inr, Bytes, List, [], ◌∷◌, ◌++◌, arith,
}
use statokgo.Float.{Float}
use statokgo.Event.{Event}
use statokgo.Batch.{Payload}
use statokgo.Client.Worker.{Worker, World, handle_event, handle_tick, drain}
use statokgo.Client.Worker.Delivers.{tally, tally_from-append, nothing, IsDelivering, looser}
use statokgo.Client.Worker.Delivers.Turns.{handle_event-Delivers, both_deliver}
use statokgo.Client.Lifecycle.{
  Phase, running, draining, flushing, closing, closed, System, fresh, OwnStep, ticked, received,
  saw_done, saw_empty, flushed, returned, Step, own, begins, enters, bounces, cancels, Reach, here,
  next, begun,
}
use statokgo.Client.Lifecycle.Accounts.{client-IsAccounted}

-- how many events the batch may hold: none once the last flush is over
unfoldable pub batch_room : Phase → ℕ
batch_room running = 511
batch_room draining = 511
batch_room flushing = 511
batch_room closing = 0
batch_room closed = 0

module _ {V : Type 0} (F : Float V) (env : World V)
    (takes : (log : List (Payload V)) (p : Payload V) → env.transport log p ≡ none) where
  -- All events that the worker took out are sent, each once, but those in the batch.
  abbrev pub SendsOnce : System V → Type 0
  SendsOnce s = IsDelivering F env (tally F env s.handled) (batch_room s.phase) s.worker

  in_phase :
      (s : System V) (p : Phase)
      → s.phase ≡ p
      → SendsOnce s
      → IsDelivering F env (tally F env s.handled) (batch_room p) s.worker
  in_phase s p e h =
      subst (λ (q : Phase). IsDelivering F env (tally F env s.handled) (batch_room q) s.worker) e h

  out_phase :
      (s : System V) (p : Phase) (w : Worker V) (handled : List (Event V))
      → s.phase ≡ p
      → IsDelivering F env (tally F env handled) (batch_room p) w
      → IsDelivering F env (tally F env handled) (batch_room s.phase) w
  out_phase s p w handled e h =
      subst (λ (q : Phase). IsDelivering F env (tally F env handled) (batch_room q) w) (sym e) h

  takes_out :
      (s : System V) (p : Phase) (ev : Event V)
      → s.phase ≡ p
      → batch_room p ≡ 511
      → SendsOnce s
      → IsDelivering F env
          (tally F env (s.handled ++ ev ∷ []))
          (batch_room s.phase)
          (handle_event F env ev s.worker)
  unfolding tally
  takes_out s p ev e turns h =
      let room : batch_room s.phase ≡ 511 = ap batch_room e ∙ turns in
      subst
        (λ (n : ℕ).
          IsDelivering F env (tally F env (s.handled ++ ev ∷ [])) n
            (handle_event F env ev s.worker))
        (sym room)
        (subst
          (λ (at : List (Bytes × V) × List (Event V)).
            IsDelivering F env at 511 (handle_event F env ev s.worker))
          (sym (tally_from-append F env ([], []) s.handled ev))
          (handle_event-Delivers F env takes (tally F env s.handled) ev s.worker
            (subst (λ (n : ℕ). IsDelivering F env (tally F env s.handled) n s.worker) room h)))

  OwnStep-SendsOnce : {s t : System V} → OwnStep F env s t → SendsOnce s → SendsOnce t
  unfolding batch_room handle_tick drain
  OwnStep-SendsOnce {s} (ticked e) h =
      out_phase s running (handle_tick F env s.worker) s.handled e (
        looser F env (tally F env s.handled) 0 511 (handle_tick F env s.worker) (omega arith)
          (both_deliver F env takes (tally F env s.handled) _ s.worker (in_phase s running e h)))
  OwnStep-SendsOnce {s} (received ev rest (inl e) q) h = takes_out s running ev e refl h
  OwnStep-SendsOnce {s} (received ev rest (inr e) q) h = takes_out s draining ev e refl h
  OwnStep-SendsOnce {s} (saw_done e c) h = in_phase s running e h
  OwnStep-SendsOnce {s} (saw_empty e q) h = in_phase s draining e h
  OwnStep-SendsOnce {s} (flushed e) h =
      both_deliver F env takes (tally F env s.handled) _ s.worker (in_phase s flushing e h)
  OwnStep-SendsOnce {s} (returned e) h = in_phase s closing e h

  Step-SendsOnce : {s t : System V} → Step F env s t → SendsOnce s → SendsOnce t
  unfolding begun
  Step-SendsOnce (own st) h = OwnStep-SendsOnce st h
  Step-SendsOnce (begins given m) h = h
  Step-SendsOnce (enters before after ev e room) h = h
  Step-SendsOnce (bounces before after ev e full) h = h
  Step-SendsOnce cancels h = h

  Reach-SendsOnce : {s t : System V} → Reach F env s t → SendsOnce s → SendsOnce t
  Reach-SendsOnce here h = h
  Reach-SendsOnce (next r st) h = Step-SendsOnce st (Reach-SendsOnce r h)

  -- While the transport takes every batch, and however the callers, the worker and Close interleave:
  -- the events that were accepted and have left the queue are those that were handled, in order. What
  -- they come to (each event as it is, a total as the counter of its rise, if it has one) is cut into
  -- consecutive batches of at most 512 events; each batch went out as one payload, once, in order, with
  -- the next batch ID, unless the builder makes no payload of it; and only the events of the last, open
  -- batch are not sent. From the last flush on, that batch is empty.
  pub client-SendsOnce :
      (workload : Bytes) (s : System V)
      → Reach F env (fresh workload) s
      → (s.accepted ≡ s.handled ++ s.front.queue)
        × IsDelivering F env (tally F env s.handled) (batch_room s.phase) s.worker
  unfolding batch_room tally
  client-SendsOnce workload s r = (
    (client-IsAccounted F env workload s r).in_order,
    Reach-SendsOnce r (record {
      going = record { on = refl; no_retries = refl; no_gate = refl };
      gone = [];
      delivered = nothing;
      whole = refl;
      totals = refl;
      room = omega arith;
    }),
  )
