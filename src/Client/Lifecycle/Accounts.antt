-- ===== src/Client/Lifecycle/Accounts.antt =====
-- client.go: the events on their way from the callers to the worker.
use statokgo.Prelude.{
  ◌+◌, ◌%◌, ◌^◌, ◌≤◌, ◌<◌, ltb, lt→ltb, false, ◌≡◌, refl, sym, ap, ◌∙◌, Bytes, [], ◌∷◌, ◌++◌,
  append_assoc, length, length-append, arith,
}
use statokgo.Float.{Float}
use statokgo.Event.{Event}
use statokgo.Client.Producer.{Front, offer, default_queue_size}
use statokgo.Client.Worker.{World}
use statokgo.Client.Lifecycle.{
  System, fresh, OwnStep, ticked, received, saw_done, saw_empty, flushed, returned, Step, own,
  begins, enters, bounces, cancels, Reach, here, next, begun,
}

module _ {V : Type 0} where
  -- The worker has taken out the first of the accepted events, in their order, and the others wait; a
  -- send that was not accepted is counted, as long as the 64-bit count has not wrapped.
  pub record IsAccounted (s : System V) : Type 0 where
    pub in_order : s.accepted ≡ s.handled ++ s.front.queue
    pub fits : length s.front.queue ≤ default_queue_size
    pub counted : s.offered < 2 ^ 64 → length s.accepted + s.front.dropped ≡ s.offered

  offer_room :
      (ev : Event V) (c : Front V)
      → length c.queue < default_queue_size
      → offer ev c ≡ record c { queue = c.queue ++ ev ∷ [] }
  unfolding offer
  offer_room ev c room = rw (lt→ltb (length c.queue) default_queue_size room)

  offer_full :
      (ev : Event V) (c : Front V)
      → default_queue_size ≤ length c.queue
      → offer ev c ≡ record c { dropped = (c.dropped + 1) % 2 ^ 64 }
  unfolding offer
  offer_full ev c full =
      let no_room : ltb (length c.queue) default_queue_size ≡ false = ground arith in rw no_room

  module _ (F : Float V) (env : World V) where
    OwnStep-IsAccounted : {s t : System V} → OwnStep F env s t → IsAccounted s → IsAccounted t
    OwnStep-IsAccounted {s} (received ev rest e q) h = record {
      in_order = h.in_order ∙ ap (s.handled ++◌) q ∙ sym (append_assoc s.handled (ev ∷ []) rest);
      fits = omega (arith, h.fits, ap length q);
      counted = h.counted;
    }
    OwnStep-IsAccounted (ticked e) h = record {
      in_order = h.in_order;
      fits = h.fits;
      counted = h.counted;
    }
    OwnStep-IsAccounted (saw_done e c) h = record {
      in_order = h.in_order;
      fits = h.fits;
      counted = h.counted;
    }
    OwnStep-IsAccounted (saw_empty e q) h = record {
      in_order = h.in_order;
      fits = h.fits;
      counted = h.counted;
    }
    OwnStep-IsAccounted (flushed e) h = record {
      in_order = h.in_order;
      fits = h.fits;
      counted = h.counted;
    }
    OwnStep-IsAccounted (returned e) h = record {
      in_order = h.in_order;
      fits = h.fits;
      counted = h.counted;
    }

    Step-IsAccounted : {s t : System V} → Step F env s t → IsAccounted s → IsAccounted t
    unfolding begun
    Step-IsAccounted (own st) h = OwnStep-IsAccounted st h
    Step-IsAccounted (begins given m) h = record {
      in_order = h.in_order;
      fits = h.fits;
      counted = h.counted;
    }
    Step-IsAccounted {s} (enters before after ev e room) h =
        rw (offer_room ev s.front room) (record {
          in_order = ap (λ l. l ++ ev ∷ []) h.in_order ∙ append_assoc s.handled s.front.queue _;
          fits = rw length-append (omega arith);
          counted = λ small. rw length-append (omega (arith, h.counted (omega arith)));
        })
    Step-IsAccounted {s} (bounces before after ev e full) h =
        rw (offer_full ev s.front full) (record {
          in_order = h.in_order;
          fits = h.fits;
          counted = λ small. omega (arith, h.counted (omega arith));
        })
    Step-IsAccounted cancels h = record {
      in_order = h.in_order;
      fits = h.fits;
      counted = h.counted;
    }

    Reach-IsAccounted : {s t : System V} → Reach F env s t → IsAccounted s → IsAccounted t
    Reach-IsAccounted here h = h
    Reach-IsAccounted (next r st) h = Step-IsAccounted st (Reach-IsAccounted r h)

    -- However the callers, the worker and Close interleave: the accepted events are those that the
    -- worker took out, in the order in which they were accepted, followed by those in the queue, which
    -- holds at most 65,536; and as long as fewer than 2^64 events were sent on the queue, each of
    -- them was either accepted or counted as dropped.
    pub client-IsAccounted :
        (workload : Bytes) (s : System V) → Reach F env (fresh workload) s → IsAccounted s
    client-IsAccounted workload s r =
        Reach-IsAccounted r
          (record { in_order = refl; fits = omega arith; counted = λ small. refl })
