-- ===== src/Client/Lifecycle.antt =====
-- client.go: a client as a whole, its callers, its worker and Close. Each step is one action of one
-- goroutine, so that the guards of a call and its send on the queue are two steps, and the worker acts
-- between them.
pub mod Once
pub mod Accounts
pub mod Closing
use statokgo.Prelude.{
  ℕ, suc, ◌+◌, ◌<◌, ◌≤◌, length, ◌≡◌, ◌⊎◌, Bool, true, false, Bytes, List, [], ◌∷◌, ◌++◌,
}
use statokgo.Float.{Float}
use statokgo.Event.{Event}
use statokgo.Client.Producer.{Front, Given, Call, call, offer, default_queue_size}
use statokgo.Client.Default.{new_front}
use statokgo.Client.Worker.{Worker, World, new_worker, handle_event, handle_tick, drain}

-- Where the worker stands: in the loop, in the loop of `<-ctx.Done()`, behind its empty queue, behind
-- the last flush, returned.
pub data Phase : Type 0 where
  running : Phase
  draining : Phase
  flushing : Phase
  closing : Phase
  closed : Phase

-- `pending` holds the events of calls that have passed the guards and not yet reached the queue. The
-- flag stopSending is in `front` for the callers and in `worker` for the worker. The last three
-- fields are a record of the past: the sends on the queue, those that found room, and the events that
-- the worker took out.
pub record System (V : Type 0) : Type 0 where
  pub front : Front V
  pub worker : Worker V
  pub pending : List (Event V)
  pub cancelled : Bool
  pub phase : Phase
  pub offered : ℕ
  pub accepted : List (Event V)
  pub handled : List (Event V)

abbrev pub fresh : {V : Type 0} → Bytes → System V
fresh workload = record {
  front = new_front workload;
  worker = new_worker;
  pending = [];
  cancelled = false;
  phase = running;
  offered = 0;
  accepted = [];
  handled = [];
}

abbrev pub Receives : Phase → Type 0
Receives phase = (phase ≡ running) ⊎ (phase ≡ draining)

module _ {V : Type 0} where
  -- the worker acted; the callers see its flag
  abbrev pub moved : Worker V → System V → System V
  moved w s = record s { worker = w; front = record s.front { stop_sending = w.stop_sending } }

  -- the call that has passed its guards: its event, which an empty queue shows, and the limiter's word
  unfoldable pub begun : Front V → Front V → System V → System V
  begun c after s = record s {
    front = record c { value_limiter = after.value_limiter };
    pending = s.pending ++ after.queue;
  }

  -- Close: c.cancel()
  abbrev pub close_called : System V → System V
  close_called s = record s { cancelled = true }

  -- the worker takes an event out of the queue and handles it
  abbrev pub took : Event V → List (Event V) → Worker V → System V → System V
  took ev rest w s = record s {
    worker = w;
    front = record s.front { stop_sending = w.stop_sending; queue = rest };
    handled = s.handled ++ ev ∷ [];
  }

module _ {V : Type 0} (F : Float V) (env : World V) where
  -- One step of the worker.
  pub data OwnStep (s : System V) : System V → Type 0 where
    ticked : s.phase ≡ running → OwnStep s (moved (handle_tick F env s.worker) s)
    received :
        (ev : Event V) (rest : List (Event V))
        → Receives s.phase
        → s.front.queue ≡ ev ∷ rest
        → OwnStep s (took ev rest (handle_event F env ev s.worker) s)
    saw_done : s.phase ≡ running → s.cancelled ≡ true → OwnStep s (record s { phase = draining })
    saw_empty : s.phase ≡ draining → s.front.queue ≡ [] → OwnStep s (record s { phase = flushing })
    flushed :
        s.phase ≡ flushing
        → OwnStep s (record (moved (drain F env [] s.worker) s) { phase = closing })
    returned :
        s.phase ≡ closing
        → OwnStep s (record s { phase = closed; front = record s.front { done = true } })

  -- One step of anyone. A call on a queue that is empty shows what the call would send.
  pub data Step (s : System V) : System V → Type 0 where
    own : {t : System V} → OwnStep s t → Step s t
    begins :
        (given : Given V) (m : Call V)
        → Step s (begun s.front (call F given m (record s.front { queue = [] })) s)
    enters :
        (before after : List (Event V)) (ev : Event V)
        → s.pending ≡ before ++ ev ∷ after
        → length s.front.queue < default_queue_size
        → Step s (record s {
          front = offer ev s.front;
          pending = before ++ after;
          offered = s.offered + 1;
          accepted = s.accepted ++ ev ∷ [];
        })
    bounces :
        (before after : List (Event V)) (ev : Event V)
        → s.pending ≡ before ++ ev ∷ after
        → default_queue_size ≤ length s.front.queue
        → Step s (record s {
          front = offer ev s.front;
          pending = before ++ after;
          offered = s.offered + 1;
        })
    cancels : Step s (close_called s)

  pub data Reach (s : System V) : System V → Type 0 where
    here : Reach s s
    next : {t u : System V} → Reach s t → Step t u → Reach s u

  -- n steps of the worker alone
  pub data OwnRun (s : System V) : ℕ → System V → Type 0 where
    stay : OwnRun s 0 s
    on : {n : ℕ} {t u : System V} → OwnRun s n t → OwnStep t u → OwnRun s (suc n) u
