-- ===== src/Examples/OfSystem.antt =====
-- The whole client at concrete inputs: a call, Close, and the worker's steps to the end.
use statokgo.Prelude.{
  ℕ, ◌==◌, if◌then◌else◌, lookup, insert, bytes_eq, ◌+◌, ◌<◌, ◌≤◌, ◌≡◌, ◌⊎◌, refl, inr, true, Bytes,
  List, [], ◌∷◌, codes, arith, length, none, ◌++◌,
}
use statokgo.Event.{Event}
use statokgo.Client.Producer.{Given, call, call_count, offer}
use statokgo.Client.Worker.{World, receive, tick, new_worker, run, handle_event, drain}
use statokgo.Client.Posts.{deliver, wired, posted, posted_sixteen_times}
use statokgo.Client.Retry.{should_retry_transport, retry_delay, client_backoff_delay}
use statokgo.Batch.{Payload, add_all, new_batch_builder}
use statokgo.Transport.{Request, Outcome, answered, Link, is_stop_ingest_error, send}
use statokgo.Go.Strconv.{format_base36}
use statokgo.Config.Defaults.{new_http_transport}
use statokgo.LineProtocol.{encode_line_payload_v4}
use statokgo.Client.Lifecycle.{
  System, fresh, draining, closing, closed, OwnStep, received, saw_done, saw_empty, flushed,
  returned, own, begins, enters, cancels, Reach, here, next, OwnRun, stay, on, moved, took, begun,
}
use statokgo.Client.Lifecycle.Once.{batch_room, client-SendsOnce}
use statokgo.Client.Worker.Delivers.{IsDelivering, tally}
use statokgo.Client.Lifecycle.Accounts.{IsAccounted, client-IsAccounted}
use statokgo.Client.Lifecycle.Closing.{close_ends}
use statokgo.Examples.Whole.{one_hash, whole_numbers, flaky_world, counted}

abbrev workload : Bytes
workload = codes "shop"

abbrev given : Given ℕ
given = record { pooled = counted b'z' 0; limiter_now = 0; now = 0 }

abbrev ev : Event ℕ
ev = record (counted b'a' 1) { ts = 0 }

-- a counter of one is in the queue, and Close was called
abbrev one_waits : System ℕ
one_waits = record (fresh workload) {
  front = record (fresh {V = ℕ} workload).front { queue = ev ∷ [] };
  cancelled = true;
  phase = draining;
  offered = 1;
  accepted = ev ∷ [];
}

one_waits-reached : Reach whole_numbers (flaky_world 0) (fresh workload) one_waits
unfolding begun call offer
one_waits-reached =
    next
      (next
        (next (next here (begins given (call_count (b'a' ∷ []) 1 [])))
          (enters [] [] ev refl (omega arith)))
        cancels)
      (own (saw_done refl refl))

abbrev last_one : System ℕ
last_one = took ev [] (handle_event whole_numbers (flaky_world 0) ev one_waits.worker) one_waits

abbrev all_flushed : System ℕ
all_flushed = record (moved (drain whole_numbers (flaky_world 0) [] last_one.worker) last_one) {
  phase = closing;
}

abbrev at_end : System ℕ
at_end = record all_flushed { phase = closed; front = record all_flushed.front { done = true } }

own_steps : OwnRun whole_numbers (flaky_world 0) one_waits 4 at_end
own_steps =
    on (on (on (on stay (received ev [] (inr refl) refl)) (saw_empty refl refl)) (flushed refl))
      (returned refl)

all_flushed-reached : Reach whole_numbers (flaky_world 0) (fresh workload) all_flushed
unfolding begun call offer
all_flushed-reached =
    next
      (next (next one_waits-reached (own (received ev [] (inr refl) refl)))
        (own (saw_empty refl refl)))
      (own (flushed refl))

-- an ingester without a failure
always_taken : (log : List (Payload ℕ)) (p : Payload ℕ) → (flaky_world 0).transport log p ≡ none
always_taken log p = ground arith

client-SendsOnce_example :
    (all_flushed.accepted ≡ all_flushed.handled ++ all_flushed.front.queue)
    × IsDelivering whole_numbers
        (flaky_world 0)
        (tally whole_numbers (flaky_world 0) all_flushed.handled)
        (batch_room all_flushed.phase)
        all_flushed.worker
client-SendsOnce_example =
    client-SendsOnce whole_numbers (flaky_world 0) always_taken workload all_flushed
      all_flushed-reached

client-IsAccounted_example : IsAccounted one_waits
client-IsAccounted_example =
    client-IsAccounted whole_numbers (flaky_world 0) workload one_waits one_waits-reached

close_ends_example :
    ((4 < 1 + 3) × ((u : System ℕ) × OwnStep whole_numbers (flaky_world 0) at_end u))
    ⊎ ((4 ≡ 1 + 3) × (at_end.front.done ≡ true) × (at_end.handled ≡ ev ∷ []))
close_ends_example =
    close_ends whole_numbers (flaky_world 0) workload one_waits 4 at_end one_waits-reached refl
      own_steps

-- an ingester that does not know the dictionary of the first request
abbrev forgetful : List Request → Request → Outcome
forgetful log r =
    if length log == 0
    then answered (record {
      status = 409;
      accepted = [];
      dropped = [];
      rejected = [];
      code = codes "unknown_series_dictionary";
    })
    else answered (record { status = 200; accepted = []; dropped = []; rejected = []; code = [] })

abbrev link : Link
link = record {
  transport = new_http_transport (codes "https://h") (b'k' ∷ []);
  requests = [];
  reads = 0;
}

abbrev posting : World ℕ
unfolding wired
posting = wired whole_numbers (λ n. n) forgetful one_hash 35 workload link

one_number :
    (drain whole_numbers posting []
      (run whole_numbers posting (receive ev ∷ tick ∷ []) new_worker)).batch_seq
    ≡ 1
unfolding drain run lookup insert bytes_eq add_all new_batch_builder is_stop_ingest_error wired
    should_retry_transport retry_delay client_backoff_delay send encode_line_payload_v4
    format_base36
one_number = refl

posted_sixteen_times_example :
    posted
      (codes "z-1")
      (deliver whole_numbers
        (λ n. n)
        forgetful
        workload
        (drain whole_numbers posting []
          (run whole_numbers posting (receive ev ∷ tick ∷ []) new_worker)).sent
        link).requests
    ≤ 16
unfolding wired
posted_sixteen_times_example =
    posted_sixteen_times whole_numbers (λ n. n) forgetful one_hash 35 workload link
      (receive ev ∷ tick ∷ []) [] (codes "z-1") refl (omega (arith, one_number))
