-- ===== src/Examples/OfWorker.antt =====
-- The worker at concrete inputs.
use statokgo.Prelude.{
  ℕ, ◌≤◌, true, List, [], ◌∷◌, ◌++◌, some, lookup, insert, bytes_eq, ◌≡◌, refl, arith, ◌+◌, ◌||◌,
  false, ◌⊎◌, min, length, is_empty,
}
use statokgo.Examples.Whole.{
  whole_numbers, flaky_world, stopping_world, counted, totalled, batch_of, http_error,
}
use statokgo.Client.Retry.{
  default_retry_max_attempts, default_retry_flush_max_sends, should_retry_transport, retry_delay,
  client_backoff_delay,
}
use statokgo.Batch.{add_all, new_batch_builder}
use statokgo.Transport.{is_stop_ingest_error}
use statokgo.Go.Strconv.{format_base36}
use statokgo.Client.Worker.{
  Worker, Input, receive, tick, new_worker, run, drain, transmit, flush_retry_queue,
}
use statokgo.Client.Worker.Attempts.{times}
use statokgo.Client.Worker.Bounds.{IsBounded, run-IsBounded}
use statokgo.Client.Worker.Budget.{sent_eight_times}
use statokgo.Client.Worker.Fuel.{Ends, flush_retry_queue-Ends}
use statokgo.Client.Worker.Gate.{backoff_holds_back}
use statokgo.Client.Worker.Stop.{stop_is_final}

-- a counter, a total twice, and three ticks
abbrev inputs : List (Input ℕ)
inputs =
    receive (counted b'a' 1) ∷ receive (totalled 5) ∷ receive (totalled 9) ∷ tick ∷ tick ∷ tick ∷ []

-- the batch is sent three times, since the first two calls fail
sent_test :
    times (b's' ∷ b'-' ∷ b'1' ∷ []) (run whole_numbers (flaky_world 2) inputs new_worker).sent ≡ 3
unfolding run times lookup insert bytes_eq add_all new_batch_builder is_stop_ingest_error
    should_retry_transport retry_delay client_backoff_delay format_base36
sent_test = refl

run-IsBounded_example :
    IsBounded (run whole_numbers (flaky_world 2) inputs new_worker)
    × IsBounded (
        drain whole_numbers
          (flaky_world 2)
          (counted b'b' 1 ∷ [])
          (run whole_numbers (flaky_world 2) inputs new_worker))
run-IsBounded_example = run-IsBounded whole_numbers (flaky_world 2) inputs (counted b'b' 1 ∷ [])

-- two batches get a number
few_numbers :
    (drain whole_numbers
      (flaky_world 2)
      (counted b'b' 1 ∷ [])
      (run whole_numbers (flaky_world 2) inputs new_worker)).batch_seq
    ≡ 2
unfolding drain run lookup insert bytes_eq add_all new_batch_builder is_stop_ingest_error
    should_retry_transport retry_delay client_backoff_delay
few_numbers = refl

sent_eight_times_example :
    times
      (b's' ∷ b'-' ∷ b'1' ∷ [])
      (drain whole_numbers
        (flaky_world 2)
        (counted b'b' 1 ∷ [])
        (run whole_numbers (flaky_world 2) inputs new_worker)).sent
    ≤ default_retry_max_attempts
sent_eight_times_example =
    sent_eight_times whole_numbers (flaky_world 2) inputs (counted b'b' 1 ∷ [])
      (b's' ∷ b'-' ∷ b'1' ∷ []) (omega (arith, few_numbers))

stop_is_final_example :
    ((drain whole_numbers stopping_world (counted b'b' 1 ∷ []) (
        run whole_numbers stopping_world inputs
          (transmit whole_numbers stopping_world (batch_of 1) 1 new_worker))).sent
      ≡ [] ++ batch_of 1 ∷ [])
    × ((transmit whole_numbers stopping_world (batch_of 1) 1 new_worker).retry_queue ≡ [])
stop_is_final_example =
    stop_is_final whole_numbers stopping_world (batch_of 1) 1 401 (http_error 401) new_worker inputs
      (counted b'b' 1 ∷ []) refl

-- a batch that waits, and a client that backs off until 2,000 ns
abbrev waiting : Worker ℕ
waiting = record new_worker {
  next_send_attempt = some 2000;
  retry_queue = record { payload = batch_of 1; attempts = 1; next_attempt = 0 } ∷ [];
}

backoff_holds_back_example :
    (drain whole_numbers stopping_world
      (counted b'b' 1 ∷ [])
      (run whole_numbers stopping_world inputs waiting)).sent
    ≡ []
backoff_holds_back_example =
    backoff_holds_back whole_numbers stopping_world 2000 (λ n. omega arith) waiting inputs
      (counted b'b' 1 ∷ []) refl

flush_retry_queue-Ends_example :
    (((is_empty waiting.retry_queue || waiting.stop_sending) ≡ true)
      × (flush_retry_queue whole_numbers (flaky_world 0) true waiting ≡ waiting))
    ⊎ (((is_empty waiting.retry_queue || waiting.stop_sending) ≡ false)
        × Ends whole_numbers
            (flaky_world 0)
            (length waiting.retry_queue
              + min (length waiting.retry_queue) default_retry_flush_max_sends)
            true
            (min (length waiting.retry_queue) default_retry_flush_max_sends)
            0
            0
            ((flaky_world 0).clock 0)
            (record waiting { reads = 1 })
            (flush_retry_queue whole_numbers (flaky_world 0) true waiting))
flush_retry_queue-Ends_example = flush_retry_queue-Ends whole_numbers (flaky_world 0) true waiting
