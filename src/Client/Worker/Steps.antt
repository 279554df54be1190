-- ===== src/Client/Worker/Steps.antt =====
-- The rounds of the loop of flushRetryQueue, one equation for each way that a round may go.
use statokgo.Prelude.{
  ℕ, suc, ◌+◌, ltb, ◌&&◌, not, Bool, true, false, ◌++◌, some, none, ◌≡◌, arith, length, take, drop,
  get_elem?,
}
use statokgo.Float.{Float}
use statokgo.Client.Worker.{Worker, World, RetryBatch, send_payload, flush_loop}

-- the worker without the retry at place i
abbrev pub without : {V : Type 0} → ℕ → Worker V → Worker V
without i w = record w { retry_queue = take i w.retry_queue ++ drop (suc i) w.retry_queue }

module _ {V : Type 0} (F : Float V) (env : World V) where
  -- the worker after the batch `item` at place i was taken out and sent
  abbrev pub resent : ℕ → RetryBatch V → Worker V → Worker V
  resent i item w = send_payload F env item.payload (item.attempts + 1) (without i w)

  module _ (f : ℕ) (ignore : Bool) (i processed limit now : ℕ) (w : Worker V) where
    pub flush_loop-end :
        (ltb i (length w.retry_queue) && ltb processed limit) ≡ false
        → flush_loop F env (suc f) ignore i processed limit now w ≡ w
    unfolding flush_loop
    flush_loop-end done = ground arith

    module _ (more : (ltb i (length w.retry_queue) && ltb processed limit) ≡ true) where
      pub flush_loop-out :
          get_elem? w.retry_queue i ≡ none
          → flush_loop F env (suc f) ignore i processed limit now w ≡ w
      unfolding flush_loop
      flush_loop-out out = ground arith

      module _ (item : RetryBatch V) (at : get_elem? w.retry_queue i ≡ some item) where
        pub flush_loop-skip :
            (not ignore && ltb now item.next_attempt) ≡ true
            → flush_loop F env (suc f) ignore i processed limit now w
              ≡ flush_loop F env f ignore (i + 1) processed limit now w
        unfolding flush_loop
        flush_loop-skip early = ground arith

        pub flush_loop-send :
            (not ignore && ltb now item.next_attempt) ≡ false
            → flush_loop F env (suc f) ignore i processed limit now w
              ≡ flush_loop F env f ignore i
                  (processed + 1)
                  limit
                  (env.clock (resent i item w).reads)
                  (record (resent i item w) { reads = (resent i item w).reads + 1 })
        unfolding flush_loop
        flush_loop-send due = rw (more, at, due, flush_loop)
