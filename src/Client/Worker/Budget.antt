-- ===== src/Client/Worker/Budget.antt =====
-- client.go: how often one batch is sent.
use statokgo.Prelude.{
  ℕ, ◌+◌, ◌%◌, ◌^◌, ◌≤◌, ◌<◌, true, false, Bytes, List, [], ◌∷◌, some, ◌≡◌, refl, sym, ap, subst,
  ◌∙◌, arith, All, get_elem?, is_empty, Bool-cases, inl, inr, bytes_eq, bytes_eq_iff,
}
use statokgo.Float.{Float}
use statokgo.Event.{Event}
use statokgo.Batch.{Payload}
use statokgo.Client.Retry.{default_retry_max_attempts}
use statokgo.Client.Worker.{
  Worker, World, RetryBatch, Input, new_worker, batch_id, with_batch_id, next_batch_id,
  send_payload, run, drain,
}
use statokgo.Client.Worker.Steps.{without, resent}
use statokgo.Client.Worker.Attempts.{times, IsIssued, Absent, IsAccounted, Ledger, Ledger-take}
use statokgo.Client.Worker.Induction.{IsInvariant, sent_first, run_keeps, drain_keeps}
use statokgo.Client.Worker.Numbers.{
  batch_id-injective, batch_id-not_empty, send_payload-batch_seq, send_payload-rises,
}
use statokgo.Client.Worker.Accounts.{Accounts, send_payload-Accounts}

module _ {V : Type 0} (F : Float V) (env : World V) where
  -- The next number has not been given out.
  fresh_times :
      (seq : ℕ) (log : List (Payload V))
      → All (λ p. IsIssued env.batch_session seq p.batch_id) log
      → times (batch_id env.batch_session (seq + 1)) log ≡ 0
  unfolding times
  fresh_times seq [] h = refl
  fresh_times seq (p ∷ log) ((k, le, e), h) =
      elim (Bool-cases (bytes_eq p.batch_id (batch_id env.batch_session (seq + 1)))) [
        | inl same ↦ absurd (
            omega (
              arith,
              batch_id-injective env.batch_session k (seq + 1) (sym e ∙ (bytes_eq_iff _ _).0 same),
            ))
        | inr other ↦ rw other (omega (arith, fresh_times seq log h))
      ]

  fresh-Absent :
      (seq : ℕ) (log : List (Payload V)) (q : List (RetryBatch V))
      → All (IsAccounted env.batch_session seq log) q
      → Absent (batch_id env.batch_session (seq + 1)) q
  fresh-Absent seq log [] h = tt
  fresh-Absent seq log (r ∷ q) (hr, h) =
      let (k, le, e) = hr.issued in
      (
        λ same. omega (arith, batch_id-injective env.batch_session k (seq + 1) (sym e ∙ same)),
        fresh-Absent seq log q h,
      )

  later_waiting :
      (seq : ℕ) (log : List (Payload V)) (q : List (RetryBatch V))
      → All (IsAccounted env.batch_session seq log) q
      → All (IsAccounted env.batch_session (seq + 1) log) q
  later_waiting seq log [] h = tt
  later_waiting seq log (r ∷ q) (hr, h) =
      let (k, le, e) = hr.issued in
      (
        record { count = hr.count; left = hr.left; issued = (k, omega arith, e) },
        later_waiting seq log q h,
      )

  later_old :
      (seq : ℕ) (log : List (Payload V))
      → All (λ p. IsIssued env.batch_session seq p.batch_id) log
      → All (λ p. IsIssued env.batch_session (seq + 1) p.batch_id) log
  later_old seq [] h = tt
  later_old seq (p ∷ log) ((k, le, e), h) = ((k, omega arith, e), later_old seq log h)

  -- The ledger is kept as long as the sequence number has not wrapped.
  IsWithinBudget : Worker V → Type 0
  IsWithinBudget w = w.batch_seq < 2 ^ 64 → Accounts F env w.batch_seq w

  new-Accounts :
      (p : Payload V) (w : Worker V)
      → p.batch_id ≡ batch_id env.batch_session (w.batch_seq + 1)
      → Accounts F env w.batch_seq w
      → Accounts F env
          (w.batch_seq + 1)
          (send_payload F env p 1 (record w { batch_seq = w.batch_seq + 1 }))
  unfolding Accounts
  new-Accounts p w id h =
      send_payload-Accounts F env (w.batch_seq + 1) p 1 (omega arith)
        (w.batch_seq + 1, omega arith, id) (record w { batch_seq = w.batch_seq + 1 })
        (rw id (batch_id-not_empty env.batch_session (w.batch_seq + 1)))
        (record {
          ledger = record {
            bounded = h.bounded;
            waiting = later_waiting w.batch_seq w.sent w.retry_queue h.waiting;
            distinct = h.distinct;
            old = later_old w.batch_seq w.sent h.old;
          };
          absent = rw id (fresh-Absent w.batch_seq w.sent w.retry_queue h.waiting);
          count = rw id (omega (arith, fresh_times w.batch_seq w.sent h.old));
        })

  with_batch_id_blank :
      (p : Payload V) (w : Worker V)
      → p.batch_id ≡ []
      → with_batch_id F env p w ≡ (
        record p { batch_id = batch_id env.batch_session ((w.batch_seq + 1) % 2 ^ 64) },
        record w { batch_seq = w.batch_seq + 1 },
      )
  unfolding with_batch_id next_batch_id
  with_batch_id_blank p w blank =
      let empty_id : is_empty p.batch_id ≡ true = ground arith in rw empty_id

  at_seq :
      (n : ℕ) (w : Worker V)
      → w.batch_seq ≡ n
      → (n < 2 ^ 64 → Accounts F env n w)
      → IsWithinBudget w
  unfolding IsWithinBudget
  at_seq n w e h fits =
      subst (λ (k : ℕ). Accounts F env k w) (sym e) (h (subst (λ (k : ℕ). k < 2 ^ 64) e fits))

  first-IsWithinBudget :
      (p : Payload V) (w : Worker V)
      → p.batch_id ≡ []
      → IsWithinBudget w
      → IsWithinBudget (sent_first F env p w)
  first-IsWithinBudget p w blank h =
      let p' : Payload V = record p {
        batch_id = batch_id env.batch_session ((w.batch_seq + 1) % 2 ^ 64);
      } in
      let w' : Worker V = record w { batch_seq = w.batch_seq + 1 } in
      rw (with_batch_id_blank p w blank) (
        at_seq (w.batch_seq + 1) (send_payload F env p' 1 w')
          (send_payload-batch_seq F env p' 1 w' (batch_id-not_empty env.batch_session _))
          (λ fits.
            new-Accounts p' w (ap (batch_id env.batch_session) (omega arith))
              (unfold IsWithinBudget in h (omega arith))))

  issued-not_empty :
      (seq : ℕ) (id : Bytes) → IsIssued env.batch_session seq id → is_empty id ≡ false
  issued-not_empty seq id (k, le, e) = rw e (batch_id-not_empty env.batch_session k)

  again-Accounts :
      (i : ℕ) (item : RetryBatch V) (w : Worker V)
      → get_elem? w.retry_queue i ≡ some item
      → Accounts F env w.batch_seq w
      → Accounts F env w.batch_seq (resent F env i item w)
  unfolding Accounts
  again-Accounts i item w at h =
      let t = Ledger-take env.batch_session w.batch_seq w.sent w.retry_queue i item at h in
      let acc = t.accounted in
      send_payload-Accounts F env w.batch_seq item.payload (item.attempts + 1)
        (omega (arith, acc.left)) acc.issued (without i w)
        (issued-not_empty w.batch_seq item.payload.batch_id acc.issued)
        (record { ledger = t.ledger; absent = t.absent; count = omega (arith, acc.count) })

  again-IsWithinBudget :
      (i : ℕ) (item : RetryBatch V) (w : Worker V)
      → get_elem? w.retry_queue i ≡ some item
      → IsWithinBudget w
      → IsWithinBudget (resent F env i item w)
  unfolding IsWithinBudget Accounts
  again-IsWithinBudget i item w at h fits =
      let rises = send_payload-rises F env item.payload (item.attempts + 1) (without i w) in
      let ledger = h (omega arith) in
      let issued =
        (Ledger-take env.batch_session w.batch_seq w.sent w.retry_queue i item at
          ledger).accounted.issued in
      let kept =
        send_payload-batch_seq F env item.payload (item.attempts + 1) (without i w)
          (issued-not_empty w.batch_seq item.payload.batch_id issued) in
      subst
        (λ (k : ℕ).
          Ledger env.batch_session k (resent F env i item w).sent
            (resent F env i item w).retry_queue)
        (sym kept) (again-Accounts i item w at ledger)

  IsWithinBudget-invariant : IsInvariant F env IsWithinBudget
  unfolding IsWithinBudget Accounts
  IsWithinBudget-invariant = record {
    frame = λ w w' agree h. rw (agree.batch_seq, agree.sent, agree.retry_queue) h;
    first = first-IsWithinBudget;
    again = again-IsWithinBudget;
  }

  start : IsWithinBudget new_worker
  unfolding IsWithinBudget Accounts times
  start fits = record { bounded = λ id. omega arith; waiting = tt; distinct = tt; old = tt }

  -- Whatever the transport answers and the clock reads: as long as the 64-bit sequence number has not
  -- wrapped, no batch ID is sent more than eight times, from the start through the drain.
  pub sent_eight_times :
      (is : List (Input V)) (evs : List (Event V)) (id : Bytes)
      → (drain F env evs (run F env is new_worker)).batch_seq < 2 ^ 64
      → times id (drain F env evs (run F env is new_worker)).sent ≤ default_retry_max_attempts
  unfolding IsWithinBudget Accounts
  sent_eight_times is evs id fits =
      let inv = IsWithinBudget-invariant in
      (drain_keeps F env IsWithinBudget inv evs _
          (run_keeps F env IsWithinBudget inv is new_worker start) fits).bounded
        id

  -- Every batch ID that was sent is one of the session's.
  pub sent-IsIssued :
      (is : List (Input V)) (evs : List (Event V))
      → (drain F env evs (run F env is new_worker)).batch_seq < 2 ^ 64
      → All
          (λ p.
            IsIssued env.batch_session
              (drain F env evs (run F env is new_worker)).batch_seq
              p.batch_id)
          (drain F env evs (run F env is new_worker)).sent
  unfolding IsWithinBudget Accounts
  sent-IsIssued is evs fits =
      (drain_keeps F env IsWithinBudget IsWithinBudget-invariant evs _
        (run_keeps F env IsWithinBudget IsWithinBudget-invariant is new_worker start) fits).old
