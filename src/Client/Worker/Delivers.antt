-- ===== src/Client/Worker/Delivers.antt =====
-- client.go, run: the worker while the transport takes every batch.
pub mod Turns
use statokgo.Prelude.{
  ℕ, suc, ◌+◌, ◌%◌, ◌^◌, ◌≤◌, ◌<◌, leb, ◌||◌, Bool, true, false, Bytes, List, [], ◌∷◌, ◌++◌,
  append_assoc, append-nil, Option, none, some, ◌≡◌, refl, sym, ap, ◌∙◌, subst, arith, length,
  length-append, if◌then◌else◌, if_ind, is_empty, Bool-cases, inl, inr,
}
use statokgo.Float.{Float}
use statokgo.Event.{Event}
use statokgo.Batch.{Payload, BatchBuilder, add_all, build, new_batch_builder, empty}
use statokgo.Batch.Identity.{build-batch_id}
use statokgo.Client.Totals.{apply_total, default_max_total_series}
use statokgo.Client.Worker.{
  Worker, World, default_max_batch_size, batch_id, next_batch_id, reset_transient_backoff,
  must_wait, read_gate, defer_for_client_backoff, after_send, transmit, with_batch_id, send_payload,
  flush_retry_queue, build_payload, named, built, flush_built, flush, append_event, after_total,
  is_total, handle_event, handle_tick, drain,
}
use statokgo.Client.Worker.Numbers.{batch_id-not_empty}

module _ {V : Type 0} (F : Float V) (env : World V) where
  -- The totals, and the events that are to be sent. An event is to be sent as it is, or if it is a
  -- total, as the counter that applyTotal makes of it, if any.
  unfoldable pub noted :
      List (Event V) → List (Bytes × V) × Option (Event V) → List (Bytes × V) × List (Event V)
  noted due (totals, none) = (totals, due)
  noted due (totals, some ev) = (totals, due ++ ev ∷ [])

  unfoldable pub account :
      Event V → List (Bytes × V) × List (Event V) → List (Bytes × V) × List (Event V)
  unfolding noted is_total
  account ev (totals, due) =
      if is_total F env ev.typ
      then noted due (apply_total F ev totals default_max_total_series)
      else (totals, due ++ ev ∷ [])

  -- the same for events one by one, from the start
  unfoldable pub tally_from :
      List (Bytes × V) × List (Event V) → List (Event V) → List (Bytes × V) × List (Event V)
  unfolding account
  tally_from at [] = at
  tally_from at (ev ∷ evs) = tally_from (account ev at) evs

  unfoldable pub tally : List (Event V) → List (Bytes × V) × List (Event V)
  unfolding tally_from
  tally evs = tally_from ([], []) evs

  pub tally_from-append :
      (at : List (Bytes × V) × List (Event V)) (evs : List (Event V)) (ev : Event V)
      → tally_from at (evs ++ ev ∷ []) ≡ account ev (tally_from at evs)
  unfolding tally_from
  tally_from-append at [] ev = refl
  tally_from-append at (e ∷ evs) ev = tally_from-append (account e at) evs ev

  -- the payload of a batch, if there is anything in it
  unfoldable pub payload_of : List (Event V) → Option (Payload V)
  payload_of es = elim (add_all F env.series_hash new_batch_builder es) [
    | none ↦ none
    | some b ↦ build b
  ]

  -- `log` has the payloads of the events, cut into batches: in their order, each event in one batch,
  -- each payload once, with n batch IDs in a row.
  pub data Sent : List (Event V) → List (Payload V) → ℕ → Type 0 where
    nothing : Sent [] [] 0
    posted :
        {due : List (Event V)} {log : List (Payload V)} {n : ℕ} (batch : List (Event V))
        (p : Payload V)
        → Sent due log n
        → length batch ≤ default_max_batch_size
        → payload_of batch ≡ some p
        → Sent
            (due ++ batch)
            (log ++ record p { batch_id = batch_id env.batch_session ((n + 1) % 2 ^ 64) } ∷ [])
            (n + 1)
    left_out :
        {due : List (Event V)} {log : List (Payload V)} {n : ℕ} (batch : List (Event V))
        → Sent due log n
        → length batch ≤ default_max_batch_size
        → payload_of batch ≡ none
        → Sent (due ++ batch) log n

  -- the worker sends and has nothing to retry
  pub record IsGoing (w : Worker V) : Type 0 where
    pub on : w.stop_sending ≡ false
    pub no_retries : w.retry_queue ≡ []
    pub no_gate : w.next_send_attempt ≡ none

  -- Of the events that are to be sent, all but the batch went out, and the batch has no more than
  -- `most` events.
  pub record IsDelivering (at : List (Bytes × V) × List (Event V)) (most : ℕ) (w : Worker V)
      : Type 0 where
    pub going : IsGoing w
    pub gone : List (Event V)
    pub delivered : Sent gone w.sent w.batch_seq
    pub whole : gone ++ w.batch ≡ at.1
    pub totals : w.totals ≡ at.0
    pub room : length w.batch ≤ most

  -- a batch that is not full
  abbrev pub Delivers : List (Bytes × V) × List (Event V) → Worker V → Type 0
  Delivers at w = IsDelivering at 511 w

  pub looser :
      (at : List (Bytes × V) × List (Event V)) (most more : ℕ) (w : Worker V)
      → most ≤ more
      → IsDelivering at most w
      → IsDelivering at more w
  looser at most more w le h = record {
    going = h.going;
    gone = h.gone;
    delivered = h.delivered;
    whole = h.whole;
    totals = h.totals;
    room = omega (arith, h.room);
  }

  pub noting :
      (at : List (Bytes × V) × List (Event V)) (w : Worker V) (totals : List (Bytes × V))
      → Delivers at w
      → Delivers (totals, at.1) (record w { totals = totals })
  noting at w totals h = record {
    going = record { on = h.going.on; no_retries = h.going.no_retries; no_gate = h.going.no_gate };
    gone = h.gone;
    delivered = h.delivered;
    whole = h.whole;
    totals = refl;
    room = h.room;
  }
