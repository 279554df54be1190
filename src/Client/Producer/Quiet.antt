-- ===== src/Client/Producer/Quiet.antt =====
-- client.go: the methods of a client that is closed or stopped.
use statokgo.Prelude.{
  ◌||◌, true, Bytes, List, [], ◌∷◌, ◌++◌, Option, none, some, ◌≡◌, refl, ◌∙◌, arith, is_empty,
  if◌then◌else◌, if_ind,
}
use statokgo.Float.{Float}
use statokgo.Labels.{label}
use statokgo.UniqueId.{canonical_unique_id}
use statokgo.Event.{MetricType}
use statokgo.Client.Producer.{
  Front, Given, Call, call_count, call_count_unique, call_total, call_value, call_value_sparse,
  has_workload_label, refuses, enqueue, enqueue_unique, allow_value, count, count_unique, total,
  value, value_sparse, call, calls, meta_label_fill_mode, meta_fill_mode_carry,
}

-- c' has the queue and the count of dropped events of c, and is closed as c is.
record Same {V : Type 0} (c c' : Front V) : Type 0 where
  queue : c'.queue ≡ c.queue
  dropped : c'.dropped ≡ c.dropped
  stop_sending : c'.stop_sending ≡ c.stop_sending
  done : c'.done ≡ c.done

module _ {V : Type 0} where
  abbrev IsClosed : Front V → Type 0
  IsClosed c = (c.stop_sending || c.done) ≡ true

  Same-refl : (c : Front V) → Same c c
  Same-refl c = record { queue = refl; dropped = refl; stop_sending = refl; done = refl }

  Same-trans : (c d e : Front V) → Same c d → Same d e → Same c e
  Same-trans c d e h k = record {
    queue = k.queue ∙ h.queue;
    dropped = k.dropped ∙ h.dropped;
    stop_sending = k.stop_sending ∙ h.stop_sending;
    done = k.done ∙ h.done;
  }

module _ {V : Type 0} (F : Float V) (given : Given V) where
  enqueue_closed :
      (typ : MetricType) (metric : Bytes) (amount : V) (labels : List Bytes) (c : Front V)
      → IsClosed c
      → Same c (enqueue F given typ metric amount labels c)
  unfolding enqueue refuses
  enqueue_closed typ metric amount labels c h =
      if_ind (Same c)
        (is_empty metric
          || (is_empty c.workload || (c.stop_sending || (has_workload_label labels || c.done))))
        c _ (λ refused. Same-refl c) (λ passes. absurd (ground arith))

  enqueue_unique_closed :
      (metric id : Bytes) (labels : List Bytes) (c : Front V)
      → IsClosed c
      → Same c (enqueue_unique F given metric id labels c)
  unfolding enqueue_unique refuses
  enqueue_unique_closed metric id labels c h =
      if_ind (Same c)
        ((is_empty metric || is_empty id)
          || (is_empty c.workload || (c.stop_sending || (has_workload_label labels || c.done))))
        c _ (λ refused. Same-refl c) (λ passes. absurd (ground arith))

  allow_value-Same : (metric : Bytes) (c : Front V) → Same c (allow_value F given metric c).1
  unfolding allow_value
  allow_value-Same metric c = record {
    queue = ground arith;
    dropped = ground arith;
    stop_sending = ground arith;
    done = ground arith;
  }

  sample_closed :
      (metric : Bytes) (amount : V) (labels : List Bytes) (c : Front V)
      → IsClosed c
      → Same c (
          if (allow_value F given metric c).0
          then enqueue F given MetricType.value metric amount labels
              (allow_value F given metric c).1
          else (allow_value F given metric c).1)
  sample_closed metric amount labels c h =
      let same = allow_value-Same metric c in
      let closed : IsClosed (allow_value F given metric c).1 =
        rw (same.stop_sending, same.done) h in
      if_ind (Same c) (allow_value F given metric c).0 _ _
        (λ allowed. Same-trans c (allow_value F given metric c).1 _ same (
          enqueue_closed MetricType.value metric amount labels (allow_value F given metric c).1
            closed))
        (λ refused. same)

  count_unique_closed :
      (encoded : Option Bytes) (metric : Bytes) (labels : List Bytes) (c : Front V)
      → IsClosed c
      → Same c (elim encoded [ none ↦ c | some id ↦ enqueue_unique F given metric id labels c ])
  count_unique_closed none metric labels c h = Same-refl c
  count_unique_closed (some id) metric labels c h = enqueue_unique_closed metric id labels c h

  call_closed : (m : Call V) (c : Front V) → IsClosed c → Same c (call F given m c)
  unfolding call count count_unique total value value_sparse
  call_closed (call_count metric delta labels) c h =
      enqueue_closed MetricType.counter metric delta labels c h
  call_closed (call_count_unique id metric labels) c h =
      count_unique_closed (canonical_unique_id id) metric labels c h
  call_closed (call_total metric amount labels) c h =
      enqueue_closed MetricType.total metric amount labels c h
  call_closed (call_value metric amount labels) c h = sample_closed metric amount labels c h
  call_closed (call_value_sparse metric amount labels) c h =
      sample_closed metric amount (labels ++ label meta_label_fill_mode meta_fill_mode_carry ∷ []) c
        h

module _ {V : Type 0} (F : Float V) where
  calls-Same : (ms : List (Given V × Call V)) (c : Front V) → IsClosed c → Same c (calls F ms c)
  unfolding calls
  calls-Same [] c h = Same-refl c
  calls-Same ((given, m) ∷ ms) c h =
      let same = call_closed F given m c h in
      Same-trans c (call F given m c) _ same
        (calls-Same ms (call F given m c) (rw (same.stop_sending, same.done) h))

  -- Once the worker has stopped sending or has returned, no call puts an event into the queue, and
  -- none counts as dropped.
  pub calls_closed :
      (ms : List (Given V × Call V)) (c : Front V)
      → (c.stop_sending || c.done) ≡ true
      → ((calls F ms c).queue ≡ c.queue) × ((calls F ms c).dropped ≡ c.dropped)
  calls_closed ms c h = let same = calls-Same ms c h in (same.queue, same.dropped)
