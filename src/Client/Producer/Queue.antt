-- ===== src/Client/Producer/Queue.antt =====
-- client.go, enqueue: what the queue holds.
use statokgo.Prelude.{
  ◌≤◌, ltb, ◌||◌, true, false, Bytes, List, [], ◌∷◌, ◌++◌, Option, none, some, ◌≡◌, ◌≢◌, refl, ◌∙◌,
  arith, All, All-append, length, length-append, is_empty, if◌then◌else◌, if_ind,
}
use statokgo.Float.{Float}
use statokgo.Go.Strings.{trim_space}
use statokgo.Go.Strings.Trim.{trim_space_idem}
use statokgo.Labels.{label}
use statokgo.UniqueId.{canonical_unique_id}
use statokgo.Event.{Event, MetricType, borrow_event, borrow_unique_event, trim_labels}
use statokgo.Event.Pool.{IsTrimmed, trim_labels-IsTrimmed}
use statokgo.Client.Producer.{
  Front, Given, Call, call_count, call_count_unique, call_total, call_value, call_value_sparse,
  default_queue_size, has_workload_label, is_workload, offer, refuses, enqueue, enqueue_unique,
  allow_value, count, count_unique, total, value, value_sparse, call, calls, meta_label_fill_mode,
  meta_fill_mode_carry,
}

-- An event that may wait: it has a name, its labels are trimmed, and none of them is a workload.
pub record IsQueueable {V : Type 0} (e : Event V) : Type 0 where
  pub has_name : e.name ≢ []
  pub trimmed : All IsTrimmed e.labels
  pub no_workload : has_workload_label e.labels ≡ false

has_workload_label-cons :
    (raw : Bytes) (rest : List Bytes)
    → has_workload_label (raw ∷ rest) ≡ (
        if is_empty (trim_space raw)
        then has_workload_label rest
        else if is_workload (trim_space raw)
        then true
        else has_workload_label rest)
unfolding has_workload_label
has_workload_label-cons raw rest = refl

trim_labels-cons :
    (raw : Bytes) (rest : List Bytes)
    → trim_labels (raw ∷ rest)
      ≡ (if is_empty (trim_space raw) then trim_labels rest else trim_space raw ∷ trim_labels rest)
unfolding trim_labels
trim_labels-cons raw rest = refl

has_workload_label-trim_labels :
    (labels : List Bytes) → has_workload_label (trim_labels labels) ≡ has_workload_label labels
has_workload_label-trim_labels [] = unfold has_workload_label trim_labels in refl
has_workload_label-trim_labels (raw ∷ rest) = ground (
  arith,
  has_workload_label-cons raw rest,
  trim_labels-cons raw rest,
  has_workload_label-trim_labels rest,
  has_workload_label-cons (trim_space raw) (trim_labels rest),
  trim_space_idem raw,
)

module _ {V : Type 0} where
  pub record IsSafe (c : Front V) : Type 0 where
    pub size : length c.queue ≤ default_queue_size
    pub queueable : All IsQueueable c.queue

  offer-IsSafe : (ev : Event V) (c : Front V) → IsQueueable ev → IsSafe c → IsSafe (offer ev c)
  unfolding offer
  offer-IsSafe ev c q h =
      if_ind IsSafe (ltb (length c.queue) default_queue_size) _ _
        (λ room. record {
          size = rw length-append (ground arith);
          queueable = All-append IsQueueable c.queue (ev ∷ []) h.queueable (q, tt);
        })
        (λ full. record { size = h.size; queueable = h.queueable })

module _ {V : Type 0} (F : Float V) (given : Given V) where
  enqueue-IsSafe :
      (typ : MetricType) (metric : Bytes) (amount : V) (labels : List Bytes) (c : Front V)
      → IsSafe c
      → IsSafe (enqueue F given typ metric amount labels c)
  unfolding enqueue refuses
  enqueue-IsSafe typ metric amount labels c h =
      if_ind IsSafe
        (is_empty metric
          || (is_empty c.workload || (c.stop_sending || (has_workload_label labels || c.done))))
        c _ (λ refused. h)
        (λ passes.
          offer-IsSafe _ c
            (unfold borrow_event in
              record {
                has_name = ground arith;
                trimmed = trim_labels-IsTrimmed labels;
                no_workload = has_workload_label-trim_labels labels ∙ ground arith;
              })
            h)

  enqueue_unique-IsSafe :
      (metric id : Bytes) (labels : List Bytes) (c : Front V)
      → IsSafe c
      → IsSafe (enqueue_unique F given metric id labels c)
  unfolding enqueue_unique refuses
  enqueue_unique-IsSafe metric id labels c h =
      if_ind IsSafe
        ((is_empty metric || is_empty id)
          || (is_empty c.workload || (c.stop_sending || (has_workload_label labels || c.done))))
        c _ (λ refused. h)
        (λ passes.
          offer-IsSafe _ c
            (unfold borrow_unique_event borrow_event in
              record {
                has_name = ground arith;
                trimmed = trim_labels-IsTrimmed labels;
                no_workload = has_workload_label-trim_labels labels ∙ ground arith;
              })
            h)

  allow_value-IsSafe :
      (metric : Bytes) (c : Front V) → IsSafe c → IsSafe (allow_value F given metric c).1
  unfolding allow_value
  allow_value-IsSafe metric c h = record {
    size = ground (arith, h.size);
    queueable = ground (arith, h.queueable);
  }

  sample-IsSafe :
      (metric : Bytes) (amount : V) (labels : List Bytes) (c : Front V)
      → IsSafe c
      → IsSafe (
          if (allow_value F given metric c).0
          then enqueue F given MetricType.value metric amount labels
              (allow_value F given metric c).1
          else (allow_value F given metric c).1)
  sample-IsSafe metric amount labels c h =
      let h' = allow_value-IsSafe metric c h in
      if_ind IsSafe (allow_value F given metric c).0 _ _
        (λ allowed. enqueue-IsSafe MetricType.value metric amount labels _ h') (λ refused. h')

  count_unique-IsSafe :
      (encoded : Option Bytes) (metric : Bytes) (labels : List Bytes) (c : Front V)
      → IsSafe c
      → IsSafe (elim encoded [ none ↦ c | some id ↦ enqueue_unique F given metric id labels c ])
  count_unique-IsSafe none metric labels c h = h
  count_unique-IsSafe (some id) metric labels c h = enqueue_unique-IsSafe metric id labels c h

  call-IsSafe : (m : Call V) (c : Front V) → IsSafe c → IsSafe (call F given m c)
  unfolding call count count_unique total value value_sparse
  call-IsSafe (call_count metric delta labels) c h =
      enqueue-IsSafe MetricType.counter metric delta labels c h
  call-IsSafe (call_count_unique id metric labels) c h =
      count_unique-IsSafe (canonical_unique_id id) metric labels c h
  call-IsSafe (call_total metric amount labels) c h =
      enqueue-IsSafe MetricType.total metric amount labels c h
  call-IsSafe (call_value metric amount labels) c h = sample-IsSafe metric amount labels c h
  call-IsSafe (call_value_sparse metric amount labels) c h =
      sample-IsSafe metric amount (labels ++ label meta_label_fill_mode meta_fill_mode_carry ∷ []) c
        h

module _ {V : Type 0} (F : Float V) where
  -- Whatever is called, in any order: a queue that holds at most 65,536 events, each with a metric,
  -- with labels that are trimmed and not empty, and with no label that sets the workload, stays
  -- such a queue.
  pub calls-IsSafe : (ms : List (Given V × Call V)) (c : Front V) → IsSafe c → IsSafe (calls F ms c)
  unfolding calls
  calls-IsSafe [] c h = h
  calls-IsSafe ((given, m) ∷ ms) c h =
      calls-IsSafe ms (call F given m c) (call-IsSafe F given m c h)
