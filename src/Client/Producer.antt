-- ===== src/Client/Producer.antt =====
-- client.go, the methods that callers use: Count, CountUnique, Total, Value and ValueSparse, up to the
-- send on the queue. A call is one step; the goroutines that call take turns.
pub mod Queue
pub mod Quiet
use statokgo.Prelude.{
  ℕ, ◌+◌, ◌*◌, ◌%◌, ◌^◌, ltb, ◌||◌, Bool, true, false, not, Bytes, List, [], ◌∷◌, ◌++◌, Option,
  none, some, length, if◌then◌else◌, is_empty, bytes_eq, codes,
}
use statokgo.Float.{Float}
use statokgo.Go.Strings.{trim_space, before_byte}
use statokgo.Labels.{label}
use statokgo.UniqueId.{AnyId, canonical_unique_id}
use statokgo.RateLimiter.{allow_at}
use statokgo.Event.{Event, MetricType, borrow_event, borrow_unique_event, unix}

abbrev pub default_queue_size : ℕ
default_queue_size = 64 * 1024

abbrev pub meta_label_fill_mode : Bytes
meta_label_fill_mode = codes "__statok_fill"

abbrev pub meta_fill_mode_carry : Bytes
meta_fill_mode_carry = codes "carry"

-- The fields of Client that callers read and write: `queue` holds what the worker has not taken out
-- yet, the oldest first; `done` says that the worker has returned.
pub record Front (V : Type 0) : Type 0 where
  pub workload : Bytes
  pub queue : List (Event V)
  pub dropped : ℕ
  pub value_limiter : ℕ
  pub stop_sending : Bool
  pub done : Bool

-- What the world hands to a call: an event of the pool, and the clock.
pub record Given (V : Type 0) : Type 0 where
  pub pooled : Event V
  pub limiter_now : ℕ
  pub now : ℕ

-- what the loop tests of a label that is trimmed and not empty
unfoldable pub is_workload : Bytes → Bool
unfolding before_byte bytes_eq
is_workload label =
    if bytes_eq label (codes "workload")
    then true
    else elim (before_byte b'=' label) [ none ↦ false | some key ↦ bytes_eq key (codes "workload") ]

unfoldable pub has_workload_label : List Bytes → Bool
unfolding trim_space is_workload is_empty
has_workload_label [] = false
has_workload_label (raw ∷ rest) =
    let label = trim_space raw in
    let later = has_workload_label rest in
    if is_empty label then later else if is_workload label then true else later

module _ {V : Type 0} where
  -- the select with the send on the queue
  unfoldable pub offer : Event V → Front V → Front V
  offer ev c =
      if ltb (length c.queue) default_queue_size
      then record c { queue = c.queue ++ ev ∷ [] }
      else record c { dropped = (c.dropped + 1) % 2 ^ 64 }

  -- the guards of enqueue behind the one on the metric
  unfoldable pub refuses : Front V → List Bytes → Bool
  unfolding has_workload_label is_empty
  refuses c labels =
      is_empty c.workload || (c.stop_sending || (has_workload_label labels || c.done))

module _ {V : Type 0} (F : Float V) (given : Given V) where
  unfoldable pub enqueue : MetricType → Bytes → V → List Bytes → Front V → Front V
  unfolding offer refuses borrow_event is_empty
  enqueue typ metric amount labels c =
      if is_empty metric || refuses c labels
      then c
      else offer (borrow_event F given.pooled given.now typ metric amount labels) c

  unfoldable pub enqueue_unique : Bytes → Bytes → List Bytes → Front V → Front V
  unfolding offer refuses borrow_unique_event is_empty
  enqueue_unique metric unique_id labels c =
      if (is_empty metric || is_empty unique_id) || refuses c labels
      then c
      else offer (borrow_unique_event F given.pooled given.now metric unique_id labels) c

  -- allowValue: the answer, and the limiter's word
  unfoldable pub allow_value : Bytes → Front V → Bool × Front V
  unfolding allow_at is_empty
  allow_value metric c =
      let (allowed, word) = allow_at (unix given.limiter_now) c.value_limiter in
      if is_empty metric || (is_empty c.workload || c.stop_sending)
      then (false, c)
      else (allowed, record c { value_limiter = word })

  unfoldable pub count : Bytes → V → List Bytes → Front V → Front V
  unfolding enqueue
  count metric delta labels c = enqueue MetricType.counter metric delta labels c

  unfoldable pub count_unique : AnyId → Bytes → List Bytes → Front V → Front V
  unfolding enqueue_unique canonical_unique_id
  count_unique unique_id metric labels c = elim (canonical_unique_id unique_id) [
    | none ↦ c
    | some encoded ↦ enqueue_unique metric encoded labels c
  ]

  unfoldable pub total : Bytes → V → List Bytes → Front V → Front V
  unfolding enqueue
  total metric amount labels c = enqueue MetricType.total metric amount labels c

  unfoldable pub value : Bytes → V → List Bytes → Front V → Front V
  unfolding enqueue allow_value
  value metric amount labels c =
      let (allowed, c') = allow_value metric c in
      if allowed then enqueue MetricType.value metric amount labels c' else c'

  unfoldable pub value_sparse : Bytes → V → List Bytes → Front V → Front V
  unfolding enqueue allow_value label
  value_sparse metric amount labels c =
      let (allowed, c') = allow_value metric c in
      let meta_labels = labels ++ label meta_label_fill_mode meta_fill_mode_carry ∷ [] in
      if allowed then enqueue MetricType.value metric amount meta_labels c' else c'

-- A call of one of the methods, with its arguments.
pub data Call (V : Type 0) : Type 0 where
  call_count : Bytes → V → List Bytes → Call V
  call_count_unique : AnyId → Bytes → List Bytes → Call V
  call_total : Bytes → V → List Bytes → Call V
  call_value : Bytes → V → List Bytes → Call V
  call_value_sparse : Bytes → V → List Bytes → Call V

module _ {V : Type 0} (F : Float V) where
  unfoldable pub call : Given V → Call V → Front V → Front V
  unfolding count count_unique total value value_sparse
  call given (call_count metric delta labels) c = count F given metric delta labels c
  call given (call_count_unique id metric labels) c = count_unique F given id metric labels c
  call given (call_total metric amount labels) c = total F given metric amount labels c
  call given (call_value metric amount labels) c = value F given metric amount labels c
  call given (call_value_sparse metric amount labels) c =
      value_sparse F given metric amount labels c

  unfoldable pub calls : List (Given V × Call V) → Front V → Front V
  unfolding call
  calls [] c = c
  calls ((given, m) ∷ rest) c = calls rest (call given m c)
