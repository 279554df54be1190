-- ===== src/Batch.antt =====
-- batch_builder.go, and the payload of transport.go: events are gathered into one payload; counters
-- of one series are summed, unique IDs are sent once. A panic (an index out of range) is `none`.
pub mod Reference
pub mod Chains
pub mod Places
pub mod Tracks
pub mod Uniques
pub mod Refines
pub mod Sums
pub mod Identity
pub mod Series
use statokgo.Prelude.{
  ℕ, zero, suc, ◌+◌, ◌-◌, ltb, leb, ◌==◌, ◌&&◌, Bool, true, false, not, Bytes, List, [], ◌∷◌, ◌++◌,
  Option, none, some, length, get_elem?, set, bytes_eq, all_eq, is_empty, if◌then◌else◌, Eq, lookup,
  insert, is_none, nat_eq, text_eq,
}
use statokgo.Float.{Float}
use statokgo.Event.{Event, MetricType, unix}

abbrev pub default_max_series_per_batch : ℕ
default_max_series_per_batch = 2048

pub record CounterEvent (V : Type 0) : Type 0 where
  pub metric : Bytes
  pub value : V
  pub labels : List Bytes
  pub timestamp : ℕ

pub record ValueEvent (V : Type 0) : Type 0 where
  pub metric : Bytes
  pub value : V
  pub labels : List Bytes
  pub timestamp : ℕ

pub record UniqueEvent : Type 0 where
  pub metric : Bytes
  pub unique_id : Bytes
  pub labels : List Bytes
  pub timestamp : ℕ

pub record Payload (V : Type 0) : Type 0 where
  pub batch_id : Bytes
  pub counters : List (CounterEvent V)
  pub values : List (ValueEvent V)
  pub uniques : List UniqueEvent

-- (*Payload).empty
unfoldable pub empty : {V : Type 0} → Payload V → Bool
unfolding is_empty
empty p = is_empty p.counters && (is_empty p.values && is_empty p.uniques)

-- `next` is the place of the next entry of the chain, counted from 1; 0 ends the chain.
pub record CounterAggEntry : Type 0 where
  pub metric : Bytes
  pub labels : List Bytes
  pub payload_index : ℕ
  pub next : ℕ

pub record BatchBuilder (V : Type 0) : Type 0 where
  pub payload : Payload V
  pub counter_aggs : List (ℕ × ℕ)
  pub counter_entries : List CounterAggEntry
  pub unique_seen : List (Bytes × Unit {0})

unfoldable pub new_batch_builder : {V : Type 0} → BatchBuilder V
new_batch_builder = record {
  payload = record { batch_id = []; counters = []; values = []; uniques = [] };
  counter_aggs = [];
  counter_entries = [];
  unique_seen = [];
}

unfoldable pub labels_equal : List Bytes → List Bytes → Bool
unfolding all_eq
labels_equal a b = all_eq a b

-- the labels of seriesKey, each closed by a zero byte
unfoldable pub key_labels : List Bytes → Bytes
key_labels [] = []
key_labels (l ∷ ls) = l ++ (0 ∷ key_labels ls)

unfoldable pub series_key : Bytes → List Bytes → Bytes
unfolding key_labels
series_key metric labels = metric ++ (0 ∷ key_labels labels)

-- What the loop over a chain comes to.
pub data Search : Type 0 where
  found : ℕ → Search
  missing : Search
  panic : Search

-- The loop `for idx := head - 1; idx >= 0; idx = next - 1`, over `link = idx + 1`. The fuel bounds
-- the rounds; to run out of it counts as a panic (see Batch/Chains).
unfoldable pub find_entry : ℕ → List CounterAggEntry → ℕ → Bytes → List Bytes → Search
find_entry zero entries link metric labels = panic
find_entry (suc f) entries zero metric labels = missing
find_entry (suc f) entries (suc idx) metric labels = elim (get_elem? entries idx) [
  | none ↦ panic
  | some entry ↦ elim (bytes_eq entry.metric metric && labels_equal entry.labels labels) [
    | true ↦ found entry.payload_index
    | false ↦ find_entry f entries entry.next metric labels
  ]
]

-- counterAggs[hash]: 0 where there is no entry
unfoldable pub head_of : List (ℕ × ℕ) → ℕ → ℕ
head_of aggs hash = elim (lookup nat_eq hash aggs) [ none ↦ 0 | some head ↦ head ]

unfoldable pub new_counter : {V : Type 0} → Event V → CounterEvent V
new_counter e = record {
  metric = e.name;
  value = e.amount;
  labels = e.labels;
  timestamp = unix e.ts;
}

module _ {V : Type 0} (F : Float V) where
  -- agg.Value += e.value, and the later timestamp
  unfoldable pub bump_counter : Event V → CounterEvent V → CounterEvent V
  bump_counter e agg = record agg {
    value = F.add agg.value e.amount;
    timestamp = if ltb agg.timestamp (unix e.ts) then unix e.ts else agg.timestamp;
  }

module _ {V : Type 0} where
  -- a counter of a series that has no entry
  unfoldable pub append_counter : BatchBuilder V → ℕ → Event V → BatchBuilder V
  unfolding new_counter head_of
  append_counter b hash e =
      let payload' = record b.payload { counters = b.payload.counters ++ new_counter e ∷ [] } in
      let entry : CounterAggEntry = record {
        metric = e.name;
        labels = e.labels;
        payload_index = length b.payload.counters;
        next = head_of b.counter_aggs hash;
      } in
      let entries' = b.counter_entries ++ entry ∷ [] in
      if leb default_max_series_per_batch (length b.counter_entries)
      then record b { payload = payload' }
      else record b {
        payload = payload';
        counter_entries = entries';
        counter_aggs = insert nat_eq hash (length entries') b.counter_aggs;
      }

  unfoldable pub add_unique : BatchBuilder V → Event V → BatchBuilder V
  unfolding series_key is_empty
  add_unique b e =
      let key = series_key e.name e.labels ++ (1 ∷ e.unique_id) in
      let event : UniqueEvent = record {
        metric = e.name;
        unique_id = e.unique_id;
        labels = e.labels;
        timestamp = unix e.ts;
      } in
      if is_empty e.unique_id
      then b
      else if not (is_none (lookup text_eq key b.unique_seen))
      then b
      else record b {
        unique_seen = insert text_eq key tt b.unique_seen;
        payload = record b.payload { uniques = b.payload.uniques ++ event ∷ [] };
      }

-- `series_hash` is seriesHash: maphash with a seed that is drawn when the program starts.
module _ {V : Type 0} (F : Float V) (series_hash : Bytes → List Bytes → ℕ) where
  -- what addCounter does after the search
  unfoldable pub store_counter : BatchBuilder V → Event V → Search → Option (BatchBuilder V)
  unfolding bump_counter append_counter
  store_counter b e panic = none
  store_counter b e missing = some (append_counter b (series_hash e.name e.labels) e)
  store_counter b e (found i) = elim (get_elem? b.payload.counters i) [
    | none ↦ none
    | some agg ↦ some (record b {
      payload = record b.payload { counters = set b.payload.counters i (bump_counter F e agg) };
    })
  ]

  unfoldable pub add_counter : BatchBuilder V → Event V → Option (BatchBuilder V)
  unfolding store_counter find_entry head_of
  add_counter b e = store_counter b e (
      find_entry (suc (length b.counter_entries)) b.counter_entries
        (head_of b.counter_aggs (series_hash e.name e.labels)) e.name e.labels)

  unfoldable pub add_typed : MetricType → BatchBuilder V → Event V → Option (BatchBuilder V)
  unfolding add_counter add_unique
  add_typed MetricType.counter b e = add_counter b e
  add_typed MetricType.value b e = some (record b {
    payload = record b.payload {
      values =
          b.payload.values
          ++ record { metric = e.name; value = e.amount; labels = e.labels; timestamp = unix e.ts }
            ∷ [];
    };
  })
  add_typed MetricType.unique b e = some (add_unique b e)
  add_typed MetricType.total b e = some b
  add_typed MetricType.unset b e = some b

  unfoldable pub add : BatchBuilder V → Event V → Option (BatchBuilder V)
  unfolding add_typed
  add b e = add_typed e.typ b e

  -- the loop of buildPayload
  unfoldable pub add_all : BatchBuilder V → List (Event V) → Option (BatchBuilder V)
  unfolding add
  add_all b [] = some b
  add_all b (e ∷ es) = elim (add b e) [ none ↦ none | some b' ↦ add_all b' es ]

unfoldable pub build : {V : Type 0} → BatchBuilder V → Option (Payload V)
unfolding empty
build b = if empty b.payload then none else some b.payload
