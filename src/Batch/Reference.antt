-- ===== src/Batch/Reference.antt =====
-- What a batch is to hold, stated with no hash and no index: a counter is added to the first counter
-- of its series among the first `limit`, and stands on its own if there is none.
use statokgo.Prelude.{
  ℕ, zero, suc, ◌&&◌, ◌||◌, Bool, false, Bytes, List, [], ◌∷◌, ◌++◌, bytes_eq, all_eq, is_empty,
  if◌then◌else◌,
}
use statokgo.Float.{Float}
use statokgo.Event.{Event, MetricType, unix}
use statokgo.Batch.{
  CounterEvent, UniqueEvent, Payload, new_counter, bump_counter, default_max_series_per_batch,
}

abbrev pub same_series : Bytes → List Bytes → Bytes → List Bytes → Bool
same_series m ls metric labels = bytes_eq m metric && all_eq ls labels

module _ {V : Type 0} (F : Float V) where
  unfoldable pub merge_counter : ℕ → Event V → List (CounterEvent V) → List (CounterEvent V)
  merge_counter zero e cs = cs ++ new_counter e ∷ []
  merge_counter (suc n) e [] = new_counter e ∷ []
  merge_counter (suc n) e (c ∷ cs) =
      if same_series c.metric c.labels e.name e.labels
      then bump_counter F e c ∷ cs
      else c ∷ merge_counter n e cs

-- whether a unique event with this series and this ID is there
unfoldable pub has_unique : Bytes → Bytes → List Bytes → List UniqueEvent → Bool
has_unique id metric labels [] = false
has_unique id metric labels (u ∷ us) =
    (bytes_eq u.unique_id id && same_series u.metric u.labels metric labels)
    || has_unique id metric labels us

unfoldable pub merge_unique : {V : Type 0} → Event V → List UniqueEvent → List UniqueEvent
unfolding has_unique is_empty
merge_unique e us =
    if is_empty e.unique_id || has_unique e.unique_id e.name e.labels us
    then us
    else us
      ++ record {
        metric = e.name;
        unique_id = e.unique_id;
        labels = e.labels;
        timestamp = unix e.ts;
      }
        ∷ []

module _ {V : Type 0} (F : Float V) where
  abbrev pub merge_typed : MetricType → Payload V → Event V → Payload V
  merge_typed MetricType.counter p e = record p {
    counters = merge_counter F default_max_series_per_batch e p.counters;
  }
  merge_typed MetricType.value p e = record p {
    values =
        p.values
        ++ record { metric = e.name; value = e.amount; labels = e.labels; timestamp = unix e.ts }
          ∷ [];
  }
  merge_typed MetricType.unique p e = record p { uniques = merge_unique e p.uniques }
  merge_typed MetricType.total p e = p
  merge_typed MetricType.unset p e = p

  unfoldable pub merge_all : Payload V → List (Event V) → Payload V
  merge_all p [] = p
  merge_all p (e ∷ es) = merge_all (merge_typed e.typ p e) es
