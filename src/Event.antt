-- ===== src/Event.antt =====
-- event.go: the events that wait in the queue, and the pool that they are borrowed from and given
-- back to. Times are nanoseconds since 1970.
pub mod Pool
use statokgo.Prelude.{ℕ, ◌/◌, ◌^◌, Bytes, List, [], ◌∷◌, if◌then◌else◌}
use statokgo.Float.{Float}
use statokgo.Go.Strings.{trim_space}
use statokgo.Prelude.{is_empty}

-- `unset` is the zero of metricType, which releaseEvent writes; `total` is internal and becomes
-- `counter` before it is sent.
pub data MetricType : Type 0 where
  unset counter value total unique : MetricType

pub record Event (V : Type 0) : Type 0 where
  pub typ : MetricType
  pub name : Bytes
  pub amount : V
  pub unique_id : Bytes
  pub labels : List Bytes
  pub ts : ℕ

-- ts.Unix()
abbrev pub unix : ℕ → ℕ
unix ts = ts / 10 ^ 9

module _ {V : Type 0} (F : Float V) where
  -- &event{}, which the pool makes when it is empty
  unfoldable pub new_event : Event V
  new_event = record {
    typ = MetricType.unset;
    name = [];
    amount = F.zero_value;
    unique_id = [];
    labels = [];
    ts = 0;
  }

  -- what goes back into the pool
  unfoldable pub release_event : Event V → Event V
  release_event e = record e {
    typ = MetricType.unset;
    name = [];
    amount = F.zero_value;
    unique_id = [];
    labels = [];
  }

-- the loop of borrowEvent: labels trimmed, and dropped where nothing is left
unfoldable pub trim_labels : List Bytes → List Bytes
trim_labels [] = []
trim_labels (l ∷ ls) =
    let trimmed = trim_space l in
    let rest = trim_labels ls in if is_empty trimmed then rest else trimmed ∷ rest

module _ {V : Type 0} (F : Float V) where
  -- `pooled` is what eventPool.Get() returns, `now` is time.Now(); uniqueID is left as it is
  unfoldable pub borrow_event : Event V → ℕ → MetricType → Bytes → V → List Bytes → Event V
  unfolding trim_labels
  borrow_event pooled now typ name amount labels = record pooled {
    typ = typ;
    name = name;
    amount = amount;
    labels = trim_labels labels;
    ts = now;
  }

  unfoldable pub borrow_unique_event : Event V → ℕ → Bytes → Bytes → List Bytes → Event V
  unfolding borrow_event
  borrow_unique_event pooled now name unique_id labels =
      record (borrow_event pooled now MetricType.unique name F.zero_value labels) {
        unique_id = unique_id;
      }
