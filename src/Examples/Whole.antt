-- ===== src/Examples/Whole.antt =====
-- Whole numbers in place of float64, events and batches to try the definitions on.
use statokgo.Prelude.{
  ℕ, ◌+◌, ◌-◌, ◌*◌, ltb, leb, Bytes, List, [], ◌∷◌, none, some, length, refl, if◌then◌else◌,
}
use statokgo.Prelude.Int.{pos}
use statokgo.Go.Strconv.{format_uint}
use statokgo.Float.{Float, IsExact}
use statokgo.Event.{Event, MetricType}
use statokgo.Transport.{HttpTransportError, http, stop_ingest}
use statokgo.Batch.{Payload}
use statokgo.Client.Worker.{World}

abbrev pub whole_numbers : Float ℕ
whole_numbers = record {
  zero_value = 0;
  add = λ a b. a + b;
  sub = λ a b. a - b;
  lt = ltb;
  le_zero = λ a. leb a 0;
  round = pos;
  format = format_uint;
}

pub whole_numbers-IsExact : IsExact whole_numbers (λ n. n)
whole_numbers-IsExact = record {
  exact_lt = λ a b _ _. refl;
  exact_sub = λ a b _ _. refl;
  exact_le_zero = λ a _. refl;
  exact_add = λ a b _. refl;
}

-- every series in one chain
abbrev pub one_hash : Bytes → List Bytes → ℕ
one_hash metric labels = 7

abbrev pub counted : ℕ → ℕ → Event ℕ
counted metric delta = record {
  typ = MetricType.counter;
  name = metric ∷ [];
  amount = delta;
  unique_id = [];
  labels = [];
  ts = 0;
}

abbrev pub seen : ℕ → ℕ → Event ℕ
seen metric id = record {
  typ = MetricType.unique;
  name = metric ∷ [];
  amount = 0;
  unique_id = id ∷ [];
  labels = [];
  ts = 0;
}

abbrev pub totalled : ℕ → Event ℕ
totalled n = record {
  typ = MetricType.total;
  name = b't' ∷ [];
  amount = n;
  unique_id = [];
  labels = [];
  ts = 0;
}

abbrev pub http_error : ℕ → HttpTransportError
http_error status = record {
  batch_id = [];
  status_code = status;
  response_code = [];
  accepted = pos 0;
  dropped = pos 0;
  rejected = pos 0;
  request_bytes = 100;
}

-- an ingester that is unavailable for the first calls; ten seconds pass between two readings
abbrev pub flaky_world : ℕ → World ℕ
flaky_world failures = record {
  series_hash = one_hash;
  batch_session = b's' ∷ [];
  clock = λ n. n * 10000000000;
  transport = λ log p. if ltb (length log) failures then some (http (http_error 503)) else none;
}

-- an ingester that tells the client to stop, while no time passes
abbrev pub stopping_world : World ℕ
stopping_world = record {
  series_hash = one_hash;
  batch_session = b's' ∷ [];
  clock = λ n. 1000;
  transport = λ log p. some (stop_ingest 401 (http_error 401));
}

abbrev pub batch_of : ℕ → Payload ℕ
batch_of id = record {
  batch_id = id ∷ [];
  counters = record { metric = b'a' ∷ []; value = 1; labels = []; timestamp = 0 } ∷ [];
  values = [];
  uniques = [];
}
