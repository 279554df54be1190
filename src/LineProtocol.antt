-- ===== src/LineProtocol.antt =====
-- line_protocol_v4.go: the dictionary of series that a transport shares with the ingester, and the
-- text of one payload.
pub mod Resolve
pub mod Sent
use statokgo.Prelude.{
  ℕ, ◌+◌, ◌%◌, ◌^◌, Bool, true, false, ◌||◌, Bytes, List, [], ◌∷◌, ◌++◌, none, some, length,
  get_elem?, if◌then◌else◌, lookup, insert, text_eq, codes, is_empty,
}
use statokgo.Prelude.Int.{ℤ, pos}
use statokgo.Float.{Float}
use statokgo.Go.Strconv.{format_uint, format_int}
use statokgo.Labels.{clone_labels}
use statokgo.Batch.{CounterEvent, ValueEvent, UniqueEvent, Payload, empty, series_key}

pub record SeriesDef : Type 0 where
  pub metric : Bytes
  pub labels : List Bytes

pub record DictionaryState : Type 0 where
  pub session_id : Bytes
  pub revision : ℕ
  pub series_map : List (Bytes × ℕ)
  pub series : List SeriesDef

-- `now` is time.Now().UnixNano()
unfoldable pub new_dictionary_state : ℕ → DictionaryState
new_dictionary_state now = record {
  session_id = format_int (pos now);
  revision = 0;
  series_map = [];
  series = [];
}

-- What the variables of encodeLinePayloadV4 hold that its closure getSeriesID writes.
pub record Encoder : Type 0 where
  pub dict : DictionaryState
  pub new_series_ids : List ℕ
  pub series_changed : Bool

unfoldable pub define_series : Bytes → List Bytes → Encoder → ℕ × Encoder
define_series metric labels enc =
    let id = length enc.dict.series in
    (
      id,
      record {
        dict = record enc.dict {
          series_map = insert text_eq (series_key metric labels) id enc.dict.series_map;
          series = enc.dict.series ++ record { metric = metric; labels = clone_labels labels } ∷ [];
        };
        new_series_ids = enc.new_series_ids ++ id ∷ [];
        series_changed = true;
      },
    )

unfoldable pub get_series_id : Bytes → List Bytes → Encoder → ℕ × Encoder
unfolding define_series
get_series_id metric labels enc =
    elim (lookup text_eq (series_key metric labels) enc.dict.series_map) [
      | some id ↦ (id, enc)
      | none ↦ define_series metric labels enc
    ]

-- encodedEvent: the metric type is the constructor, and each holds the value of its type.
pub data EncodedEvent (V : Type 0) : Type 0 where
  counter : ℕ → ℤ → ℕ → EncodedEvent V
  value : ℕ → V → ℕ → EncodedEvent V
  unique : ℕ → Bytes → ℕ → EncodedEvent V

module _ {V : Type 0} (F : Float V) where
  -- the three loops over a payload
  unfoldable pub encode_counters : List (CounterEvent V) → Encoder → List (EncodedEvent V) × Encoder
  unfolding get_series_id
  encode_counters [] enc = ([], enc)
  encode_counters (c ∷ cs) enc =
      let (id, enc') = get_series_id c.metric c.labels enc in
      let (rest, enc'') = encode_counters cs enc' in
      (counter id (F.round c.value) c.timestamp ∷ rest, enc'')

unfoldable pub encode_values :
    {V : Type 0} → List (ValueEvent V) → Encoder → List (EncodedEvent V) × Encoder
unfolding get_series_id
encode_values [] enc = ([], enc)
encode_values (v ∷ vs) enc =
    let (id, enc') = get_series_id v.metric v.labels enc in
    let (rest, enc'') = encode_values vs enc' in (value id v.value v.timestamp ∷ rest, enc'')

unfoldable pub encode_uniques :
    {V : Type 0} → List UniqueEvent → Encoder → List (EncodedEvent V) × Encoder
unfolding get_series_id
encode_uniques [] enc = ([], enc)
encode_uniques (u ∷ us) enc =
    let (id, enc') = get_series_id u.metric u.labels enc in
    let (rest, enc'') = encode_uniques us enc' in (unique id u.unique_id u.timestamp ∷ rest, enc'')

-- the labels of a definition; an empty one is left out
unfoldable pub write_labels : List Bytes → Bytes
unfolding is_empty
write_labels [] = []
write_labels (l ∷ ls) =
    let rest = write_labels ls in if is_empty l then rest else (b'|' ∷ l) ++ rest

unfoldable pub write_series_definition : ℕ → SeriesDef → Bytes
unfolding write_labels
write_series_definition id s =
    (b'S' ∷ b'|' ∷ format_uint id) ++ ((b'|' ∷ s.metric) ++ (write_labels s.labels ++ b'\n' ∷ []))

-- `for id, s := range state.series`
unfoldable pub write_all_definitions : ℕ → List SeriesDef → Bytes
unfolding write_series_definition
write_all_definitions id [] = []
write_all_definitions id (s ∷ ss) =
    write_series_definition id s ++ write_all_definitions (id + 1) ss

-- state.series[id]; the IDs are those that were just handed out, so none is out of range
unfoldable pub write_new_definitions : List SeriesDef → List ℕ → Bytes
unfolding write_series_definition
write_new_definitions series [] = []
write_new_definitions series (id ∷ ids) =
    elim (get_elem? series id) [ none ↦ [] | some s ↦ write_series_definition id s ]
    ++ write_new_definitions series ids

unfoldable pub write_line : ℕ → ℕ → Bytes → ℕ → Bytes
write_line kind id text timestamp =
    (kind ∷ b'|' ∷ format_uint id)
    ++ ((b'|' ∷ text) ++ ((b'|' ∷ format_int (pos timestamp)) ++ b'\n' ∷ []))

module _ {V : Type 0} (F : Float V) where
  unfoldable pub write_event : EncodedEvent V → Bytes
  unfolding write_line
  write_event (counter id n timestamp) = write_line b'c' id (format_int n) timestamp
  write_event (value id x timestamp) = write_line b'v' id (F.format x) timestamp
  write_event (unique id text timestamp) = write_line b'u' id text timestamp

  unfoldable pub write_events : List (EncodedEvent V) → Bytes
  unfolding write_event
  write_events [] = []
  write_events (e ∷ es) = write_event e ++ write_events es

-- H|4|s|<session>|<revision>
unfoldable pub write_header : DictionaryState → Bytes
write_header state =
    codes "H|4|s|" ++ (state.session_id ++ ((b'|' ∷ format_uint state.revision) ++ b'\n' ∷ []))

-- the series of a payload, with their IDs
unfoldable pub encode_events :
    {V : Type 0} → Float V → Payload V → Encoder → List (EncodedEvent V) × Encoder
unfolding encode_counters encode_values encode_uniques
encode_events F p enc =
    let (cs, enc1) = encode_counters F p.counters enc in
    let (vs, enc2) = encode_values p.values enc1 in
    let (us, enc3) = encode_uniques p.uniques enc2 in (cs ++ (vs ++ us), enc3)

-- the dictionary after the loops: one more revision if a series is new
unfoldable pub close_revision : Encoder → DictionaryState
close_revision enc =
    if enc.series_changed
    then record enc.dict { revision = (enc.dict.revision + 1) % 2 ^ 64 }
    else enc.dict

unfoldable pub definitions : Encoder → Bool → Bytes
unfolding write_all_definitions write_new_definitions
definitions enc force =
    if force || enc.series_changed
    then (if force
        then write_all_definitions 0 enc.dict.series
        else write_new_definitions enc.dict.series enc.new_series_ids)
    else []

-- The text, and the dictionary that the call leaves behind.
unfoldable pub encode_line_payload_v4 :
    {V : Type 0} → Float V → Payload V → DictionaryState → Bool → Bytes × DictionaryState
unfolding encode_events close_revision definitions write_header write_events empty
encode_line_payload_v4 F p state force =
    let start : Encoder = record { dict = state; new_series_ids = []; series_changed = false } in
    let (events, enc) = encode_events F p start in
    let state' = close_revision enc in
    if empty p
    then ([], state)
    else (write_header state' ++ (definitions enc force ++ write_events F events), state')
