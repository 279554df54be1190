-- ===== src/Transport/Diagnostics.antt =====
-- transport.go: what is reported of a request that failed, read back from its body.
pub mod Adds
pub mod Lines
pub mod Texts
pub mod Clean
pub mod Counts
use statokgo.Prelude.{
  ℕ, zero, suc, ◌+◌, ◌-◌, ◌*◌, ◌==◌, ltb, leb, ◌&&◌, ◌||◌, Bool, true, false, not, Bytes, List, [],
  ◌∷◌, ◌++◌, Option, none, some, length, take, get_elem?, if◌then◌else◌, is_empty, codes, join,
}
use statokgo.Prelude.Int.{ℤ, pos, negsuc, ltb_ℤ}
use statokgo.Go.Strings.{trim_space, fields, has_prefix, split_byte, before_byte, after_byte}
use statokgo.Go.Strconv.{format_int, atoi, max_u64}
use statokgo.LineProtocol.{SeriesDef, DictionaryState}

-- linePayloadDiagnostics, and the variables sampleIDs and sampleSeries
pub record Diagnostics : Type 0 where
  pub dictionary_session : Bytes
  pub dictionary_revision : ℕ
  pub dictionary_series : ℕ
  pub series_definitions : ℕ
  pub series_definition_bytes : ℕ
  pub event_lines : ℕ
  pub event_bytes : ℕ
  pub event_series_min_id : ℤ
  pub event_series_max_id : ℤ
  pub event_series_samples : Bytes
  pub largest_series_metric : Bytes
  pub largest_series_definition_bytes : ℕ
  pub largest_series_labels : ℕ
  pub largest_label_key : Bytes
  pub largest_label_bytes : ℕ
  pub largest_label_value_prefix : Bytes
  pub sample_ids : List ℤ
  pub sample_series : List Bytes

unfoldable pub compact_error_body : Bytes → Bytes
unfolding trim_space fields
compact_error_body raw = join (fields (trim_space raw)) (b' ' ∷ [])

unfoldable pub truncate_log_field : Bytes → ℕ → Bytes
unfolding trim_space
truncate_log_field raw max =
    let s = trim_space raw in
    if max == 0 || leb (length s) max
    then s
    else if leb max 3
    then take max s
    else take (max - 3) s ++ codes "..."

rest_of : Option Bytes → Bytes
rest_of none = []
rest_of (some s) = s

-- bytes.SplitN, at most n parts
unfoldable pub split_n : ℕ → ℕ → Bytes → List Bytes
unfolding before_byte after_byte rest_of
split_n c zero s = []
split_n c (suc zero) s = s ∷ []
split_n c (suc (suc n)) s =
    let more = split_n c (suc n) (rest_of (after_byte c s)) in
    elim (before_byte c s) [ none ↦ s ∷ [] | some part ↦ part ∷ more ]

-- the first result of strconv.ParseUint, also where the second is an error
scan_value : Bytes → ℕ → ℕ
scan_value [] n = n
scan_value (c ∷ s) n =
    let d = n * 10 + (c - 48) in
    let more = scan_value s d in
    if ltb c 48 || ltb 57 c then 0 else if ltb max_u64 d then max_u64 else more

full_parts : List Bytes → List Bytes
unfolding is_empty
full_parts [] = []
full_parts (p ∷ ps) = if is_empty p then full_parts ps else p ∷ full_parts ps

unfoldable pub parse_series_definition_line : Bytes → Bytes × List Bytes
unfolding split_byte full_parts
parse_series_definition_line line = elim (split_byte b'|' line) [
  | [] ↦ ([], [])
  | a ∷ [] ↦ ([], [])
  | a ∷ b ∷ [] ↦ ([], [])
  | a ∷ b ∷ metric ∷ labels ↦ (metric, full_parts labels)
]

unfoldable pub summarize_label_for_log : Bytes → Bytes × Bytes
unfolding truncate_log_field before_byte after_byte rest_of
summarize_label_for_log label = elim (before_byte b'=' label) [
  | none ↦ (truncate_log_field (codes "raw") 48, truncate_log_field label 96)
  | some key ↦ (truncate_log_field key 48, truncate_log_field (rest_of (after_byte b'=' label)) 96)
]

-- the loop over the labels of the largest definition
largest_label : List Bytes → Diagnostics → Diagnostics
unfolding summarize_label_for_log
largest_label [] d = d
largest_label (l ∷ ls) d =
    let (key, value) = summarize_label_for_log l in
    largest_label ls (
      if leb (length l) d.largest_label_bytes then d else record d {
        largest_label_bytes = length l;
        largest_label_key = key;
        largest_label_value_prefix = value;
      })

-- the header: the session and the revision
unfoldable pub analyze_header : Bytes → Diagnostics → Diagnostics
unfolding split_n scan_value
analyze_header line d = elim (split_n b'|' 5 line) [
  | a ∷ b ∷ c ∷ session ∷ revision ∷ rest ↦ record d {
    dictionary_session = session;
    dictionary_revision = scan_value revision 0;
  }
  | _ ↦ d
]

unfoldable pub analyze_definition : Bytes → Diagnostics → Diagnostics
unfolding parse_series_definition_line truncate_log_field largest_label
analyze_definition line d =
    let size = length line + 1 in
    let (metric, labels) = parse_series_definition_line line in
    let counted = record d {
      series_definitions = d.series_definitions + 1;
      series_definition_bytes = d.series_definition_bytes + size;
    } in
    if ltb d.largest_series_definition_bytes size
    then largest_label labels (record counted {
      largest_series_definition_bytes = size;
      largest_series_metric = truncate_log_field metric 96;
      largest_series_labels = length labels;
      largest_label_key = [];
      largest_label_bytes = 0;
      largest_label_value_prefix = [];
    })
    else counted

same_id : ℤ → ℤ → Bool
same_id a b = not (ltb_ℤ a b) && not (ltb_ℤ b a)

seen_id : ℤ → List ℤ → Bool
unfolding same_id
seen_id id [] = false
seen_id id (i ∷ is) = same_id i id || seen_id id is

series_at : Option DictionaryState → ℤ → Option SeriesDef
series_at none id = none
series_at (some state) (pos n) = get_elem? state.series n
series_at (some state) (negsuc n) = none

-- the text of a sample: the ID, and the metric where the dictionary has it
sample_text : Option SeriesDef → ℤ → Bytes
unfolding format_int truncate_log_field
sample_text none id = format_int id
sample_text (some s) id = format_int id ++ b':' ∷ truncate_log_field s.metric 48

unfoldable pub note_sample : Option DictionaryState → ℤ → Diagnostics → Diagnostics
unfolding seen_id series_at sample_text
note_sample state id d =
    if leb 4 (length d.sample_series) || seen_id id d.sample_ids then d else record d {
      sample_ids = id ∷ d.sample_ids;
      sample_series = d.sample_series ++ sample_text (series_at state id) id ∷ [];
    }

unfoldable pub note_id : Option DictionaryState → Option ℤ → Diagnostics → Diagnostics
unfolding note_sample same_id
note_id state none d = d
note_id state (some id) d = note_sample state id (record d {
  event_series_min_id =
      if same_id d.event_series_min_id (negsuc 0) || ltb_ℤ id d.event_series_min_id
      then id
      else d.event_series_min_id;
  event_series_max_id =
      if same_id d.event_series_max_id (negsuc 0) || ltb_ℤ d.event_series_max_id id
      then id
      else d.event_series_max_id;
})

-- the second part of an event line with four parts
unfoldable pub event_id : Bytes → Option ℤ
unfolding split_n atoi
event_id line = elim (split_n b'|' 4 line) [ a ∷ id ∷ c ∷ e ∷ rest ↦ atoi id | _ ↦ none ]

-- len(line) < 3 || line[1] != '|'
is_short : Bytes → Bool
is_short (a ∷ b ∷ c ∷ s) = not (b == b'|')
is_short _ = true

unfoldable pub analyze_event : Option DictionaryState → Bytes → Diagnostics → Diagnostics
unfolding note_id event_id is_short
analyze_event state line d =
    let counted = record d {
      event_lines = d.event_lines + 1;
      event_bytes = d.event_bytes + (length line + 1);
    } in
    if is_short line then counted else note_id state (event_id line) counted

unfoldable pub analyze_line : Option DictionaryState → Bytes → Diagnostics → Diagnostics
unfolding analyze_header analyze_definition analyze_event has_prefix is_empty
analyze_line state line d =
    if is_empty line
    then d
    else if has_prefix line (codes "H|")
    then analyze_header line d
    else if has_prefix line (codes "S|")
    then analyze_definition line d
    else analyze_event state line d

unfoldable pub analyze_lines : Option DictionaryState → List Bytes → Diagnostics → Diagnostics
unfolding analyze_line
analyze_lines state [] d = d
analyze_lines state (line ∷ lines) d = analyze_lines state lines (analyze_line state line d)

series_count : Option DictionaryState → ℕ
series_count none = 0
series_count (some state) = length state.series

unfoldable pub no_diagnostics : Option DictionaryState → Diagnostics
unfolding series_count
no_diagnostics state = record {
  dictionary_session = [];
  dictionary_revision = 0;
  dictionary_series = series_count state;
  series_definitions = 0;
  series_definition_bytes = 0;
  event_lines = 0;
  event_bytes = 0;
  event_series_min_id = negsuc 0;
  event_series_max_id = negsuc 0;
  event_series_samples = [];
  largest_series_metric = [];
  largest_series_definition_bytes = 0;
  largest_series_labels = 0;
  largest_label_key = [];
  largest_label_bytes = 0;
  largest_label_value_prefix = [];
  sample_ids = [];
  sample_series = [];
}

-- the text of the samples, at the end
with_samples : Diagnostics → Diagnostics
with_samples d = record d { event_series_samples = join d.sample_series (b',' ∷ []) }

unfoldable pub analyze_line_payload_v4 : Bytes → Option DictionaryState → Diagnostics
unfolding analyze_lines split_byte no_diagnostics with_samples
analyze_line_payload_v4 body state =
    with_samples (analyze_lines state (split_byte b'\n' body) (no_diagnostics state))
