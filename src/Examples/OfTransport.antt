-- ===== src/Examples/OfTransport.antt =====
-- The configuration, the encoder and Send at concrete inputs.
use statokgo.Prelude.{
  arith, ◌++◌, true, false, Bytes, List, [], ◌∷◌, none, some, length, map, Lacks, ◌==◌,
  if◌then◌else◌, ◌≡◌, ◌≢◌, refl, codes, lookup, inl, inr,
}
use statokgo.Go.Strings.{trim_space, equal_fold}
use statokgo.Config.{valid_workload}
use statokgo.Config.Workload.{valid_workload-trim_space}
use statokgo.Config.Defaults.{
  UrlLibrary, Settings, http_transport, new_http_transport, success, new_client,
}
use statokgo.Config.Defaults.Keys.{HasOneKey, new_client-HasOneKey}
use statokgo.Batch.{empty, series_key}
use statokgo.LineProtocol.{Encoder, new_dictionary_state, encode_events, encode_line_payload_v4}
use statokgo.Go.Strconv.{format_uint}
use statokgo.Go.Strconv.RoundTrip.{format_uint-IsDigit, digits-Lacks}
use statokgo.Transport.Diagnostics.{analyze_line_payload_v4}
use statokgo.Transport.Diagnostics.Clean.{IsCleanPayload}
use statokgo.Transport.Diagnostics.Counts.{AreCounts, analyze_line_payload_v4-AreCounts}
use statokgo.LineProtocol.{DictionaryState, SeriesDef, definitions, write_all_definitions}
use statokgo.LineProtocol.Sent.{start_of, encode_events-definitions}
use statokgo.LineProtocol.Resolve.{
  IsConsistent, Extends, resolve, id_of, names_of, encode_events-resolve,
}
use statokgo.Transport.{HttpTransport, Request, Outcome, answered, Link, send}
use statokgo.Transport.Delivery.{IsDelivered, send-IsDelivered}
use statokgo.Examples.Whole.{whole_numbers, batch_of}

abbrev name : Bytes
name = codes "shop/api"

name-valid : valid_workload name ≡ true
unfolding valid_workload
name-valid = refl

valid_workload-trim_space_example : (trim_space name ≡ name) × Lacks b'\n' name × Lacks b'\r' name
valid_workload-trim_space_example = valid_workload-trim_space name name-valid

-- URLs that are their text, with the path given
abbrev plain_urls : UrlLibrary Bytes
plain_urls = record {
  parse = λ s. some s;
  path = λ u. b'/' ∷ [];
  with_path = λ path u. u ++ path;
  print = λ u. u;
}

-- a transport without a key, whose header names the authorization and leaves it blank
abbrev bare : HttpTransport
bare = record (new_http_transport (codes "https://h/in") []) {
  header = (codes "authorization", (b' ' ∷ []) ∷ []) ∷ (codes "X-Team", (b't' ∷ []) ∷ []) ∷ [];
}

abbrev settings : Settings
settings = record {
  endpoint = [];
  api_key = b'k' ∷ [];
  transport = some (http_transport bare);
  verbose = false;
}

abbrev filled : Settings
filled = record settings { transport = some (http_transport (record bare { api_key = b'k' ∷ [] })) }

filled_by : new_client plain_urls name settings ≡ success (name, filled)
unfolding new_client
filled_by = refl

new_client-HasOneKey_example :
    (valid_workload name ≡ true) × (filled.transport ≢ none) × HasOneKey filled filled.transport
new_client-HasOneKey_example =
    new_client-HasOneKey plain_urls name settings name filled
      (unfold equal_fold in (inr (refl, tt), (inl refl, tt))) filled_by

abbrev start : Encoder
start = record { dict = new_dictionary_state 5; new_series_ids = []; series_changed = false }

start-IsConsistent : IsConsistent start.dict
unfolding new_dictionary_state lookup
start-IsConsistent key id at = absurd (cc)

encode_events-resolve_example :
    IsConsistent (encode_events whole_numbers (batch_of 1) start).1.dict
    × Extends start.dict (encode_events whole_numbers (batch_of 1) start).1.dict
    × (map
          (resolve (encode_events whole_numbers (batch_of 1) start).1.dict.series)
          (map (id_of whole_numbers) (encode_events whole_numbers (batch_of 1) start).0)
        ≡ map (λ s. some (series_key s.0 s.1)) (names_of whole_numbers (batch_of 1)))
encode_events-resolve_example =
    encode_events-resolve whole_numbers (batch_of 1) start start-IsConsistent

-- an ingester that does not know the dictionary of the first request
abbrev forgetful : List Request → Request → Outcome
forgetful log r =
    if length log == 0
    then answered (record {
      status = 409;
      accepted = [];
      dropped = [];
      rejected = [];
      code = codes "unknown_series_dictionary";
    })
    else answered (record { status = 200; accepted = []; dropped = []; rejected = []; code = [] })

abbrev link : Link
link = record {
  transport = new_http_transport (codes "https://h") (b'k' ∷ []);
  requests = [];
  reads = 0;
}

no_error : (send whole_numbers (λ n. n) forgetful (batch_of 1) name link).0 ≡ none
unfolding send encode_line_payload_v4
no_error = refl

send-IsDelivered_example :
    IsDelivered forgetful 0
      (1 ∷ [])
      (send whole_numbers (λ n. n) forgetful (batch_of 1) name link).1
send-IsDelivered_example =
    send-IsDelivered whole_numbers (λ n. n) forgetful (batch_of 1) name link no_error
      (unfold empty in refl)

encode_events-definitions_example :
    (more : List SeriesDef) × ((encode_events whole_numbers
        (batch_of 1)
        (start_of (new_dictionary_state 5))).1.dict.series
      ≡ (new_dictionary_state 5).series ++ more)
    × (definitions
          (encode_events whole_numbers (batch_of 1) (start_of (new_dictionary_state 5))).1
          false
        ≡ write_all_definitions (length (new_dictionary_state 5).series) more)
encode_events-definitions_example =
    encode_events-definitions whole_numbers (batch_of 1) (new_dictionary_state 5)

batch-IsCleanPayload : IsCleanPayload whole_numbers (batch_of 1)
batch-IsCleanPayload = record {
  names = ((omega arith, tt), tt);
  ids = tt;
  numbers = λ n. digits-Lacks b'\n' (format_uint n) (λ h. omega arith) (format_uint-IsDigit n);
}

abbrev five : DictionaryState
five = record { session_id = codes "5"; revision = 0; series_map = []; series = [] }

analyze_line_payload_v4-AreCounts_example :
    AreCounts
      (batch_of 1)
      five
      (encode_line_payload_v4 whole_numbers (batch_of 1) five false).1
      (encode_line_payload_v4 whole_numbers (batch_of 1) five false).0
      (analyze_line_payload_v4
        (encode_line_payload_v4 whole_numbers (batch_of 1) five false).0
        (some (encode_line_payload_v4 whole_numbers (batch_of 1) five false).1))
analyze_line_payload_v4-AreCounts_example =
    analyze_line_payload_v4-AreCounts whole_numbers (batch_of 1) five batch-IsCleanPayload tt
      (omega arith) (unfold empty in refl)
