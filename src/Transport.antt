-- ===== src/Transport.antt =====
-- transport.go: HTTPTransport.Send, which encodes a payload against the dictionary of series, posts
-- it, and sends it once more with a new dictionary if the ingester does not know the old one.
pub mod Delivery
pub mod Diagnostics
use statokgo.Prelude.{
  ℕ, ◌+◌, ltb, leb, ◌==◌, ◌&&◌, ◌||◌, Bool, true, false, not, Bytes, List, [], ◌∷◌, ◌++◌, Option,
  none, some, length, if◌then◌else◌, bytes_eq, is_empty, codes,
}
use statokgo.Prelude.Int.{ℤ, pos, negsuc}
use statokgo.Float.{Float}
use statokgo.Go.Strings.{trim_space, to_lower, equal_fold}
use statokgo.Go.Strconv.{atoi}
use statokgo.Batch.{Payload, empty}
use statokgo.LineProtocol.{DictionaryState, new_dictionary_state, encode_line_payload_v4}
use statokgo.Config.{valid_workload}

abbrev pub default_max_dictionary_series : ℕ
default_max_dictionary_series = 2048

abbrev pub default_stop_status_code : ℕ
default_stop_status_code = 401

abbrev pub default_stop_response_codes : List Bytes
default_stop_response_codes = codes "unauthorized" ∷ codes "unsupported_protocol_version" ∷ []

-- http.StatusConflict, http.StatusRequestEntityTooLarge
abbrev pub status_conflict : ℕ
status_conflict = 409

abbrev pub status_request_entity_too_large : ℕ
status_request_entity_too_large = 413

-- HTTPTransportError, with the fields that are not only printed into logs.
pub record HttpTransportError : Type 0 where
  pub batch_id : Bytes
  pub status_code : ℕ
  pub response_code : Bytes
  pub accepted : ℤ
  pub dropped : ℤ
  pub rejected : ℤ
  pub request_bytes : ℕ

-- What errors.As and errors.Is find in an error that is none of the two types below.
pub record ErrorClass : Type 0 where
  pub net_error : Bool
  pub deadline_exceeded : Bool
  pub eof : Bool
  pub unexpected_eof : Bool
  pub conn_reset : Bool
  pub conn_refused : Bool
  pub timed_out : Bool

abbrev pub plain_error : ErrorClass
plain_error = record {
  net_error = false;
  deadline_exceeded = false;
  eof = false;
  unexpected_eof = false;
  conn_reset = false;
  conn_refused = false;
  timed_out = false;
}

-- The errors of Transport.Send.
pub data SendError : Type 0 where
  stop_ingest : ℕ → HttpTransportError → SendError
  http : HttpTransportError → SendError
  other : ErrorClass → SendError

unfoldable pub is_stop_ingest_error : SendError → Bool
is_stop_ingest_error (stop_ingest code e) = true
is_stop_ingest_error (http e) = false
is_stop_ingest_error (other c) = false

-- One request: the body, the headers of the caller, and those that Send sets; an empty one is not set.
pub record Request : Type 0 where
  pub body : Bytes
  pub header : List (Bytes × List Bytes)
  pub authorization : Bytes
  pub workload : Bytes
  pub batch_id : Bytes

-- What client.Do comes to. `code` is the field "code" of the JSON body, empty where there is none.
pub record Answer : Type 0 where
  pub status : ℕ
  pub accepted : Bytes
  pub dropped : Bytes
  pub rejected : Bytes
  pub code : Bytes

pub data Outcome : Type 0 where
  failed : ErrorClass → Outcome
  answered : Answer → Outcome

pub record HttpTransport : Type 0 where
  pub endpoint : Bytes
  pub api_key : Bytes
  pub header : List (Bytes × List Bytes)
  pub dict : Option DictionaryState
  pub stop_status_codes : List ℕ
  pub stop_response_codes : List Bytes

pub record SendResult : Type 0 where
  pub status_code : ℕ
  pub response_code : Bytes
  pub accepted : ℤ
  pub dropped : ℤ
  pub rejected : ℤ

-- -1 stands for a header that is missing or no number
unfoldable pub parse_ingest_count_header : Bytes → ℤ
unfolding trim_space atoi is_empty
parse_ingest_count_header raw =
    let trimmed = trim_space raw in
    if is_empty trimmed then negsuc 0 else elim (atoi trimmed) [ none ↦ negsuc 0 | some v ↦ v ]

any_status : ℕ → List ℕ → Bool
any_status status [] = false
any_status status (c ∷ cs) = c == status || any_status status cs

unfoldable pub should_stop_on_status : HttpTransport → ℕ → Bool
unfolding any_status is_empty
should_stop_on_status t status =
    if is_empty t.stop_status_codes
    then status == default_stop_status_code
    else any_status status t.stop_status_codes

any_code : Bytes → List Bytes → Bool
any_code code [] = false
any_code code (c ∷ cs) = equal_fold (trim_space c) code || any_code code cs

unfoldable pub should_stop_on_response_code : HttpTransport → Bytes → Bool
unfolding any_code is_empty trim_space to_lower equal_fold
should_stop_on_response_code t raw =
    let code = to_lower (trim_space raw) in
    if is_empty code
    then false
    else if is_empty t.stop_response_codes
    then any_code code default_stop_response_codes
    else any_code code t.stop_response_codes

-- extractResponseCode, behind json.Unmarshal
unfoldable pub extract_response_code : Bytes → Bytes
unfolding trim_space to_lower
extract_response_code code = to_lower (trim_space code)

unfoldable pub no_result : SendResult
no_result = record {
  status_code = 0;
  response_code = [];
  accepted = pos 0;
  dropped = pos 0;
  rejected = pos 0;
}

module _ (t : HttpTransport) (request : Request) where
  -- a status outside 200..299
  unfoldable pub refused : Answer → SendResult × Option SendError
  unfolding parse_ingest_count_header extract_response_code should_stop_on_status
      should_stop_on_response_code
  refused a =
      let accepted = parse_ingest_count_header a.accepted in
      let dropped = parse_ingest_count_header a.dropped in
      let rejected = parse_ingest_count_header a.rejected in
      let code = extract_response_code a.code in
      let result : SendResult = record {
        status_code = a.status;
        response_code = code;
        accepted = accepted;
        dropped = dropped;
        rejected = rejected;
      } in
      let error : HttpTransportError = record {
        batch_id = request.batch_id;
        status_code = a.status;
        response_code = code;
        accepted = accepted;
        dropped = dropped;
        rejected = rejected;
        request_bytes = length request.body;
      } in
      if should_stop_on_status t a.status || should_stop_on_response_code t code
      then (result, some (stop_ingest a.status error))
      else (result, some (http error))

  -- what sendBody makes of the outcome of client.Do
  unfoldable pub read_outcome : Outcome → SendResult × Option SendError
  unfolding refused no_result parse_ingest_count_header
  read_outcome (failed c) = (no_result, some (other c))
  read_outcome (answered a) =
      let result : SendResult = record {
        status_code = a.status;
        response_code = [];
        accepted = parse_ingest_count_header a.accepted;
        dropped = parse_ingest_count_header a.dropped;
        rejected = parse_ingest_count_header a.rejected;
      } in
      if leb 200 a.status && ltb a.status 300 then (result, none) else refused a

-- The transport with the world that it acts on: the requests made so far, and how often the clock
-- was read. `clock` gives the readings, and `exchange` what comes of a request after earlier ones.
pub record Link : Type 0 where
  pub transport : HttpTransport
  pub requests : List Request
  pub reads : ℕ

unfoldable pub is_unknown_dictionary : SendResult → Bool
is_unknown_dictionary r =
    r.status_code == status_conflict && bytes_eq r.response_code (codes "unknown_series_dictionary")

module _ {V : Type 0} (F : Float V) (clock : ℕ → ℕ)
    (exchange : List Request → Request → Outcome) where
  unfoldable pub reset_dictionary : Link → Link
  reset_dictionary l = record l {
    transport = record l.transport { dict = some (new_dictionary_state (clock l.reads)) };
    reads = l.reads + 1;
  }

  -- t.dict == nil || len(t.dict.series) >= defaultMaxDictionarySeries
  unfoldable pub needs_dictionary : Option DictionaryState → Bool
  needs_dictionary none = true
  needs_dictionary (some d) = leb default_max_dictionary_series (length d.series)

  unfoldable pub ensure_dictionary : Link → Link
  unfolding reset_dictionary needs_dictionary
  ensure_dictionary l = if needs_dictionary l.transport.dict then reset_dictionary l else l

  -- encodeLinePayloadV4(payload, t.dict, false), which writes to t.dict
  unfoldable pub encode_step : Payload V → Link → Bytes × Link
  encode_step p l = elim l.transport.dict [
    | none ↦ ([], l)
    | some d ↦
        let (body, d') = encode_line_payload_v4 F p d false in
        (body, record l { transport = record l.transport { dict = some d' } })
  ]

  -- sendBody
  unfoldable pub send_body : Bytes → Bytes → Bytes → Link → (SendResult × Option SendError) × Link
  unfolding read_outcome
  send_body body workload batch_id l =
      let request : Request = record {
        body = body;
        header = l.transport.header;
        authorization = l.transport.api_key;
        workload = trim_space workload;
        batch_id = trim_space batch_id;
      } in
      (
        read_outcome l.transport request (exchange l.requests request),
        record l { requests = l.requests ++ request ∷ [] },
      )

  -- the second try, behind a dictionary that the ingester does not know
  unfoldable pub resync : Payload V → Bytes → SendError → Link → Option SendError × Link
  unfolding reset_dictionary encode_step send_body is_empty
  resync p workload first l =
      let (body, l') = encode_step p (reset_dictionary l) in
      let ((result, err), l'') = send_body body workload p.batch_id l' in
      let reset = reset_dictionary l'' in
      if is_empty body
      then (some first, l')
      else if result.status_code == status_request_entity_too_large
      then (err, reset)
      else (err, l'')

  -- what send does with the result of the first try
  unfoldable pub react :
      Payload V → Bytes → SendResult → Option SendError → Link → Option SendError × Link
  unfolding reset_dictionary resync is_unknown_dictionary
  react p workload result none l = (none, l)
  react p workload result (some err) l =
      let again = resync p workload err l in
      if result.status_code == status_request_entity_too_large
      then (some err, reset_dictionary l)
      else if is_unknown_dictionary result
      then again
      else (some err, l)

  -- behind the guards and under the lock
  unfoldable pub send_locked : Payload V → Bytes → Link → Option SendError × Link
  unfolding ensure_dictionary encode_step send_body react is_empty
  send_locked p workload l =
      let (body, l') = encode_step p (ensure_dictionary l) in
      let ((result, err), l'') = send_body body workload p.batch_id l' in
      let rest = react p workload result err l'' in if is_empty body then (none, l') else rest

  unfoldable pub send : Payload V → Bytes → Link → Option SendError × Link
  unfolding send_locked is_empty empty valid_workload
  send p workload l =
      let rest = send_locked p workload l in
      if is_empty l.transport.endpoint
      then (some (other plain_error), l)
      else if not (valid_workload workload)
      then (some (other plain_error), l)
      else if empty p
      then (none, l)
      else rest
