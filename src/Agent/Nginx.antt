-- ===== src/Agent/Nginx.antt =====
-- internal/collectors/nginx/collector.go: the collector of nginx, from the answer of the server to the
-- metrics. The HTTP client and the URLs of net/url are parameters.
pub mod Words
pub mod Page
use statokgo.Prelude.{
  ℕ, ◌+◌, leb, ltb, ◌&&◌, ◌||◌, Bool, true, false, not, Bytes, List, [], ◌∷◌, ◌++◌, Option, none,
  some, length, take, is_none, if◌then◌else◌, bytes_eq, is_empty, codes,
}
use statokgo.Prelude.Int.{ℤ, pos, ltb_ℤ}
use statokgo.Go.Strings.{
  trim_space, to_lower, equal_fold, has_prefix, fields, split_byte, trim_prefix, contains,
}
use statokgo.Go.Strconv.{atoi}
use statokgo.Labels.{label}
use statokgo.Config.Defaults.{UrlLibrary}

abbrev pub default_endpoint : Bytes
default_endpoint = codes "http://127.0.0.1/stub_status"

abbrev pub max_body_bytes : ℕ
max_body_bytes = 4096

pub record StubStatus : Type 0 where
  pub active : ℤ
  pub accepts : ℤ
  pub handled : ℤ
  pub requests : ℤ
  pub reading : ℤ
  pub writing : ℤ
  pub waiting : ℤ

-- parseInt; none is the answer false. ParseInt takes the texts that Atoi takes.
unfoldable pub parse_int : Bytes → Option ℤ
unfolding trim_space atoi is_empty
parse_int value = if is_empty (trim_space value) then none else atoi (trim_space value)

second_int : List Bytes → Option ℤ
unfolding parse_int
second_int [] = none
second_int (f ∷ rest) = parse_int f

-- the loop of parseKey
find_key : Bytes → List Bytes → Option ℤ
unfolding second_int parse_int has_prefix trim_prefix bytes_eq
find_key needle [] = none
find_key needle (f ∷ rest) =
    let later = find_key needle rest in
    if bytes_eq f needle
    then second_int rest
    else if has_prefix f needle
    then parse_int (trim_prefix f needle)
    else later

unfoldable pub parse_key : List Bytes → Bytes → Option ℤ
unfolding find_key
parse_key words key = find_key (key ++ b':' ∷ []) words

-- The local variables of parseStubStatus.
pub record Parsed : Type 0 where
  pub out : StubStatus
  pub have_active : Bool
  pub have_totals : Bool
  pub have_states : Bool

unfoldable pub nothing_parsed : Parsed
nothing_parsed = record {
  out = record {
    active = pos 0;
    accepts = pos 0;
    handled = pos 0;
    requests = pos 0;
    reading = pos 0;
    writing = pos 0;
    waiting = pos 0;
  };
  have_active = false;
  have_totals = false;
  have_states = false;
}

or_old : Option ℤ → ℤ → ℤ
or_old none old = old
or_old (some v) old = v

-- the words of a line that speak of the active connections
unfoldable pub is_active_line : List Bytes → Bool
unfolding equal_fold has_prefix to_lower
is_active_line (a ∷ b ∷ c ∷ rest) =
    equal_fold a (codes "Active") && has_prefix (to_lower b) (codes "connections")
is_active_line _ = false

last_word : List Bytes → Bytes
last_word [] = []
last_word (w ∷ []) = w
last_word (w ∷ v ∷ ws) = last_word (v ∷ ws)

unfoldable pub set_active : Option ℤ → Parsed → Parsed
set_active none st = st
set_active (some v) st = record st { out = record st.out { active = v }; have_active = true }

-- the three numbers that a line begins with
unfoldable pub three_ints : List Bytes → Option (ℤ × ℤ × ℤ)
unfolding parse_int
three_ints (a ∷ b ∷ c ∷ rest) = all_three (parse_int a) (parse_int b) (parse_int c)
  where
    all_three : Option ℤ → Option ℤ → Option ℤ → Option (ℤ × ℤ × ℤ)
    all_three (some a) (some b) (some c) = some (a, b, c)
    all_three (some a) (some b) none = none
    all_three (some a) none z = none
    all_three none y z = none
three_ints _ = none

unfoldable pub set_states : List Bytes → Parsed → Parsed
unfolding parse_key or_old
set_states words st =
    let reading = parse_key words (codes "Reading") in
    let writing = parse_key words (codes "Writing") in
    let waiting = parse_key words (codes "Waiting") in
    record st {
      out = record st.out {
        reading = or_old reading st.out.reading;
        writing = or_old writing st.out.writing;
        waiting = or_old waiting st.out.waiting;
      };
      have_states =
          st.have_states
          || (not (is_none reading) && (not (is_none writing) && not (is_none waiting)));
    }

unfoldable pub set_totals : Option (ℤ × ℤ × ℤ) → List Bytes → Parsed → Parsed
unfolding set_states
set_totals none words st = set_states words st
set_totals (some (a, h, r)) words st = record st {
  out = record st.out { accepts = a; handled = h; requests = r };
  have_totals = true;
}

-- one round of the loop, on the words of a line
unfoldable pub parse_words : List Bytes → Parsed → Parsed
unfolding is_active_line last_word set_active three_ints set_totals parse_int
parse_words words st =
    if is_active_line words
    then set_active (parse_int (last_word words)) st
    else set_totals (three_ints words) words st

unfoldable pub parse_lines : List Bytes → Parsed → Parsed
unfolding parse_words trim_space fields is_empty
parse_lines [] st = st
parse_lines (line ∷ lines) st =
    let words = fields (trim_space line) in
    parse_lines lines (if is_empty (trim_space line) then st else parse_words words st)

-- The errors of fetchStubStatus.
pub data NginxError : Type 0 where
  request_failed : NginxError
  unexpected_status : ℕ → NginxError
  incomplete : Bool → Bool → Bool → NginxError

pub data NginxResult {ℓ} (A : Type ℓ) : Type ℓ where
  failure : NginxError → NginxResult A
  success : A → NginxResult A

unfoldable pub check_parsed : Parsed → NginxResult StubStatus
check_parsed st =
    if not st.have_active || (not st.have_totals || not st.have_states)
    then failure (incomplete st.have_active st.have_totals st.have_states)
    else success st.out

unfoldable pub parse_stub_status : Bytes → NginxResult StubStatus
unfolding parse_lines split_byte check_parsed nothing_parsed
parse_stub_status raw = check_parsed (parse_lines (split_byte b'\n' raw) nothing_parsed)

-- What the request comes to: an error of the request or of reading the body, or a status and the body.
pub data Fetched : Type 0 where
  no_answer : Fetched
  answered : ℕ → Bytes → Fetched

unfoldable pub fetch_stub_status : Fetched → NginxResult StubStatus
unfolding parse_stub_status
fetch_stub_status no_answer = failure request_failed
fetch_stub_status (answered status body) =
    if ltb status 200 || leb 300 status
    then failure (unexpected_status status)
    else parse_stub_status (take max_body_bytes body)

-- A call of statok.Value or statok.Total.
pub data Metric : Type 0 where
  sample : Bytes → ℤ → Bytes → Metric
  running_total : Bytes → ℤ → Bytes → Metric

-- emitConn, emitTotal: nothing for a negative number
unless_negative : ℤ → Metric → List Metric
unless_negative v m = if ltb_ℤ v (pos 0) then [] else m ∷ []

unfoldable pub emit_conn : Bytes → ℤ → List Metric
unfolding unless_negative label
emit_conn state v =
    unless_negative v (sample (codes "nginx.connections") v (label (codes "state") state))

unfoldable pub emit_total : Bytes → ℤ → List Metric
unfolding unless_negative label
emit_total typ v =
    unless_negative v (running_total (codes "nginx.totals") v (label (codes "type") typ))

unfoldable pub emit : StubStatus → List Metric
unfolding emit_conn emit_total
emit s =
    emit_conn (codes "active") s.active
    ++ (emit_conn (codes "reading") s.reading
        ++ (emit_conn (codes "writing") s.writing
            ++ (emit_conn (codes "waiting") s.waiting
                ++ (emit_total (codes "accepts") s.accepts
                    ++ (emit_total (codes "handled") s.handled
                        ++ emit_total (codes "requests") s.requests)))))

emitted_of : NginxResult StubStatus → NginxResult (List Metric)
unfolding emit
emitted_of (failure e) = failure e
emitted_of (success s) = success (emit s)

-- Collect
unfoldable pub collect : Fetched → NginxResult (List Metric)
unfolding emitted_of fetch_stub_status
collect answer = emitted_of (fetch_stub_status answer)

module _ {U : Type 0} (url : UrlLibrary U) where
  unfoldable pub with_status_path : U → U
  unfolding bytes_eq is_empty
  with_status_path u =
      if is_empty (url.path u) || bytes_eq (url.path u) (b'/' ∷ [])
      then url.with_path (codes "/stub_status") u
      else u

  normalize_url : Bytes → Bytes
  unfolding with_status_path
  normalize_url ep = elim (url.parse ep) [ none ↦ ep | some u ↦ url.print (with_status_path u) ]

  unfoldable pub normalize_endpoint : Bytes → Bytes
  unfolding trim_space contains is_empty normalize_url
  normalize_endpoint endpoint =
      let ep = trim_space endpoint in
      if is_empty ep
      then default_endpoint
      else if contains ep (codes "://")
      then normalize_url ep
      else normalize_url (codes "http://" ++ ep)

  -- ValidateEndpoint: whether it returns no error. `host` is the field Host of a URL.
  unfoldable pub validate_endpoint : (U → Bytes) → Bytes → Bool
  unfolding trim_space is_empty
  validate_endpoint host endpoint = elim (url.parse endpoint) [
    | none ↦ false
    | some u ↦ not (is_empty (trim_space (host u)))
  ]
