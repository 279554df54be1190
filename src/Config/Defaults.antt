-- ===== src/Config/Defaults.antt =====
-- config.go and client.go, NewClient: the settings that a client starts with. The URLs of net/url are a
-- parameter.
pub mod Keys
use statokgo.Prelude.{
  ℕ, ◌+◌, ◌&&◌, ◌||◌, Bool, true, false, not, Bytes, List, [], ◌∷◌, ◌++◌, Option, none, some,
  if◌then◌else◌, is_empty, is_none, bytes_eq, codes,
}
use statokgo.Go.Strings.{trim_space, has_prefix, equal_fold}
use statokgo.Config.{valid_workload}
use statokgo.Transport.{HttpTransport}

-- url.Parse, the field Path and the method String of a URL
pub record UrlLibrary (U : Type 0) : Type 0 where
  pub parse : Bytes → Option U
  pub path : U → Bytes
  pub with_path : Bytes → U → U
  pub print : U → Bytes

abbrev pub default_endpoint_host : Bytes
default_endpoint_host = codes "prostometrics.ru"

abbrev pub default_ingest_path : Bytes
default_ingest_path = codes "/api/i/batch"

-- A Transport of the caller that is no HTTPTransport is opaque.
pub data AnyTransport : Type 0 where
  http_transport : HttpTransport → AnyTransport
  custom : AnyTransport

-- Config, without its Logger
pub record Settings : Type 0 where
  pub endpoint : Bytes
  pub api_key : Bytes
  pub transport : Option AnyTransport
  pub verbose : Bool

pub data ConfigError : Type 0 where
  api_key_authorization_conflict missing_api_key invalid_workload no_transport : ConfigError

pub data Checked (A : Type 0) : Type 0 where
  failure : ConfigError → Checked A
  success : A → Checked A

module _ {U : Type 0} (url : UrlLibrary U) where
  unfoldable pub with_ingest_path : U → U
  unfolding bytes_eq is_empty
  with_ingest_path u =
      if is_empty (url.path u) || bytes_eq (url.path u) (b'/' ∷ [])
      then url.with_path default_ingest_path u
      else u

  unfoldable pub ensure_ingest_path : Bytes → Bytes
  unfolding with_ingest_path is_empty
  ensure_ingest_path endpoint =
      if is_empty endpoint
      then []
      else elim (url.parse endpoint) [ none ↦ endpoint | some u ↦ url.print (with_ingest_path u) ]

  unfoldable pub endpoint_from_host : Bytes → Bytes
  unfolding ensure_ingest_path trim_space has_prefix is_empty
  endpoint_from_host raw =
      let host = trim_space raw in
      if is_empty host
      then []
      else if has_prefix host (codes "http://") || has_prefix host (codes "https://")
      then ensure_ingest_path host
      else ensure_ingest_path (codes "https://" ++ host)

unfoldable pub has_value : List Bytes → Bool
unfolding trim_space is_empty
has_value [] = false
has_value (v ∷ vs) = not (is_empty (trim_space v)) || has_value vs

-- The header in the order in which the loop ranges over it.
unfoldable pub has_authorization_header : List (Bytes × List Bytes) → Bool
unfolding has_value equal_fold
has_authorization_header [] = false
has_authorization_header ((k, values) ∷ rest) =
    if equal_fold k (codes "Authorization") then has_value values else has_authorization_header rest

abbrev pub new_http_transport : Bytes → Bytes → HttpTransport
new_http_transport endpoint api_key = record {
  endpoint = endpoint;
  api_key = api_key;
  header = [];
  dict = none;
  stop_status_codes = [];
  stop_response_codes = [];
}

-- the block for an HTTPTransport
unfoldable pub check_http : Settings → HttpTransport → Checked Settings
unfolding has_authorization_header is_empty
check_http c t =
    let key = if not (is_empty c.api_key) && is_empty t.api_key then c.api_key else t.api_key in
    if has_authorization_header t.header && not (is_empty key)
    then failure api_key_authorization_conflict
    else if is_empty key
    then failure missing_api_key
    else success
        (record c { transport = some (http_transport (record t { api_key = key })); api_key = key })

check_transport : Settings → Option AnyTransport → Checked Settings
unfolding check_http
check_transport c (some (http_transport t)) = check_http c t
check_transport c (some custom) = success c
check_transport c none = success c

started : Bytes → Checked Settings → Checked (Bytes × Settings)
started workload (failure e) = failure e
started workload (success c) =
    if is_none c.transport then failure no_transport else success (workload, c)

module _ {U : Type 0} (url : UrlLibrary U) where
  -- the endpoint after the first two tests
  unfoldable pub default_endpoint : Settings → Bytes
  unfolding ensure_ingest_path endpoint_from_host is_empty
  default_endpoint c =
      let first =
        if is_empty c.endpoint && is_none c.transport
        then endpoint_from_host url default_endpoint_host
        else c.endpoint in
      if is_empty first then first else ensure_ingest_path url first

  -- the transport that is used if there is none
  unfoldable pub default_transport : Bytes → Settings → Option AnyTransport
  unfolding is_empty
  default_transport endpoint c =
      if is_none c.transport && not (is_empty endpoint)
      then some (http_transport (new_http_transport endpoint c.api_key))
      else c.transport

  unfoldable pub apply_defaults : Settings → Checked Settings
  unfolding default_endpoint default_transport check_transport
  apply_defaults c =
      let endpoint = default_endpoint c in
      let transport = default_transport endpoint c in
      check_transport (record c { endpoint = endpoint; transport = transport }) transport

  -- NewClient, up to the start of the worker: the workload, and the settings
  unfoldable pub new_client : Bytes → Settings → Checked (Bytes × Settings)
  unfolding apply_defaults started trim_space valid_workload
  new_client raw c =
      let workload = trim_space raw in
      if not (valid_workload workload)
      then failure invalid_workload
      else started workload (apply_defaults c)
