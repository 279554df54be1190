-- ===== src/HostMetrics/Runtime.antt =====
-- cmd/statok-hostmetrics/config.go: from the bytes of the configuration file to what the agent runs
-- with.
pub mod Workload
pub mod Usable
use statokgo.Prelude.{
  ℕ, ◌+◌, ◌&&◌, Bool, true, false, not, Bytes, List, [], ◌∷◌, ◌++◌, Option, none, some,
  if◌then◌else◌, is_empty, map, lookup, text_eq,
}
use statokgo.Go.Strings.{trim_space}
use statokgo.Config.Defaults.{UrlLibrary}
use statokgo.Agent.Nginx.{normalize_endpoint, validate_endpoint}
use statokgo.HostMetrics.{
  Machine, FileRead, contents, not_exist, unreadable, MongoConfig, NginxConfig, FileConfig,
  ConfigFault, read_config, parse_config, empty_workload, no_hostname, empty_hostname, no_instances,
  empty_uri, bad_uri, bad_endpoint, Result, error, ok,
}
use statokgo.HostMetrics.Sources.{ConfigSource}
use statokgo.HostMetrics.EnvFiles.{Env, load_env_files}
use statokgo.HostMetrics.Instance.{UriLibrary, instance_label_from_uri}

pub record Instance : Type 0 where
  pub uri : Bytes
  pub label : Bytes

pub record RuntimeConfig : Type 0 where
  pub workload : Bytes
  pub mongo_enabled : Bool
  pub mongo_instances : List Instance
  pub nginx_enabled : Bool
  pub nginx_endpoint : Bytes

abbrev pub empty_config : FileConfig
empty_config = record {
  env_files = [];
  workload = none;
  mongo = record { enabled = none; instances = [] };
  nginx = record { enabled = none; endpoint = [] };
}

module _ (os : Machine) where
  -- the value of a variable: the files' before the environment's
  unfoldable pub env_value : Env → Bytes → Bytes
  unfolding lookup
  env_value env key = elim (lookup text_eq key env) [ none ↦ os.getenv key | some val ↦ val ]

  expand_option : Env → Option Bytes → Option Bytes
  unfolding env_value
  expand_option env none = none
  expand_option env (some s) = some (os.expand s (env_value env))

  -- expandEnvStringsWithMap, on each string of a fileConfig
  unfoldable pub expand_env_strings : Env → FileConfig → FileConfig
  unfolding env_value expand_option
  expand_env_strings env cfg = record {
    env_files = map (λ s. os.expand s (env_value env)) cfg.env_files;
    workload = expand_option env cfg.workload;
    mongo = record {
      enabled = cfg.mongo.enabled;
      instances = map (λ s. os.expand s (env_value env)) cfg.mongo.instances;
    };
    nginx = record {
      enabled = cfg.nginx.enabled;
      endpoint = os.expand cfg.nginx.endpoint (env_value env);
    };
  }

  expanded : FileConfig → Result Env → Result (Option FileConfig)
  unfolding expand_env_strings
  expanded cfg (error e) = error e
  expanded cfg (ok env) = ok (some (expand_env_strings env cfg))

  module _ (yaml : Bytes → Option FileConfig) where
    parsed : Bytes → Option FileConfig → Result (Option FileConfig)
    unfolding expanded load_env_files
    parsed path none = error (parse_config path)
    parsed path (some cfg) = expanded cfg (load_env_files os cfg.env_files)

    read : ConfigSource → FileRead → Result (Option FileConfig)
    unfolding parsed trim_space is_empty
    read source not_exist = if source.explicit then error (read_config source.path) else ok none
    read source unreadable = error (read_config source.path)
    read source (contents data') =
        if is_empty (trim_space data')
        then ok (some empty_config)
        else parsed source.path (yaml data')

    -- `none` is a nil configuration
    unfoldable pub load_file_config : ConfigSource → Result (Option FileConfig)
    unfolding read trim_space is_empty
    load_file_config source =
        if is_empty (trim_space source.path)
        then ok none
        else read source (os.read_file source.path)

  -- a workload, or the error for an empty one
  not_blank : ConfigFault → Bytes → Result Bytes
  unfolding trim_space is_empty
  not_blank e text = if is_empty (trim_space text) then error e else ok (trim_space text)

  host_workload : Option Bytes → Result Bytes
  unfolding not_blank
  host_workload none = error no_hostname
  host_workload (some host) = not_blank empty_hostname host

  flag_workload : Bytes → Bool → Result Bytes
  unfolding not_blank host_workload trim_space is_empty
  flag_workload flag true = not_blank empty_workload flag
  flag_workload flag false =
      if is_empty (trim_space flag) then host_workload os.hostname else ok (trim_space flag)

  unfoldable pub configured_workload : Option FileConfig → Option Bytes
  configured_workload none = none
  configured_workload (some cfg) = cfg.workload

  unfoldable pub resolve_workload : Option FileConfig → Bytes → Bool → Result Bytes
  unfolding configured_workload flag_workload not_blank
  resolve_workload cfg flag flag_set = elim (configured_workload cfg) [
    | none ↦ flag_workload flag flag_set
    | some workload ↦ not_blank empty_workload workload
  ]

-- cfg.…Enabled != nil && !*cfg.…Enabled, and the same without the `!`
unfoldable pub switched : Bool → Option Bool → Bool
switched to none = false
switched true (some b) = b
switched false (some b) = not b

module _ {U : Type 0} (url : UrlLibrary U) (host : U → Bytes) (lib : UriLibrary) where
  add_instance : Bytes → Option Bytes → ℕ → Result (List Instance) → Result (List Instance)
  add_instance uri none i rest = error (bad_uri i)
  add_instance uri (some label) i (error e) = error e
  add_instance uri (some label) i (ok instances) =
      ok (record { uri = uri; label = label } ∷ instances)

  -- the loop over the instances, from number i on; the first error ends it
  unfoldable pub resolve_instances : ℕ → List Bytes → Result (List Instance)
  unfolding add_instance trim_space is_empty instance_label_from_uri
  resolve_instances i [] = ok []
  resolve_instances i (raw ∷ uris) =
      let uri = trim_space raw in
      let rest = resolve_instances (i + 1) uris in
      if is_empty uri
      then error (empty_uri i)
      else add_instance uri (instance_label_from_uri lib uri) i rest

  -- mongoEnabled and the instances, none for a disabled integration
  unfoldable pub resolve_mongo : MongoConfig → Result (Option (List Instance))
  unfolding switched resolve_instances is_empty
  resolve_mongo cfg =
      if switched false cfg.enabled
      then ok none
      else if is_empty cfg.instances
      then (if switched true cfg.enabled then error no_instances else ok none)
      else elim (resolve_instances 0 cfg.instances) [ error e ↦ error e | ok is ↦ ok (some is) ]

  -- the endpoint, none for a disabled integration
  unfoldable pub resolve_nginx : NginxConfig → Result (Option Bytes)
  unfolding switched trim_space is_empty normalize_endpoint validate_endpoint
  resolve_nginx cfg =
      let endpoint = normalize_endpoint url cfg.endpoint in
      if switched false cfg.enabled
      then ok none
      else if is_empty (trim_space cfg.endpoint)
      then ok (some cfg.endpoint)
      else if validate_endpoint url host endpoint
      then ok (some endpoint)
      else error bad_endpoint

  instances_of : Option (List Instance) → List Instance
  instances_of none = []
  instances_of (some is) = is

  is_some : {A : Type 0} → Option A → Bool
  is_some none = false
  is_some (some a) = true

  endpoint_of : Option Bytes → Bytes
  endpoint_of none = []
  endpoint_of (some e) = e

  with_nginx : Bytes → Option (List Instance) → Result (Option Bytes) → Result RuntimeConfig
  unfolding instances_of is_some endpoint_of
  with_nginx workload mongo (error e) = error e
  with_nginx workload mongo (ok nginx) = ok (record {
    workload = workload;
    mongo_enabled = is_some mongo;
    mongo_instances = instances_of mongo;
    nginx_enabled = is_some nginx;
    nginx_endpoint = endpoint_of nginx;
  })

  with_mongo : Bytes → FileConfig → Result (Option (List Instance)) → Result RuntimeConfig
  unfolding with_nginx resolve_nginx
  with_mongo workload cfg (error e) = error e
  with_mongo workload cfg (ok mongo) = with_nginx workload mongo (resolve_nginx cfg.nginx)

  -- without a configuration file, nginx is on and its endpoint the default
  with_workload : Option FileConfig → Result Bytes → Result RuntimeConfig
  unfolding with_mongo resolve_mongo
  with_workload cfg (error e) = error e
  with_workload none (ok workload) = ok (record {
    workload = workload;
    mongo_enabled = false;
    mongo_instances = [];
    nginx_enabled = true;
    nginx_endpoint = [];
  })
  with_workload (some cfg) (ok workload) = with_mongo workload cfg (resolve_mongo cfg.mongo)

  unfoldable pub resolve_runtime_config :
      Machine → Option FileConfig → Bytes → Bool → Result RuntimeConfig
  unfolding with_workload resolve_workload
  resolve_runtime_config os cfg flag flag_set =
      with_workload cfg (resolve_workload os cfg flag flag_set)
