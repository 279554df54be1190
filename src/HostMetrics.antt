-- ===== src/HostMetrics.antt =====
-- cmd/statok-hostmetrics: the configuration of the host agent. The operating system, filepath, net/url
-- and the YAML parser are parameters.
pub mod Sources
pub mod EnvFiles
pub mod Instance
pub mod Runtime
use statokgo.Prelude.{ℕ, Bool, Bytes, List, Option}

-- os.ReadFile: the bytes, an error that os.IsNotExist knows, or another error
pub data FileRead : Type 0 where
  contents : Bytes → FileRead
  not_exist : FileRead
  unreadable : FileRead

-- The machine as the program sees it. A home or a host name of none is an error; `exists` is os.Stat
-- without an error, `join` filepath.Join, and `expand` os.Expand.
pub record Machine : Type 0 where
  pub getenv : Bytes → Bytes
  pub user_home_dir : Option Bytes
  pub is_root : Bool
  pub exists : Bytes → Bool
  pub read_file : Bytes → FileRead
  pub hostname : Option Bytes
  pub join : List Bytes → Bytes
  pub expand : Bytes → (Bytes → Bytes) → Bytes

pub record MongoConfig : Type 0 where
  pub enabled : Option Bool
  pub instances : List Bytes

pub record NginxConfig : Type 0 where
  pub enabled : Option Bool
  pub endpoint : Bytes

-- fileConfig, with agent.workload for the struct agentConfig; an instance of MongoDB is its URI.
pub record FileConfig : Type 0 where
  pub env_files : List Bytes
  pub workload : Option Bytes
  pub mongo : MongoConfig
  pub nginx : NginxConfig

-- The errors, in the order in which they may come up.
pub data ConfigFault : Type 0 where
  read_config : Bytes → ConfigFault
  parse_config : Bytes → ConfigFault
  read_env_file : Bytes → ConfigFault
  expected_key_value : Bytes → ℕ → ConfigFault
  empty_key : Bytes → ℕ → ConfigFault
  empty_workload : ConfigFault
  no_hostname : ConfigFault
  empty_hostname : ConfigFault
  no_instances : ConfigFault
  empty_uri : ℕ → ConfigFault
  bad_uri : ℕ → ConfigFault
  bad_endpoint : ConfigFault

pub data Result {ℓ} (A : Type ℓ) : Type ℓ where
  error : ConfigFault → Result A
  ok : A → Result A
