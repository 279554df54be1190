-- ===== src/Examples/OfConfig.antt =====
-- The configuration of the host agent at concrete inputs.
use statokgo.Prelude.{
  true, false, Bytes, List, [], ◌∷◌, none, some, ◌≡◌, refl, ◌++◌, codes, arith, join, insert,
  bytes_eq,
}
use statokgo.Config.Defaults.{UrlLibrary}
use statokgo.HostMetrics.{
  Machine, contents, not_exist, FileConfig, error, ok, no_instances, empty_uri,
}
use statokgo.HostMetrics.EnvFiles.{load_file}
use statokgo.HostMetrics.EnvFiles.RoundTrip.{env_text, set_all, load_file-env_text}
use statokgo.HostMetrics.Instance.{UriLibrary}
use statokgo.HostMetrics.Runtime.{RuntimeConfig, empty_config, resolve_runtime_config}
use statokgo.HostMetrics.Runtime.Usable.{IsUsable, resolve_runtime_config-IsUsable}

abbrev settings : List (Bytes × Bytes)
settings = (codes "DB", codes "it's \"here\" ") ∷ (codes "DB", codes "a=b") ∷ []

env_text_test : env_text settings ≡ codes "export DB=\"it's \"here\" \"\nexport DB=\"a=b\"\n"
unfolding env_text
env_text_test = refl

load_file-env_text_example :
    load_file (codes "/etc/env") (contents (env_text settings)) [] ≡ ok (set_all settings [])
load_file-env_text_example = load_file-env_text (codes "/etc/env") settings [] (
  (((λ e. absurd (cc), omega arith), omega arith), omega arith),
  ((((λ e. absurd (cc), omega arith), omega arith), omega arith), tt),
)

set_all_test : set_all settings [] ≡ (codes "DB", codes "a=b") ∷ []
unfolding set_all insert bytes_eq
set_all_test = refl

abbrev machine : Machine
machine = record {
  getenv = λ key. [];
  user_home_dir = none;
  is_root = true;
  exists = λ path. false;
  read_file = λ path. not_exist;
  hostname = some (codes " box1\n");
  join = λ parts. join parts (codes "/");
  expand = λ s value. s;
}

-- URLs that are their text, and URIs whose host is given
abbrev plain_urls : UrlLibrary Bytes
plain_urls = record {
  parse = λ s. some s;
  path = λ u. [];
  with_path = λ path u. u ++ path;
  print = λ u. u;
}

abbrev uris : UriLibrary
uris = record {
  parse_host = λ u. some (codes "db1:27017,db2:27017");
  split_host_port = λ h. some (codes "db1");
}

abbrev file : FileConfig
file = record empty_config {
  mongo = record { enabled = some true; instances = codes " mongodb://db1:27017,db2:27017 " ∷ [] };
  nginx = record { enabled = some false; endpoint = [] };
}

abbrev running : RuntimeConfig
running = record {
  workload = codes "box1";
  mongo_enabled = true;
  mongo_instances =
      record { uri = codes "mongodb://db1:27017,db2:27017"; label = codes "db1" } ∷ [];
  nginx_enabled = false;
  nginx_endpoint = [];
}

resolved : resolve_runtime_config plain_urls (λ u. u) uris machine (some file) [] false ≡ ok running
unfolding resolve_runtime_config
resolved = refl

-- a blank URI, and an integration that is on without instances
refused_test :
    (resolve_runtime_config plain_urls
        (λ u. u)
        uris
        machine
        (some (record file { mongo = record { enabled = none; instances = codes "u" ∷ [] ∷ [] } }))
        []
        false
      ≡ error (empty_uri 1))
    × (resolve_runtime_config plain_urls
          (λ u. u)
          uris
          machine
          (some (record file { mongo = record { enabled = some true; instances = [] } }))
          []
          false
        ≡ error no_instances)
unfolding resolve_runtime_config
refused_test = (refl, refl)

resolve_runtime_config-IsUsable_example : IsUsable plain_urls (λ u. u) uris (some file) running
resolve_runtime_config-IsUsable_example =
    resolve_runtime_config-IsUsable plain_urls (λ u. u) uris machine (some file) [] false running
      resolved
