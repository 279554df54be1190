-- ===== src/HostMetrics/Sources.antt =====
-- cmd/statok-hostmetrics/config.go: which configuration file is read.
use statokgo.Prelude.{
  ◌&&◌, Bool, true, false, not, Bytes, List, [], ◌∷◌, ◌++◌, Option, none, some, if◌then◌else◌,
  bytes_eq, is_empty, codes,
}
use statokgo.Go.Strings.{trim_space, has_prefix, trim_prefix}
use statokgo.HostMetrics.{Machine}

abbrev pub config_env_var : Bytes
config_env_var = codes "STATOK_CONFIG"

abbrev pub default_config_name : Bytes
default_config_name = codes "hostmetrics.yaml"

pub record ConfigSource : Type 0 where
  pub path : Bytes
  pub explicit : Bool

module _ (os : Machine) where
  -- os.UserHomeDir, if it gives a home that is not empty
  known_home : Option Bytes → Option Bytes
  unfolding is_empty
  known_home none = none
  known_home (some home) = if is_empty home then none else some home

  unfoldable pub expand_home : Bytes → Bytes
  unfolding known_home is_empty bytes_eq has_prefix trim_prefix
  expand_home path =
      if is_empty path
      then path
      else if bytes_eq path (codes "~")
      then elim (known_home os.user_home_dir) [ none ↦ path | some home ↦ home ]
      else if has_prefix path (codes "~/")
      then elim (known_home os.user_home_dir) [
        | none ↦ path
        | some home ↦ os.join (home ∷ trim_prefix path (codes "~/") ∷ [])
      ]
      else path

  home_config_path : Option Bytes → Bytes
  unfolding trim_space is_empty
  home_config_path none = []
  home_config_path (some home) =
      if is_empty (trim_space home)
      then []
      else os.join (home ∷ codes ".config" ∷ codes "statok" ∷ default_config_name ∷ [])

  unfoldable pub user_config_path : Bytes
  unfolding trim_space is_empty home_config_path
  user_config_path =
      let xdg = trim_space (os.getenv (codes "XDG_CONFIG_HOME")) in
      if is_empty xdg
      then home_config_path os.user_home_dir
      else os.join (xdg ∷ codes "statok" ∷ default_config_name ∷ [])

  -- append(paths, path), unless the path is empty
  path_of : Bytes → List Bytes
  unfolding is_empty
  path_of path = if is_empty path then [] else path ∷ []

  unfoldable pub default_config_paths : List Bytes
  unfolding user_config_path path_of
  default_config_paths =
      let system_path = os.join (codes "/etc" ∷ codes "statok" ∷ default_config_name ∷ []) in
      if os.is_root
      then path_of system_path ++ path_of user_config_path
      else path_of user_config_path ++ path_of system_path

  unfoldable pub file_exists : Bytes → Bool
  unfolding trim_space is_empty
  file_exists path = not (is_empty (trim_space path)) && os.exists path

  -- the loop over the default paths
  unfoldable pub first_existing : List Bytes → ConfigSource
  unfolding file_exists
  first_existing [] = record { path = []; explicit = false }
  first_existing (path ∷ paths) =
      if file_exists path then record { path = path; explicit = false } else first_existing paths

  unfoldable pub resolve_config_source : Bytes → ConfigSource × List Bytes
  unfolding trim_space is_empty expand_home default_config_paths first_existing
  resolve_config_source flag_path =
      let given = trim_space flag_path in
      let env_path = trim_space (os.getenv config_env_var) in
      if not (is_empty given)
      then (record { path = expand_home given; explicit = true }, expand_home given ∷ [])
      else if not (is_empty env_path)
      then (record { path = expand_home env_path; explicit = true }, expand_home env_path ∷ [])
      else (first_existing default_config_paths, default_config_paths)
