-- ===== src/HostMetrics/EnvFiles.antt =====
-- cmd/statok-hostmetrics/config.go, loadEnvFiles: files of KEY=VALUE lines.
pub mod RoundTrip
use statokgo.Prelude.{
  ℕ, ◌+◌, ◌==◌, ◌&&◌, ◌||◌, leb, Bool, false, Bytes, List, [], ◌∷◌, Option, none, some, length,
  drop, take, ◌-◌, if◌then◌else◌, is_empty, codes, insert, text_eq,
}
use statokgo.Go.Strings.{trim_space, has_prefix, split_byte, before_byte, after_byte}
use statokgo.HostMetrics.{
  Machine, FileRead, contents, not_exist, unreadable, ConfigFault, read_env_file,
  expected_key_value, empty_key, Result, error, ok,
}
use statokgo.HostMetrics.Sources.{expand_home}

abbrev pub Env : Type 0
Env = List (Bytes × Bytes)

-- the line behind the word `export`
unfoldable pub without_export : Bytes → Bytes
unfolding has_prefix trim_space
without_export line =
    if has_prefix line (codes "export ") || has_prefix line (codes "export\t")
    then trim_space (drop 7 line)
    else line

last_byte : Bytes → ℕ
last_byte [] = 0
last_byte (c ∷ []) = c
last_byte (c ∷ d ∷ s) = last_byte (d ∷ s)

first_byte : Bytes → ℕ
first_byte [] = 0
first_byte (c ∷ s) = c

-- a value without its pair of quotes
unfoldable pub unquote : Bytes → Bytes
unfolding first_byte last_byte
unquote val =
    let bare = take (length val - 2) (drop 1 val) in
    if leb 2 (length val)
    then (if (first_byte val == b'"' && last_byte val == b'"')
          || (first_byte val == b'\'' && last_byte val == b'\'')
        then bare
        else val)
    else val

-- the line, cut at the first '='; the error is made of the file and the line
unfoldable pub parse_pair : Bytes → ℕ → Option Bytes → Option Bytes → Result (Bytes × Bytes)
unfolding trim_space is_empty unquote
parse_pair path number none val = error (expected_key_value path number)
parse_pair path number (some key) none = error (expected_key_value path number)
parse_pair path number (some key) (some val) =
    if is_empty key
    then error (expected_key_value path number)
    else if is_empty (trim_space key)
    then error (empty_key path number)
    else ok (trim_space key, unquote (trim_space val))

set_pair : Result (Bytes × Bytes) → Env → Result Env
unfolding insert
set_pair (error e) env = error e
set_pair (ok (key, val)) env = ok (insert text_eq key val env)

-- one round of the loop over the lines, on a line that is trimmed
unfoldable pub load_line : Bytes → ℕ → Bytes → Env → Result Env
unfolding without_export parse_pair set_pair has_prefix is_empty before_byte after_byte
load_line path number line env =
    let pair = without_export line in
    if is_empty line || has_prefix line (codes "#")
    then ok env
    else set_pair (parse_pair path number (before_byte b'=' pair) (after_byte b'=' pair)) env

unfoldable pub load_lines : Bytes → ℕ → List Bytes → Env → Result Env
unfolding load_line trim_space
load_lines path number [] env = ok env
load_lines path number (line ∷ lines) env = elim (load_line path number (trim_space line) env) [
  | error e ↦ error e
  | ok env' ↦ load_lines path (number + 1) lines env'
]

unfoldable pub load_file : Bytes → FileRead → Env → Result Env
unfolding load_lines split_byte
load_file path not_exist env = ok env
load_file path unreadable env = error (read_env_file path)
load_file path (contents text) env = load_lines path 1 (split_byte b'\n' text) env

module _ (os : Machine) where
  unfoldable pub load_paths : List Bytes → Env → Result Env
  unfolding load_file expand_home trim_space is_empty
  load_paths [] env = ok env
  load_paths (raw ∷ paths) env =
      let path = expand_home os (trim_space raw) in
      elim (if is_empty path then ok env else load_file path (os.read_file path) env) [
        | error e ↦ error e
        | ok env' ↦ load_paths paths env'
      ]

  -- A nil map is the empty one: it is only read from here on.
  unfoldable pub load_env_files : List Bytes → Result Env
  unfolding load_paths
  load_env_files paths = load_paths paths []
