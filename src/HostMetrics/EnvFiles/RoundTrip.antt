-- ===== src/HostMetrics/EnvFiles/RoundTrip.antt =====
-- cmd/statok-hostmetrics/config.go, loadEnvFiles: a file that sets variables, written and read.
use statokgo.Prelude.{
  ℕ, suc, ◌+◌, ◌-◌, ◌≡◌, refl, sym, ap, ◌∙◌, arith, Bytes, List, [], ◌∷◌, ◌++◌, append_assoc, All,
  All-append, Lacks, length, length-append, take, codes, is_empty, false, true, leb, insert,
  text_eq, some,
}
use statokgo.Go.Strings.{trim_space, split_byte, before_byte, after_byte}
use statokgo.Go.Strings.Cut.{before_byte-append, after_byte-append}
use statokgo.Go.Strings.Plain.{IsPlain, trim_space_plain, plain-Lacks}
use statokgo.Go.Strings.Words.{IsWord, split_byte_line, trim_space-ends}
use statokgo.HostMetrics.{contents, ok}
use statokgo.HostMetrics.EnvFiles.{
  Env, without_export, first_byte, last_byte, unquote, parse_pair, set_pair, load_line, load_lines,
  load_file,
}

-- A key is a word without `=`; a value has no line feed.
abbrev pub IsSetting : Bytes × Bytes → Type 0
IsSetting e = (IsWord e.0 × Lacks b'=' e.0) × Lacks b'\n' e.1

quoted : Bytes → Bytes
quoted v = b'"' ∷ (v ++ b'"' ∷ [])

pair_of : Bytes × Bytes → Bytes
pair_of e = e.0 ++ b'=' ∷ quoted e.1

-- export KEY="value"
line_of : Bytes × Bytes → Bytes
line_of e = codes "export " ++ pair_of e

-- what a shell script that sets the variables looks like
unfoldable pub env_text : List (Bytes × Bytes) → Bytes
unfolding line_of pair_of quoted
env_text [] = []
env_text (e ∷ es) = line_of e ++ b'\n' ∷ env_text es

-- each variable is set in turn, so that the last value counts
unfoldable pub set_all : List (Bytes × Bytes) → Env → Env
unfolding insert
set_all [] env = env
set_all ((key, val) ∷ es) env = set_all es (insert text_eq key val env)

last_byte-append : (s : Bytes) (c : ℕ) → last_byte (s ++ c ∷ []) ≡ c
unfolding last_byte
last_byte-append [] c = refl
last_byte-append (a ∷ []) c = refl
last_byte-append (a ∷ b ∷ s) c = last_byte-append (b ∷ s) c

take-append : (s t : Bytes) → take (length s) (s ++ t) ≡ s
take-append [] t = refl
take-append (c ∷ s) t = ap (c ∷◌) (take-append s t)

unquote-quoted : (v : Bytes) → unquote (quoted v) ≡ v
unfolding unquote quoted first_byte
unquote-quoted v =
    let longer = length-append v (b'"' ∷ []) in
    let enough : leb 2 (suc (length (v ++ b'"' ∷ []))) ≡ true = ground (arith, longer) in
    let bare : suc (length (v ++ b'"' ∷ [])) - 2 ≡ length v = omega (arith, longer) in
    rw (enough, last_byte-append (b'"' ∷ v) b'"', bare) (take-append v (b'"' ∷ []))

ends_in_quote : (c : ℕ) (s u : Bytes) → IsPlain c → s ≡ u ++ b'"' ∷ [] → trim_space (c ∷ s) ≡ c ∷ s
ends_in_quote c s u h e =
    ap (λ t. trim_space (c ∷ t)) e ∙ trim_space-ends c b'"' u h (omega arith) ∙ ap (c ∷◌) (sym e)

pair-trimmed : (e : Bytes × Bytes) → IsWord e.0 → trim_space (pair_of e) ≡ pair_of e
unfolding pair_of quoted
pair-trimmed ([], v) h = absurd (h.0 refl)
pair-trimmed (c ∷ k, v) h =
    ends_in_quote c (k ++ b'=' ∷ quoted v) (k ++ b'=' ∷ b'"' ∷ v) h.1.0
      (sym (append_assoc k (b'=' ∷ b'"' ∷ v) (b'"' ∷ [])))

line-trimmed : (e : Bytes × Bytes) → trim_space (line_of e) ≡ line_of e
unfolding line_of pair_of quoted
line-trimmed (k, v) =
    ends_in_quote b'e' (codes "xport " ++ (k ++ b'=' ∷ quoted v))
      (codes "xport " ++ (k ++ b'=' ∷ b'"' ∷ v)) (omega arith)
      (ap (codes "xport " ++◌) (sym (append_assoc k (b'=' ∷ b'"' ∷ v) (b'"' ∷ []))))

line-Lacks : (e : Bytes × Bytes) → IsSetting e → Lacks b'\n' (line_of e)
unfolding line_of pair_of quoted
line-Lacks (k, v) ((w, no_eq), no_feed) =
    All-append _ (codes "export ") (k ++ b'=' ∷ quoted v) (omega arith) (
      All-append _ k (b'=' ∷ quoted v) (plain-Lacks b'\n' k (omega arith) w.1)
        (omega arith, (omega arith, All-append _ v (b'"' ∷ []) no_feed (omega arith))))

word_full : (w : Bytes) → IsWord w → is_empty w ≡ false
unfolding is_empty
word_full [] h = absurd (h.0 refl)
word_full (c ∷ w) h = refl

parse_pair-quoted :
    (path : Bytes) (number : ℕ) (key val : Bytes)
    → IsWord key
    → parse_pair path number (some key) (some (quoted val)) ≡ ok (key, val)
unfolding parse_pair
parse_pair-quoted path number key val h =
    let quotes : trim_space (quoted val) ≡ quoted val =
      unfold quoted in ends_in_quote b'"' (val ++ b'"' ∷ []) val (omega arith) refl in
    rw (word_full key h, trim_space_plain key h.1, word_full key h, quotes, unquote-quoted val)

pair-key : (e : Bytes × Bytes) → Lacks b'=' e.0 → before_byte b'=' (pair_of e) ≡ some e.0
unfolding pair_of
pair-key e h = before_byte-append b'=' e.0 (quoted e.1) h

pair-value : (e : Bytes × Bytes) → Lacks b'=' e.0 → after_byte b'=' (pair_of e) ≡ some (quoted e.1)
unfolding pair_of
pair-value e h = after_byte-append b'=' e.0 (quoted e.1) h

load_line-line_of :
    (path : Bytes) (number : ℕ) (key val : Bytes) (env : Env)
    → IsSetting (key, val)
    → load_line path number (line_of (key, val)) env ≡ ok (insert text_eq key val env)
unfolding load_line without_export line_of set_pair
load_line-line_of path number key val env ((w, no_eq), no_feed) =
    ap (λ s. set_pair (parse_pair path number (before_byte b'=' s) (after_byte b'=' s)) env)
      (pair-trimmed (key, val) w)
    ∙ ap (λ o. set_pair (parse_pair path number o (after_byte b'=' (pair_of (key, val)))) env)
        (pair-key (key, val) no_eq)
    ∙ ap (λ o. set_pair (parse_pair path number (some key) o) env) (pair-value (key, val) no_eq)
    ∙ ap (λ r. set_pair r env) (parse_pair-quoted path number key val w)

load_lines-cons :
    (path : Bytes) (number : ℕ) (line : Bytes) (lines : List Bytes) (env env' : Env)
    → load_line path number (trim_space line) env ≡ ok env'
    → load_lines path number (line ∷ lines) env ≡ load_lines path (number + 1) lines env'
unfolding load_lines
load_lines-cons path number line lines env env' h = rw (h, load_lines)

load_lines-env_text :
    (path : Bytes) (number : ℕ) (es : List (Bytes × Bytes)) (env : Env)
    → All IsSetting es
    → load_lines path number (split_byte b'\n' (env_text es)) env ≡ ok (set_all es env)
unfolding env_text set_all load_lines
load_lines-env_text path number [] env h = unfold split_byte trim_space load_line is_empty in refl
load_lines-env_text path number ((key, val) ∷ es) env (h, hs) =
    let line = line_of (key, val) in
    ap (λ ls. load_lines path number ls env)
      (split_byte_line b'\n' line (env_text es) (line-Lacks (key, val) h))
    ∙ load_lines-cons path number line (split_byte b'\n' (env_text es)) env
        (insert text_eq key val env)
        (ap (λ t. load_line path number t env) (line-trimmed (key, val))
          ∙ load_line-line_of path number key val env h)
    ∙ load_lines-env_text path (number + 1) es (insert text_eq key val env) hs

-- A file of lines `export KEY="value"` is read without an error, and sets each variable to its value,
-- in the order of the lines: for keys of printable bytes without a space or `=`, and for values of
-- any bytes but a line feed, quotes and white space included.
pub load_file-env_text :
    (path : Bytes) (es : List (Bytes × Bytes)) (env : Env)
    → All IsSetting es
    → load_file path (contents (env_text es)) env ≡ ok (set_all es env)
unfolding load_file
load_file-env_text path es env h = load_lines-env_text path 1 es env h
