-- ===== src/Transport/Diagnostics/Adds.antt =====
-- transport.go, analyzeLinePayloadV4: what a line of each kind adds to the counts.
use statokgo.Prelude.{
  ℕ, ◌+◌, ◌==◌, ltb, leb, ◌||◌, false, Bytes, List, [], ◌∷◌, Option, none, some, ◌≡◌, ◌≢◌, refl, ap,
  ◌∙◌, arith, length, is_empty, Bool-cases, inl, inr,
}
use statokgo.Prelude.Int.{ℤ}
use statokgo.Go.Strings.{has_prefix}
use statokgo.LineProtocol.{DictionaryState}
use statokgo.Transport.Diagnostics.{
  Diagnostics, analyze_header, analyze_definition, analyze_event, analyze_line, largest_label,
  split_n, note_id, note_sample, seen_id, is_short, event_id, parse_series_definition_line,
  scan_value, truncate_log_field, summarize_label_for_log,
}

-- `d'` counts that many definitions, event lines, and bytes of either more than `d`.
pub record Adds (defs def_bytes lines line_bytes : ℕ) (d d' : Diagnostics) : Type 0 where
  pub more_definitions : d'.series_definitions ≡ d.series_definitions + defs
  pub more_definition_bytes : d'.series_definition_bytes ≡ d.series_definition_bytes + def_bytes
  pub more_lines : d'.event_lines ≡ d.event_lines + lines
  pub more_line_bytes : d'.event_bytes ≡ d.event_bytes + line_bytes
  pub same_dictionary : d'.dictionary_series ≡ d.dictionary_series

pub Adds-none : (d : Diagnostics) → Adds 0 0 0 0 d d
Adds-none d = record {
  more_definitions = omega arith;
  more_definition_bytes = omega arith;
  more_lines = omega arith;
  more_line_bytes = omega arith;
  same_dictionary = refl;
}

pub Adds-trans :
    {a b c e a' b' c' e' : ℕ} {d d' d'' : Diagnostics}
    → Adds a b c e d d'
    → Adds a' b' c' e' d' d''
    → Adds (a + a') (b + b') (c + c') (e + e') d d''
Adds-trans h k = record {
  more_definitions = omega (arith, h.more_definitions, k.more_definitions);
  more_definition_bytes = omega (arith, h.more_definition_bytes, k.more_definition_bytes);
  more_lines = omega (arith, h.more_lines, k.more_lines);
  more_line_bytes = omega (arith, h.more_line_bytes, k.more_line_bytes);
  same_dictionary = k.same_dictionary ∙ h.same_dictionary;
}

-- what is counted
abbrev counts : Diagnostics → ℕ × ℕ × ℕ × ℕ × ℕ
counts d = (
  d.series_definitions, d.series_definition_bytes, d.event_lines, d.event_bytes,
  d.dictionary_series,
)

Adds-counts :
    (a b c e : ℕ) (d d' d'' : Diagnostics)
    → counts d'' ≡ counts d'
    → Adds a b c e d d'
    → Adds a b c e d d''
Adds-counts a b c e d d' d'' same h = record {
  more_definitions = ap (λ (x : ℕ × ℕ × ℕ × ℕ × ℕ). x.0) same ∙ h.more_definitions;
  more_definition_bytes = ap (λ (x : ℕ × ℕ × ℕ × ℕ × ℕ). x.1) same ∙ h.more_definition_bytes;
  more_lines = ap (λ (x : ℕ × ℕ × ℕ × ℕ × ℕ). x.2) same ∙ h.more_lines;
  more_line_bytes = ap (λ (x : ℕ × ℕ × ℕ × ℕ × ℕ). x.3) same ∙ h.more_line_bytes;
  same_dictionary = ap (λ (x : ℕ × ℕ × ℕ × ℕ × ℕ). x.4) same ∙ h.same_dictionary;
}

analyze_header-counts : (line : Bytes) (d : Diagnostics) → counts (analyze_header line d) ≡ counts d
unfolding analyze_header
analyze_header-counts line d = go (split_n b'|' 5 line)
  where
    go :
        (parts : List Bytes)
        → counts (elim parts [
          | a ∷ b ∷ c ∷ session ∷ revision ∷ rest ↦ record d {
            dictionary_session = session;
            dictionary_revision = scan_value revision 0;
          }
          | _ ↦ d
        ])
          ≡ counts d
    go [] = refl
    go (a ∷ []) = refl
    go (a ∷ b ∷ []) = refl
    go (a ∷ b ∷ c ∷ []) = refl
    go (a ∷ b ∷ c ∷ e ∷ []) = refl
    go (a ∷ b ∷ c ∷ session ∷ revision ∷ rest) = refl

-- the largest label touches no count
largest_label-counts :
    (labels : List Bytes) (d : Diagnostics) → counts (largest_label labels d) ≡ counts d
unfolding largest_label
largest_label-counts [] d = refl
largest_label-counts (l ∷ ls) d = elim (Bool-cases (leb (length l) d.largest_label_bytes)) [
  | inl small ↦ rw (small, largest_label) (largest_label-counts ls d)
  | inr large ↦
      let (key, value) = summarize_label_for_log l in
      rw (large, largest_label)
        (largest_label-counts ls (record d {
          largest_label_bytes = length l;
          largest_label_key = key;
          largest_label_value_prefix = value;
        }))
]

note_sample-counts :
    (state : Option DictionaryState) (id : ℤ) (d : Diagnostics)
    → counts (note_sample state id d) ≡ counts d
unfolding note_sample
note_sample-counts state id d =
    elim (Bool-cases (leb 4 (length d.sample_series) || seen_id id d.sample_ids)) [
      | inl known ↦ rw known refl
      | inr new ↦ rw new refl
    ]

note_id-counts :
    (state : Option DictionaryState) (id : Option ℤ) (d : Diagnostics)
    → counts (note_id state id d) ≡ counts d
unfolding note_id
note_id-counts state none d = refl
note_id-counts state (some id) d = note_sample-counts state id _

analyze_event-Adds :
    (state : Option DictionaryState) (line : Bytes) (d : Diagnostics)
    → Adds 0 0 1 (length line + 1) d (analyze_event state line d)
unfolding analyze_event
analyze_event-Adds state line d =
    let counted : Diagnostics = record d {
      event_lines = d.event_lines + 1;
      event_bytes = d.event_bytes + (length line + 1);
    } in
    let one : Adds 0 0 1 (length line + 1) d counted = record {
      more_definitions = omega arith;
      more_definition_bytes = omega arith;
      more_lines = refl;
      more_line_bytes = refl;
      same_dictionary = refl;
    } in
    elim (Bool-cases (is_short line)) [
      | inl short ↦ rw short one
      | inr long ↦ rw long (
          Adds-counts 0 0 1 (length line + 1) d counted (note_id state (event_id line) counted)
            (note_id-counts state (event_id line) counted) one)
    ]

analyze_definition-Adds :
    (line : Bytes) (d : Diagnostics) → Adds 1 (length line + 1) 0 0 d (analyze_definition line d)
unfolding analyze_definition
analyze_definition-Adds line d =
    let size = length line + 1 in
    let (metric, labels) = parse_series_definition_line line in
    let counted : Diagnostics = record d {
      series_definitions = d.series_definitions + 1;
      series_definition_bytes = d.series_definition_bytes + size;
    } in
    let largest : Diagnostics = record counted {
      largest_series_definition_bytes = size;
      largest_series_metric = truncate_log_field metric 96;
      largest_series_labels = length labels;
      largest_label_key = [];
      largest_label_bytes = 0;
      largest_label_value_prefix = [];
    } in
    let one : Adds 1 size 0 0 d counted = record {
      more_definitions = refl;
      more_definition_bytes = refl;
      more_lines = omega arith;
      more_line_bytes = omega arith;
      same_dictionary = refl;
    } in
    elim (Bool-cases (ltb d.largest_series_definition_bytes size)) [
      | inr smaller ↦ rw smaller one
      | inl larger ↦ rw larger (
          Adds-counts 1 size 0 0 d counted (largest_label labels largest)
            (largest_label-counts labels largest) one)
    ]

module _ (state : Option DictionaryState) (d : Diagnostics) (rest : Bytes) where
  pub header_line : Adds 0 0 0 0 d (analyze_line state (b'H' ∷ b'|' ∷ rest) d)
  unfolding analyze_line has_prefix is_empty
  header_line =
      Adds-counts 0 0 0 0 d d _ (analyze_header-counts (b'H' ∷ b'|' ∷ rest) d) (Adds-none d)

  pub definition_line :
      Adds 1 (length (b'S' ∷ b'|' ∷ rest) + 1) 0 0 d (analyze_line state (b'S' ∷ b'|' ∷ rest) d)
  unfolding analyze_line has_prefix is_empty
  definition_line = analyze_definition-Adds (b'S' ∷ b'|' ∷ rest) d

  pub event_line :
      (kind : ℕ)
      → kind ≢ b'H'
      → kind ≢ b'S'
      → Adds 0 0 1 (length (kind ∷ rest) + 1) d (analyze_line state (kind ∷ rest) d)
  unfolding analyze_line has_prefix is_empty
  event_line kind no_header no_definition =
      let h : (kind == b'H') ≡ false = ground arith in
      let s : (kind == b'S') ≡ false = ground arith in
      rw (h, s) (analyze_event-Adds state (kind ∷ rest) d)
