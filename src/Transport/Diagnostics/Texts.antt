-- ===== src/Transport/Diagnostics/Texts.antt =====
-- transport.go, analyzeLinePayloadV4: the texts that line_protocol_v4.go writes, read line by line.
use statokgo.Prelude.{
  ℕ, suc, ◌+◌, Bytes, List, [], ◌∷◌, ◌++◌, append_assoc, Option, ◌≡◌, ◌≢◌, refl, sym, ap, ◌∙◌,
  arith, All, All-append, Lacks, length, length-append, is_empty, codes, if_ind,
}
use statokgo.Prelude.Int.{ℤ, pos, negsuc}
use statokgo.Float.{Float}
use statokgo.Go.Strconv.{format_uint, format_int}
use statokgo.Go.Strconv.RoundTrip.{format_uint-IsDigit, digits-Lacks}
use statokgo.LineProtocol.{
  SeriesDef, DictionaryState, EncodedEvent, counter, value, unique, write_labels,
  write_series_definition, write_all_definitions, write_line, write_event, write_events,
  write_header,
}
use statokgo.Transport.Diagnostics.{Diagnostics}
use statokgo.Transport.Diagnostics.Adds.{header_line, definition_line, event_line}
use statokgo.Transport.Diagnostics.Lines.{Reads, Reads-nil, Reads-append, Reads-line, Reads-same}

number-Lacks : (n : ℕ) → Lacks b'\n' (format_uint n)
number-Lacks n = digits-Lacks b'\n' (format_uint n) (λ h. omega arith) (format_uint-IsDigit n)

int-Lacks : (n : ℤ) → Lacks b'\n' (format_int n)
unfolding format_int
int-Lacks (pos n) = number-Lacks n
int-Lacks (negsuc n) = (omega arith, number-Lacks (suc n))

-- a series whose names have no line feed
abbrev pub IsClean : Bytes × List Bytes → Type 0
IsClean s = Lacks b'\n' s.0 × All (Lacks b'\n') s.1

write_labels-Lacks : (ls : List Bytes) → All (Lacks b'\n') ls → Lacks b'\n' (write_labels ls)
unfolding write_labels
write_labels-Lacks [] h = tt
write_labels-Lacks (l ∷ ls) (h, hs) =
    if_ind (Lacks b'\n') (is_empty l) (write_labels ls) _ (λ blank. write_labels-Lacks ls hs)
      (λ full.
        All-append _ (b'|' ∷ l) (write_labels ls) (omega arith, h) (write_labels-Lacks ls hs))

-- a text of three parts and a line feed
line_text :
    (a b c : Bytes)
    → (a ++ (b ++ (c ++ b'\n' ∷ [])) ≡ (a ++ (b ++ c)) ++ b'\n' ∷ [])
      × (length (a ++ (b ++ c)) + 1 ≡ length (a ++ (b ++ (c ++ b'\n' ∷ []))))
line_text a b c =
    let same : a ++ (b ++ (c ++ b'\n' ∷ [])) ≡ (a ++ (b ++ c)) ++ b'\n' ∷ [] =
      sym (append_assoc a (b ++ c) (b'\n' ∷ []) ∙ ap (a ++◌) (append_assoc b c (b'\n' ∷ []))) in
    (same, omega (arith, ap length same, length-append (a ++ (b ++ c)) (b'\n' ∷ [])))

module _ (state : Option DictionaryState) where
  write_series_definition-Reads :
      (id : ℕ) (s : SeriesDef) (d : Diagnostics)
      → IsClean (s.metric, s.labels)
      → Reads state (write_series_definition id s) 1 (length (write_series_definition id s)) 0 0 d
  unfolding write_series_definition
  write_series_definition-Reads id s d (metric, labels) =
      let a = b'S' ∷ b'|' ∷ format_uint id in
      let b = b'|' ∷ s.metric in
      let c = write_labels s.labels in
      let (same, size) = line_text a b c in
      Reads-same state ((a ++ (b ++ c)) ++ b'\n' ∷ []) _ d same (refl, size, refl, refl)
        (Reads-line state (a ++ (b ++ c)) d
          (All-append _ a (b ++ c) (omega arith, (omega arith, number-Lacks id))
            (All-append _ b c (omega arith, metric) (write_labels-Lacks s.labels labels)))
          (definition_line state d (format_uint id ++ (b ++ c))))

  pub write_all_definitions-Reads :
      (id : ℕ) (ss : List SeriesDef) (d : Diagnostics)
      → All (λ s. IsClean (s.metric, s.labels)) ss
      → Reads state
          (write_all_definitions id ss)
          (length ss)
          (length (write_all_definitions id ss))
          0
          0
          d
  unfolding write_all_definitions
  write_all_definitions-Reads id [] d h = Reads-nil state d
  write_all_definitions-Reads id (s ∷ ss) d (h, hs) =
      let first = write_series_definition-Reads id s d h in
      let s1 = write_series_definition id s in
      let s2 = write_all_definitions (id + 1) ss in
      Reads-same state (s1 ++ s2) (s1 ++ s2) d refl
        (omega arith, omega (arith, length-append s1 s2), refl, refl)
        (Reads-append state s1 s2 d first (write_all_definitions-Reads (id + 1) ss first.behind hs))

  write_line-Reads :
      (kind id : ℕ) (text : Bytes) (timestamp : ℕ) (d : Diagnostics)
      → kind ≢ b'H'
      → kind ≢ b'S'
      → kind ≢ b'\n'
      → Lacks b'\n' text
      → Reads state
          (write_line kind id text timestamp)
          0
          0
          1
          (length (write_line kind id text timestamp))
          d
  unfolding write_line
  write_line-Reads kind id text timestamp d no_header no_definition no_feed clean =
      let a = kind ∷ b'|' ∷ format_uint id in
      let b = b'|' ∷ text in
      let c = b'|' ∷ format_int (pos timestamp) in
      let (same, size) = line_text a b c in
      Reads-same state ((a ++ (b ++ c)) ++ b'\n' ∷ []) _ d same (refl, refl, refl, size)
        (Reads-line state (a ++ (b ++ c)) d
          (All-append _ a (b ++ c) (no_feed, (omega arith, number-Lacks id))
            (All-append _ b c (omega arith, clean) (omega arith, int-Lacks (pos timestamp))))
          (event_line state d (b'|' ∷ format_uint id ++ (b ++ c)) kind no_header no_definition))

unfoldable pub HasCleanText : {V : Type 0} → EncodedEvent V → Type 0
HasCleanText (counter id n timestamp) = Unit
HasCleanText (value id x timestamp) = Unit
HasCleanText (unique id text timestamp) = Lacks b'\n' text

module _ {V : Type 0} (F : Float V) (numbers : (x : V) → Lacks b'\n' (F.format x))
    (state : Option DictionaryState) where
  write_event-Reads :
      (e : EncodedEvent V) (d : Diagnostics)
      → HasCleanText e
      → Reads state (write_event F e) 0 0 1 (length (write_event F e)) d
  unfolding write_event HasCleanText
  write_event-Reads (counter id n timestamp) d h =
      write_line-Reads state b'c' id (format_int n) timestamp d (omega arith) (omega arith)
        (omega arith) (int-Lacks n)
  write_event-Reads (value id x timestamp) d h =
      write_line-Reads state b'v' id (F.format x) timestamp d (omega arith) (omega arith)
        (omega arith) (numbers x)
  write_event-Reads (unique id text timestamp) d h =
      write_line-Reads state b'u' id text timestamp d (omega arith) (omega arith) (omega arith) h

  pub write_events-Reads :
      (es : List (EncodedEvent V)) (d : Diagnostics)
      → All HasCleanText es
      → Reads state (write_events F es) 0 0 (length es) (length (write_events F es)) d
  unfolding write_events
  write_events-Reads [] d h = Reads-nil state d
  write_events-Reads (e ∷ es) d (h, hs) =
      let first = write_event-Reads e d h in
      let s1 = write_event F e in
      let s2 = write_events F es in
      Reads-same state (s1 ++ s2) (s1 ++ s2) d refl
        (refl, refl, omega arith, omega (arith, length-append s1 s2))
        (Reads-append state s1 s2 d first (write_events-Reads es first.behind hs))

pub write_header-Reads :
    (given : Option DictionaryState) (state : DictionaryState) (d : Diagnostics)
    → Lacks b'\n' state.session_id
    → Reads given (write_header state) 0 0 0 0 d
unfolding write_header
write_header-Reads given state d clean =
    let a = codes "H|4|s|" in
    let c = b'|' ∷ format_uint state.revision in
    let (same, size) = line_text a state.session_id c in
    Reads-same given ((a ++ (state.session_id ++ c)) ++ b'\n' ∷ []) _ d same
      (refl, refl, refl, refl)
      (Reads-line given (a ++ (state.session_id ++ c)) d
        (All-append _ a (state.session_id ++ c) (omega arith)
          (All-append _ state.session_id c clean (omega arith, number-Lacks state.revision)))
        (header_line given d (codes "4|s|" ++ (state.session_id ++ c))))
