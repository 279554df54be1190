-- ===== src/Agent/Nginx/Page.antt =====
-- internal/collectors/nginx/collector.go, parseStubStatus: the page of nginx's stub_status module.
use statokgo.Prelude.{
  ◌^◌, ◌≤◌, ◌<◌, false, true, Bytes, List, [], ◌∷◌, ◌++◌, ◌≡◌, refl, ap, ◌∙◌, arith, All,
  All-append, Lacks, codes, bytes_eq, is_empty, Bool, ◌||◌,
}
use statokgo.Prelude.Int.{pos}
use statokgo.Go.Strings.{
  trim_space, fields, split_byte, equal_fold, to_lower, has_prefix, trim_prefix,
}
use statokgo.Go.Strings.Plain.{IsPlain}
use statokgo.Go.Strings.Words.{
  IsWord, joined, joined_full, split_byte_line, trim_space-joined, trim_space-joined_both,
  fields-joined,
}
use statokgo.Go.Strconv.{atoi}
use statokgo.Agent.Nginx.Words.{
  Counts, spaced, active_words, total_words, state_words, as_status, number-IsWord,
  parse_total_words, parse_active_words, parse_state_words,
}
use statokgo.Agent.Nginx.{
  Parsed, nothing_parsed, success, parse_int, parse_key, find_key, is_active_line, three_ints,
  set_states, set_totals, parse_words, parse_lines, check_parsed, parse_stub_status,
}

abbrev heading : Bytes
heading = codes "server accepts handled requests"

abbrev state_tail : Counts → Bytes
state_tail n = spaced (state_words n) ++ b'\n' ∷ []

abbrev total_tail : Counts → Bytes
total_tail n = (32 ∷ spaced (total_words n)) ++ b'\n' ∷ state_tail n

-- what nginx prints: four lines, three of which end in a space, and the third begins with one
unfoldable pub stub_status_page : Counts → Bytes
stub_status_page n = spaced (active_words n) ++ b'\n' ∷ (heading ++ b'\n' ∷ total_tail n)

line-Lacks : (s : Bytes) → All (λ c. (32 ≤ c) × (c < 127)) s → Lacks b'\n' s
line-Lacks [] h = tt
line-Lacks (c ∷ s) (h, hs) = (omega arith, line-Lacks s hs)

IsLine : Bytes → Type 0
IsLine = All (λ c. (32 ≤ c) × (c < 127))

word-IsLine : (w : Bytes) → All IsPlain w → IsLine w
unfolding IsLine
word-IsLine [] h = tt
word-IsLine (c ∷ w) (h, hs) = ((omega arith, omega arith), word-IsLine w hs)

joined-IsLine : (ws : List Bytes) → All IsWord ws → IsLine (joined ws)
unfolding joined IsLine
joined-IsLine [] h = tt
joined-IsLine (w ∷ []) ((some_byte, h), hs) = word-IsLine w h
joined-IsLine (w ∷ v ∷ ws) ((some_byte, h), hs) =
    All-append _ w (32 ∷ joined (v ∷ ws)) (word-IsLine w h)
      ((omega arith, omega arith), joined-IsLine (v ∷ ws) hs)

spaced-Lacks : (ws : List Bytes) → All IsWord ws → Lacks b'\n' (spaced ws)
unfolding IsLine
spaced-Lacks ws h =
    line-Lacks (spaced ws)
      (All-append _ (joined ws) (32 ∷ []) (joined-IsLine ws h) ((omega arith, omega arith), tt))

-- What parse_lines makes of a line of words.
words_line :
    (line w : Bytes) (ws lines : List Bytes) (st : Parsed)
    → trim_space line ≡ joined (w ∷ ws)
    → IsWord w
    → All IsWord ws
    → parse_lines (line ∷ lines) st ≡ parse_lines lines (parse_words (w ∷ ws) st)
unfolding parse_lines
words_line line w ws lines st e h hs =
    let full : is_empty (joined (w ∷ ws)) ≡ false = joined_full w ws h in
    rw (e, full, fields-joined w ws h hs)

active_words-IsWord : (n : Counts) → All IsWord (active_words n)
active_words-IsWord n = (
  (λ bad. absurd (cc), omega arith),
  ((λ bad. absurd (cc), omega arith), (number-IsWord n.active, tt)),
)

total_words-IsWord : (n : Counts) → All IsWord (total_words n)
total_words-IsWord n =
    (number-IsWord n.accepts, (number-IsWord n.handled, (number-IsWord n.requests, tt)))

state_words-IsWord : (n : Counts) → All IsWord (state_words n)
state_words-IsWord n = (
  (λ bad. absurd (cc), omega arith),
  (
    number-IsWord n.reading,
    (
      (λ bad. absurd (cc), omega arith),
      (number-IsWord n.writing, ((λ bad. absurd (cc), omega arith), (number-IsWord n.waiting, tt))),
    ),
  ),
)

or_false : (b : Bool) → (b || false) ≡ b
or_false b = ground arith

heading_line :
    (lines : List Bytes) (st : Parsed) → parse_lines (heading ∷ lines) st ≡ parse_lines lines st
unfolding parse_lines fields trim_space is_empty parse_words is_active_line equal_fold to_lower
    has_prefix bytes_eq three_ints set_totals set_states parse_key parse_int atoi find_key
    trim_prefix
heading_line lines st = rw or_false

page_lines :
    (n : Counts)
    → split_byte b'\n' (stub_status_page n)
      ≡ spaced (active_words n)
        ∷ heading
        ∷ (32 ∷ spaced (total_words n))
        ∷ spaced (state_words n)
        ∷ []
        ∷ []
unfolding stub_status_page split_byte
page_lines n =
    split_byte_line b'\n' (spaced (active_words n)) (heading ++ b'\n' ∷ total_tail n)
      (spaced-Lacks (active_words n) (active_words-IsWord n))
    ∙ ap (spaced (active_words n) ∷◌) (
        split_byte_line b'\n' heading (total_tail n) (omega arith)
        ∙ ap (heading ∷◌) (
            split_byte_line b'\n' (32 ∷ spaced (total_words n)) (state_tail n)
              (omega arith, spaced-Lacks (total_words n) (total_words-IsWord n))
            ∙ ap ((32 ∷ spaced (total_words n)) ∷◌) (
                split_byte_line b'\n' (spaced (state_words n)) []
                  (spaced-Lacks (state_words n) (state_words-IsWord n)))))

-- a 64-bit int holds each of the numbers
pub record FitsInt (n : Counts) : Type 0 where
  pub active : n.active < 2 ^ 63
  pub accepts : n.accepts < 2 ^ 63
  pub handled : n.handled < 2 ^ 63
  pub requests : n.requests < 2 ^ 63
  pub reading : n.reading < 2 ^ 63
  pub writing : n.writing < 2 ^ 63
  pub waiting : n.waiting < 2 ^ 63

blank_line : (st : Parsed) → parse_lines ([] ∷ []) st ≡ st
unfolding parse_lines trim_space is_empty
blank_line st = refl

-- parseStubStatus gives back the seven numbers of a page that nginx's stub_status module prints, if each
-- of them is below 2^63.
pub parse_stub_status-page :
    (n : Counts) → FitsInt n → parse_stub_status (stub_status_page n) ≡ success (as_status n)
unfolding parse_stub_status check_parsed nothing_parsed
parse_stub_status-page n h =
    let lines4 = spaced (state_words n) ∷ [] ∷ [] in
    let lines3 = (32 ∷ spaced (total_words n)) ∷ lines4 in
    let st1 = parse_words (active_words n) nothing_parsed in
    let st2 = parse_words (total_words n) st1 in
    let (a, as') = active_words-IsWord n in
    let (t, ts) = total_words-IsWord n in
    let (s, ss) = state_words-IsWord n in
    ap (λ (ls : List Bytes). check_parsed (parse_lines ls nothing_parsed)) (page_lines n)
    ∙ ap check_parsed (
        words_line (spaced (active_words n)) _ _ (heading ∷ lines3) nothing_parsed
          (trim_space-joined _ _ a as') a as'
        ∙ heading_line lines3 st1
        ∙ words_line (32 ∷ spaced (total_words n)) _ _ lines4 st1 (trim_space-joined_both _ _ t ts)
            t ts
        ∙ words_line (spaced (state_words n)) _ _ ([] ∷ []) st2 (trim_space-joined _ _ s ss) s ss
        ∙ blank_line (parse_words (state_words n) st2)
        ∙ parse_state_words n st2 h.reading h.writing h.waiting
        ∙ ap
            (λ (st : Parsed). record st {
              out = record st.out {
                reading = pos n.reading;
                writing = pos n.writing;
                waiting = pos n.waiting;
              };
              have_states = true;
            })
            (ap (parse_words (total_words n)) (parse_active_words n nothing_parsed h.active)
              ∙ parse_total_words n _ h.accepts h.handled h.requests))
