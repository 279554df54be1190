-- ===== src/Agent/Nginx/Words.antt =====
-- internal/collectors/nginx/collector.go, parseStubStatus: lines of the page, as the words of each line.
use statokgo.Prelude.{
  ℕ, ◌^◌, ◌<◌, ◌==◌, false, true, Bytes, List, [], ◌∷◌, ◌++◌, Option, none, some, ◌≡◌, ◌≢◌, refl,
  ap, ◌∙◌, arith, All, codes, bytes_eq, is_empty, if_ind, Bool, ◌||◌,
}
use statokgo.Prelude.Int.{ℤ, pos}
use statokgo.Go.Strings.{trim_space, equal_fold, to_lower, has_prefix}
use statokgo.Go.Strings.Plain.{IsPlain, trim_space_plain}
use statokgo.Go.Strings.Words.{IsWord, joined}
use statokgo.Go.Strconv.{format_uint, atoi}
use statokgo.Go.Strconv.RoundTrip.{
  IsDigit, format_uint-IsDigit, format_uint-ne-nil, format_uint_cons, atoi-format_uint,
}
use statokgo.Agent.Nginx.{
  StubStatus, Parsed, parse_int, parse_key, find_key, second_int, is_active_line, last_word,
  set_active, three_ints, set_states, set_totals, parse_words,
}

-- the numbers of a page
pub record Counts : Type 0 where
  pub active : ℕ
  pub accepts : ℕ
  pub handled : ℕ
  pub requests : ℕ
  pub reading : ℕ
  pub writing : ℕ
  pub waiting : ℕ

abbrev pub spaced : List Bytes → Bytes
spaced ws = joined ws ++ 32 ∷ []

abbrev pub active_words : Counts → List Bytes
active_words n = codes "Active" ∷ codes "connections:" ∷ format_uint n.active ∷ []

abbrev pub total_words : Counts → List Bytes
total_words n = format_uint n.accepts ∷ format_uint n.handled ∷ format_uint n.requests ∷ []

abbrev pub state_words : Counts → List Bytes
state_words n =
    codes "Reading:"
    ∷ format_uint n.reading
    ∷ codes "Writing:"
    ∷ format_uint n.writing
    ∷ codes "Waiting:"
    ∷ format_uint n.waiting
    ∷ []

abbrev pub as_status : Counts → StubStatus
as_status n = record {
  active = pos n.active;
  accepts = pos n.accepts;
  handled = pos n.handled;
  requests = pos n.requests;
  reading = pos n.reading;
  writing = pos n.writing;
  waiting = pos n.waiting;
}

digits-IsPlain : (s : Bytes) → All IsDigit s → All IsPlain s
digits-IsPlain [] h = tt
digits-IsPlain (c ∷ s) (h, hs) = ((omega arith, omega arith), digits-IsPlain s hs)

pub number-IsWord : (n : ℕ) → IsWord (format_uint n)
number-IsWord n = (format_uint-ne-nil n, digits-IsPlain (format_uint n) (format_uint-IsDigit n))

parse_int_trimmed : (s : Bytes) → trim_space s ≡ s → is_empty s ≡ false → parse_int s ≡ atoi s
unfolding parse_int
parse_int_trimmed s h k =
    if_ind (λ (r : Option ℤ). r ≡ atoi s) (is_empty (trim_space s)) none (atoi (trim_space s))
      (λ bad. absurd (cc (k, ap is_empty h, bad))) (λ full. ap atoi h)

not_empty : (s : Bytes) → s ≢ [] → is_empty s ≡ false
unfolding is_empty
not_empty [] h = absurd (h refl)
not_empty (c ∷ s) h = refl

parse_int-number : (n : ℕ) → n < 2 ^ 63 → parse_int (format_uint n) ≡ some (pos n)
parse_int-number n h =
    let (some_byte, plain) = number-IsWord n in
    parse_int_trimmed (format_uint n) (trim_space_plain (format_uint n) plain)
      (not_empty (format_uint n) some_byte)
    ∙ atoi-format_uint n h

digit_not_active :
    (d : ℕ) (s v w : Bytes) (ws : List Bytes)
    → IsDigit d
    → is_active_line ((d ∷ s) ∷ v ∷ w ∷ ws) ≡ false
unfolding is_active_line equal_fold to_lower bytes_eq
digit_not_active d s v w ws h = ground arith

-- a line that begins with a number
number_not_active :
    (n : ℕ) (v w : Bytes) (ws : List Bytes) → is_active_line (format_uint n ∷ v ∷ w ∷ ws) ≡ false
number_not_active n v w ws =
    let (d, s, e, h) = format_uint_cons n in
    ap (λ (t : Bytes). is_active_line (t ∷ v ∷ w ∷ ws)) e ∙ digit_not_active d s v w ws h

find_key-digit :
    (c d : ℕ) (key s : Bytes) (rest : List Bytes)
    → 57 < c
    → IsDigit d
    → find_key (c ∷ key) ((d ∷ s) ∷ rest) ≡ find_key (c ∷ key) rest
unfolding find_key bytes_eq has_prefix
find_key-digit c d key s rest h k = let other : (d == c) ≡ false = ground arith in rw other

find_key-number :
    (c n : ℕ) (key : Bytes) (rest : List Bytes)
    → 57 < c
    → find_key (c ∷ key) (format_uint n ∷ rest) ≡ find_key (c ∷ key) rest
find_key-number c n key rest h =
    let (d, s, e, k) = format_uint_cons n in
    ap (λ (t : Bytes). find_key (c ∷ key) (t ∷ rest)) e ∙ find_key-digit c d key s rest h k

pub parse_total_words :
    (n : Counts) (st : Parsed)
    → n.accepts < 2 ^ 63
    → n.handled < 2 ^ 63
    → n.requests < 2 ^ 63
    → parse_words (total_words n) st ≡ record st {
      out = record st.out {
        accepts = pos n.accepts;
        handled = pos n.handled;
        requests = pos n.requests;
      };
      have_totals = true;
    }
unfolding parse_words three_ints set_totals
parse_total_words n st a h r = rw (
  number_not_active,
  parse_int-number n.accepts a,
  parse_int-number n.handled h,
  parse_int-number n.requests r,
)

pub parse_active_words :
    (n : Counts) (st : Parsed)
    → n.active < 2 ^ 63
    → parse_words (active_words n) st
      ≡ record st { out = record st.out { active = pos n.active }; have_active = true }
unfolding parse_words is_active_line equal_fold to_lower has_prefix bytes_eq last_word set_active
parse_active_words n st a = rw (parse_int-number n.active a)

or_true : (b : Bool) → (b || true) ≡ true
or_true b = ground arith

set_states_all :
    (words : List Bytes) (st : Parsed) (r w a : ℤ)
    → parse_key words (codes "Reading") ≡ some r
    → parse_key words (codes "Writing") ≡ some w
    → parse_key words (codes "Waiting") ≡ some a
    → set_states words st ≡ record st {
      out = record st.out { reading = r; writing = w; waiting = a };
      have_states = true;
    }
unfolding set_states
set_states_all words st r w a er ew ea = rw (er, ew, ea, or_true)

module _ (n : Counts) where
  reading_found :
      n.reading < 2 ^ 63 → parse_key (state_words n) (codes "Reading") ≡ some (pos n.reading)
  unfolding parse_key find_key second_int bytes_eq
  reading_found h = parse_int-number n.reading h

  writing_found :
      n.writing < 2 ^ 63 → parse_key (state_words n) (codes "Writing") ≡ some (pos n.writing)
  unfolding parse_key find_key second_int bytes_eq has_prefix
  writing_found h =
      find_key-number b'W' n.reading (codes "riting:")
        (codes "Writing:" ∷ format_uint n.writing ∷ codes "Waiting:" ∷ format_uint n.waiting ∷ [])
        (omega arith)
      ∙ parse_int-number n.writing h

  waiting_found :
      n.waiting < 2 ^ 63 → parse_key (state_words n) (codes "Waiting") ≡ some (pos n.waiting)
  unfolding parse_key find_key second_int bytes_eq has_prefix
  waiting_found h =
      find_key-number b'W' n.reading (codes "aiting:")
        (codes "Writing:" ∷ format_uint n.writing ∷ codes "Waiting:" ∷ format_uint n.waiting ∷ [])
        (omega arith)
      ∙ find_key-number b'W' n.writing (codes "aiting:")
          (codes "Waiting:" ∷ format_uint n.waiting ∷ []) (omega arith)
      ∙ parse_int-number n.waiting h

pub parse_state_words :
    (n : Counts) (st : Parsed)
    → n.reading < 2 ^ 63
    → n.writing < 2 ^ 63
    → n.waiting < 2 ^ 63
    → parse_words (state_words n) st ≡ record st {
      out = record st.out {
        reading = pos n.reading;
        writing = pos n.writing;
        waiting = pos n.waiting;
      };
      have_states = true;
    }
unfolding parse_words is_active_line equal_fold to_lower has_prefix bytes_eq three_ints set_totals
    set_states parse_key
parse_state_words n st r w a =
    set_states_all (state_words n) st (pos n.reading) (pos n.writing) (pos n.waiting)
      (reading_found n r) (writing_found n w) (waiting_found n a)
