-- ===== src/LineProtocol/Sent.antt =====
-- line_protocol_v4.go: the definitions that go out with a payload.
use statokgo.Prelude.{
  ℕ, zero, suc, ◌+◌, true, false, not, Bytes, List, [], ◌∷◌, ◌++◌, ◌≡◌, refl, sym, ap, ◌∙◌, arith,
  append_assoc, append-nil, length, length-append, get_elem?-append_self, is_empty, lookup, text_eq,
  Option-cases, inl, inr,
}
use statokgo.Float.{Float}
use statokgo.Batch.{Payload, series_key}
use statokgo.LineProtocol.{
  SeriesDef, DictionaryState, Encoder, define_series, get_series_id, encode_events, definitions,
  write_series_definition, write_all_definitions, write_new_definitions,
}
use statokgo.LineProtocol.Resolve.{number, names_of, encode_events-number}

-- the n numbers from `first` on
from : ℕ → ℕ → List ℕ
from first zero = []
from first (suc n) = first ∷ from (first + 1) n

from-snoc : (first n : ℕ) → from first (suc n) ≡ from first n ++ (first + n) ∷ []
unfolding from
from-snoc first zero = ap (λ (k : ℕ). k ∷ []) (omega arith)
from-snoc first (suc n) =
    ap (λ (l : List ℕ). first ∷ l)
      (from-snoc (first + 1) n ∙ ap (λ (k : ℕ). from (first + 1) n ++ k ∷ []) (omega arith))

snoc_full : {A : Type 0} (xs : List A) (x : A) → true ≡ not (is_empty (xs ++ x ∷ []))
unfolding is_empty
snoc_full [] x = refl
snoc_full (y ∷ xs) x = refl

-- The encoder has defined the series of `more` behind those of `base`.
record Defines (base : List SeriesDef) (enc : Encoder) : Type 0 where
  more : List SeriesDef
  series : enc.dict.series ≡ base ++ more
  ids : enc.new_series_ids ≡ from (length base) (length more)
  changed : enc.series_changed ≡ not (is_empty more)

get_series_id-Defines :
    (base : List SeriesDef) (metric : Bytes) (labels : List Bytes) (enc : Encoder)
    → Defines base enc
    → Defines base (get_series_id metric labels enc).1
unfolding get_series_id define_series
get_series_id-Defines base metric labels enc h =
    elim (Option-cases (lookup text_eq (series_key metric labels) enc.dict.series_map)) [
      | inr (id, known) ↦ rw (known, get_series_id) h
      | inl new ↦
          let def : SeriesDef = record { metric = metric; labels = labels } in
          let grown : length (h.more ++ def ∷ []) ≡ suc (length h.more) =
            omega (arith, length-append h.more (def ∷ [])) in
          let size : length enc.dict.series ≡ length base + length h.more =
            ap length h.series ∙ length-append base h.more in
          rw (new, get_series_id, define_series)
            (record {
              more = h.more ++ def ∷ [];
              series =
                  ap (λ (l : List SeriesDef). l ++ def ∷ []) h.series
                  ∙ append_assoc base h.more (def ∷ []);
              ids = cc (
                h.ids,
                size,
                ap (from (length base)) grown,
                from-snoc (length base) (length h.more),
              );
              changed = snoc_full h.more def;
            })
    ]

number-Defines :
    (base : List SeriesDef) (names : List (Bytes × List Bytes)) (enc : Encoder)
    → Defines base enc
    → Defines base (number names enc).1
unfolding number
number-Defines base [] enc h = h
number-Defines base ((metric, labels) ∷ names) enc h =
    number-Defines base names (get_series_id metric labels enc).1
      (get_series_id-Defines base metric labels enc h)

write_new_definitions-from :
    (base more : List SeriesDef)
    → write_new_definitions (base ++ more) (from (length base) (length more))
      ≡ write_all_definitions (length base) more
unfolding write_new_definitions write_all_definitions from
write_new_definitions-from base [] = refl
write_new_definitions-from base (s ∷ more) =
    let rest = write_new_definitions-from (base ++ s ∷ []) more in
    let size : length (base ++ s ∷ []) ≡ length base + 1 = length-append base (s ∷ []) in
    let there = get_elem?-append_self base more s in
    let on =
      ap (λ (b : List SeriesDef). write_new_definitions b (from (length base + 1) (length more)))
        (sym (append_assoc base (s ∷ []) more))
      ∙ ap (λ (n : ℕ). write_new_definitions ((base ++ s ∷ []) ++ more) (from n (length more)))
          (sym size)
      ∙ rest
      ∙ ap (λ (n : ℕ). write_all_definitions n more) size in
    rw there (ap (λ (text : Bytes). write_series_definition (length base) s ++ text) on)

definitions_new :
    (base : List SeriesDef) (enc : Encoder) (h : Defines base enc)
    → definitions enc false ≡ write_all_definitions (length base) h.more
unfolding definitions is_empty write_all_definitions
definitions_new base enc h = go h.more h.changed (h.series, h.ids)
  where
    go :
        (more : List SeriesDef)
        → enc.series_changed ≡ not (is_empty more)
        → (enc.dict.series ≡ base ++ more) × (enc.new_series_ids ≡ from (length base) (length more))
        → definitions enc false ≡ write_all_definitions (length base) more
    go [] changed e = rw (changed, definitions) refl
    go (s ∷ more) changed (series, ids) =
        rw (changed, definitions, series, ids) (write_new_definitions-from base (s ∷ more))

-- the encoder before the first event
abbrev pub start_of : DictionaryState → Encoder
start_of state = record { dict = state; new_series_ids = []; series_changed = false }

-- A payload goes out with the definitions that the dictionary has gained by it and with no others, each
-- once, in order and under its ID; where it has gained none, no definition is sent.
pub encode_events-definitions :
    {V : Type 0} (F : Float V) (p : Payload V) (state : DictionaryState)
    → (more : List SeriesDef) × ((encode_events F p (start_of state)).1.dict.series
        ≡ state.series ++ more)
      × (definitions (encode_events F p (start_of state)).1 false
          ≡ write_all_definitions (length state.series) more)
unfolding from
encode_events-definitions F p state =
    let start : Defines state.series (start_of state) = record {
      more = [];
      series = sym (append-nil state.series);
      ids = refl;
      changed = unfold is_empty in refl;
    } in
    let (ids, same) = encode_events-number F p (start_of state) in
    let h = number-Defines state.series (names_of F p) (start_of state) start in
    rw same
      (h.more, h.series, definitions_new state.series (number (names_of F p) (start_of state)).1 h)
