-- ===== src/LineProtocol/Resolve.antt =====
-- line_protocol_v4.go: the IDs of a payload's events, and the series that they stand for.
use statokgo.Prelude.{
  ℕ, zero, suc, Bool, Bytes, List, [], ◌∷◌, ◌++◌, Option, none, some, ◌≡◌, refl, sym, ap, ◌∙◌,
  append_assoc, append-nil, map, length, get_elem?, get_elem?-append_self, lookup, lookup-insert,
  text_eq, bytes_eq, bytes_eq_iff, if◌then◌else◌, Bool-cases, Option-cases, inl, inr,
}
use mathlib.Core.List.{map-append}
use statokgo.Float.{Float}
use statokgo.Batch.{CounterEvent, ValueEvent, UniqueEvent, Payload, series_key}
use statokgo.LineProtocol.{
  SeriesDef, DictionaryState, Encoder, define_series, get_series_id, EncodedEvent, counter, value,
  unique, encode_counters, encode_values, encode_uniques, encode_events,
}

-- the key of the series that an ID is defined as
unfoldable pub resolve : List SeriesDef → ℕ → Option Bytes
resolve series id = elim (get_elem? series id) [
  | none ↦ none
  | some s ↦ some (series_key s.metric s.labels)
]

-- Every ID in the map is defined, as the series of its key.
abbrev pub IsConsistent : DictionaryState → Type 0
IsConsistent d =
    (key : Bytes) (id : ℕ)
    → lookup text_eq key d.series_map ≡ some id
    → resolve d.series id ≡ some key

abbrev pub Extends : DictionaryState → DictionaryState → Type 0
Extends d e = (more : List SeriesDef) × (e.series ≡ d.series ++ more)

resolve-append :
    (series more : List SeriesDef) (id : ℕ) (key : Bytes)
    → resolve series id ≡ some key
    → resolve (series ++ more) id ≡ some key
unfolding resolve
resolve-append [] more id key h = absurd (cc)
resolve-append (s ∷ series) more zero key h = h
resolve-append (s ∷ series) more (suc id) key h = resolve-append series more id key h

resolve-append_self :
    (series : List SeriesDef) (s : SeriesDef)
    → resolve (series ++ s ∷ []) (length series) ≡ some (series_key s.metric s.labels)
unfolding resolve
resolve-append_self series s = rw (get_elem?-append_self series [] s, resolve) refl

record Numbered (key : Bytes) (enc : Encoder) (r : ℕ × Encoder) : Type 0 where
  consistent : IsConsistent r.1.dict
  extends : Extends enc.dict r.1.dict
  resolves : resolve r.1.dict.series r.0 ≡ some key

define_series-Numbered :
    (metric : Bytes) (labels : List Bytes) (enc : Encoder)
    → IsConsistent enc.dict
    → Numbered (series_key metric labels) enc (define_series metric labels enc)
unfolding define_series
define_series-Numbered metric labels enc h =
    let def : SeriesDef = record { metric = metric; labels = labels } in
    let self = resolve-append_self enc.dict.series def in
    let stored = λ (key : Bytes).
      lookup-insert text_eq (series_key metric labels) key (length enc.dict.series)
        enc.dict.series_map in
    record {
      consistent = λ key id at. elim (Bool-cases (bytes_eq (series_key metric labels) key)) [
        | inl same ↦
            let is_key = (bytes_eq_iff (series_key metric labels) key).0 same in
            let is_id : length enc.dict.series ≡ id = cc (
              at,
              stored key,
              ap
                  (λ (b : Bool).
                    if b
                    then some (length enc.dict.series)
                    else lookup text_eq key enc.dict.series_map)
                  same,
            ) in
            rw (← is_id, ← is_key) self
        | inr other ↦ resolve-append enc.dict.series (def ∷ []) id key (
            h key id (
              cc (
                at,
                stored key,
                ap
                    (λ (b : Bool).
                      if b
                      then some (length enc.dict.series)
                      else lookup text_eq key enc.dict.series_map)
                    other,
              )))
      ];
      extends = (def ∷ [], refl);
      resolves = self;
    }

get_series_id-Numbered :
    (metric : Bytes) (labels : List Bytes) (enc : Encoder)
    → IsConsistent enc.dict
    → Numbered (series_key metric labels) enc (get_series_id metric labels enc)
unfolding get_series_id
get_series_id-Numbered metric labels enc h =
    elim (Option-cases (lookup text_eq (series_key metric labels) enc.dict.series_map)) [
      | inl new ↦ rw (new, get_series_id) (define_series-Numbered metric labels enc h)
      | inr (id, known) ↦
          rw (known, get_series_id)
            (record {
              consistent = h;
              extends = ([], sym (append-nil enc.dict.series));
              resolves = h (series_key metric labels) id known;
            })
    ]

-- The IDs that a list of series gets, one after the other.
unfoldable pub number : List (Bytes × List Bytes) → Encoder → List ℕ × Encoder
number [] enc = ([], enc)
number ((metric, labels) ∷ rest) enc =
    let (id, enc') = get_series_id metric labels enc in
    let (ids, enc'') = number rest enc' in (id ∷ ids, enc'')

abbrev key_of : Bytes × List Bytes → Bytes
key_of s = series_key s.0 s.1

record AllNumbered (names : List (Bytes × List Bytes)) (enc : Encoder) (r : List ℕ × Encoder)
    : Type 0 where
  consistent : IsConsistent r.1.dict
  extends : Extends enc.dict r.1.dict
  resolves : map (resolve r.1.dict.series) r.0 ≡ map (λ s. some (key_of s)) names

number-AllNumbered :
    (names : List (Bytes × List Bytes)) (enc : Encoder)
    → IsConsistent enc.dict
    → AllNumbered names enc (number names enc)
unfolding number
number-AllNumbered [] enc h = record {
  consistent = h;
  extends = ([], sym (append-nil enc.dict.series));
  resolves = refl;
}
number-AllNumbered ((metric, labels) ∷ rest) enc h =
    let (id, enc') = get_series_id metric labels enc in
    let one = get_series_id-Numbered metric labels enc h in
    let others = number-AllNumbered rest enc' one.consistent in
    let (new, e) = one.extends in
    let (more, d) = others.extends in
    let kept = resolve-append enc'.dict.series more id (series_key metric labels) one.resolves in
    record {
      consistent = others.consistent;
      extends = (
        new ++ more,
        d ∙ ap (λ (l : List SeriesDef). l ++ more) e ∙ append_assoc enc.dict.series new more,
      );
      resolves = cc (kept, others.resolves, d);
    }

number-append :
    (a b : List (Bytes × List Bytes)) (enc : Encoder)
    → ((number (a ++ b) enc).0 ≡ (number a enc).0 ++ (number b (number a enc).1).0)
      × ((number (a ++ b) enc).1 ≡ (number b (number a enc).1).1)
unfolding number
number-append [] b enc = (refl, refl)
number-append ((metric, labels) ∷ a) b enc =
    let (id, enc') = get_series_id metric labels enc in
    let (ids, rest) = number-append a b enc' in (ap (λ (l : List ℕ). id ∷ l) ids, rest)

module _ {V : Type 0} (F : Float V) where
  abbrev pub id_of : EncodedEvent V → ℕ
  id_of (counter id n timestamp) = id
  id_of (value id x timestamp) = id
  id_of (unique id text timestamp) = id

  -- the series of the events of a payload, in the order in which they are written
  abbrev pub names_of : Payload V → List (Bytes × List Bytes)
  names_of p =
      map (λ (c : CounterEvent V). (c.metric, c.labels)) p.counters
      ++ (map (λ (v : ValueEvent V). (v.metric, v.labels)) p.values
          ++ map (λ (u : UniqueEvent). (u.metric, u.labels)) p.uniques)

  encode_counters-number :
      (cs : List (CounterEvent V)) (enc : Encoder)
      → (map id_of (encode_counters F cs enc).0
          ≡ (number (map (λ (c : CounterEvent V). (c.metric, c.labels)) cs) enc).0)
        × ((encode_counters F cs enc).1
            ≡ (number (map (λ (c : CounterEvent V). (c.metric, c.labels)) cs) enc).1)
  unfolding encode_counters number
  encode_counters-number [] enc = (refl, refl)
  encode_counters-number (c ∷ cs) enc =
      let (id, enc') = get_series_id c.metric c.labels enc in
      let (ids, rest) = encode_counters-number cs enc' in (ap (λ (l : List ℕ). id ∷ l) ids, rest)

  encode_values-number :
      (vs : List (ValueEvent V)) (enc : Encoder)
      → (map id_of (encode_values vs enc).0
          ≡ (number (map (λ (v : ValueEvent V). (v.metric, v.labels)) vs) enc).0)
        × ((encode_values vs enc).1
            ≡ (number (map (λ (v : ValueEvent V). (v.metric, v.labels)) vs) enc).1)
  unfolding encode_values number
  encode_values-number [] enc = (refl, refl)
  encode_values-number (v ∷ vs) enc =
      let (id, enc') = get_series_id v.metric v.labels enc in
      let (ids, rest) = encode_values-number vs enc' in (ap (λ (l : List ℕ). id ∷ l) ids, rest)

  encode_uniques-number :
      (us : List UniqueEvent) (enc : Encoder)
      → (map id_of (encode_uniques us enc).0
          ≡ (number (map (λ (u : UniqueEvent). (u.metric, u.labels)) us) enc).0)
        × ((encode_uniques {V = V} us enc).1
            ≡ (number (map (λ (u : UniqueEvent). (u.metric, u.labels)) us) enc).1)
  unfolding encode_uniques number
  encode_uniques-number [] enc = (refl, refl)
  encode_uniques-number (u ∷ us) enc =
      let (id, enc') = get_series_id u.metric u.labels enc in
      let (ids, rest) = encode_uniques-number us enc' in (ap (λ (l : List ℕ). id ∷ l) ids, rest)

  numbered-append :
      (xs ys : List (EncodedEvent V)) (a b : List (Bytes × List Bytes)) (enc enc1 enc2 : Encoder)
      → (map id_of xs ≡ (number a enc).0) × (enc1 ≡ (number a enc).1)
      → (map id_of ys ≡ (number b enc1).0) × (enc2 ≡ (number b enc1).1)
      → (map id_of (xs ++ ys) ≡ (number (a ++ b) enc).0) × (enc2 ≡ (number (a ++ b) enc).1)
  numbered-append xs ys a b enc enc1 enc2 (i, e) (j, d) =
      let (k, c) = number-append a b enc in
      let there = ap (number b) e in
      (map-append id_of xs ys ∙ cc (i, j, k, there), cc (d, c, there))

  pub encode_events-number :
      (p : Payload V) (enc : Encoder)
      → (map id_of (encode_events F p enc).0 ≡ (number (names_of p) enc).0)
        × ((encode_events F p enc).1 ≡ (number (names_of p) enc).1)
  unfolding encode_events
  encode_events-number p enc =
      let cs = encode_counters-number p.counters enc in
      let enc1 = (encode_counters F p.counters enc).1 in
      let vs = encode_values-number p.values enc1 in
      let enc2 = (encode_values {V = V} p.values enc1).1 in
      let us = encode_uniques-number p.uniques enc2 in
      numbered-append _ _ _ _ enc enc1 _ cs (
        numbered-append (encode_values p.values enc1).0 (encode_uniques p.uniques enc2).0 _ _ enc1
          enc2 _ vs us)

  -- If every ID in the dictionary is defined as the series of its key, then it is so after a
  -- payload is encoded, all old definitions stay, and each event of the payload is written with an
  -- ID that the dictionary defines as a series with the key of that event's series.
  pub encode_events-resolve :
      (p : Payload V) (enc : Encoder)
      → IsConsistent enc.dict
      → IsConsistent (encode_events F p enc).1.dict
        × Extends enc.dict (encode_events F p enc).1.dict
        × (map (resolve (encode_events F p enc).1.dict.series) (map id_of (encode_events F p enc).0)
            ≡ map (λ s. some (series_key s.0 s.1)) (names_of p))
  encode_events-resolve p enc h =
      let (ids, same) = encode_events-number p enc in
      let n = number-AllNumbered (names_of p) enc h in
      rw (ids, same) (n.consistent, n.extends, n.resolves)
