-- ===== src/Transport/Diagnostics/Clean.antt =====
-- line_protocol_v4.go: the payloads and dictionaries whose texts stay on their lines.
use statokgo.Prelude.{
  ℕ, suc, ◌+◌, Bytes, List, [], ◌∷◌, ◌++◌, ◌≡◌, refl, ap, arith, All, All-append, Lacks, length,
  length-append, lookup, text_eq, Option-cases, inl, inr,
}
use statokgo.Float.{Float}
use statokgo.Batch.{CounterEvent, ValueEvent, UniqueEvent, Payload, series_key}
use statokgo.LineProtocol.{
  SeriesDef, Encoder, get_series_id, define_series, encode_counters, encode_values, encode_uniques,
  encode_events,
}
use statokgo.LineProtocol.Resolve.{names_of, number}
use statokgo.Transport.Diagnostics.Texts.{IsClean, HasCleanText}

-- What a payload has to keep out of its texts: line feeds.
pub record IsCleanPayload {V : Type 0} (F : Float V) (p : Payload V) : Type 0 where
  pub names : All IsClean (names_of F p)
  pub ids : All (λ (u : UniqueEvent). Lacks b'\n' u.unique_id) p.uniques
  -- FormatFloat prints digits, a sign, a point, or the name of a value that is no number.
  pub numbers : (x : V) → Lacks b'\n' (F.format x)

module _ {V : Type 0} (F : Float V) where
  encode_counters_events :
      (cs : List (CounterEvent V)) (enc : Encoder)
      → All HasCleanText (encode_counters F cs enc).0
        × (length (encode_counters F cs enc).0 ≡ length cs)
  unfolding encode_counters HasCleanText
  encode_counters_events [] enc = (tt, refl)
  encode_counters_events (c ∷ cs) enc =
      let (h, n) = encode_counters_events cs (get_series_id c.metric c.labels enc).1 in
      ((tt, h), ap suc n)

  encode_values_events :
      (vs : List (ValueEvent V)) (enc : Encoder)
      → All HasCleanText (encode_values vs enc).0 × (length (encode_values vs enc).0 ≡ length vs)
  unfolding encode_values HasCleanText
  encode_values_events [] enc = (tt, refl)
  encode_values_events (v ∷ vs) enc =
      let (h, n) = encode_values_events vs (get_series_id v.metric v.labels enc).1 in
      ((tt, h), ap suc n)

  encode_uniques_events :
      (us : List UniqueEvent) (enc : Encoder)
      → All (λ (u : UniqueEvent). Lacks b'\n' u.unique_id) us
      → All HasCleanText (encode_uniques {V = V} us enc).0
        × (length (encode_uniques {V = V} us enc).0 ≡ length us)
  unfolding encode_uniques HasCleanText
  encode_uniques_events [] enc h = (tt, refl)
  encode_uniques_events (u ∷ us) enc (h, hs) =
      let (k, n) = encode_uniques_events us (get_series_id u.metric u.labels enc).1 hs in
      ((h, k), ap suc n)

  -- the number of events of a payload
  abbrev pub payload_size : Payload V → ℕ
  payload_size p = length p.counters + (length p.values + length p.uniques)

  pub encode_events_events :
      (p : Payload V) (enc : Encoder)
      → All (λ (u : UniqueEvent). Lacks b'\n' u.unique_id) p.uniques
      → All HasCleanText (encode_events F p enc).0
        × (length (encode_events F p enc).0 ≡ payload_size p)
  unfolding encode_events
  encode_events_events p enc h =
      let (es1, enc1) = encode_counters F p.counters enc in
      let (es2, enc2) = encode_values {V = V} p.values enc1 in
      let (es3, enc3) = encode_uniques {V = V} p.uniques enc2 in
      let (cs, n) = encode_counters_events p.counters enc in
      let (vs, k) = encode_values_events p.values enc1 in
      let (us, m) = encode_uniques_events p.uniques enc2 h in
      (
        All-append _ _ _ cs (All-append _ _ _ vs us),
        omega (arith, n, k, m, length-append es1 (es2 ++ es3), length-append es2 es3),
      )

-- The definitions of the dictionary have no line feeds, and its session is the one given.
pub record IsCleanEncoder (session : Bytes) (enc : Encoder) : Type 0 where
  pub series : All (λ (s : SeriesDef). IsClean (s.metric, s.labels)) enc.dict.series
  pub same_session : enc.dict.session_id ≡ session

get_series_id-IsCleanEncoder :
    (session metric : Bytes) (labels : List Bytes) (enc : Encoder)
    → IsClean (metric, labels)
    → IsCleanEncoder session enc
    → IsCleanEncoder session (get_series_id metric labels enc).1
unfolding get_series_id define_series
get_series_id-IsCleanEncoder session metric labels enc clean h =
    elim (Option-cases (lookup text_eq (series_key metric labels) enc.dict.series_map)) [
      | inr (id, known) ↦ rw (known, get_series_id) h
      | inl new ↦
          rw (new, get_series_id, define_series)
            (record {
              series = All-append _ enc.dict.series _ h.series (clean, tt);
              same_session = h.same_session;
            })
    ]

pub number-IsCleanEncoder :
    (session : Bytes) (names : List (Bytes × List Bytes)) (enc : Encoder)
    → All IsClean names
    → IsCleanEncoder session enc
    → IsCleanEncoder session (number names enc).1
unfolding number
number-IsCleanEncoder session [] enc hs h = h
number-IsCleanEncoder session ((metric, labels) ∷ names) enc (hn, hs) h =
    number-IsCleanEncoder session names (get_series_id metric labels enc).1 hs
      (get_series_id-IsCleanEncoder session metric labels enc hn h)

pub All-behind : {A : Type 0} (P : A → Type 0) (xs ys : List A) → All P (xs ++ ys) → All P ys
All-behind P [] ys h = h
All-behind P (x ∷ xs) ys (hx, h) = All-behind P xs ys h
