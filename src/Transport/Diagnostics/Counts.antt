-- ===== src/Transport/Diagnostics/Counts.antt =====
-- transport.go, analyzeLinePayloadV4, on what line_protocol_v4.go writes.
use statokgo.Prelude.{
  ◌+◌, false, Bytes, List, [], ◌++◌, append-nil, Option, some, ◌≡◌, refl, sym, ap, ◌∙◌, arith, All,
  Lacks, length, length-append, is_empty, subst,
}
use statokgo.Float.{Float}
use statokgo.Go.Strings.{split_byte}
use statokgo.Batch.{Payload, empty}
use statokgo.LineProtocol.{
  SeriesDef, DictionaryState, Encoder, write_all_definitions, write_events, write_header,
  encode_events, close_revision, definitions, encode_line_payload_v4,
}
use statokgo.LineProtocol.Resolve.{names_of, encode_events-number}
use statokgo.LineProtocol.Sent.{start_of, encode_events-definitions}
use statokgo.Transport.Diagnostics.{
  Diagnostics, analyze_line, analyze_lines, series_count, no_diagnostics, with_samples,
  analyze_line_payload_v4,
}
use statokgo.Transport.Diagnostics.Texts.{
  IsClean, write_all_definitions-Reads, write_events-Reads, write_header-Reads,
}
use statokgo.Transport.Diagnostics.Clean.{
  IsCleanPayload, payload_size, encode_events_events, IsCleanEncoder, number-IsCleanEncoder,
  All-behind,
}
use statokgo.Transport.Diagnostics.Lines.{Reads, Reads-append, Reads-same}

-- What the diagnostics of a payload's body count, against the payload and the dictionary before and
-- after it.
pub record AreCounts {V : Type 0} (p : Payload V) (before after : DictionaryState) (body : Bytes)
    (d : Diagnostics) : Type 0 where
  pub definitions : length before.series + d.series_definitions ≡ length after.series
  pub lines : d.event_lines ≡ length p.counters + (length p.values + length p.uniques)
  pub bytes :
      length (write_header after) + (d.series_definition_bytes + d.event_bytes) ≡ length body
  pub dictionary : d.dictionary_series ≡ length after.series

close_revision-keeps :
    (enc : Encoder)
    → ((close_revision enc).series ≡ enc.dict.series)
      × ((close_revision enc).session_id ≡ enc.dict.session_id)
unfolding close_revision
close_revision-keeps enc = (ground arith, ground arith)

module _ {V : Type 0} (F : Float V) (p : Payload V) (state : DictionaryState)
    (clean : IsCleanPayload F p)
    (known : All (λ (s : SeriesDef). IsClean (s.metric, s.labels)) state.series)
    (session : Lacks b'\n' state.session_id) where
  abbrev encoder : Encoder
  encoder = (encode_events F p (start_of state)).1

  encoder-IsCleanEncoder : IsCleanEncoder state.session_id encoder
  encoder-IsCleanEncoder =
      let (ids, same) = encode_events-number F p (start_of state) in
      subst (IsCleanEncoder state.session_id) (sym same) (
        number-IsCleanEncoder state.session_id (names_of F p) (start_of state) clean.names
          (record { series = known; same_session = refl }))

  body_of : Bytes
  body_of =
      write_header (close_revision encoder)
      ++ (definitions encoder false ++ write_events F (encode_events F p (start_of state)).0)

  -- the three parts of a body, one after the other
  body-Reads :
      (given : Option DictionaryState) (d : Diagnostics)
      → (more : List SeriesDef) × (encoder.dict.series ≡ state.series ++ more)
        × Reads given body_of
            (length more)
            (length (definitions encoder false))
            (payload_size F p)
            (length (write_events F (encode_events F p (start_of state)).0))
            d
  unfolding body_of
  body-Reads given d =
      let (more, series, defs) = encode_events-definitions F p state in
      let events = (encode_events F p (start_of state)).0 in
      let (texts, size) = encode_events_events F p (start_of state) clean.ids in
      let state' = close_revision encoder in
      let (same_series, same_session) = close_revision-keeps encoder in
      let cleaned = encoder-IsCleanEncoder in
      let more_clean : All (λ (s : SeriesDef). IsClean (s.metric, s.labels)) more =
        All-behind _ state.series more
          (subst (All (λ (s : SeriesDef). IsClean (s.metric, s.labels))) series cleaned.series) in
      let r1 =
        write_header-Reads given state' d
          (subst (Lacks b'\n') (sym (same_session ∙ cleaned.same_session)) session) in
      let r2 : Reads given (definitions encoder false) (length more)
          (length (definitions encoder false)) 0 0 r1.behind =
        Reads-same given (write_all_definitions (length state.series) more)
          (definitions encoder false) r1.behind defs (refl, ap length (sym defs), refl, refl)
          (write_all_definitions-Reads given (length state.series) more r1.behind more_clean) in
      let r3 = write_events-Reads F clean.numbers given events r2.behind texts in
      let r = Reads-append given _ _ d r1 (Reads-append given _ _ r1.behind r2 r3) in
      (
        more,
        series,
        Reads-same given _ _ d refl (omega arith, omega arith, omega (arith, size), omega arith) r,
      )

  encoded :
      empty p ≡ false → encode_line_payload_v4 F p state false ≡ (body_of, close_revision encoder)
  unfolding encode_line_payload_v4 body_of
  encoded full = rw full

  no_line :
      (given : Option DictionaryState) (d : Diagnostics)
      → analyze_lines given (split_byte b'\n' []) d ≡ d
  unfolding analyze_lines analyze_line split_byte is_empty
  no_line given d = refl

  read_body :
      (given : Option DictionaryState)
      → given ≡ some (close_revision encoder)
      → AreCounts p state (close_revision encoder) body_of (analyze_line_payload_v4 body_of given)
  unfolding analyze_line_payload_v4 with_samples
  read_body given at =
      let (more, series, r) = body-Reads given (no_diagnostics given) in
      let state' = close_revision encoder in
      let events = (encode_events F p (start_of state)).0 in
      let eq : analyze_lines given (split_byte b'\n' body_of) (no_diagnostics given) ≡ r.behind =
        ap (λ s. analyze_lines given (split_byte b'\n' s) (no_diagnostics given))
          (sym (append-nil body_of))
        ∙ r.reads []
        ∙ no_line given r.behind in
      subst (λ (d : Diagnostics). AreCounts p state state' body_of (with_samples d)) (sym eq)
        (unfold no_diagnostics body_of in
          record {
            definitions = omega (
              arith,
              r.adds.more_definitions,
              length-append state.series more,
              ap length series,
              ap length (close_revision-keeps encoder).0,
            );
            lines = omega (arith, r.adds.more_lines);
            bytes = omega (
              arith,
              r.adds.more_definition_bytes,
              r.adds.more_line_bytes,
              length-append (write_header state')
                  (definitions encoder false ++ write_events F events),
              length-append (definitions encoder false) (write_events F events),
            );
            dictionary = r.adds.same_dictionary ∙ ap series_count at;
          })

  -- The diagnostics of a request count what the encoder wrote: as many definitions as the dictionary
  -- has gained series, one event line for each event of the payload, all bytes of the body behind the
  -- header, and the series of the dictionary. This is for a payload that is not empty and whose names,
  -- labels and unique IDs, like those of the dictionary, have no line feed, and for number formats
  -- without one.
  pub analyze_line_payload_v4-AreCounts :
      empty p ≡ false
      → AreCounts p state
          (encode_line_payload_v4 F p state false).1
          (encode_line_payload_v4 F p state false).0
          (analyze_line_payload_v4
            (encode_line_payload_v4 F p state false).0
            (some (encode_line_payload_v4 F p state false).1))
  analyze_line_payload_v4-AreCounts full =
      subst
        (λ (r : Bytes × DictionaryState).
          AreCounts p state r.1 r.0 (analyze_line_payload_v4 r.0 (some r.1)))
        (sym (encoded full)) (read_body (some (close_revision encoder)) refl)
