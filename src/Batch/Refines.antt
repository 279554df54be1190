-- ===== src/Batch/Refines.antt =====
-- batch_builder.go: the builder against the reference.
use statokgo.Prelude.{ℕ, Bytes, List, [], ◌∷◌, Option, some, ◌≡◌, refl, ap, ◌∙◌, All}
use statokgo.Float.{Float}
use statokgo.Event.{Event, MetricType}
use statokgo.Batch.{BatchBuilder, Payload, add, add_typed, add_all, add_unique, new_batch_builder}
use statokgo.Batch.Reference.{merge_typed, merge_all}
use statokgo.Batch.Tracks.{Tracks, Tracks-new, add_counter-Adds}
use statokgo.Batch.Uniques.{IsCleanEvent, Remembers, Remembers-new, add_unique_lem}

module _ {V : Type 0} (F : Float V) (series_hash : Bytes → List Bytes → ℕ) where
  record IsSound (b : BatchBuilder V) : Type 0 where
    tracks : Tracks series_hash b
    remembers : Remembers b

  abbrev Merges : Payload V → MetricType → Event V → Option (BatchBuilder V) → Type 0
  Merges p t e result =
      (b' : BatchBuilder V) × (result ≡ some b') × IsSound b' × (b'.payload ≡ merge_typed F t p e)

  Remembers-move :
      (b c : BatchBuilder V)
      → Remembers b
      → c.unique_seen ≡ b.unique_seen
      → c.payload.uniques ≡ b.payload.uniques
      → Remembers c
  Remembers-move b c r seen uniques = record {
    keys = λ key. rw (seen, uniques) (r.keys key);
    clean = rw uniques r.clean;
  }

  Tracks-move :
      (b c : BatchBuilder V)
      → Tracks series_hash b
      → c.counter_entries ≡ b.counter_entries
      → c.counter_aggs ≡ b.counter_aggs
      → c.payload.counters ≡ b.payload.counters
      → Tracks series_hash c
  Tracks-move b c t entries aggs counters = record {
    linked = rw entries t.linked;
    heads = λ h. rw (entries, aggs) (t.heads h);
    mirrors = rw (entries, counters) t.mirrors;
    distinct = rw entries t.distinct;
    count = rw (entries, counters) t.count;
  }

  add_typed-Merges :
      (t : MetricType) (b : BatchBuilder V) (e : Event V)
      → IsSound b
      → IsCleanEvent e
      → Merges b.payload t e (add_typed F series_hash t b e)
  unfolding add_typed
  add_typed-Merges MetricType.counter b e s clean =
      let (b', at, t, p, seen) = add_counter-Adds F series_hash b e s.tracks in
      (
        b',
        at,
        record {
          tracks = t;
          remembers = Remembers-move b b' s.remembers seen (ap (λ (q : Payload V). q.uniques) p);
        },
        p,
      )
  add_typed-Merges MetricType.value b e s clean = (
    _,
    refl,
    record {
      tracks = Tracks-move b _ s.tracks refl refl refl;
      remembers = Remembers-move b _ s.remembers refl refl;
    },
    refl,
  )
  add_typed-Merges MetricType.unique b e s clean =
      let (p, entries, aggs, r) = add_unique_lem b e s.remembers clean in
      (
        add_unique b e,
        refl,
        record {
          tracks =
              Tracks-move b (add_unique b e) s.tracks entries aggs
                (ap (λ (q : Payload V). q.counters) p);
          remembers = r;
        },
        p,
      )
  add_typed-Merges MetricType.total b e s clean = (b, refl, s, refl)
  add_typed-Merges MetricType.unset b e s clean = (b, refl, s, refl)

  add_all-merge_all :
      (b : BatchBuilder V) (es : List (Event V))
      → IsSound b
      → All IsCleanEvent es
      → (b' : BatchBuilder V) × (add_all F series_hash b es ≡ some b')
        × (b'.payload ≡ merge_all F b.payload es)
  unfolding add_all add merge_all
  add_all-merge_all b [] s clean = (b, refl, refl)
  add_all-merge_all b (e ∷ es) s (clean, rest) =
      let (b', at, s', p) = add_typed-Merges e.typ b e s clean in
      let (b'', at', p') = add_all-merge_all b' es s' rest in
      (b'', rw (at, add_all, add) at', p' ∙ ap (λ (q : Payload V). merge_all F q es) p)

  -- The batch builder never panics, and its payload is that of the reference, which knows no hash and
  -- no index: for any hash function, any arithmetic on the values, and any events in which no name,
  -- label or unique ID holds a zero byte.
  pub add_all_refines :
      (es : List (Event V))
      → All IsCleanEvent es
      → (b : BatchBuilder V) × (add_all F series_hash new_batch_builder es ≡ some b)
        × (b.payload
            ≡ merge_all F (record { batch_id = []; counters = []; values = []; uniques = [] }) es)
  unfolding new_batch_builder
  add_all_refines es clean =
      add_all-merge_all new_batch_builder es
        (record { tracks = Tracks-new series_hash; remembers = Remembers-new }) clean
