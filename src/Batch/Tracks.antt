-- ===== src/Batch/Tracks.antt =====
-- The builder's invariant: chains, heads and entries describe the counters of the payload.
use mathlib.Core.List.{reverse, reverse-append, reverse-reverse}
use statokgo.Prelude.{
  ℕ, zero, suc, ◌+◌, min, ◌==◌, Bytes, List, [], ◌∷◌, ◌++◌, Option, none, some, ◌≡◌, refl, sym, ap,
  ◌∙◌, length, length-append, length-set, get_elem?, set, All-append, if◌then◌else◌, arith,
  Bool-cases, inl, inr, append-nil, lookup-insert, nat_eq, leb, insert, lookup, length-reverse,
}
use statokgo.Float.{Float}
use statokgo.Event.{Event}
use statokgo.Batch.{
  CounterAggEntry, CounterEvent, BatchBuilder, find_entry, head_of, new_counter, bump_counter,
  append_counter, store_counter, add_counter, default_max_series_per_batch, new_batch_builder,
}
use statokgo.Batch.Reference.{merge_counter}
use statokgo.Batch.Chains.{latest, IsLinked, find_entry-newest}
use statokgo.Batch.Places.{
  place, search_at, Differs, IsDistinct, Mirrors, newest-place, Merged, merge_placed,
}

Mirrors-append :
    {V : Type 0} (i : ℕ) (es : List CounterAggEntry) (cs ds : List (CounterEvent V))
    → Mirrors i es cs
    → Mirrors i es (cs ++ ds)
Mirrors-append i [] cs ds m = tt
Mirrors-append i (e ∷ es) [] ds m = absurd m
Mirrors-append i (e ∷ es) (c ∷ cs) ds (a, b, at, m) = (a, b, at, Mirrors-append (suc i) es cs ds m)

Mirrors-snoc :
    {V : Type 0} (i : ℕ) (es : List CounterAggEntry) (cs : List (CounterEvent V))
    (e : CounterAggEntry) (c : CounterEvent V)
    → Mirrors i es cs
    → length es ≡ length cs
    → e.metric ≡ c.metric
    → e.labels ≡ c.labels
    → e.payload_index ≡ i + length cs
    → Mirrors i (es ++ e ∷ []) (cs ++ c ∷ [])
Mirrors-snoc i [] [] e c m l a b at = (a, b, omega arith, tt)
Mirrors-snoc i [] (d ∷ cs) e c m l a b at = absurd (omega arith)
Mirrors-snoc i (x ∷ es) [] e c m l a b at = absurd m
Mirrors-snoc i (x ∷ es) (d ∷ cs) e c (xa, xb, xat, m) l a b at =
    (xa, xb, xat, Mirrors-snoc (suc i) es cs e c m (omega arith) a b (omega arith))

Mirrors-set :
    {V : Type 0} (i : ℕ) (es : List CounterAggEntry) (cs : List (CounterEvent V)) (p : ℕ)
    (c d : CounterEvent V)
    → Mirrors i es cs
    → get_elem? cs p ≡ some c
    → d.metric ≡ c.metric
    → d.labels ≡ c.labels
    → Mirrors i es (set cs p d)
Mirrors-set i [] cs p c d m at a b = tt
Mirrors-set i (e ∷ es) [] p c d m at a b = absurd m
Mirrors-set i (e ∷ es) (x ∷ cs) zero c d (ea, eb, eat, m) at a b =
    (ground arith, ground arith, eat, m)
Mirrors-set i (e ∷ es) (x ∷ cs) (suc p) c d (ea, eb, eat, m) at a b =
    (ea, eb, eat, Mirrors-set (suc i) es cs p c d m at a b)

IsDistinct-snoc :
    (es : List CounterAggEntry) (e : CounterAggEntry)
    → IsDistinct es
    → Differs e.metric e.labels es
    → IsDistinct (es ++ e ∷ [])
IsDistinct-snoc [] e d h = (tt, tt)
IsDistinct-snoc (x ∷ es) e (dx, d) (hx, h) =
    (All-append _ es (e ∷ []) dx (hx, tt), IsDistinct-snoc es e d h)

Differs-of_place :
    (metric : Bytes) (labels : List Bytes) (es : List CounterAggEntry)
    → place metric labels es ≡ none
    → Differs metric labels es
unfolding place
Differs-of_place metric labels [] h = tt
Differs-of_place metric labels (e ∷ es) h =
    (ground arith, Differs-of_place metric labels es (ground arith))

module _ {V : Type 0} (series_hash : Bytes → List Bytes → ℕ) where
  pub record Tracks (b : BatchBuilder V) : Type 0 where
    pub linked : IsLinked series_hash (reverse b.counter_entries)
    pub heads :
        (h : ℕ) → head_of b.counter_aggs h ≡ latest series_hash h (reverse b.counter_entries)
    pub mirrors : Mirrors 0 b.counter_entries b.payload.counters
    pub distinct : IsDistinct b.counter_entries
    pub count :
        length b.counter_entries ≡ min default_max_series_per_batch (length b.payload.counters)

  pub Tracks-new : Tracks new_batch_builder
  unfolding new_batch_builder head_of latest lookup
  Tracks-new = record {
    linked = tt;
    heads = λ h. refl;
    mirrors = tt;
    distinct = tt;
    count = omega arith;
  }

  -- The search comes to the place of the series.
  pub find_entry-place :
      (b : BatchBuilder V) (metric : Bytes) (labels : List Bytes)
      → Tracks b
      → find_entry
          (suc (length b.counter_entries))
          b.counter_entries
          (head_of b.counter_aggs (series_hash metric labels))
          metric
          labels
        ≡ search_at 0 (place metric labels b.counter_entries)
  find_entry-place b metric labels t =
      let es = b.counter_entries in
      let whole : es ≡ reverse (reverse es) ++ [] =
        sym (append-nil (reverse (reverse es)) ∙ reverse-reverse es) in
      ap (λ (k : ℕ). find_entry (suc (length es)) es k metric labels)
        (t.heads (series_hash metric labels))
      ∙ find_entry-newest series_hash metric labels (reverse es) [] es (suc (length es)) whole
          t.linked (omega (arith, length-reverse es))
      ∙ newest-place metric labels 0 es b.payload.counters t.mirrors t.distinct

head_of-insert :
    (h k v : ℕ) (aggs : List (ℕ × ℕ))
    → head_of (insert nat_eq h v aggs) k ≡ (if h == k then v else head_of aggs k)
unfolding head_of
head_of-insert h k v aggs = ground (arith, lookup-insert nat_eq h k v aggs)

module _ {V : Type 0} (series_hash : Bytes → List Bytes → ℕ) where
  -- A counter of a new series: the payload grows, and the entries if there is room.
  append_counter-Tracks :
      (b : BatchBuilder V) (e : Event V)
      → Tracks series_hash b
      → place e.name e.labels b.counter_entries ≡ none
      → Tracks series_hash (append_counter b (series_hash e.name e.labels) e)
  unfolding append_counter
  append_counter-Tracks b e t new =
      let es = b.counter_entries in
      let cs = b.payload.counters in
      let hash = series_hash e.name e.labels in
      let entry : CounterAggEntry = record {
        metric = e.name;
        labels = e.labels;
        payload_index = length cs;
        next = head_of b.counter_aggs hash;
      } in
      elim (Bool-cases (leb default_max_series_per_batch (length es))) [
        | inl full ↦ rw full (record {
          linked = t.linked;
          heads = t.heads;
          mirrors = Mirrors-append 0 es cs _ t.mirrors;
          distinct = t.distinct;
          count = rw length-append (ground (arith, t.count));
        })
        | inr room ↦ rw room (record {
          linked = rw (reverse-append es (entry ∷ [])) (t.heads hash, t.linked);
          heads = λ h.
              rw (reverse-append es (entry ∷ []), head_of-insert, t.heads h, length-append)
                (unfold latest in rw length-reverse (ground arith));
          mirrors =
              Mirrors-snoc 0 es cs entry (new_counter e) t.mirrors (ground (arith, t.count))
                (unfold new_counter in refl) (unfold new_counter in refl) (omega arith);
          distinct = IsDistinct-snoc es entry t.distinct (Differs-of_place e.name e.labels es new);
          count = rw (length-append es, length-append cs) (ground (arith, t.count));
        })
      ]

  append_counter-payload :
      (b : BatchBuilder V) (h : ℕ) (e : Event V)
      → (append_counter b h e).payload
        ≡ record b.payload { counters = b.payload.counters ++ new_counter e ∷ [] }
  unfolding append_counter
  append_counter-payload b h e = ground arith

  append_counter-seen :
      (b : BatchBuilder V) (h : ℕ) (e : Event V)
      → (append_counter b h e).unique_seen ≡ b.unique_seen
  unfolding append_counter
  append_counter-seen b h e = ground arith

module _ {V : Type 0} (F : Float V) (series_hash : Bytes → List Bytes → ℕ) where
  -- What adding a counter event does: it succeeds, keeps the invariant, and merges the event.
  abbrev pub Adds : BatchBuilder V → Event V → Option (BatchBuilder V) → Type 0
  Adds b e result =
      (b' : BatchBuilder V) × (result ≡ some b')
      × Tracks series_hash b'
      × (b'.payload ≡ record b.payload {
        counters = merge_counter F default_max_series_per_batch e b.payload.counters;
      })
      × (b'.unique_seen ≡ b.unique_seen)

  store_counter-Adds :
      (b : BatchBuilder V) (e : Event V) (o : Option ℕ)
      → Tracks series_hash b
      → place e.name e.labels b.counter_entries ≡ o
      → Merged F default_max_series_per_batch e b.payload.counters o
      → Adds b e (store_counter F series_hash b e (search_at 0 o))
  unfolding store_counter search_at
  store_counter-Adds b e none t at merged = (
    append_counter b (series_hash e.name e.labels) e,
    refl,
    append_counter-Tracks series_hash b e t at,
    rw merged (append_counter-payload series_hash b _ e),
    append_counter-seen series_hash b _ e,
  )
  store_counter-Adds b e (some p) t at (c, found_at, merged) =
      let b' : BatchBuilder V = record b {
        payload = record b.payload { counters = set b.payload.counters p (bump_counter F e c) };
      } in
      (
        b',
        ground (arith, found_at),
        record {
          linked = t.linked;
          heads = t.heads;
          mirrors =
              Mirrors-set 0 b.counter_entries b.payload.counters p c (bump_counter F e c) t.mirrors
                found_at (unfold bump_counter in refl) (unfold bump_counter in refl);
          distinct = t.distinct;
          count = rw length-set t.count;
        },
        rw merged,
        refl,
      )

  pub add_counter-Adds :
      (b : BatchBuilder V) (e : Event V)
      → Tracks series_hash b
      → Adds b e (add_counter F series_hash b e)
  unfolding add_counter
  add_counter-Adds b e t = rw (find_entry-place series_hash b e.name e.labels t) (
      store_counter-Adds b e (place e.name e.labels b.counter_entries) t refl (
        merge_placed F e default_max_series_per_batch 0 b.counter_entries b.payload.counters
          t.mirrors t.count))
