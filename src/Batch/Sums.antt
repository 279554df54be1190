-- ===== src/Batch/Sums.antt =====
-- batch_builder.go: the counters of a batch, and the sums that they hold.
use statokgo.Prelude.{
  ℕ, zero, suc, ◌+◌, ◌≤◌, ◌<◌, ◌==◌, Bool, true, false, ◌&&◌, Bytes, List, [], ◌∷◌, Option, none,
  some, ◌≡◌, refl, ap, ◌∙◌, All, arith, length, length-append, bytes_eq_iff, all_eq_iff,
  if◌then◌else◌,
}
use statokgo.Float.{Float}
use statokgo.Event.{Event, MetricType}
use statokgo.Batch.{
  CounterEvent, BatchBuilder, Payload, add_all, new_batch_builder, new_counter, bump_counter,
  default_max_series_per_batch,
}
use statokgo.Batch.Reference.{same_series, merge_counter, merge_typed, merge_all}
use statokgo.Batch.Refines.{add_all_refines}
use statokgo.Batch.Uniques.{IsCleanEvent}

module _ {V : Type 0} (metric : Bytes) (labels : List Bytes) where
  -- The value of the first counter of a series.
  unfoldable pub value_of : List (CounterEvent V) → Option V
  value_of [] = none
  value_of (c ∷ cs) =
      if same_series c.metric c.labels metric labels then some c.value else value_of cs

  -- how many counters a series has
  unfoldable pub counters_of : List (CounterEvent V) → ℕ
  counters_of [] = 0
  counters_of (c ∷ cs) =
      (if same_series c.metric c.labels metric labels then 1 else 0) + counters_of cs

module _ {V : Type 0} (F : Float V) where
  -- The deltas of a series added up from the left, in the order in which they were counted.
  abbrev pub add_delta : Option V → V → V
  add_delta none x = x
  add_delta (some v) x = F.add v x

  abbrev pub sum_typed : MetricType → Bool → Option V → Event V → Option V
  sum_typed MetricType.counter true acc e = some (add_delta acc e.amount)
  sum_typed MetricType.counter false acc e = acc
  sum_typed MetricType.value b acc e = acc
  sum_typed MetricType.total b acc e = acc
  sum_typed MetricType.unique b acc e = acc
  sum_typed MetricType.unset b acc e = acc

  unfoldable pub sum_deltas : Bytes → List Bytes → Option V → List (Event V) → Option V
  sum_deltas metric labels acc [] = acc
  sum_deltas metric labels acc (e ∷ es) =
      sum_deltas metric labels (sum_typed e.typ (same_series e.name e.labels metric labels) acc e)
        es

  module _ (metric : Bytes) (labels : List Bytes) where
    -- what one counter event does to the value of a series
    value_of-merge_counter :
        (n : ℕ) (e : Event V) (cs : List (CounterEvent V))
        → length cs < n
        → value_of metric labels (merge_counter F n e cs)
          ≡ sum_typed MetricType.counter
              (same_series e.name e.labels metric labels)
              (value_of metric labels cs)
              e
    unfolding value_of merge_counter new_counter bump_counter
    value_of-merge_counter zero e cs h = elim h [ ]
    value_of-merge_counter (suc n) e [] h = ground arith
    value_of-merge_counter (suc n) e (c ∷ cs) h = ground (
      arith,
      value_of-merge_counter n e cs,
      bytes_eq_iff c.metric e.name,
      all_eq_iff c.labels e.labels,
      bytes_eq_iff c.metric metric,
      all_eq_iff c.labels labels,
      bytes_eq_iff e.name metric,
      all_eq_iff e.labels labels,
    )

  length-merge_counter :
      (n : ℕ) (e : Event V) (cs : List (CounterEvent V))
      → length (merge_counter F n e cs) ≤ length cs + 1
  unfolding merge_counter
  length-merge_counter zero e cs = omega (arith, length-append cs (new_counter e ∷ []))
  length-merge_counter (suc n) e [] = omega arith
  length-merge_counter (suc n) e (c ∷ cs) = ground (arith, length-merge_counter n e cs)

  module _ (metric : Bytes) (labels : List Bytes) where
    counters_of-merge_counter :
        (n : ℕ) (e : Event V) (cs : List (CounterEvent V))
        → length cs < n
        → counters_of metric labels (merge_counter F n e cs) ≡ (
            if same_series e.name e.labels metric labels && counters_of metric labels cs == 0
            then 1
            else counters_of metric labels cs)
    unfolding counters_of merge_counter new_counter bump_counter
    counters_of-merge_counter zero e cs h = elim h [ ]
    counters_of-merge_counter (suc n) e [] h = ground arith
    counters_of-merge_counter (suc n) e (c ∷ cs) h = ground (
      arith,
      counters_of-merge_counter n e cs,
      bytes_eq_iff c.metric e.name,
      all_eq_iff c.labels e.labels,
      bytes_eq_iff c.metric metric,
      all_eq_iff c.labels labels,
      bytes_eq_iff e.name metric,
      all_eq_iff e.labels labels,
    )

    merge_typed-value_of :
        (t : MetricType) (p : Payload V) (e : Event V)
        → length p.counters < default_max_series_per_batch
        → value_of metric labels (merge_typed F t p e).counters
          ≡ sum_typed t
              (same_series e.name e.labels metric labels)
              (value_of metric labels p.counters)
              e
    merge_typed-value_of MetricType.counter p e h =
        value_of-merge_counter metric labels default_max_series_per_batch e p.counters h
    merge_typed-value_of MetricType.value p e h = refl
    merge_typed-value_of MetricType.total p e h = refl
    merge_typed-value_of MetricType.unique p e h = refl
    merge_typed-value_of MetricType.unset p e h = refl

    merge_typed-counters_of :
        (t : MetricType) (p : Payload V) (e : Event V)
        → length p.counters < default_max_series_per_batch
        → counters_of metric labels p.counters ≤ 1
        → (counters_of metric labels (merge_typed F t p e).counters ≤ 1)
          × (length (merge_typed F t p e).counters ≤ length p.counters + 1)
    merge_typed-counters_of MetricType.counter p e h k = (
      ground (arith, counters_of-merge_counter default_max_series_per_batch e p.counters h),
      length-merge_counter default_max_series_per_batch e p.counters,
    )
    merge_typed-counters_of MetricType.value p e h k = (k, omega arith)
    merge_typed-counters_of MetricType.total p e h k = (k, omega arith)
    merge_typed-counters_of MetricType.unique p e h k = (k, omega arith)
    merge_typed-counters_of MetricType.unset p e h k = (k, omega arith)

    merge_all-sums :
        (p : Payload V) (es : List (Event V))
        → length p.counters + length es ≤ default_max_series_per_batch
        → counters_of metric labels p.counters ≤ 1
        → (value_of metric labels (merge_all F p es).counters
            ≡ sum_deltas metric labels (value_of metric labels p.counters) es)
          × (counters_of metric labels (merge_all F p es).counters ≤ 1)
    unfolding merge_all sum_deltas
    merge_all-sums p [] h k = (refl, k)
    merge_all-sums p (e ∷ es) h k =
        let (k', l') = merge_typed-counters_of e.typ p e (omega arith) k in
        let (v, c) = merge_all-sums (merge_typed F e.typ p e) es (omega (arith, l')) k' in
        (
          v
              ∙ ap (λ (acc : Option V). sum_deltas metric labels acc es)
                  (merge_typed-value_of e.typ p e (omega arith)),
          c,
        )

module _ {V : Type 0} (F : Float V) (series_hash : Bytes → List Bytes → ℕ) where
  -- From at most 2,048 events, in which no name, label or unique ID holds a zero byte, the builder
  -- makes at most one counter for each series. It is there exactly if the series was counted, and
  -- holds the deltas of the series added up in the order of the events.
  pub batch_sums :
      (metric : Bytes) (labels : List Bytes) (es : List (Event V))
      → All IsCleanEvent es
      → length es ≤ default_max_series_per_batch
      → (b : BatchBuilder V) × (add_all F series_hash new_batch_builder es ≡ some b)
        × (value_of metric labels b.payload.counters ≡ sum_deltas F metric labels none es)
        × (counters_of metric labels b.payload.counters ≤ 1)
  batch_sums metric labels es clean h =
      let (b, at, p) = add_all_refines F series_hash es clean in
      let (v, c) =
        merge_all-sums F metric labels
          (record { batch_id = []; counters = []; values = []; uniques = [] }) es (omega arith)
          (unfold counters_of in omega arith) in
      let counters = ap (λ (q : Payload V). q.counters) p in
      (b, at, rw counters (v ∙ unfold value_of in refl), rw counters c)
