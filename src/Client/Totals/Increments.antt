-- ===== src/Client/Totals/Increments.antt =====
-- client.go, applyTotal: what the readings of a running total count.
use statokgo.Prelude.{
  ℕ, ◌-◌, ◌<◌, leb, ltb, ◌==◌, true, false, Bytes, List, [], ◌∷◌, ◌++◌, Option, none, some, ◌≡◌,
  refl, sym, ap, ◌∙◌, arith, All, lookup, insert, lookup-insert, text_eq, bytes_eq, bytes_eq_iff,
  if◌then◌else◌, Bool-cases, inl, inr, map,
}
use statokgo.Float.{Float, IsExact, exact_limit}
use statokgo.Event.{Event, MetricType}
use statokgo.Batch.{series_key}
use statokgo.Client.Totals.{apply_total, apply_known}

-- A reading of a total: the series, and the whole number that it stands at.
pub record Reading : Type 0 where
  pub metric : Bytes
  pub labels : List Bytes
  pub count : ℕ

-- the readings of the series that has this key, in their order
unfoldable pub counts_of : Bytes → List Reading → List ℕ
counts_of key [] = []
counts_of key (r ∷ rs) =
    let rest = counts_of key rs in
    if bytes_eq key (series_key r.metric r.labels) then r.count ∷ rest else rest

-- The rises from one reading to the next; a fall, or a reading that is the same, counts nothing.
unfoldable pub rises : ℕ → List ℕ → List ℕ
rises prev [] = []
rises prev (n ∷ ns) = let rest = rises n ns in if ltb prev n then (n - prev) ∷ rest else rest

module _ {V : Type 0} (F : Float V) (whole : ℕ → V) where
  abbrev pub event_of : Reading → Event V
  event_of r = record {
    typ = MetricType.total;
    name = r.metric;
    amount = whole r.count;
    unique_id = [];
    labels = r.labels;
    ts = 0;
  }

  emitted : Bytes → Reading → Option (Event V) → List V
  emitted key r none = []
  emitted key r (some ev) =
      if bytes_eq key (series_key r.metric r.labels) then ev.amount ∷ [] else []

  -- What applyTotal makes of one reading after the other: the counted amounts of one series.
  unfoldable pub counted : Bytes → List Reading → List (Bytes × V) → ℕ → List V
  unfolding emitted
  counted key [] totals limit = []
  counted key (r ∷ rs) totals limit =
      let (totals', ev) = apply_total F (event_of r) totals limit in
      emitted key r ev ++ counted key rs totals' limit

  module _ (exact : IsExact F whole) where
    Exact : Reading → Type 0
    Exact r = r.count < exact_limit

    apply_total-same :
        (r : Reading) (totals : List (Bytes × V)) (limit prev : ℕ)
        → lookup text_eq (series_key r.metric r.labels) totals ≡ some (whole prev)
        → (limit == 0) ≡ false
        → r.count < exact_limit
        → prev < exact_limit
        → (lookup text_eq (series_key r.metric r.labels) (apply_total F (event_of r) totals limit).0
            ≡ some (whole r.count))
          × (emitted (series_key r.metric r.labels) r (apply_total F (event_of r) totals limit).1
              ≡ map whole (if ltb prev r.count then (r.count - prev) ∷ [] else []))
    unfolding apply_total apply_known emitted
    apply_total-same r totals limit prev at some_limit fits fits' =
        let key = series_key r.metric r.labels in
        let stored : lookup text_eq key (insert text_eq key (whole r.count) totals)
            ≡ some (whole r.count) =
          lookup-insert text_eq key key (whole r.count) totals
          ∙ rw ((bytes_eq_iff key key).1 refl) refl in
        let self : bytes_eq key key ≡ true = (bytes_eq_iff key key).1 refl in
        let less = exact.exact_lt r.count prev fits fits' in
        let difference = exact.exact_sub r.count prev fits in
        let nothing = exact.exact_le_zero (r.count - prev) (omega arith) in
        elim (Bool-cases (ltb r.count prev)) [
          | inl fell ↦
              let no_rise : ltb prev r.count ≡ false = ground arith in
              rw (some_limit, at, less, fell, no_rise) (stored, refl)
          | inr not_fell ↦ elim (Bool-cases (ltb prev r.count)) [
            | inl rose ↦
                let positive : leb (r.count - prev) 0 ≡ false = ground arith in
                rw
                  (
                    some_limit,
                    at,
                    less,
                    not_fell,
                    difference (ground arith),
                    nothing,
                    positive,
                    rose,
                    self,
                  )
                  (stored, refl)
            | inr stays ↦
                let zero_rise : leb (r.count - prev) 0 ≡ true = ground arith in
                rw
                  (
                    some_limit,
                    at,
                    less,
                    not_fell,
                    difference (ground arith),
                    nothing,
                    zero_rise,
                    stays,
                  )
                  (stored, refl)
          ]
        ]

    emitted-other :
        (key : Bytes) (r : Reading) (o : Option (Event V))
        → bytes_eq key (series_key r.metric r.labels) ≡ false
        → emitted key r o ≡ []
    unfolding emitted
    emitted-other key r none other = refl
    emitted-other key r (some ev) other = rw other refl

    apply_total-other :
        (key : Bytes) (r : Reading) (totals : List (Bytes × V)) (limit : ℕ)
        → bytes_eq key (series_key r.metric r.labels) ≡ false
        → (lookup text_eq key (apply_total F (event_of r) totals limit).0
            ≡ lookup text_eq key totals)
          × (emitted key r (apply_total F (event_of r) totals limit).1 ≡ [])
    unfolding apply_total apply_known emitted
    apply_total-other key r totals limit other =
        let stored =
          lookup-insert text_eq (series_key r.metric r.labels) key (whole r.count) totals in
        let ne : bytes_eq (series_key r.metric r.labels) key ≡ false = ground (
          arith,
          bytes_eq_iff (series_key r.metric r.labels) key,
          bytes_eq_iff key (series_key r.metric r.labels),
        ) in
        (ground (arith, stored, ne), emitted-other key r _ other)

    -- A series whose last reading is known counts exactly its rises: each reading above the one
    -- before it counts the difference, a reading that is lower (a counter that was reset) or the
    -- same counts nothing, and the readings of other series in between change nothing. This holds
    -- for readings that are whole numbers below 2^53, on which float64 is exact, and for any limit
    -- on the number of series but 0.
    pub counted-rises :
        (key : Bytes) (rs : List Reading) (totals : List (Bytes × V)) (limit prev : ℕ)
        → lookup text_eq key totals ≡ some (whole prev)
        → (limit == 0) ≡ false
        → prev < exact_limit
        → All (λ r. r.count < exact_limit) rs
        → counted key rs totals limit ≡ map whole (rises prev (counts_of key rs))
    unfolding counted counts_of rises
    counted-rises key [] totals limit prev at some_limit fits all = refl
    counted-rises key (r ∷ rs) totals limit prev at some_limit fits (fits', all) =
        elim (Bool-cases (bytes_eq key (series_key r.metric r.labels))) [
          | inl same ↦
              let is_key = (bytes_eq_iff key (series_key r.metric r.labels)).0 same in
              let (at', out) =
                apply_total-same r totals limit prev
                  (ap (λ (k : Bytes). lookup text_eq k totals) (sym is_key) ∙ at) some_limit fits'
                  fits in
              let next_at =
                ap (λ (k : Bytes). lookup text_eq k (apply_total F (event_of r) totals limit).0)
                  is_key
                ∙ at' in
              let rest =
                counted-rises key rs (apply_total F (event_of r) totals limit).0 limit r.count
                  next_at some_limit fits' all in
              let out_key =
                ap (λ (k : Bytes). emitted k r (apply_total F (event_of r) totals limit).1) is_key
                ∙ out in
              elim (Bool-cases (ltb prev r.count)) [
                | inl rose ↦
                    rw (same, out_key, rose) (ap (λ (l : List V). whole (r.count - prev) ∷ l) rest)
                | inr stays ↦ rw (same, out_key, stays) rest
              ]
          | inr other ↦
              let (at', out) = apply_total-other key r totals limit other in
              rw (other, out)
                (counted-rises key rs (apply_total F (event_of r) totals limit).0 limit prev
                  (at' ∙ at) some_limit fits all)
        ]
