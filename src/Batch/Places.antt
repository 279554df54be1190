-- ===== src/Batch/Places.antt =====
-- Where the entry of a series stands, and that the reference merges at the same place.
use mathlib.Core.List.{reverse, reverse-append}
use statokgo.Prelude.{
  ℕ, zero, suc, ◌+◌, min, true, false, Bytes, List, [], ◌∷◌, ◌++◌, Option, none, some, ◌≡◌, refl,
  length, get_elem?, set, All, if◌then◌else◌, arith, Bool-cases, inl, inr, bytes_eq_iff, all_eq_iff,
}
use statokgo.Float.{Float}
use statokgo.Event.{Event}
use statokgo.Batch.{
  CounterAggEntry, CounterEvent, Search, found, missing, panic, new_counter, bump_counter,
}
use statokgo.Batch.Reference.{same_series, merge_counter}
use statokgo.Batch.Chains.{newest}

-- the place of the only entry of a series, from the oldest on
unfoldable pub place : Bytes → List Bytes → List CounterAggEntry → Option ℕ
place metric labels [] = none
place metric labels (e ∷ es) =
    if same_series e.metric e.labels metric labels
    then some 0
    else elim (place metric labels es) [ none ↦ none | some p ↦ some (suc p) ]

abbrev pub Differs : Bytes → List Bytes → List CounterAggEntry → Type 0
Differs metric labels = All (λ e. same_series e.metric e.labels metric labels ≡ false)

-- No two entries have one series.
abbrev pub IsDistinct : List CounterAggEntry → Type 0
IsDistinct [] = Unit
IsDistinct (e ∷ es) =
    All (λ d. same_series e.metric e.labels d.metric d.labels ≡ false) es × IsDistinct es

-- Entry i describes counter i.
abbrev pub Mirrors : {V : Type 0} → ℕ → List CounterAggEntry → List (CounterEvent V) → Type 0
Mirrors i [] cs = Unit
Mirrors i (e ∷ es) [] = ⊥
Mirrors i (e ∷ es) (c ∷ cs) =
    (e.metric ≡ c.metric) × (e.labels ≡ c.labels) × (e.payload_index ≡ i) × Mirrors (suc i) es cs

abbrev or_else : Search → Search → Search
or_else missing s = s
or_else (found p) s = found p
or_else panic s = panic

unfoldable pub search_at : ℕ → Option ℕ → Search
search_at i none = missing
search_at i (some p) = found (p + i)

same_series_trans :
    (a b : CounterAggEntry) (metric : Bytes) (labels : List Bytes)
    → same_series a.metric a.labels metric labels ≡ true
    → same_series a.metric a.labels b.metric b.labels ≡ false
    → same_series b.metric b.labels metric labels ≡ false
same_series_trans a b metric labels h k = ground (
  arith,
  bytes_eq_iff a.metric metric,
  all_eq_iff a.labels labels,
  bytes_eq_iff b.metric metric,
  all_eq_iff b.labels labels,
  bytes_eq_iff a.metric b.metric,
  all_eq_iff a.labels b.labels,
)

Differs-of_same :
    (e : CounterAggEntry) (metric : Bytes) (labels : List Bytes) (es : List CounterAggEntry)
    → same_series e.metric e.labels metric labels ≡ true
    → All (λ d. same_series e.metric e.labels d.metric d.labels ≡ false) es
    → Differs metric labels es
Differs-of_same e metric labels [] h k = tt
Differs-of_same e metric labels (d ∷ es) h (kd, k) =
    (same_series_trans e d metric labels h kd, Differs-of_same e metric labels es h k)

module _ (metric : Bytes) (labels : List Bytes) where
  newest-append :
      (xs ys : List CounterAggEntry)
      → newest metric labels (xs ++ ys)
        ≡ or_else (newest metric labels xs) (newest metric labels ys)
  unfolding newest
  newest-append [] ys = refl
  newest-append (x ∷ xs) ys = ground (arith, newest-append xs ys)

  newest-Differs :
      (es : List CounterAggEntry)
      → Differs metric labels es
      → newest metric labels (reverse es) ≡ missing
  unfolding newest
  newest-Differs [] h = refl
  newest-Differs (e ∷ es) (he, h) =
      rw (reverse-append (e ∷ []) es, newest-append, newest-Differs es h) (ground arith)

  -- In entries that mirror the counters the newest entry of a series is the only one.
  pub newest-place :
      {V : Type 0} (i : ℕ) (es : List CounterAggEntry) (cs : List (CounterEvent V))
      → Mirrors i es cs
      → IsDistinct es
      → newest metric labels (reverse es) ≡ search_at i (place metric labels es)
  unfolding newest place search_at
  newest-place i [] cs m d = refl
  newest-place i (e ∷ es) [] m d = absurd m
  newest-place i (e ∷ es) (c ∷ cs) (_, _, at, m) (de, d) =
      rw (reverse-append (e ∷ []) es, newest-append)
        (elim (Bool-cases (same_series e.metric e.labels metric labels)) [
          | inl same ↦
              rw (newest-Differs es (Differs-of_same e metric labels es same de)) (ground arith)
          | inr other ↦ rw (newest-place (suc i) es cs m d) (ground arith)
        ])

-- What the reference makes of a counter event, told by the place of its series.
abbrev pub Merged : {V : Type 0} → Float V → ℕ → Event V → List (CounterEvent V) → Option ℕ → Type 0
Merged F n e cs none = merge_counter F n e cs ≡ cs ++ new_counter e ∷ []
Merged {V} F n e cs (some p) =
    (c : CounterEvent V) × (get_elem? cs p ≡ some c)
    × (merge_counter F n e cs ≡ set cs p (bump_counter F e c))

module _ {V : Type 0} (F : Float V) (e : Event V) where
  Merged-later :
      (n : ℕ) (c : CounterEvent V) (cs : List (CounterEvent V)) (o : Option ℕ)
      → same_series c.metric c.labels e.name e.labels ≡ false
      → Merged F n e cs o
      → Merged F (suc n) e (c ∷ cs) (elim o [ none ↦ none | some p ↦ some (suc p) ])
  unfolding merge_counter
  Merged-later n c cs none other h = rw (other, h)
  Merged-later n c cs (some p) other (found_at, at, h) = (found_at, at, rw (other, h))

  pub merge_placed :
      (n i : ℕ) (es : List CounterAggEntry) (cs : List (CounterEvent V))
      → Mirrors i es cs
      → length es ≡ min n (length cs)
      → Merged F n e cs (place e.name e.labels es)
  unfolding place merge_counter
  merge_placed zero i [] cs m l = refl
  merge_placed (suc n) i [] [] m l = refl
  merge_placed (suc n) i [] (c ∷ cs) m l = absurd (omega arith)
  merge_placed n i (x ∷ es) [] m l = absurd m
  merge_placed zero i (x ∷ es) (c ∷ cs) m l = absurd (omega arith)
  merge_placed (suc n) i (x ∷ es) (c ∷ cs) (metric, labels, _, m) l =
      elim (Bool-cases (same_series x.metric x.labels e.name e.labels)) [
        | inl same ↦ rw same (c, refl, ground arith)
        | inr other ↦ rw other (
            Merged-later n c cs (place e.name e.labels es) (rw (← metric, ← labels) other)
              (merge_placed n (suc i) es cs m (omega arith)))
      ]
