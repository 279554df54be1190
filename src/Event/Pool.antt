-- ===== src/Event/Pool.antt =====
-- event.go: the events that come out of the pool, and their labels.
use statokgo.Prelude.{
  ℕ, Bytes, List, [], ◌∷◌, ◌≡◌, ◌≢◌, refl, arith, All, is_empty, inl, inr, Bool-cases, ap, not,
  filter, map, Bool, true, false, if◌then◌else◌,
}
use statokgo.Float.{Float}
use statokgo.Go.Strings.{trim_space}
use statokgo.Go.Strings.Trim.{trim_space_idem}
use statokgo.Event.{
  MetricType, Event, new_event, release_event, trim_labels, borrow_event, borrow_unique_event,
}

-- What eventPool.Get() may return: a new event, or one that was released.
pub data Pooled {V : Type 0} (F : Float V) : Event V → Type 0 where
  made : Pooled F (new_event F)
  returned : (used : Event V) → Pooled F (release_event F used)

-- The labels that are kept are those that hold more than white space, trimmed.
trim_labels-filter :
    (labels : List Bytes)
    → trim_labels labels ≡ filter (λ l. not (is_empty l)) (map trim_space labels)
unfolding trim_labels
trim_labels-filter [] = refl
trim_labels-filter (l ∷ ls) = go (is_empty (trim_space l)) (trim_labels-filter ls)
  where
    go :
        {rest kept : List Bytes} (blank : Bool)
        → rest ≡ kept
        → (if blank then rest else trim_space l ∷ rest)
          ≡ elim (not blank) [ true ↦ trim_space l ∷ kept | false ↦ kept ]
    go true same = same
    go false same = ap (trim_space l ∷◌) same

module _ {V : Type 0} (F : Float V) where
  -- A borrowed event holds exactly what was asked for and nothing of the event that was pooled,
  -- whether the pool hands out a new event or one that was released: the type, the name, the amount
  -- and the time as given, no unique ID, and the labels trimmed, without those that are blank. An
  -- event for a unique metric has the unique ID, and zero for its amount.
  pub borrow_event-clean :
      (pooled : Event V) (now : ℕ) (typ : MetricType) (name : Bytes) (amount : V)
      (unique_id : Bytes) (labels : List Bytes)
      → Pooled F pooled
      → (borrow_event F pooled now typ name amount labels ≡ record {
        typ = typ;
        name = name;
        amount = amount;
        unique_id = [];
        labels = filter (λ l. not (is_empty l)) (map trim_space labels);
        ts = now;
      })
        × (borrow_unique_event F pooled now name unique_id labels ≡ record {
          typ = MetricType.unique;
          name = name;
          amount = F.zero_value;
          unique_id = unique_id;
          labels = filter (λ l. not (is_empty l)) (map trim_space labels);
          ts = now;
        })
  unfolding borrow_event borrow_unique_event new_event release_event
  borrow_event-clean pooled now typ name amount unique_id labels made =
      rw (trim_labels-filter labels) (refl, refl)
  borrow_event-clean pooled now typ name amount unique_id labels (returned used) =
      rw (trim_labels-filter labels) (refl, refl)

abbrev pub IsTrimmed : Bytes → Type 0
IsTrimmed l = (l ≢ []) × (trim_space l ≡ l)

pub trim_labels-IsTrimmed : (labels : List Bytes) → All IsTrimmed (trim_labels labels)
unfolding trim_labels is_empty
trim_labels-IsTrimmed [] = tt
trim_labels-IsTrimmed (l ∷ ls) = elim (Bool-cases (is_empty (trim_space l))) [
  | inl blank ↦ rw blank (trim_labels-IsTrimmed ls)
  | inr kept ↦ rw kept ((ground arith, trim_space_idem l), trim_labels-IsTrimmed ls)
]

trim_labels_same : (labels : List Bytes) → All IsTrimmed labels → trim_labels labels ≡ labels
unfolding trim_labels is_empty
trim_labels_same [] h = refl
trim_labels_same (l ∷ ls) ((ne, same), hs) = rw (same, trim_labels_same ls hs) (ground arith)

module _ {V : Type 0} (F : Float V) where
  -- Every label of a borrowed event is non-empty and has no white space at its ends, and to trim
  -- its labels once more changes none of them.
  pub borrow_event-labels :
      (pooled : Event V) (now : ℕ) (typ : MetricType) (name : Bytes) (amount : V)
      (labels : List Bytes)
      → All
          (λ l. (l ≢ []) × (trim_space l ≡ l))
          (borrow_event F pooled now typ name amount labels).labels
        × (trim_labels (borrow_event F pooled now typ name amount labels).labels
            ≡ (borrow_event F pooled now typ name amount labels).labels)
  unfolding borrow_event
  borrow_event-labels pooled now typ name amount labels = (
    trim_labels-IsTrimmed labels,
    trim_labels_same (trim_labels labels) (trim_labels-IsTrimmed labels),
  )
