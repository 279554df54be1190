-- ===== src/Batch/Chains.antt =====
-- batch_builder.go, addCounter: the search through the chain of counter entries of a hash.
use mathlib.Core.List.{reverse, reverse-append}
use statokgo.Prelude.{
  ℕ, zero, suc, ◌<◌, ◌==◌, ==_refl, ==_iff, true, false, Bytes, List, [], ◌∷◌, ◌++◌, some, ◌≡◌,
  refl, ap, ◌∙◌, length, length-reverse, get_elem?, get_elem?-append_self, bytes_eq, all_eq,
  bytes_eq→≡, all_eq→≡, if◌then◌else◌, arith, Bool-cases, inl, inr, &&-true, append_assoc,
}
use statokgo.Batch.{CounterAggEntry, Search, found, missing, find_entry, labels_equal}
use statokgo.Batch.Reference.{same_series}

-- the newest first, from here on
unfoldable pub newest : Bytes → List Bytes → List CounterAggEntry → Search
newest metric labels [] = missing
newest metric labels (e ∷ rs) =
    if same_series e.metric e.labels metric labels
    then found e.payload_index
    else newest metric labels rs

module _ (f : ℕ) (es : List CounterAggEntry) (idx : ℕ) (r : CounterAggEntry) (metric : Bytes)
    (labels : List Bytes) (at : get_elem? es idx ≡ some r) where
  find_entry_hit :
      same_series r.metric r.labels metric labels ≡ true
      → find_entry (suc f) es (suc idx) metric labels ≡ found r.payload_index
  unfolding find_entry labels_equal
  find_entry_hit same = ground arith

  find_entry_next :
      same_series r.metric r.labels metric labels ≡ false
      → find_entry (suc f) es (suc idx) metric labels ≡ find_entry f es r.next metric labels
  unfolding find_entry labels_equal
  find_entry_next other = ground arith

module _ (series_hash : Bytes → List Bytes → ℕ) where
  -- the place, from 1, of the newest entry with this hash
  unfoldable pub latest : ℕ → List CounterAggEntry → ℕ
  latest h [] = 0
  latest h (e ∷ rs) = if series_hash e.metric e.labels == h then suc (length rs) else latest h rs

  -- every entry points at the one before it with its hash
  abbrev pub IsLinked : List CounterAggEntry → Type 0
  IsLinked [] = Unit
  IsLinked (e ∷ rs) = (e.next ≡ latest (series_hash e.metric e.labels) rs) × IsLinked rs

  same_series-hash :
      (e : CounterAggEntry) (metric : Bytes) (labels : List Bytes)
      → same_series e.metric e.labels metric labels ≡ true
      → series_hash e.metric e.labels ≡ series_hash metric labels
  same_series-hash e metric labels h =
      let (m, l) = &&-true (bytes_eq e.metric metric) (all_eq e.labels labels) h in
      cc (bytes_eq→≡ e.metric metric m, all_eq→≡ e.labels labels l)

  reverse-cons :
      (e : CounterAggEntry) (rs tail es : List CounterAggEntry)
      → es ≡ reverse (e ∷ rs) ++ tail
      → es ≡ reverse rs ++ e ∷ tail
  reverse-cons e rs tail es h =
      h
      ∙ ap (λ (l : List CounterAggEntry). l ++ tail) (reverse-append (e ∷ []) rs)
      ∙ append_assoc (reverse rs) (e ∷ []) tail

  get_newest :
      (e : CounterAggEntry) (rs tail es : List CounterAggEntry)
      → es ≡ reverse (e ∷ rs) ++ tail
      → get_elem? es (length rs) ≡ some e
  get_newest e rs tail es h =
      rw (reverse-cons e rs tail es h, ← length-reverse rs)
        (get_elem?-append_self (reverse rs) tail e)

  pub find_entry-newest :
      (metric : Bytes) (labels : List Bytes) (rs tail es : List CounterAggEntry) (f : ℕ)
      → es ≡ reverse rs ++ tail
      → IsLinked rs
      → length rs < f
      → find_entry f es (latest (series_hash metric labels) rs) metric labels
        ≡ newest metric labels rs
  unfolding newest latest
  find_entry-newest metric labels [] tail es zero e l h = elim h [ ]
  find_entry-newest metric labels [] tail es (suc f) e l h = unfold find_entry in refl
  find_entry-newest metric labels (r ∷ rs) tail es zero e l h = elim h [ ]
  find_entry-newest metric labels (r ∷ rs) tail es (suc f) e (link, l) h =
      elim (Bool-cases (same_series r.metric r.labels metric labels)) [
        | inl same ↦
            let at = get_newest r rs tail es e in
            rw (same, same_series-hash r metric labels same, ==_refl)
              (find_entry_hit f es (length rs) r metric labels at same)
        | inr other ↦
            let later = reverse-cons r rs tail es e in
            elim (Bool-cases (series_hash r.metric r.labels == series_hash metric labels)) [
              | inl hash ↦
                  rw (other, hash)
                    (find_entry_next f es (length rs) r metric labels (get_newest r rs tail es e)
                        other
                      ∙ ap (λ (k : ℕ). find_entry f es k metric labels)
                          (link ∙ ap (λ (k : ℕ). latest k rs) ((==_iff _ _).0 hash))
                      ∙ find_entry-newest metric labels rs (r ∷ tail) es f later l (omega arith))
              | inr hash ↦
                  rw (other, hash)
                    (find_entry-newest metric labels rs (r ∷ tail) es (suc f) later l (omega arith))
            ]
      ]
