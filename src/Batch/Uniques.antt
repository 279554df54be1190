-- ===== src/Batch/Uniques.antt =====
-- batch_builder.go, addUnique: the unique IDs that are remembered.
use statokgo.Prelude.{
  Bool, false, not, ◌&&◌, ◌||◌, Bytes, List, [], ◌∷◌, ◌++◌, ◌≡◌, refl, ap, ◌∙◌, All, All-append,
  Lacks, arith, bytes_eq, bytes_eq_iff, all_eq, all_eq_iff, lookup, lookup-insert, text_eq, is_none,
  is_empty, bool_ext, &&-true, Bool-cases, inl, inr,
}
use statokgo.Event.{Event}
use statokgo.Batch.{UniqueEvent, BatchBuilder, add_unique, series_key, new_batch_builder}
use statokgo.Batch.Reference.{same_series, has_unique, merge_unique}
use statokgo.Batch.Series.{AreClean, unique_key_unique}

abbrev pub IsCleanEvent : {V : Type 0} → Event V → Type 0
IsCleanEvent e = Lacks 0 e.name × AreClean e.labels × Lacks 0 e.unique_id

abbrev pub AreCleanUniques : List UniqueEvent → Type 0
AreCleanUniques = All (λ u. Lacks 0 u.metric × AreClean u.labels × Lacks 0 u.unique_id)

pub has_key : Bytes → List UniqueEvent → Bool
has_key key [] = false
has_key key (u ∷ us) =
    bytes_eq (series_key u.metric u.labels ++ (1 ∷ u.unique_id)) key || has_key key us

-- uniqueSeen holds the keys of the payload's unique events
pub record Remembers {V : Type 0} (b : BatchBuilder V) : Type 0 where
  pub keys :
      (key : Bytes)
      → is_none (lookup text_eq key b.unique_seen) ≡ not (has_key key b.payload.uniques)
  pub clean : AreCleanUniques b.payload.uniques

pub Remembers-new : {V : Type 0} → Remembers (new_batch_builder {V = V})
unfolding new_batch_builder lookup has_key
Remembers-new = record { keys = λ key. refl; clean = tt }

same_key :
    (u : UniqueEvent) (id metric : Bytes) (labels : List Bytes)
    → Lacks 0 u.metric × AreClean u.labels × Lacks 0 u.unique_id
    → Lacks 0 metric
    → AreClean labels
    → Lacks 0 id
    → bytes_eq
        (series_key u.metric u.labels ++ (1 ∷ u.unique_id))
        (series_key metric labels ++ (1 ∷ id))
      ≡ (bytes_eq u.unique_id id && same_series u.metric u.labels metric labels)
same_key u id metric labels (um, ul, ui) hm hl hi =
    bool_ext _ _
      (λ same.
        let (m, l, i) =
          unique_key_unique u.metric metric u.labels labels u.unique_id id um hm ul hl ui hi
            ((bytes_eq_iff _ _).0 same) in
        ground (
          arith,
          bytes_eq_iff u.unique_id id,
          bytes_eq_iff u.metric metric,
          all_eq_iff u.labels labels,
        ))
      (λ same.
        let (i, s) =
          &&-true (bytes_eq u.unique_id id) (same_series u.metric u.labels metric labels) same in
        let (m, l) = &&-true (bytes_eq u.metric metric) (all_eq u.labels labels) s in
        (bytes_eq_iff _ _).1 (
          cc (
            (bytes_eq_iff u.unique_id id).0 i,
            (bytes_eq_iff u.metric metric).0 m,
            (all_eq_iff u.labels labels).0 l,
          )))

module _ (id metric : Bytes) (labels : List Bytes) (hm : Lacks 0 metric) (hl : AreClean labels)
    (hi : Lacks 0 id) where
  has_key-has_unique :
      (us : List UniqueEvent)
      → AreCleanUniques us
      → has_key (series_key metric labels ++ (1 ∷ id)) us ≡ has_unique id metric labels us
  unfolding has_key has_unique
  has_key-has_unique [] h = refl
  has_key-has_unique (u ∷ us) (hu, h) =
      rw (same_key u id metric labels hu hm hl hi, has_key-has_unique us h)

has_key-append :
    (key : Bytes) (us vs : List UniqueEvent)
    → has_key key (us ++ vs) ≡ (has_key key us || has_key key vs)
unfolding has_key
has_key-append key [] vs = refl
has_key-append key (u ∷ us) vs = ground (arith, has_key-append key us vs)

module _ {V : Type 0} where
  -- What adding a unique event does: only the uniques change, as in the reference.
  pub add_unique_lem :
      (b : BatchBuilder V) (e : Event V)
      → Remembers b
      → IsCleanEvent e
      → ((add_unique b e).payload ≡ record b.payload { uniques = merge_unique e b.payload.uniques })
        × ((add_unique b e).counter_entries ≡ b.counter_entries)
        × ((add_unique b e).counter_aggs ≡ b.counter_aggs)
        × Remembers (add_unique b e)
  unfolding add_unique merge_unique
  add_unique_lem b e r (hm, hl, hi) =
      let seen = r.keys (series_key e.name e.labels ++ (1 ∷ e.unique_id)) in
      let same =
        has_key-has_unique e.unique_id e.name e.labels hm hl hi b.payload.uniques r.clean in
      elim (Bool-cases (is_empty e.unique_id)) [
        | inl blank ↦ rw blank (refl, refl, refl, r)
        | inr id ↦ elim (Bool-cases (has_unique e.unique_id e.name e.labels b.payload.uniques)) [
          | inl old ↦ rw (old, id) (ground (arith, seen, same))
          | inr new ↦
              let fresh = seen ∙ ap not (same ∙ new) in
              rw (new, id, fresh)
                (
                  refl,
                  refl,
                  refl,
                  record {
                    keys = λ key.
                        rw (lookup-insert text_eq _ key tt b.unique_seen, has_key-append)
                          (unfold has_key in ground (arith, r.keys key));
                    clean = All-append _ b.payload.uniques _ r.clean ((hm, hl, hi), tt);
                  },
                )
        ]
      ]
