-- ===== src/Batch/Series.antt =====
-- batch_builder.go, seriesKey: the keys of the maps.
use statokgo.Prelude.{
  Bytes, List, [], ◌∷◌, ◌++◌, ◌≡◌, refl, ap, sym, ◌∙◌, All, Lacks, arith, append_assoc, ◌↔◌,
}
use statokgo.Go.Strings.{before_byte}
use statokgo.Go.Strings.Cut.{before_byte-append, before_byte-Lacks, cut_unique}
use statokgo.Batch.{key_labels, series_key}

abbrev pub AreClean : List Bytes → Type 0
AreClean = All (Lacks 0)

key_labels_unique :
    (ls ks : List Bytes) (i j : Bytes)
    → AreClean ls
    → AreClean ks
    → Lacks 0 i
    → Lacks 0 j
    → key_labels ls ++ (1 ∷ i) ≡ key_labels ks ++ (1 ∷ j)
    → (ls ≡ ks) × (i ≡ j)
unfolding key_labels
key_labels_unique [] [] i j hl hk hi hj e = (refl, cc)
key_labels_unique [] (k ∷ ks) i j hl (hk, hks) hi hj e = absurd (
    cc (
      before_byte-Lacks 0 (1 ∷ i) (omega arith, hi),
      ap (before_byte 0) e,
      ap (before_byte 0) (append_assoc k (0 ∷ key_labels ks) (1 ∷ j)),
      before_byte-append 0 k (key_labels ks ++ (1 ∷ j)) hk,
    ))
key_labels_unique (l ∷ ls) [] i j (hl, hls) hk hi hj e = absurd (
    cc (
      before_byte-Lacks 0 (1 ∷ j) (omega arith, hj),
      ap (before_byte 0) e,
      ap (before_byte 0) (append_assoc l (0 ∷ key_labels ls) (1 ∷ i)),
      before_byte-append 0 l (key_labels ls ++ (1 ∷ i)) hl,
    ))
key_labels_unique (l ∷ ls) (k ∷ ks) i j (hl, hls) (hk, hks) hi hj e =
    let (same, rest) =
      cut_unique 0 l (key_labels ls ++ (1 ∷ i)) k (key_labels ks ++ (1 ∷ j)) hl hk (
        sym (append_assoc l (0 ∷ key_labels ls) (1 ∷ i))
        ∙ e
        ∙ append_assoc k (0 ∷ key_labels ks) (1 ∷ j)) in
    let (same_labels, same_id) = key_labels_unique ls ks i j hls hks hi hj rest in (cc, same_id)

-- The key that addUnique builds tells apart the metric, the labels and the unique ID.
pub unique_key_unique :
    (m n : Bytes) (ls ks : List Bytes) (i j : Bytes)
    → Lacks 0 m
    → Lacks 0 n
    → AreClean ls
    → AreClean ks
    → Lacks 0 i
    → Lacks 0 j
    → series_key m ls ++ (1 ∷ i) ≡ series_key n ks ++ (1 ∷ j)
    → (m ≡ n) × (ls ≡ ks) × (i ≡ j)
unfolding series_key
unique_key_unique m n ls ks i j hm hn hl hk hi hj e =
    let (same, rest) =
      cut_unique 0 m (key_labels ls ++ (1 ∷ i)) n (key_labels ks ++ (1 ∷ j)) hm hn (
        sym (append_assoc m (0 ∷ key_labels ls) (1 ∷ i))
        ∙ e
        ∙ append_assoc n (0 ∷ key_labels ks) (1 ∷ j)) in
    let (same_labels, same_id) = key_labels_unique ls ks i j hl hk hi hj rest in
    (same, same_labels, same_id)

-- Two series have the same key exactly when they have the same metric and the same labels in the
-- same order, if no metric and no label holds a zero byte.
pub series_key_eq_iff :
    (m n : Bytes) (ls ks : List Bytes)
    → Lacks 0 m
    → Lacks 0 n
    → AreClean ls
    → AreClean ks
    → (series_key m ls ≡ series_key n ks) ↔ ((m ≡ n) × (ls ≡ ks))
series_key_eq_iff m n ls ks hm hn hl hk = (
  λ e.
      let (a, b, _) =
        unique_key_unique m n ls ks [] [] hm hn hl hk tt tt (ap (λ (k : Bytes). k ++ (1 ∷ [])) e) in
      (a, b),
  λ h. cc,
)

-- The condition is needed: a zero byte in a metric makes it look like a label.
pub series_key_collides : (m l : Bytes) → series_key (m ++ (0 ∷ l)) [] ≡ series_key m (l ∷ [])
unfolding series_key key_labels
series_key_collides m l = append_assoc m (0 ∷ l) (0 ∷ [])
