-- ===== src/Go/Strings/Trim.antt =====
-- Go's TrimSpace: what it takes off, and what it leaves.
use mathlib.Core.List.{reverse, reverse-reverse, reverse-append}
use statokgo.Prelude.{
  ℕ, zero, suc, ◌≤◌, ◌==◌, Bytes, [], ◌∷◌, ◌++◌, ◌≡◌, refl, sym, ap, ◌∙◌, arith, length, drop, take,
  take-append-drop, length-drop, append_assoc, Bool-cases, inl, inr, length-reverse,
}
use statokgo.Go.Strings.{trim_loop, space_len, rear_space_len, trim_left, trim_right, trim_space}

module _ (lead : Bytes → ℕ) (within : (s : Bytes) → lead s ≤ length s) where
  trim_loop-lead : (f : ℕ) (s : Bytes) → length s ≤ f → lead (trim_loop lead f s) ≡ 0
  unfolding trim_loop
  trim_loop-lead zero s h = omega (arith, within s)
  trim_loop-lead (suc f) s h = elim (Bool-cases (lead s == 0)) [
    | inl none_left ↦ rw none_left (ground arith)
    | inr more ↦
        rw more
          (trim_loop-lead f (drop (lead s) s) (ground (arith, within s, length-drop (lead s) s)))
  ]

module _ (lead : Bytes → ℕ) where
  trim_loop_cut : (f : ℕ) (s : Bytes) → (p : Bytes) × (s ≡ p ++ trim_loop lead f s)
  unfolding trim_loop
  trim_loop_cut zero s = ([], refl)
  trim_loop_cut (suc f) s = elim (Bool-cases (lead s == 0)) [
    | inl none_left ↦ ([], rw none_left)
    | inr more ↦
        let (p, e) = trim_loop_cut f (drop (lead s) s) in
        (take (lead s) s ++ p, rw (more, append_assoc, ← e) (sym (take-append-drop (lead s) s)))
  ]

  pub trim_loop_same : (f : ℕ) (s : Bytes) → lead s ≡ 0 → trim_loop lead f s ≡ s
  unfolding trim_loop
  trim_loop_same zero s h = refl
  trim_loop_same (suc f) s h = ground arith

space_len-le : (s : Bytes) → space_len s ≤ length s
unfolding space_len
space_len-le [] = omega arith
space_len-le (a ∷ []) = ground arith
space_len-le (a ∷ b ∷ []) = ground arith
space_len-le (a ∷ b ∷ c ∷ s) = ground arith

rear_space_len-le : (s : Bytes) → rear_space_len s ≤ length s
unfolding rear_space_len
rear_space_len-le [] = omega arith
rear_space_len-le (a ∷ []) = ground arith
rear_space_len-le (a ∷ b ∷ []) = ground arith
rear_space_len-le (a ∷ b ∷ c ∷ s) = ground arith

-- A prefix of a text with no space in front has none.
space_len-prefix : (s t : Bytes) → space_len (s ++ t) ≡ 0 → space_len s ≡ 0
unfolding space_len
space_len-prefix [] t h = refl
space_len-prefix (a ∷ []) [] h = h
space_len-prefix (a ∷ []) (x ∷ []) h = ground arith
space_len-prefix (a ∷ []) (x ∷ y ∷ t) h = ground arith
space_len-prefix (a ∷ b ∷ []) [] h = h
space_len-prefix (a ∷ b ∷ []) (x ∷ t) h = ground arith
space_len-prefix (a ∷ b ∷ c ∷ s) t h = ground arith

pub trim_left-space_len : (s : Bytes) → space_len (trim_left s) ≡ 0
unfolding trim_left
trim_left-space_len s = trim_loop-lead space_len space_len-le (length s) s (omega arith)

-- `trim_right` keeps a prefix.
trim_right_cut : (s : Bytes) → (q : Bytes) × (s ≡ trim_right s ++ q)
unfolding trim_right
trim_right_cut s =
    let (p, e) = trim_loop_cut rear_space_len (length s) (reverse s) in
    (reverse p, sym (reverse-reverse s) ∙ ap reverse e ∙ reverse-append p _)

trim_left_cut : (s : Bytes) → (p : Bytes) × (s ≡ p ++ trim_left s)
unfolding trim_left
trim_left_cut s = trim_loop_cut space_len (length s) s

trim_right-rear : (s : Bytes) → rear_space_len (reverse (trim_right s)) ≡ 0
unfolding trim_right
trim_right-rear s = rw reverse-reverse (
    trim_loop-lead rear_space_len rear_space_len-le (length s) (reverse s)
      (omega (arith, length-reverse s)))

-- Nothing is left to trim at the front,
pub trim_space-space_len : (s : Bytes) → space_len (trim_space s) ≡ 0
unfolding trim_space
trim_space-space_len s =
    let (q, e) = trim_right_cut (trim_left s) in
    space_len-prefix (trim_right (trim_left s)) q (rw (← e) (trim_left-space_len s))

-- and nothing at the end.
pub trim_space-rear : (s : Bytes) → rear_space_len (reverse (trim_space s)) ≡ 0
unfolding trim_space
trim_space-rear s = trim_right-rear (trim_left s)

-- The result is what stands between the two ends that are cut.
pub trim_space_cut : (s : Bytes) → (p q : Bytes) × (s ≡ p ++ (trim_space s ++ q))
unfolding trim_space
trim_space_cut s =
    let (p, e) = trim_left_cut s in let (q, d) = trim_right_cut (trim_left s) in (p, q, rw (← d) e)

pub trim_left_same : (s : Bytes) → space_len s ≡ 0 → trim_left s ≡ s
unfolding trim_left
trim_left_same s h = trim_loop_same space_len (length s) s h

trim_right_same : (s : Bytes) → rear_space_len (reverse s) ≡ 0 → trim_right s ≡ s
unfolding trim_right
trim_right_same s h =
    ap reverse (trim_loop_same rear_space_len (length s) (reverse s) h) ∙ reverse-reverse s

-- A text with no white space at its ends is not changed.
pub trim_space_same :
    (s : Bytes) → space_len s ≡ 0 → rear_space_len (reverse s) ≡ 0 → trim_space s ≡ s
unfolding trim_space
trim_space_same s h k = ap trim_right (trim_left_same s h) ∙ trim_right_same s k

pub trim_space_idem : (s : Bytes) → trim_space (trim_space s) ≡ trim_space s
trim_space_idem s = trim_space_same (trim_space s) (trim_space-space_len s) (trim_space-rear s)
