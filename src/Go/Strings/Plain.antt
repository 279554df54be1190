-- ===== src/Go/Strings/Plain.antt =====
-- Go's TrimSpace on texts of printable ASCII without a space.
use mathlib.Core.List.{reverse, reverse_aux}
use statokgo.Prelude.{ℕ, ◌≤◌, ◌<◌, Bytes, [], ◌∷◌, ◌≡◌, refl, arith, All, Lacks}
use statokgo.Go.Strings.{
  space_len, rear_space_len, ascii_space, wide2_space, wide3_space, trim_space,
}
use statokgo.Go.Strings.Trim.{trim_space_same}

-- a printable byte of ASCII that is no space
abbrev pub IsPlain : ℕ → Type 0
IsPlain c = (32 < c) × (c < 127)

All-reverse_aux :
    (s acc : Bytes) → All IsPlain s → All IsPlain acc → All IsPlain (reverse_aux s acc)
All-reverse_aux [] acc h k = k
All-reverse_aux (c ∷ s) acc (h, hs) k = All-reverse_aux s (c ∷ acc) hs (h, k)

space_len_plain : (s : Bytes) → All IsPlain s → space_len s ≡ 0
unfolding space_len ascii_space wide2_space wide3_space
space_len_plain [] h = refl
space_len_plain (a ∷ []) (h, hs) = ground arith
space_len_plain (a ∷ b ∷ []) (h, hs) = ground arith
space_len_plain (a ∷ b ∷ c ∷ s) (h, hs) = ground arith

rear_space_len_plain : (s : Bytes) → All IsPlain s → rear_space_len s ≡ 0
unfolding rear_space_len ascii_space wide2_space wide3_space
rear_space_len_plain [] h = refl
rear_space_len_plain (a ∷ []) (h, hs) = ground arith
rear_space_len_plain (a ∷ b ∷ []) (h, hs) = ground arith
rear_space_len_plain (a ∷ b ∷ c ∷ s) (h, hs) = ground arith

pub plain-Lacks : (c : ℕ) (s : Bytes) → c ≤ 32 → All IsPlain s → Lacks c s
plain-Lacks c [] le h = tt
plain-Lacks c (b ∷ s) le (h, hs) = (omega arith, plain-Lacks c s le hs)

pub trim_space_plain : (s : Bytes) → All IsPlain s → trim_space s ≡ s
trim_space_plain s h =
    trim_space_same s (space_len_plain s h)
      (rear_space_len_plain (reverse s) (All-reverse_aux s [] h tt))
