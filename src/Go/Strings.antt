-- ===== src/Go/Strings.antt =====
-- Go's `strings` package, as far as the program uses it: TrimSpace, IndexByte, slices of a string.
-- White space is that of unicode.IsSpace, given by the UTF-8 encodings of its code points.
pub mod Trim
pub mod Cut
pub mod Plain
pub mod Words
use mathlib.Core.List.{reverse}
use statokgo.Prelude.{
  ℕ, zero, suc, ◌==◌, leb, ◌&&◌, ◌||◌, Bool, false, Bytes, List, [], ◌∷◌, Option, none, some,
  length, drop, if◌then◌else◌, ◌+◌, map, bytes_eq, ◌++◌, is_empty,
}

ascii_space : ℕ → Bool
ascii_space c = (leb 9 c && leb c 13) || c == 32

-- U+0085 and U+00A0
wide2_space : ℕ → ℕ → Bool
wide2_space a b = a == 0xc2 && (b == 0x85 || b == 0xa0)

-- U+1680, U+2000 to U+200A, U+2028, U+2029, U+202F, U+205F and U+3000
wide3_space : ℕ → ℕ → ℕ → Bool
wide3_space a b c =
    (a == 0xe1 && (b == 0x9a && c == 0x80))
    || ((a == 0xe2
          && ((b == 0x80 && ((leb 0x80 c && leb c 0x8a) || (c == 0xa8 || (c == 0xa9 || c == 0xaf))))
              || (b == 0x81 && c == 0x9f)))
        || (a == 0xe3 && (b == 0x80 && c == 0x80)))

-- the bytes of the space that s begins with; 0 if it begins with none
pub space_len : Bytes → ℕ
space_len [] = 0
space_len (a ∷ []) = if ascii_space a then 1 else 0
space_len (a ∷ b ∷ []) = if ascii_space a then 1 else if wide2_space a b then 2 else 0
space_len (a ∷ b ∷ c ∷ s) =
    if ascii_space a then 1 else if wide2_space a b then 2 else if wide3_space a b c then 3 else 0

-- the same of the space that s ends with, of the bytes in reverse
pub rear_space_len : Bytes → ℕ
rear_space_len [] = 0
rear_space_len (a ∷ []) = if ascii_space a then 1 else 0
rear_space_len (a ∷ b ∷ []) = if ascii_space a then 1 else if wide2_space b a then 2 else 0
rear_space_len (a ∷ b ∷ c ∷ s) =
    if ascii_space a then 1 else if wide2_space b a then 2 else if wide3_space c b a then 3 else 0

module _ (lead : Bytes → ℕ) where
  -- drops what `lead` measures until it measures nothing
  pub trim_loop : ℕ → Bytes → Bytes
  trim_loop zero s = s
  trim_loop (suc f) s = let rest = trim_loop f (drop (lead s) s) in if lead s == 0 then s else rest

unfoldable pub trim_left : Bytes → Bytes
unfolding trim_loop space_len ascii_space wide2_space wide3_space
trim_left s = trim_loop space_len (length s) s

unfoldable pub trim_right : Bytes → Bytes
unfolding trim_loop rear_space_len ascii_space wide2_space wide3_space
trim_right s = reverse (trim_loop rear_space_len (length s) (reverse s))

-- strings.TrimSpace
unfoldable pub trim_space : Bytes → Bytes
unfolding trim_left trim_right
trim_space s = trim_right (trim_left s)

-- the text before the first byte c; none if c does not occur (IndexByte < 0)
unfoldable pub before_byte : ℕ → Bytes → Option Bytes
before_byte c [] = none
before_byte c (b ∷ s) =
    if b == c then some [] else elim (before_byte c s) [ none ↦ none | some t ↦ some (b ∷ t) ]

-- the text behind the first byte c
unfoldable pub after_byte : ℕ → Bytes → Option Bytes
after_byte c [] = none
after_byte c (b ∷ s) = if b == c then some s else after_byte c s

-- strings.HasPrefix
unfoldable pub has_prefix : Bytes → Bytes → Bool
has_prefix s [] = Bool.true
has_prefix [] (p ∷ ps) = false
has_prefix (c ∷ s) (p ∷ ps) = c == p && has_prefix s ps

lower_byte : ℕ → ℕ
lower_byte c = if leb b'A' c && leb c b'Z' then c + 32 else c

-- strings.ToLower, on ASCII text
unfoldable pub to_lower : Bytes → Bytes
unfolding lower_byte
to_lower s = map lower_byte s

-- strings.EqualFold, on ASCII text
unfoldable pub equal_fold : Bytes → Bytes → Bool
unfolding to_lower bytes_eq
equal_fold a b = bytes_eq (to_lower a) (to_lower b)

-- strings.Fields, behind the bytes of the word that was begun; each round takes at least one byte
fields_loop : ℕ → Bytes → Bytes → List Bytes
fields_loop zero word s = []
fields_loop (suc f) [] [] = []
fields_loop (suc f) (c ∷ word) [] = (c ∷ word) ∷ []
fields_loop (suc f) word (c ∷ s) =
    let on = fields_loop f (word ++ c ∷ []) s in
    let rest = fields_loop f [] (drop (space_len (c ∷ s)) (c ∷ s)) in
    if space_len (c ∷ s) == 0 then on else if is_empty word then rest else word ∷ rest

-- strings.Fields
unfoldable pub fields : Bytes → List Bytes
unfolding fields_loop space_len ascii_space wide2_space wide3_space
fields s = fields_loop (length s + 1) [] s

-- the byte in front of the first line
push : ℕ → List Bytes → List Bytes
push b [] = (b ∷ []) ∷ []
push b (l ∷ ls) = (b ∷ l) ∷ ls

-- strings.Split, at a separator of one byte
unfoldable pub split_byte : ℕ → Bytes → List Bytes
unfolding push
split_byte c [] = [] ∷ []
split_byte c (b ∷ s) = let rest = split_byte c s in if b == c then [] ∷ rest else push b rest

-- strings.TrimPrefix
unfoldable pub trim_prefix : Bytes → Bytes → Bytes
unfolding has_prefix
trim_prefix s p = if has_prefix s p then drop (length p) s else s

-- strings.Contains
unfoldable pub contains : Bytes → Bytes → Bool
unfolding has_prefix
contains [] p = is_empty p
contains (c ∷ s) p = has_prefix (c ∷ s) p || contains s p
