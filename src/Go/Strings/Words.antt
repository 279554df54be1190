-- ===== src/Go/Strings/Words.antt =====
-- Go's Split, Fields and TrimSpace on lines that are made of words.
use mathlib.Core.List.{reverse, reverse-append, reverse-reverse}
use statokgo.Prelude.{
  ℕ, zero, suc, ◌+◌, Bytes, List, [], ◌∷◌, ◌++◌, append_assoc, append-nil, ◌≡◌, ◌≢◌, refl, sym, ap,
  ◌∙◌, arith, All, Lacks, length, length-append, is_empty, false,
}
use statokgo.Go.Strings.{
  space_len, rear_space_len, ascii_space, wide2_space, wide3_space, trim_loop, trim_left,
  trim_right, trim_space, fields, fields_loop, split_byte, push,
}
use statokgo.Go.Strings.Trim.{trim_loop_same, trim_left_same, trim_space_same}
use statokgo.Go.Strings.Plain.{IsPlain}

pub split_byte_line :
    (c : ℕ) (s t : Bytes) → Lacks c s → split_byte c (s ++ c ∷ t) ≡ s ∷ split_byte c t
unfolding split_byte push
split_byte_line c [] t h = ground arith
split_byte_line c (b ∷ s) t (hb, hs) = ground (arith, split_byte_line c s t hs)

-- a word: printable bytes, at least one
abbrev pub IsWord : Bytes → Type 0
IsWord w = (w ≢ []) × All IsPlain w

-- the words with a space between any two
unfoldable pub joined : List Bytes → Bytes
joined [] = []
joined (w ∷ []) = w
joined (w ∷ v ∷ ws) = w ++ 32 ∷ joined (v ∷ ws)

space_len_head : (c : ℕ) (s : Bytes) → IsPlain c → space_len (c ∷ s) ≡ 0
unfolding space_len ascii_space wide2_space wide3_space
space_len_head c [] h = ground arith
space_len_head c (x ∷ []) h = ground arith
space_len_head c (x ∷ y ∷ s) h = ground arith

rear_space_len_head : (c : ℕ) (s : Bytes) → IsPlain c → rear_space_len (c ∷ s) ≡ 0
unfolding rear_space_len ascii_space wide2_space wide3_space
rear_space_len_head c [] h = ground arith
rear_space_len_head c (x ∷ []) h = ground arith
rear_space_len_head c (x ∷ y ∷ s) h = ground arith

space_len_space : (s : Bytes) → space_len (32 ∷ s) ≡ 1
unfolding space_len ascii_space
space_len_space [] = refl
space_len_space (x ∷ []) = refl
space_len_space (x ∷ y ∷ s) = refl

rear_space_len_space : (s : Bytes) → rear_space_len (32 ∷ s) ≡ 1
unfolding rear_space_len ascii_space
rear_space_len_space [] = refl
rear_space_len_space (x ∷ []) = refl
rear_space_len_space (x ∷ y ∷ s) = refl

-- one space in front
trim_loop_one :
    (lead : Bytes → ℕ) (f x : ℕ) (s : Bytes)
    → f ≢ 0
    → lead (x ∷ s) ≡ 1
    → lead s ≡ 0
    → trim_loop lead f (x ∷ s) ≡ s
unfolding trim_loop
trim_loop_one lead zero x s more h k = absurd (more refl)
trim_loop_one lead (suc f) x s more h k = rw h (trim_loop_same lead f s k)

trim_right_one :
    (u : Bytes) (c : ℕ) → IsPlain c → trim_right ((u ++ c ∷ []) ++ 32 ∷ []) ≡ u ++ c ∷ []
unfolding trim_right
trim_right_one u c h =
    let line = (u ++ c ∷ []) ++ 32 ∷ [] in
    let turned : reverse line ≡ 32 ∷ c ∷ reverse u =
      reverse-append (u ++ c ∷ []) (32 ∷ []) ∙ ap (32 ∷◌) (reverse-append u (c ∷ [])) in
    ap (λ (r : Bytes). reverse (trim_loop rear_space_len (length line) r)) turned
    ∙ ap reverse (
        trim_loop_one rear_space_len (length line) 32 (c ∷ reverse u)
          (omega (arith, length-append (u ++ c ∷ []) (32 ∷ [])))
          (rear_space_len_space (c ∷ reverse u)) (rear_space_len_head c (reverse u) h))
    ∙ ap reverse (sym (reverse-append u (c ∷ [])))
    ∙ reverse-reverse (u ++ c ∷ [])

trim_left_one : (c : ℕ) (s : Bytes) → IsPlain c → trim_left (32 ∷ c ∷ s) ≡ c ∷ s
unfolding trim_left
trim_left_one c s h =
    trim_loop_one space_len (length (32 ∷ c ∷ s)) 32 (c ∷ s) (omega arith) (space_len_space (c ∷ s))
      (space_len_head c s h)

-- Words begin and end with a printable byte.
joined_head :
    (w : Bytes) (ws : List Bytes)
    → IsWord w
    → (c : ℕ) × (s : Bytes) × (joined (w ∷ ws) ≡ c ∷ s) × IsPlain c
unfolding joined
joined_head [] ws (some_byte, h) = absurd (some_byte refl)
joined_head (c ∷ w) [] (some_byte, (h, hs)) = (c, w, refl, h)
joined_head (c ∷ w) (v ∷ ws) (some_byte, (h, hs)) = (c, _, refl, h)

pub joined_full : (w : Bytes) (ws : List Bytes) → IsWord w → is_empty (joined (w ∷ ws)) ≡ false
unfolding is_empty
joined_full w ws h = let (c, s, e, k) = joined_head w ws h in ap is_empty e

word_end : (w : Bytes) → IsWord w → (u : Bytes) × (c : ℕ) × (w ≡ u ++ c ∷ []) × IsPlain c
word_end [] (some_byte, h) = absurd (some_byte refl)
word_end (c ∷ []) (some_byte, (h, hs)) = ([], c, refl, h)
word_end (c ∷ d ∷ w) (some_byte, (h, hs)) =
    let (u, e, at, k) = word_end (d ∷ w) (λ bad. absurd (cc), hs) in (c ∷ u, e, ap (c ∷◌) at, k)

joined_end :
    (w : Bytes) (ws : List Bytes)
    → IsWord w
    → All IsWord ws
    → (u : Bytes) × (c : ℕ) × (joined (w ∷ ws) ≡ u ++ c ∷ []) × IsPlain c
unfolding joined
joined_end w [] h hs = word_end w h
joined_end w (v ∷ ws) h (hv, hs) =
    let (u, c, at, k) = joined_end v ws hv hs in
    (w ++ 32 ∷ u, c, ap (λ s. w ++ 32 ∷ s) at ∙ sym (append_assoc w (32 ∷ u) (c ∷ [])), k)

module _ (w : Bytes) (ws : List Bytes) (h : IsWord w) (hs : All IsWord ws) where
  trim_right-joined : trim_right (joined (w ∷ ws) ++ 32 ∷ []) ≡ joined (w ∷ ws)
  trim_right-joined =
      let (u, c, at, k) = joined_end w ws h hs in
      ap (λ s. trim_right (s ++ 32 ∷ [])) at ∙ trim_right_one u c k ∙ sym at

  -- The space behind the words is trimmed,
  pub trim_space-joined : trim_space (joined (w ∷ ws) ++ 32 ∷ []) ≡ joined (w ∷ ws)
  unfolding trim_space
  trim_space-joined =
      let (c, s, at, k) = joined_head w ws h in
      ap trim_right (
        trim_left_same (joined (w ∷ ws) ++ 32 ∷ [])
          (ap (λ t. space_len (t ++ 32 ∷ [])) at ∙ space_len_head c (s ++ 32 ∷ []) k))
      ∙ trim_right-joined

  -- and one in front of them.
  pub trim_space-joined_both : trim_space (32 ∷ joined (w ∷ ws) ++ 32 ∷ []) ≡ joined (w ∷ ws)
  unfolding trim_space
  trim_space-joined_both =
      let (c, s, at, k) = joined_head w ws h in
      ap trim_right (
        ap (λ t. trim_left (32 ∷ t ++ 32 ∷ [])) at
        ∙ trim_left_one c (s ++ 32 ∷ []) k
        ∙ ap (λ t. t ++ 32 ∷ []) (sym at))
      ∙ trim_right-joined

fields_on :
    (f c : ℕ) (word s : Bytes)
    → IsPlain c
    → fields_loop (suc f) word (c ∷ s) ≡ fields_loop f (word ++ c ∷ []) s
unfolding fields_loop
fields_on f c [] s h = rw (space_len_head c s h)
fields_on f c (x ∷ word) s h = rw (space_len_head c s h)

fields_word :
    (g f : ℕ) (w word s : Bytes)
    → g ≡ length w + f
    → All IsPlain w
    → fields_loop g word (w ++ s) ≡ fields_loop f (word ++ w) s
fields_word g f [] word s e h =
    ap (λ (n : ℕ). fields_loop n word s) (omega (arith, e))
    ∙ ap (λ t. fields_loop f t s) (sym (append-nil word))
fields_word zero f (c ∷ w) word s e h = absurd (omega arith)
fields_word (suc g) f (c ∷ w) word s e (h, hs) =
    fields_on g c word (w ++ s) h
    ∙ fields_word g f w (word ++ c ∷ []) s (omega arith) hs
    ∙ ap (λ t. fields_loop f t s) (append_assoc word (c ∷ []) w)

fields_break :
    (f : ℕ) (word s : Bytes)
    → word ≢ []
    → fields_loop (suc f) word (32 ∷ s) ≡ word ∷ fields_loop f [] s
unfolding fields_loop is_empty
fields_break f [] s more = absurd (more refl)
fields_break f (c ∷ word) s more = rw (space_len_space s)

fields_end : (f : ℕ) (word : Bytes) → word ≢ [] → fields_loop (suc f) word [] ≡ word ∷ []
unfolding fields_loop
fields_end f [] more = absurd (more refl)
fields_end f (c ∷ word) more = refl

fields_loop-joined :
    (g : ℕ) (w : Bytes) (ws : List Bytes)
    → length (joined (w ∷ ws)) + 1 ≡ g
    → IsWord w
    → All IsWord ws
    → fields_loop g [] (joined (w ∷ ws)) ≡ w ∷ ws
unfolding joined
fields_loop-joined g w [] e (some_byte, h) hs =
    ap (fields_loop g []) (sym (append-nil w))
    ∙ fields_word g 1 w [] [] (sym e) h
    ∙ fields_end 0 w some_byte
fields_loop-joined g w (v ∷ ws) e (some_byte, h) (hv, hs) =
    let rest = length (joined (v ∷ ws)) + 1 in
    fields_word g (suc rest) w [] (32 ∷ joined (v ∷ ws))
      (omega (arith, e, length-append w (32 ∷ joined (v ∷ ws)))) h
    ∙ fields_break rest w (joined (v ∷ ws)) some_byte
    ∙ ap (w ∷◌) (fields_loop-joined rest v ws refl hv hs)

-- Fields gives the words back.
pub fields-joined :
    (w : Bytes) (ws : List Bytes) → IsWord w → All IsWord ws → fields (joined (w ∷ ws)) ≡ w ∷ ws
unfolding fields
fields-joined w ws h hs = fields_loop-joined (length (joined (w ∷ ws)) + 1) w ws refl h hs

-- A text that begins and ends with a printable byte is not changed.
pub trim_space-ends :
    (c d : ℕ) (u : Bytes)
    → IsPlain c
    → IsPlain d
    → trim_space (c ∷ (u ++ d ∷ [])) ≡ c ∷ (u ++ d ∷ [])
trim_space-ends c d u h k = trim_space_same (c ∷ (u ++ d ∷ [])) (space_len_head c (u ++ d ∷ []) h) (
    ap rear_space_len (reverse-append (c ∷ u) (d ∷ [])) ∙ rear_space_len_head d (reverse (c ∷ u)) k)
