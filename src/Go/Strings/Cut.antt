-- ===== src/Go/Strings/Cut.antt =====
-- Cutting a text at the first byte of a kind.
use statokgo.Prelude.{ℕ, Bytes, [], ◌∷◌, ◌++◌, none, some, ◌≡◌, arith, Lacks, ap}
use statokgo.Go.Strings.{before_byte, after_byte}

pub before_byte-append : (c : ℕ) (s t : Bytes) → Lacks c s → before_byte c (s ++ c ∷ t) ≡ some s
unfolding before_byte
before_byte-append c [] t h = ground arith
before_byte-append c (b ∷ s) t (hb, hs) = ground (arith, before_byte-append c s t hs)

pub after_byte-append : (c : ℕ) (s t : Bytes) → Lacks c s → after_byte c (s ++ c ∷ t) ≡ some t
unfolding after_byte
after_byte-append c [] t h = ground arith
after_byte-append c (b ∷ s) t (hb, hs) = ground (arith, after_byte-append c s t hs)

pub before_byte-Lacks : (c : ℕ) (s : Bytes) → Lacks c s → before_byte c s ≡ none
unfolding before_byte
before_byte-Lacks c [] h = ground arith
before_byte-Lacks c (b ∷ s) (hb, hs) = ground (arith, before_byte-Lacks c s hs)

-- Two texts that are the same up to the first c and behind it are cut alike.
pub cut_unique :
    (c : ℕ) (s t s' t' : Bytes)
    → Lacks c s
    → Lacks c s'
    → s ++ c ∷ t ≡ s' ++ c ∷ t'
    → (s ≡ s') × (t ≡ t')
cut_unique c s t s' t' h h' e = (
  cc (before_byte-append c s t h, before_byte-append c s' t' h', ap (before_byte c) e),
  cc (after_byte-append c s t h, after_byte-append c s' t' h', ap (after_byte c) e),
)
