-- ===== src/Prelude/Text.antt =====
-- Go strings: lists of bytes, each a number below 256. Equality of strings and of string slices.
use Prim.Native.Nat.{ℕ}
use Prim.Native.Char.{code}
use Prim.Native.String.{String}
use mathlib.Core.Path.{◌≡◌, refl}
use mathlib.Core.Logic.{◌≢◌, ◌↔◌}
use mathlib.Core.Bool.{Bool, true, false, ◌&&◌}
use mathlib.Core.List.{List, [], ◌∷◌, ◌++◌}
use native.Mathlib.Omega.{arith}
use statokgo.Prelude.Tests.{◌==◌, ==_iff, ==_refl}
use statokgo.Prelude.Lists.{All}

abbrev pub Bytes : Type 0
Bytes = List ℕ

-- The code points of a literal; these are its bytes when the text is ASCII.
abbrev pub codes : String → Bytes
codes String.[] = []
codes (String.◌∷◌ c s) = code c ∷ codes s

unfoldable pub is_empty {ℓ} : {A : Type ℓ} → List A → Bool
is_empty [] = true
is_empty (x ∷ xs) = false

-- a == b on strings
unfoldable pub bytes_eq : Bytes → Bytes → Bool
bytes_eq [] [] = true
bytes_eq [] (b ∷ bs) = false
bytes_eq (a ∷ as') [] = false
bytes_eq (a ∷ as') (b ∷ bs) = a == b && bytes_eq as' bs

pub bytes_eq_refl : (s : Bytes) → bytes_eq s s ≡ true
unfolding bytes_eq
bytes_eq_refl [] = refl
bytes_eq_refl (c ∷ s) = ground (arith, ==_refl c, bytes_eq_refl s)

pub bytes_eq→≡ : (a b : Bytes) → bytes_eq a b ≡ true → a ≡ b
unfolding bytes_eq
bytes_eq→≡ [] [] h = refl
bytes_eq→≡ [] (b ∷ bs) h = cc
bytes_eq→≡ (a ∷ as') [] h = cc
bytes_eq→≡ (a ∷ as') (b ∷ bs) h = ground (arith, ==_iff a b, bytes_eq→≡ as' bs)

pub bytes_eq_iff : (a b : Bytes) → (bytes_eq a b ≡ true) ↔ (a ≡ b)
bytes_eq_iff a b = (bytes_eq→≡ a b, λ e. rw e (bytes_eq_refl b))

-- the loop of labelsEqual
unfoldable pub all_eq : List Bytes → List Bytes → Bool
all_eq [] [] = true
all_eq [] (b ∷ bs) = false
all_eq (a ∷ as') [] = false
all_eq (a ∷ as') (b ∷ bs) = bytes_eq a b && all_eq as' bs

pub all_eq_refl : (s : List Bytes) → all_eq s s ≡ true
unfolding all_eq
all_eq_refl [] = refl
all_eq_refl (c ∷ s) = ground (arith, bytes_eq_refl c, all_eq_refl s)

pub all_eq→≡ : (a b : List Bytes) → all_eq a b ≡ true → a ≡ b
unfolding all_eq
all_eq→≡ [] [] h = refl
all_eq→≡ [] (b ∷ bs) h = cc
all_eq→≡ (a ∷ as') [] h = cc
all_eq→≡ (a ∷ as') (b ∷ bs) h = ground (arith, bytes_eq_iff a b, all_eq→≡ as' bs)

pub all_eq_iff : (a b : List Bytes) → (all_eq a b ≡ true) ↔ (a ≡ b)
all_eq_iff a b = (all_eq→≡ a b, λ e. rw e (all_eq_refl b))

-- strings.Join
pub join_tail : Bytes → List Bytes → Bytes
join_tail sep [] = []
join_tail sep (s ∷ ss) = sep ++ (s ++ join_tail sep ss)

unfoldable pub join : List Bytes → Bytes → Bytes
unfolding join_tail
join [] sep = []
join (s ∷ ss) sep = s ++ join_tail sep ss

-- `Lacks c s`: the byte c does not occur in s.
abbrev pub Lacks : ℕ → Bytes → Type 0
Lacks c = All (λ b. b ≢ c)
