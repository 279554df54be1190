-- ===== src/UniqueId/Canonical.antt =====
-- unique_id.go: the texts of accepted unique IDs.
use statokgo.Prelude.{
  ℕ, ◌≤◌, Bytes, [], ◌∷◌, Option, none, some, ◌≡◌, ◌↔◌, refl, ap, ◌∙◌, sym, arith, Option-cases,
  inl, inr,
}
use statokgo.Prelude.Int.{ℤ, pos, negsuc}
use statokgo.Go.Strconv.{max_u64, format_uint, parse_uint}
use statokgo.Go.Strconv.RoundTrip.{parse_uint-format_uint}
use statokgo.UniqueId.{
  AnyId, int, int8, int16, int32, int64, uint, uint8, uint16, uint32, uint64, uintptr, string,
  byte_slice, other, signed_id, canonical_unique_id, canonical_unique_decimal_string,
}

-- The number that an ID stands for; none where it stands for no uint64.
abbrev pub unsigned : ℤ → Option ℕ
unsigned (pos n) = some n
unsigned (negsuc n) = none

unfoldable pub number : AnyId → Option ℕ
number (int v) = unsigned v
number (int8 v) = unsigned v
number (int16 v) = unsigned v
number (int32 v) = unsigned v
number (int64 v) = unsigned v
number (uint v) = some v
number (uint8 v) = some v
number (uint16 v) = some v
number (uint32 v) = some v
number (uint64 v) = some v
number (uintptr v) = some v
number (string s) = parse_uint s
number (byte_slice s) = parse_uint s
number other = none

abbrev print : Option ℕ → Option Bytes
print none = none
print (some n) = some (format_uint n)

canonical_decimal-print : (s : Bytes) → canonical_unique_decimal_string s ≡ print (parse_uint s)
unfolding canonical_unique_decimal_string parse_uint
canonical_decimal-print [] = refl
canonical_decimal-print (c ∷ s) = ground arith

signed-print : (v : ℤ) → signed_id v ≡ print (unsigned v)
unfolding signed_id
signed-print (pos n) = refl
signed-print (negsuc n) = refl

canonical-print : (id : AnyId) → canonical_unique_id id ≡ print (number id)
unfolding canonical_unique_id number parse_uint
canonical-print (int v) = signed-print v
canonical-print (int8 v) = signed-print v
canonical-print (int16 v) = signed-print v
canonical-print (int32 v) = signed-print v
canonical-print (int64 v) = signed-print v
canonical-print (string s) = canonical_decimal-print s
canonical-print (byte_slice []) = refl
canonical-print (byte_slice (c ∷ s)) = canonical_decimal-print (c ∷ s)
canonical-print _ = refl

-- Go's integer types hold at most 64 bits.
abbrev pub FitsU64 : AnyId → Type 0
FitsU64 id = (n : ℕ) → number id ≡ some n → n ≤ max_u64

canonical-some :
    (id : AnyId) (r : Bytes)
    → canonical_unique_id id ≡ some r
    → (n : ℕ) × (number id ≡ some n) × (format_uint n ≡ r)
canonical-some id r h = elim (Option-cases (number id)) [
  | inl e ↦ absurd (cc (canonical-print id, e))
  | inr (n, e) ↦ (n, e, cc (canonical-print id, ap print e))
]

-- The text of an accepted ID, whose number fits a uint64, is accepted as a string, and its text is
-- that text itself.
pub canonical_unique_id_idem :
    (id : AnyId) (r : Bytes)
    → FitsU64 id
    → canonical_unique_id id ≡ some r
    → canonical_unique_id (string r) ≡ some r
unfolding number
canonical_unique_id_idem id r fits h =
    let (n, e, p) = canonical-some id r h in
    canonical-print (string r)
    ∙ ap print (ap parse_uint (sym p) ∙ parse_uint-format_uint n (fits n e))
    ∙ ap some p

-- Two accepted IDs have the same text exactly when they stand for the same number, whatever Go
-- types and spellings they come in, if the numbers fit a uint64.
pub canonical_unique_id_eq_iff :
    (a b : AnyId) (r s : Bytes)
    → FitsU64 a
    → FitsU64 b
    → canonical_unique_id a ≡ some r
    → canonical_unique_id b ≡ some s
    → (r ≡ s) ↔ (number a ≡ number b)
canonical_unique_id_eq_iff a b r s fits_a fits_b ha hb =
    let (n, e, p) = canonical-some a r ha in
    let (m, d, q) = canonical-some b s hb in
    let back_n = parse_uint-format_uint n (fits_a n e) in
    let back_m = parse_uint-format_uint m (fits_b m d) in
    (
      λ same. cc (ap parse_uint (p ∙ same ∙ sym q)),
      λ same. cc (canonical-print a, ap print same, canonical-print b),
    )
