-- ===== src/UniqueId.antt =====
-- unique_id.go: the decimal text that stands for a unique ID. `none` is a refused ID.
pub mod Canonical
use statokgo.Prelude.{ℕ, Bytes, [], ◌∷◌, Option, none, some}
use statokgo.Prelude.Int.{ℤ, pos, negsuc}
use statokgo.Go.Strconv.{format_uint, parse_uint}

-- The dynamic types that the type switch tells apart.
pub data AnyId : Type 0 where
  int int8 int16 int32 int64 : ℤ → AnyId
  uint uint8 uint16 uint32 uint64 uintptr : ℕ → AnyId
  string byte_slice : Bytes → AnyId
  other : AnyId

-- a signed case of the switch
signed_id : ℤ → Option Bytes
signed_id (pos n) = some (format_uint n)
signed_id (negsuc n) = none

reprint : Option ℕ → Option Bytes
reprint none = none
reprint (some v) = some (format_uint v)

unfoldable pub canonical_unique_decimal_string : Bytes → Option Bytes
unfolding reprint
canonical_unique_decimal_string [] = none
canonical_unique_decimal_string (c ∷ s) = reprint (parse_uint (c ∷ s))

unfoldable pub canonical_unique_id : AnyId → Option Bytes
unfolding signed_id canonical_unique_decimal_string
canonical_unique_id (int v) = signed_id v
canonical_unique_id (int8 v) = signed_id v
canonical_unique_id (int16 v) = signed_id v
canonical_unique_id (int32 v) = signed_id v
canonical_unique_id (int64 v) = signed_id v
canonical_unique_id (uint v) = some (format_uint v)
canonical_unique_id (uint8 v) = some (format_uint v)
canonical_unique_id (uint16 v) = some (format_uint v)
canonical_unique_id (uint32 v) = some (format_uint v)
canonical_unique_id (uint64 v) = some (format_uint v)
canonical_unique_id (uintptr v) = some (format_uint v)
canonical_unique_id (string s) = canonical_unique_decimal_string s
canonical_unique_id (byte_slice []) = none
canonical_unique_id (byte_slice (c ∷ s)) = canonical_unique_decimal_string (c ∷ s)
canonical_unique_id other = none
