-- ===== src/Go/Strconv.antt =====
-- Go's `strconv` package in base 10: FormatUint, FormatInt, Itoa, ParseUint and Atoi.
pub mod RoundTrip
pub mod Base36
use statokgo.Prelude.{
  ℕ, zero, suc, ◌+◌, ◌-◌, ◌*◌, ◌/◌, ◌%◌, ◌^◌, ltb, leb, ◌==◌, ◌||◌, Bytes, [], ◌∷◌, ◌++◌, Option,
  none, some, if◌then◌else◌,
}
use statokgo.Prelude.Int.{ℤ, pos, negsuc}

abbrev pub max_u64 : ℕ
max_u64 = 2 ^ 64 - 1

-- One digit for each round; the rounds are fewer than n + 1.
format_digits : ℕ → ℕ → Bytes
format_digits zero n = []
format_digits (suc f) n =
    let rest = format_digits f (n / 10) in
    let more = rest ++ (48 + n % 10) ∷ [] in if ltb n 10 then (48 + n) ∷ [] else more

-- strconv.FormatUint(n, 10)
unfoldable pub format_uint : ℕ → Bytes
unfolding format_digits
format_uint n = format_digits (suc n) n

-- the digits 0..9 and a..z
digit_36 : ℕ → ℕ
digit_36 d = if ltb d 10 then 48 + d else 87 + d

format_digits_36 : ℕ → ℕ → Bytes
format_digits_36 zero n = []
format_digits_36 (suc f) n =
    let rest = format_digits_36 f (n / 36) in
    let more = rest ++ digit_36 (n % 36) ∷ [] in if ltb n 36 then digit_36 n ∷ [] else more

-- strconv.FormatUint(n, 36)
unfoldable pub format_base36 : ℕ → Bytes
unfolding format_digits_36 digit_36
format_base36 n = format_digits_36 (suc n) n

-- strconv.FormatInt(n, 10), strconv.Itoa
unfoldable pub format_int : ℤ → Bytes
unfolding format_uint
format_int (pos n) = format_uint n
format_int (negsuc n) = b'-' ∷ format_uint (suc n)

-- the digits behind those that made n; none on another byte or above `limit`
scan : ℕ → Bytes → ℕ → Option ℕ
scan limit [] n = some n
scan limit (c ∷ s) n =
    let d = c - 48 in
    if ltb c 48 || ltb 57 c
    then none
    else if ltb limit (n * 10 + d)
    then none
    else scan limit s (n * 10 + d)

-- strconv.ParseUint(s, 10, 64); none is an error
unfoldable pub parse_uint : Bytes → Option ℕ
unfolding scan
parse_uint [] = none
parse_uint (c ∷ s) = scan max_u64 (c ∷ s) 0

negate : Option ℕ → Option ℤ
negate none = none
negate (some zero) = some (pos 0)
negate (some (suc n)) = some (negsuc n)

plain : Option ℕ → Option ℤ
plain none = none
plain (some n) = some (pos n)

scan_signed : ℕ → Bytes → Option ℕ
scan_signed limit [] = none
scan_signed limit (c ∷ s) = scan limit (c ∷ s) 0

-- strconv.Atoi, with a 64-bit int; none is an error
unfoldable pub atoi : Bytes → Option ℤ
unfolding scan negate plain scan_signed
atoi [] = none
atoi (c ∷ s) =
    if c == b'-'
    then negate (scan_signed (2 ^ 63) s)
    else if c == b'+'
    then plain (scan_signed (2 ^ 63 - 1) s)
    else plain (scan (2 ^ 63 - 1) (c ∷ s) 0)
