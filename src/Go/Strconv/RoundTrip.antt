-- ===== src/Go/Strconv/RoundTrip.antt =====
-- Go's FormatUint and ParseUint, one after the other.
use statokgo.Prelude.{
  ℕ, zero, suc, ◌+◌, ◌/◌, ◌%◌, ◌≤◌, ◌<◌, ltb, Bytes, [], ◌∷◌, ◌++◌, Option, none, some, ◌≡◌, ◌≢◌,
  refl, arith, All, All-append, Lacks, Bool-cases, inl, inr, ◌*◌, ◌-◌, ◌^◌, ◌==◌, false, ap, sym,
  ◌∙◌,
}
use mathlib.Core.List.{concat-ne-nil}
use statokgo.Prelude.Int.{pos}
use statokgo.Go.Strconv.{max_u64, format_digits, format_uint, scan, parse_uint, atoi, plain}

-- Enough rounds give the same print.
format_digits_fuel : (f g n : ℕ) → n < f → n < g → format_digits f n ≡ format_digits g n
unfolding format_digits
format_digits_fuel zero g n h k = elim h [ ]
format_digits_fuel (suc f) zero n h k = elim k [ ]
format_digits_fuel (suc f) (suc g) n h k = ground (arith, format_digits_fuel f g (n / 10))

abbrev pub IsDigit : ℕ → Type 0
IsDigit c = (48 ≤ c) × (c ≤ 57)

format_digits-IsDigit : (f n : ℕ) → All IsDigit (format_digits f n)
unfolding format_digits
format_digits-IsDigit zero n = tt
format_digits-IsDigit (suc f) n = elim (Bool-cases (ltb n 10)) [
  | inl small ↦ rw small (ground arith)
  | inr large ↦ rw large (
      All-append IsDigit (format_digits f (n / 10)) _ (format_digits-IsDigit f (n / 10))
        (omega arith))
]

pub format_uint-IsDigit : (n : ℕ) → All IsDigit (format_uint n)
unfolding format_uint
format_uint-IsDigit n = format_digits-IsDigit (suc n) n

-- No byte outside the digits stands in a print.
pub digits-Lacks : (c : ℕ) (s : Bytes) → (IsDigit c → ⊥) → All IsDigit s → Lacks c s
digits-Lacks c [] no_digit h = tt
digits-Lacks c (d ∷ s) no_digit (hd, hs) =
    (λ e. no_digit (rw (← e) hd), digits-Lacks c s no_digit hs)

bind : Option ℕ → (ℕ → Option ℕ) → Option ℕ
bind none k = none
bind (some n) k = k n

scan-append :
    (limit : ℕ) (s t : Bytes) (n : ℕ) → scan limit (s ++ t) n ≡ bind (scan limit s n) (scan limit t)
unfolding scan bind
scan-append limit [] t n = refl
scan-append limit (c ∷ s) t n = ground (arith, scan-append limit s t (n * 10 + (c - 48)))

scan_digit : (limit n : ℕ) → n ≤ limit → scan limit ((48 + n % 10) ∷ []) (n / 10) ≡ some n
unfolding scan
scan_digit limit n h = ground arith

scan-format_digits : (limit f n : ℕ) → n < f → n ≤ limit → scan limit (format_digits f n) 0 ≡ some n
unfolding format_digits
scan-format_digits limit zero n h k = elim h [ ]
scan-format_digits limit (suc f) n h k = elim (Bool-cases (ltb n 10)) [
  | inl small ↦ rw small (unfold scan in ground arith)
  | inr large ↦
      rw (large, scan-append)
        (rw (scan-format_digits limit f (n / 10) (ground arith) (ground arith))
          (unfold bind in scan_digit limit n k))
]

parse_uint-scan : (s : Bytes) → s ≢ [] → parse_uint s ≡ scan max_u64 s 0
unfolding parse_uint
parse_uint-scan [] h = absurd (h refl)
parse_uint-scan (c ∷ s) h = refl

pub format_uint-ne-nil : (n : ℕ) → format_uint n ≢ []
unfolding format_uint format_digits
format_uint-ne-nil n e = elim (Bool-cases (ltb n 10)) [
  | inl small ↦ cc (rw small at e)
  | inr large ↦ concat-ne-nil (48 + n % 10) (format_digits n (n / 10)) (rw large at e)
]

-- Every uint64 is read back from its print.
pub parse_uint-format_uint : (n : ℕ) → n ≤ max_u64 → parse_uint (format_uint n) ≡ some n
unfolding format_uint
parse_uint-format_uint n h =
    rw (parse_uint-scan (format_uint n) (format_uint-ne-nil n))
      (scan-format_digits max_u64 (suc n) n (omega arith) h)

pub format_uint_cons : (n : ℕ) → (d : ℕ) × (s : Bytes) × (format_uint n ≡ d ∷ s) × IsDigit d
format_uint_cons n = go (format_uint n) refl
  where
    go :
        (t : Bytes)
        → format_uint n ≡ t
        → (d : ℕ) × (s : Bytes) × (format_uint n ≡ d ∷ s) × IsDigit d
    go [] e = absurd (format_uint-ne-nil n e)
    go (d ∷ s) e = (d, s, e, (rw e at (format_uint-IsDigit n)).0)

scan-format_uint : (limit n : ℕ) → n ≤ limit → scan limit (format_uint n) 0 ≡ some n
unfolding format_uint
scan-format_uint limit n h = scan-format_digits limit (suc n) n (omega arith) h

atoi_digits :
    (d : ℕ) (s : Bytes) (n : ℕ)
    → IsDigit d
    → scan (2 ^ 63 - 1) (d ∷ s) 0 ≡ some n
    → atoi (d ∷ s) ≡ some (pos n)
unfolding atoi plain
atoi_digits d s n digit back =
    let no_minus : (d == b'-') ≡ false = ground arith in
    let no_plus : (d == b'+') ≡ false = ground arith in rw (no_minus, no_plus, back)

-- Every number that a 64-bit int holds is read back from its print.
pub atoi-format_uint : (n : ℕ) → n < 2 ^ 63 → atoi (format_uint n) ≡ some (pos n)
atoi-format_uint n h =
    let (d, s, e, digit) = format_uint_cons n in
    ap atoi e
    ∙ atoi_digits d s n digit (
        ap (λ (t : Bytes). scan (2 ^ 63 - 1) t 0) (sym e)
        ∙ scan-format_uint (2 ^ 63 - 1) n (omega arith))
