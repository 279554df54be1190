-- ===== src/Go/Strconv/Base36.antt =====
-- Go's FormatUint in base 36.
use statokgo.Prelude.{
  ℕ, zero, suc, ◌+◌, ◌-◌, ◌*◌, ◌/◌, ◌<◌, ltb, Bytes, [], ◌∷◌, ◌++◌, ◌≡◌, refl, sym, ap, ◌∙◌, arith,
  if◌then◌else◌, Bool-cases, inl, inr, All, All-append, if_ind,
}
use statokgo.Go.Strings.Plain.{IsPlain}
use statokgo.Go.Strconv.{digit_36, format_digits_36, format_base36}

-- the number that digits spell behind n
value_36 : ℕ → Bytes → ℕ
value_36 n [] = n
value_36 n (c ∷ s) = value_36 (n * 36 + (if ltb c 58 then c - 48 else c - 87)) s

value_36-append : (n : ℕ) (s t : Bytes) → value_36 n (s ++ t) ≡ value_36 (value_36 n s) t
unfolding value_36
value_36-append n [] t = refl
value_36-append n (c ∷ s) t = value_36-append (n * 36 + (if ltb c 58 then c - 48 else c - 87)) s t

value_36-digits : (f n : ℕ) → n < f → value_36 0 (format_digits_36 f n) ≡ n
unfolding format_digits_36
value_36-digits zero n h = elim h [ ]
value_36-digits (suc f) n h = elim (Bool-cases (ltb n 36)) [
  | inl small ↦ rw small (unfold value_36 digit_36 in ground arith)
  | inr large ↦
      rw (large, value_36-append, value_36-digits f (n / 36) (ground arith))
        (unfold value_36 digit_36 in ground arith)
]

pub format_base36-injective : (a b : ℕ) → format_base36 a ≡ format_base36 b → a ≡ b
unfolding format_base36
format_base36-injective a b e =
    sym (value_36-digits (suc a) a (omega arith))
    ∙ ap (value_36 0) e
    ∙ value_36-digits (suc b) b (omega arith)

-- The digits are printable bytes.
digits-IsPlain : (f n : ℕ) → All IsPlain (format_digits_36 f n)
unfolding format_digits_36 digit_36
digits-IsPlain zero n = tt
digits-IsPlain (suc f) n =
    if_ind (All IsPlain) (ltb n 36) _ _ (λ small. (ground arith, tt))
      (λ large.
        All-append IsPlain (format_digits_36 f (n / 36)) _ (digits-IsPlain f (n / 36))
          (ground arith, tt))

pub format_base36-IsPlain : (n : ℕ) → All IsPlain (format_base36 n)
unfolding format_base36
format_base36-IsPlain n = digits-IsPlain (suc n) n
