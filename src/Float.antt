-- ===== src/Float.antt =====
-- Go's float64, as far as the client uses it: a type with its operations, which the definitions take
-- as a parameter. `IsExact` states what IEEE 754 guarantees on whole numbers below 2^53.
use statokgo.Prelude.{ℕ, ◌+◌, ◌-◌, ◌^◌, ◌≤◌, ◌<◌, ltb, leb, Bool, Bytes, ◌≡◌}
use statokgo.Prelude.Int.{ℤ}

pub record Float (V : Type 0) : Type 0 where
  pub zero_value : V
  pub add : V → V → V
  pub sub : V → V → V
  pub lt : V → V → Bool
  -- x <= 0
  pub le_zero : V → Bool
  -- int64(math.Round(x))
  pub round : V → ℤ
  -- strconv.FormatFloat(x, 'f', -1, 64)
  pub format : V → Bytes

-- the whole numbers that float64 holds exactly
abbrev pub exact_limit : ℕ
exact_limit = 2 ^ 53

pub record IsExact {V : Type 0} (F : Float V) (whole : ℕ → V) : Type 0 where
  pub exact_lt : (a b : ℕ) → a < exact_limit → b < exact_limit → F.lt (whole a) (whole b) ≡ ltb a b
  pub exact_sub : (a b : ℕ) → a < exact_limit → b ≤ a → F.sub (whole a) (whole b) ≡ whole (a - b)
  pub exact_le_zero : (a : ℕ) → a < exact_limit → F.le_zero (whole a) ≡ leb a 0
  pub exact_add : (a b : ℕ) → a + b < exact_limit → F.add (whole a) (whole b) ≡ whole (a + b)
