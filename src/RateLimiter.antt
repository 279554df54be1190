-- ===== src/RateLimiter.antt =====
-- value_rate_limiter.go: one 64-bit word that holds a second (the upper 48 bits) and a count of the
-- samples that passed in it (the lower 16 bits).
pub mod Word
pub mod Window
pub mod Threads
use statokgo.Prelude.{
  ℕ, ◌+◌, ◌*◌, ◌/◌, ◌%◌, ◌^◌, ltb, leb, Bool, List, [], ◌∷◌, if◌then◌else◌, length, Option, none,
  some,
}

abbrev pub max_value_events_per_second : ℕ
max_value_events_per_second = 20000

abbrev pub rate_limit_counter_bits : ℕ
rate_limit_counter_bits = 16

abbrev pub u64_mod : ℕ
u64_mod = 2 ^ 64

-- state >> rateLimitCounterBits
abbrev pub window_of : ℕ → ℕ
window_of state = state / 2 ^ rate_limit_counter_bits

-- state & rateLimitCounterMask
abbrev pub count_of : ℕ → ℕ
count_of state = state % 2 ^ rate_limit_counter_bits

-- window<<rateLimitCounterBits | 1; the shift wraps, and leaves the lowest bit free
abbrev pub first_of_window : ℕ → ℕ
first_of_window window = window * 2 ^ rate_limit_counter_bits % u64_mod + 1

-- What a round of the loop does with the word that it loaded: return false, or try to swap in a word.
pub data Attempt : Type 0 where
  refuse : Attempt
  swap_to : ℕ → Attempt

unfoldable pub attempt : ℕ → ℕ → Attempt
attempt window state =
    if ltb window (window_of state)
    then refuse
    else if ltb (window_of state) window
    then swap_to (first_of_window window)
    else if leb max_value_events_per_second (count_of state)
    then refuse
    else swap_to ((state + 1) % u64_mod)

-- One call whose CompareAndSwap meets no other: the result and the word that it leaves.
unfoldable pub allow_at : ℕ → ℕ → Bool × ℕ
unfolding attempt
allow_at second state = elim (attempt second state) [
  | refuse ↦ (Bool.false, state)
  | swap_to next ↦ (Bool.true, next)
]
