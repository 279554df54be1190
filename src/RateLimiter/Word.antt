-- ===== src/RateLimiter/Word.antt =====
-- value_rate_limiter.go: one successful swap, and how many samples of each second may still pass.
use statokgo.Prelude.{ℕ, ◌+◌, ◌-◌, ◌^◌, ◌≤◌, ◌<◌, ltb, ◌==◌, if◌then◌else◌, ◌≡◌, arith}
use statokgo.RateLimiter.{
  max_value_events_per_second, u64_mod, window_of, count_of, attempt, swap_to,
}

-- How many more samples of second k may pass while the limiter holds `state`.
abbrev pub room : ℕ → ℕ → ℕ
room k state =
    if ltb k (window_of state)
    then 0
    else if ltb (window_of state) k
    then max_value_events_per_second
    else max_value_events_per_second - count_of state

-- 1 for a sample of second k
abbrev pub hit : ℕ → ℕ → ℕ
hit k second = if second == k then 1 else 0

abbrev pub max_second : ℕ
max_second = 2 ^ 48

-- A swap uses up a place of its own second, and gives none to any other.
pub room-swap :
    (k second state : ℕ) {next : ℕ}
    → second < max_second
    → state < u64_mod
    → attempt second state ≡ swap_to next
    → (room k next + hit k second ≤ room k state) × (next < u64_mod)
unfolding attempt
room-swap k second state fits word e = ground arith
