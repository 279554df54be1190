-- ===== src/Client/Retry/Delays.antt =====
-- client.go: retryDelay and clientBackoffDelay in closed form.
use statokgo.Prelude.{
  ℕ, zero, suc, ◌+◌, ◌-◌, ◌*◌, ◌%◌, ◌^◌, ◌≤◌, leb, min, ◌≡◌, ap, arith, Bool-cases, inl, inr,
}
use statokgo.Client.Retry.{
  second, double_delay, retry_delay, client_backoff_delay, default_retry_max_delay,
  default_client_backoff_max_delay,
}

le-times_power : (a n : ℕ) → a ≤ a * 2 ^ n
le-times_power a zero = omega arith
le-times_power a (suc n) = grind (arith, le-times_power a n)

times_power-suc : (a n : ℕ) → a * 2 ^ suc n ≡ a * 2 * 2 ^ n
times_power-suc a n = grind arith

double_delay_lem :
    (max_delay rounds delay : ℕ)
    → delay ≤ max_delay
    → double_delay max_delay rounds delay ≡ min max_delay (delay * 2 ^ rounds)
unfolding double_delay
double_delay_lem max_delay zero delay h = ground arith
double_delay_lem max_delay (suc rounds) delay h = elim (Bool-cases (leb max_delay (delay * 2))) [
  | inl enough ↦ ground (
    arith,
    le-times_power (delay * 2) rounds,
    le-times_power delay (suc rounds),
    times_power-suc delay rounds,
  )
  | inr short ↦ ground (
    arith,
    times_power-suc delay rounds,
    double_delay_lem max_delay rounds (delay * 2) (ground arith),
  )
]

-- The delays after the n-th attempt and after the n-th failure in a row (n from 1; 0 counts as 1)
-- are 2^(n-1) seconds, at most 8 seconds for the batch and 30 seconds for the whole client, and a
-- jitter on top: the clock reading modulo 1 second and modulo 5 seconds.
pub delays_double :
    (attempt now : ℕ)
    → (retry_delay attempt now ≡ min (8 * second) (second * 2 ^ (attempt - 1)) + now % second)
      × (client_backoff_delay attempt now
          ≡ min (30 * second) (second * 2 ^ (attempt - 1)) + now % (5 * second))
unfolding retry_delay client_backoff_delay
delays_double attempt now = (
  ap (λ (d : ℕ). d + now % second)
      (double_delay_lem default_retry_max_delay (attempt - 1) second (omega arith)),
  ap (λ (d : ℕ). d + now % (5 * second))
      (double_delay_lem default_client_backoff_max_delay (attempt - 1) second (omega arith)),
)
