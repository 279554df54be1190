-- ===== src/RateLimiter/Window.antt =====
-- value_rate_limiter.go: the limit for calls that follow one another.
use statokgo.Prelude.{
  ℕ, zero, suc, ◌+◌, ◌≤◌, ◌<◌, min, List, [], ◌∷◌, if◌then◌else◌, ◌≡◌, arith, replicate,
}
use statokgo.RateLimiter.{max_value_events_per_second, u64_mod, window_of, attempt, allow_at}
use statokgo.RateLimiter.Word.{room, hit, max_second}

-- How many of the calls at the listed seconds pass and are of second k.
unfoldable pub passes : ℕ → List ℕ → ℕ → ℕ
passes k [] state = 0
passes k (second ∷ rest) state =
    (if (allow_at second state).0 then hit k second else 0)
    + passes k rest (allow_at second state).1

allow_at-exact :
    (k state : ℕ)
    → k < max_second
    → state < u64_mod
    → window_of state ≤ k
    → ((if (allow_at k state).0 then 1 else 0) ≡ min 1 (room k state))
      × (room k (allow_at k state).1 + min 1 (room k state) ≡ room k state)
      × (window_of (allow_at k state).1 ≤ k)
      × ((allow_at k state).1 < u64_mod)
unfolding allow_at attempt
allow_at-exact k state fits word le = ground arith

passes-eq-room :
    (k n state : ℕ)
    → k < max_second
    → state < u64_mod
    → window_of state ≤ k
    → passes k (replicate n k) state ≡ min n (room k state)
unfolding passes
passes-eq-room k zero state fits word le = omega arith
passes-eq-room k (suc n) state fits word le =
    let (pass, left, le', word') = allow_at-exact k state fits word le in
    ground (arith, pass, left, passes-eq-room k n (allow_at k state).1 fits word' le')

-- When a second begins that is later than the one of the limiter's word (a 64-bit word, and a
-- second below 2^48), exactly the first 20,000 of its calls pass: n calls give min(n, 20,000).
pub passes_burst :
    (k n state : ℕ)
    → k < max_second
    → state < u64_mod
    → window_of state < k
    → passes k (replicate n k) state ≡ min n max_value_events_per_second
passes_burst k n state fits word lt =
    ground (arith, passes-eq-room k n state fits word (omega arith))
