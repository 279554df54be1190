-- ===== src/Agent/LogLimiter.antt =====
-- internal/agent/runner.go, logLimiter: one log line for each key and period. Times are nanoseconds.
use statokgo.Prelude.{
  ℕ, ◌+◌, ◌≤◌, leb, leb→le, Bool, true, false, Bytes, List, [], ◌∷◌, Option, none, some, ◌≡◌,
  if◌then◌else◌, lookup, insert, lookup-insert, text_eq, bytes_eq, bytes_eq→≡, subst, Bool-cases,
  inl, inr,
}

-- the field `last`
abbrev pub Limiter : Type 0
Limiter = List (Bytes × ℕ)

-- whether the time may follow the last one; now.Sub(last) >= every
unfoldable pub is_due : ℕ → ℕ → Option ℕ → Bool
is_due every now none = true
is_due every now (some last) = leb (last + every) now

unfoldable pub allow : ℕ → Bytes → ℕ → Limiter → Bool × Limiter
unfolding is_due lookup insert
allow every key now l =
    if is_due every now (lookup text_eq key l) then (true, insert text_eq key now l) else (false, l)

-- the times at which calls with the key were allowed, in the order of the calls
unfoldable pub allowed_at : ℕ → Bytes → List (Bytes × ℕ) → Limiter → List ℕ
unfolding allow bytes_eq
allowed_at every key [] l = []
allowed_at every key ((k, now) ∷ calls) l =
    let (answer, l') = allow every k now l in
    let rest = allowed_at every key calls l' in
    if answer then (if bytes_eq k key then now ∷ rest else rest) else rest

-- Each time is at least `every` behind the one before, and the first is due.
abbrev pub AreSpaced : ℕ → Option ℕ → List ℕ → Type 0
AreSpaced every last [] = Unit
AreSpaced every none (t ∷ ts) = AreSpaced every (some t) ts
AreSpaced every (some last) (t ∷ ts) = (last + every ≤ t) × AreSpaced every (some t) ts

spaced-cons :
    (every now : ℕ) (last : Option ℕ) (ts : List ℕ)
    → is_due every now last ≡ true
    → AreSpaced every (some now) ts
    → AreSpaced every last (now ∷ ts)
unfolding is_due
spaced-cons every now none ts due h = h
spaced-cons every now (some last) ts due h = (leb→le (last + every) now due, h)

-- Whatever the clock reads and whichever keys are asked for in between: two calls of allow for one key
-- that answer true, one next to the other, are at least the limiter's period apart.
pub allowed_at-AreSpaced :
    (every : ℕ) (key : Bytes) (calls : List (Bytes × ℕ)) (l : Limiter)
    → AreSpaced every (lookup text_eq key l) (allowed_at every key calls l)
unfolding allowed_at allow
allowed_at-AreSpaced every key [] l = tt
allowed_at-AreSpaced every key ((k, now) ∷ calls) l =
    elim (Bool-cases (is_due every now (lookup text_eq k l))) [
      | inr early ↦ rw early (allowed_at-AreSpaced every key calls l)
      | inl due ↦ elim (Bool-cases (bytes_eq k key)) [
        | inl same ↦
            let rest = allowed_at-AreSpaced every key calls (insert text_eq k now l) in
            let due' : is_due every now (lookup text_eq key l) ≡ true =
              subst (λ (j : Bytes). is_due every now (lookup text_eq j l) ≡ true)
                (bytes_eq→≡ k key same) due in
            rw (due, same)
              (spaced-cons every now (lookup text_eq key l) _ due'
                (rw (lookup-insert text_eq k key now l, same) at rest))
        | inr other ↦
            let rest = allowed_at-AreSpaced every key calls (insert text_eq k now l) in
            rw (due, other) (rw (lookup-insert text_eq k key now l, other) at rest)
      ]
    ]
