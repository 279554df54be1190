-- ===== src/RateLimiter/Threads.antt =====
-- value_rate_limiter.go: the limit for any number of goroutines. A call loads the word and later tries to swap it; between
-- the two, other calls may swap theirs, and then the call loads again.
use statokgo.Prelude.{ℕ, ◌+◌, ◌≤◌, ◌<◌, List, [], ◌∷◌, ◌++◌, ◌≡◌, ◌≢◌, ap, arith}
use statokgo.RateLimiter.{refuse, swap_to, max_value_events_per_second, u64_mod, attempt}
use statokgo.RateLimiter.Word.{room, hit, max_second, room-swap}

-- a call between its load and its swap
pub record Round : Type 0 where
  pub window : ℕ
  pub loaded : ℕ

pub record System : Type 0 where
  -- the word that the goroutines share
  pub word : ℕ
  pub pending : List Round
  -- the seconds of the calls that have returned true
  pub passed : List ℕ

abbrev pub fresh : System
fresh = record { word = 0; pending = []; passed = [] }

-- One atomic action of one goroutine.
pub data Step (s : System) : System → Type 0 where
  -- a call begins: it reads the clock, and loads the word
  load :
      (window : ℕ)
      → window < max_second
      → Step s (record s { pending = record { window = window; loaded = s.word } ∷ s.pending })
  -- the round returns false
  give_up :
      (before after : List Round) (r : Round)
      → s.pending ≡ before ++ r ∷ after
      → attempt r.window r.loaded ≡ refuse
      → Step s (record s { pending = before ++ after })
  -- CompareAndSwap finds the word that was loaded
  swap :
      (before after : List Round) (r : Round) (next : ℕ)
      → s.pending ≡ before ++ r ∷ after
      → attempt r.window r.loaded ≡ swap_to next
      → r.loaded ≡ s.word
      → Step s (record { word = next; pending = before ++ after; passed = r.window ∷ s.passed })
  -- it finds another word: `continue`, or the next turn of `for`
  again :
      (before after : List Round) (r : Round) (next : ℕ)
      → s.pending ≡ before ++ r ∷ after
      → attempt r.window r.loaded ≡ swap_to next
      → r.loaded ≢ s.word
      → Step s
          (record s { pending = before ++ record { window = r.window; loaded = s.word } ∷ after })

pub data Reach (s : System) : System → Type 0 where
  here : Reach s s
  next : {t u : System} → Reach s t → Step t u → Reach s u

-- how many of the calls that returned true are of second k
unfoldable pub passed_in : ℕ → List ℕ → ℕ
passed_in k [] = 0
passed_in k (second ∷ rest) = hit k second + passed_in k rest

abbrev InSecondRange : List Round → Type 0
InSecondRange [] = Unit {0}
InSecondRange (r ∷ rs) = (r.window < max_second) × InSecondRange rs

InSecondRange-split :
    (before after : List Round) (r : Round)
    → InSecondRange (before ++ r ∷ after)
    → (r.window < max_second) × InSecondRange (before ++ after)
InSecondRange-split [] after r h = h
InSecondRange-split (b ∷ before) after r (hb, h) =
    let (hr, rest) = InSecondRange-split before after r h in (hr, (hb, rest))

InSecondRange-put :
    (before after : List Round) (r : Round)
    → r.window < max_second
    → InSecondRange (before ++ after)
    → InSecondRange (before ++ r ∷ after)
InSecondRange-put [] after r hr h = (hr, h)
InSecondRange-put (b ∷ before) after r hr (hb, h) = (hb, InSecondRange-put before after r hr h)

record Invariant (k : ℕ) (s : System) : Type 0 where
  in_range : InSecondRange s.pending
  is_word : s.word < u64_mod
  bounded : passed_in k s.passed + room k s.word ≤ max_value_events_per_second

split_at :
    {k : ℕ} {s : System} (before after : List Round) (r : Round)
    → Invariant k s
    → s.pending ≡ before ++ r ∷ after
    → (r.window < max_second) × InSecondRange (before ++ after)
split_at before after r h e = InSecondRange-split before after r (rw e at (h.in_range))

Step-Invariant : {k : ℕ} {s t : System} → Step s t → Invariant k s → Invariant k t
Step-Invariant (load window fits) h = record {
  in_range = (fits, h.in_range);
  is_word = h.is_word;
  bounded = h.bounded;
}
Step-Invariant (give_up before after r e _) h = record {
  in_range = (split_at before after r h e).1;
  is_word = h.is_word;
  bounded = h.bounded;
}
Step-Invariant {k} (swap before after r word' e swaps same) h =
    let (fits, rest) = split_at before after r h e in
    let (used, word) = room-swap k r.window r.loaded fits (rw same (h.is_word)) swaps in
    record {
      in_range = rest;
      is_word = word;
      bounded = unfold passed_in in omega (arith, used, h.bounded, ap (room k) same);
    }
Step-Invariant (again before after r word' e _ _) h =
    let (fits, rest) = split_at before after r h e in
    record {
      in_range = InSecondRange-put before after _ fits rest;
      is_word = h.is_word;
      bounded = h.bounded;
    }

Reach-Invariant : {k : ℕ} {s t : System} → Reach s t → Invariant k s → Invariant k t
Reach-Invariant here h = h
Reach-Invariant (next r st) h = Step-Invariant st (Reach-Invariant r h)

-- From a fresh limiter, whatever the goroutines do and however their loads and swaps interleave, at
-- most 20,000 calls of any one second have returned true. The seconds that the calls read from the
-- clock are below 2^48.
pub passed_in_bound :
    (k : ℕ) (s : System) → Reach fresh s → passed_in k s.passed ≤ max_value_events_per_second
passed_in_bound k s r =
    let start : Invariant k fresh =
      unfold passed_in in record { in_range = tt; is_word = omega arith; bounded = ground arith } in
    let h = Reach-Invariant r start in omega (arith, h.bounded)
