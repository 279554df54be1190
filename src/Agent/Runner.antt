-- ===== src/Agent/Runner.antt =====
-- internal/agent/runner.go: which collectors run, the goroutine of each, the semaphore that they share,
-- and the end of the agent. What a collector reads of its host, and a probe, is known by the outcome.
pub mod Selected
pub mod Moves
pub mod Orderly
pub mod Ends
use statokgo.Prelude.{
  ℕ, ◌+◌, ◌-◌, ◌*◌, ◌<◌, ◌≡◌, Bool, true, false, not, Bytes, List, [], ◌∷◌, ◌++◌, Option, none,
  some, All, codes, if◌then◌else◌, ltb,
}
use statokgo.Prelude.Int.{ℤ, pos, ltb_ℤ}
use statokgo.Client.Retry.{second}
use statokgo.Agent.LogLimiter.{Limiter, allow}

abbrev pub max_concurrency : ℕ
max_concurrency = 4

abbrev pub core_fast_every : ℕ
core_fast_every = 10 * second

-- the period of newLogLimiter(time.Minute)
abbrev pub minute : ℕ
minute = 60 * second

-- A Collector; `closes` says whether it is a CollectorCloser.
pub record Collector : Type 0 where
  pub id : Bytes
  pub every : ℤ
  pub closes : Bool

-- What Probe.Detect comes to, and Probe.New: a panic carries its text.
pub data Detection : Type 0 where
  detected : Bytes → Detection
  missing : Bytes → Detection
  detect_panic : Bytes → Detection

pub data Made : Type 0 where
  made : Option Collector → Made
  new_panic : Made

pub record Probe : Type 0 where
  pub id : Bytes
  pub detect : Detection
  pub make : Made

-- the lines that Run logs about probes
pub data ProbeLine : Type 0 where
  probed : Bytes → Bool → Bytes → ProbeLine
  init_failed : Bytes → ProbeLine

unfoldable pub detect_once : Detection → Bool × Bytes
detect_once (detected reason) = (true, reason)
detect_once (missing reason) = (false, reason)
detect_once (detect_panic v) = (false, codes "probe panicked: " ++ v)

unfoldable pub new_from_probe : Made → Option Collector
new_from_probe (made c) = c
new_from_probe new_panic = none

-- the first loop of Run: collectors that are not nil
unfoldable pub add_core : List (Option Collector) → List Collector → List Collector
add_core [] collectors = collectors
add_core (none ∷ core) collectors = add_core core collectors
add_core (some c ∷ core) collectors = add_core core (collectors ++ c ∷ [])

-- one round of the second loop of Run, for a probe that is not nil
unfoldable pub add_probe : Probe → List Collector × List ProbeLine → List Collector × List ProbeLine
unfolding detect_once new_from_probe
add_probe p (collectors, lines) =
    let (ok, reason) = detect_once p.detect in
    if ok
    then elim (new_from_probe p.make) [
      | none ↦ (collectors, lines ++ probed p.id true reason ∷ init_failed p.id ∷ [])
      | some c ↦ (collectors ++ c ∷ [], lines ++ probed p.id true reason ∷ [])
    ]
    else (collectors, lines ++ probed p.id false reason ∷ [])

unfoldable pub add_probes :
    List (Option Probe) → List Collector × List ProbeLine → List Collector × List ProbeLine
unfolding add_probe
add_probes [] r = r
add_probes (none ∷ probes) r = add_probes probes r
add_probes (some p ∷ probes) r = add_probes probes (add_probe p r)

-- Run, up to r.run
unfoldable pub select_collectors :
    List (Option Collector) → List (Option Probe) → List Collector × List ProbeLine
unfolding add_core add_probes
select_collectors core probes = add_probes probes (add_core core [], [])

-- the period of a collector's ticker
unfoldable pub ticker_period : Collector → ℤ
ticker_period c = if ltb_ℤ (pos 0) c.every then c.every else pos core_fast_every

-- Where the goroutine of a collector stands: before the first collection, in the select of its loop, in
-- the select of collectOnce, in Collect, returned.
pub data Place : Type 0 where
  starting : Place
  idle : Place
  acquiring : Place
  collecting : Place
  returned : Place

pub record Task : Type 0 where
  pub collector : Collector
  pub place : Place

-- What safeCollect comes to.
pub data Collected : Type 0 where
  fine : Collected
  failed : Collected
  panicked : Collected

-- The goroutine of `run`: at <-ctx.Done() or wg.Wait(), in closeCollectors with the collectors that are
-- left, and behind it.
pub data Main : Type 0 where
  serving : Main
  closing : List Collector → Main
  stopped : Main

-- `tokens` are in the semaphore. `lines` and `closed` are a record of the past: the collectors whose
-- errors were logged, with the time, and the collectors that were closed.
pub record Agent : Type 0 where
  pub done : Bool
  pub tokens : ℕ
  pub tasks : List Task
  pub limiter : Limiter
  pub main : Main
  pub lines : List (Bytes × ℕ)
  pub closed : List Bytes

unfoldable pub tasks_of : List Collector → List Task
tasks_of [] = []
tasks_of (c ∷ cs) = record { collector = c; place = starting } ∷ tasks_of cs

unfoldable pub started : List Collector → Agent
unfolding tasks_of
started collectors = record {
  done = false;
  tokens = 0;
  tasks = tasks_of collectors;
  limiter = [];
  main = serving;
  lines = [];
  closed = [];
}

-- the end of collectOnce, at the time `now`
unfoldable pub report : Bytes → ℕ → Collected → Agent → Agent
unfolding allow
report id now fine a = a
report id now _ a =
    let (allowed, limiter) = allow minute id now a.limiter in
    if a.done
    then a
    else if allowed
    then record a { limiter = limiter; lines = a.lines ++ (id, now) ∷ [] }
    else a

-- the defer of collectOnce takes one token out
abbrev pub release : Agent → Agent
release a = record a { tokens = a.tokens - 1 }

-- What one goroutine does next: its place, and the agent before it is written down.
pub data Move (a : Agent) (c : Collector) : Place → Place → Agent → Type 0 where
  first : a.done ≡ false → Move a c starting acquiring a
  too_late : a.done ≡ true → Move a c starting idle a
  tick : Move a c idle acquiring a
  leave : a.done ≡ true → Move a c idle returned a
  acquire :
      a.tokens < max_concurrency
      → Move a c acquiring collecting (record a { tokens = a.tokens + 1 })
  -- the timeout of the collection, or the end of its parent
  give_up : Move a c acquiring idle a
  collect :
      (now : ℕ) (outcome : Collected)
      → Move a c collecting idle (release (report c.id now outcome a))

-- the collector, if it is a CollectorCloser; errors and panics of Close are only logged
unfoldable pub closed_ids : List Collector → List Bytes
closed_ids [] = []
closed_ids (c ∷ cs) = if c.closes then c.id ∷ closed_ids cs else closed_ids cs

abbrev pub collector_of : List Task → List Collector
collector_of [] = []
collector_of (t ∷ ts) = t.collector ∷ collector_of ts

-- One step of one goroutine, or the end of the context.
pub data Step (a : Agent) : Agent → Type 0 where
  goes :
      (before after : List Task) (c : Collector) (p q : Place) (b : Agent)
      → a.tasks ≡ before ++ record { collector = c; place = p } ∷ after
      → Move a c p q b
      → Step a (record b { tasks = before ++ record { collector = c; place = q } ∷ after })
  cancels : Step a (record a { done = true })
  -- <-ctx.Done() and wg.Wait()
  joins :
      a.main ≡ serving
      → a.done ≡ true
      → All (λ t. t.place ≡ returned) a.tasks
      → Step a (record a { main = closing (collector_of a.tasks) })
  closes_one :
      (c : Collector) (cs : List Collector)
      → a.main ≡ closing (c ∷ cs)
      → Step a (record a { main = closing cs; closed = a.closed ++ closed_ids (c ∷ []) })
  stops : a.main ≡ closing [] → Step a (record a { main = stopped })

pub data Reach (a : Agent) : Agent → Type 0 where
  here : Reach a a
  next : {b c : Agent} → Reach a b → Step b c → Reach a c
