-- ===== src/Agent/Runner/Orderly.antt =====
-- internal/agent/runner.go: the semaphore and the end of the agent, however its goroutines interleave.
use statokgo.Prelude.{
  ◌≤◌, ◌≡◌, ◌≢◌, refl, sym, ap, ◌∙◌, subst, Bytes, List, [], ◌∷◌, ◌++◌, append_assoc, All, arith,
  inl, inr,
}
use statokgo.Agent.Runner.Moves.{
  is_busy, busy, put, busy-put, collector_of-put, Effect, Move-Effect,
}
use statokgo.Agent.Runner.{
  Collector, Place, returned, Task, Main, serving, closing, stopped, Agent, started, tasks_of,
  closed_ids, collector_of, Step, goes, cancels, joins, closes_one, stops, Reach, here, next,
  max_concurrency,
}

-- the collectors whose turn to be closed is still to come
abbrev pub Rest : Main → List Collector → List Collector → Type 0
Rest serving all left = left ≡ all
Rest (closing cs) all left = left ≡ cs
Rest stopped all left = left ≡ []

abbrev pub HasReturned : Task → Type 0
HasReturned t = t.place ≡ returned

-- Nobody collects any more once the agent closes its collectors.
abbrev pub IsQuiet : Main → List Task → Type 0
IsQuiet serving ts = Unit
IsQuiet (closing cs) ts = All HasReturned ts
IsQuiet stopped ts = All HasReturned ts

-- The semaphore counts the collectors in Collect, which are at most four; all goroutines have returned
-- before the first collector is closed; and those that are closed are the first of the closers.
pub record IsOrderly (all : List Collector) (a : Agent) : Type 0 where
  pub same : collector_of a.tasks ≡ all
  pub tokens : a.tokens ≡ busy a.tasks
  pub bounded : busy a.tasks ≤ max_concurrency
  pub quiet : IsQuiet a.main a.tasks
  pub left : List Collector
  pub rest : Rest a.main all left
  pub in_order : a.closed ++ closed_ids left ≡ closed_ids all

All-at :
    (before after : List Task) (t : Task) → All HasReturned (before ++ t ∷ after) → HasReturned t
All-at [] after t (h, hs) = h
All-at (b ∷ before) after t (h, hs) = All-at before after t hs

IsQuiet-put :
    (before after : List Task) (c : Collector) (p q : Place) (m : Main)
    → p ≢ returned
    → IsQuiet m (put before after c p)
    → IsQuiet m (put before after c q)
IsQuiet-put before after c p q serving moves h = tt
IsQuiet-put before after c p q (closing cs) moves h =
    absurd (moves (All-at before after (record { collector = c; place = p }) h))
IsQuiet-put before after c p q stopped moves h =
    absurd (moves (All-at before after (record { collector = c; place = p }) h))

goes-IsOrderly :
    (all : List Collector) (before after : List Task) (c : Collector) (p q : Place) (a b : Agent)
    → a.tasks ≡ put before after c p
    → Effect a p q b
    → IsOrderly all a
    → IsOrderly all (record b { tasks = put before after c q })
goes-IsOrderly all before after c p q a b at e h =
    let count = ap busy at ∙ busy-put before after c p in
    let count' = busy-put before after c q in
    let tokens = e.tokens (omega (arith, h.tokens, count)) in
    record {
      same = collector_of-put before after c q p ∙ ap collector_of (sym at) ∙ h.same;
      tokens = omega (arith, count, count', tokens, h.tokens);
      bounded = elim e.room [
        | inl fewer ↦ omega (arith, count, count', fewer, h.bounded)
        | inr room ↦ omega (arith, count, count', room, h.tokens)
      ];
      quiet =
          subst (λ (m : Main). IsQuiet m (put before after c q)) (sym e.main)
            (IsQuiet-put before after c p q a.main e.moves
              (subst (λ (ts : List Task). IsQuiet a.main ts) at h.quiet));
      left = h.left;
      rest = subst (λ (m : Main). Rest m all h.left) (sym e.main) h.rest;
      in_order = ap (λ l. l ++ closed_ids h.left) e.closed ∙ h.in_order;
    }

-- the collectors that are still to be closed, behind one step to the end
step_to_end :
    (all : List Collector) (a : Agent) (m : Main) (closed : List Bytes) (left : List Collector)
    → IsOrderly all a
    → IsQuiet m a.tasks
    → Rest m all left
    → closed ++ closed_ids left ≡ closed_ids all
    → IsOrderly all (record a { main = m; closed = closed })
step_to_end all a m closed left h quiet rest in_order = record {
  same = h.same;
  tokens = h.tokens;
  bounded = h.bounded;
  quiet = quiet;
  left = left;
  rest = rest;
  in_order = in_order;
}

closed_ids-cons :
    (c : Collector) (cs : List Collector)
    → closed_ids (c ∷ cs) ≡ closed_ids (c ∷ []) ++ closed_ids cs
unfolding closed_ids
closed_ids-cons c cs = ground arith

Step-IsOrderly : (all : List Collector) {a b : Agent} → Step a b → IsOrderly all a → IsOrderly all b
Step-IsOrderly all {a} (goes before after c p q b at move) h =
    goes-IsOrderly all before after c p q a b at (Move-Effect move) h
Step-IsOrderly all cancels h = record {
  same = h.same;
  tokens = h.tokens;
  bounded = h.bounded;
  quiet = h.quiet;
  left = h.left;
  rest = h.rest;
  in_order = h.in_order;
}
Step-IsOrderly all {a} (joins serves done all_back) h =
    let rest : h.left ≡ all = subst (λ (m : Main). Rest m all h.left) serves h.rest in
    step_to_end all a (closing (collector_of a.tasks)) a.closed h.left h all_back
      (rest ∙ sym h.same) h.in_order
Step-IsOrderly all {a} (closes_one c cs at) h =
    let rest : h.left ≡ c ∷ cs = subst (λ (m : Main). Rest m all h.left) at h.rest in
    step_to_end all a (closing cs) (a.closed ++ closed_ids (c ∷ [])) cs h
      (subst (λ (m : Main). IsQuiet m a.tasks) at h.quiet) refl
      (append_assoc a.closed (closed_ids (c ∷ [])) (closed_ids cs)
        ∙ ap (a.closed ++◌) (sym (closed_ids-cons c cs))
        ∙ ap (λ l. a.closed ++ closed_ids l) (sym rest)
        ∙ h.in_order)
Step-IsOrderly all {a} (stops at) h =
    step_to_end all a stopped a.closed h.left h (subst (λ (m : Main). IsQuiet m a.tasks) at h.quiet)
      (subst (λ (m : Main). Rest m all h.left) at h.rest) h.in_order

Reach-IsOrderly :
    (all : List Collector) {a b : Agent} → Reach a b → IsOrderly all a → IsOrderly all b
Reach-IsOrderly all here h = h
Reach-IsOrderly all (next r st) h = Step-IsOrderly all st (Reach-IsOrderly all r h)

started_tasks : (cs : List Collector) → (collector_of (tasks_of cs) ≡ cs) × (busy (tasks_of cs) ≡ 0)
unfolding tasks_of busy is_busy
started_tasks [] = (refl, refl)
started_tasks (c ∷ cs) = let (h, k) = started_tasks cs in (ap (c ∷◌) h, omega (arith, k))

-- However the goroutines of the agent interleave, whatever the collectors come to, and whenever the
-- context ends: at most four collectors are in Collect at once, and as many tokens are in the
-- semaphore; once the agent closes its collectors, every goroutine has returned; and the collectors
-- closed so far are the first of those that can be closed, in their order, each once, and all of them
-- when the agent has stopped.
pub agent-IsOrderly : (all : List Collector) (a : Agent) → Reach (started all) a → IsOrderly all a
unfolding started
agent-IsOrderly all a r =
    let (same, none_busy) = started_tasks all in
    Reach-IsOrderly all r (record {
      same = same;
      tokens = omega (arith, none_busy);
      bounded = omega (arith, none_busy);
      quiet = tt;
      left = all;
      rest = refl;
      in_order = refl;
    })
