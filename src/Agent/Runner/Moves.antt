-- ===== src/Agent/Runner/Moves.antt =====
-- internal/agent/runner.go: what each move of a goroutine changes of the agent.
use statokgo.Prelude.{
  ℕ, ◌+◌, ◌≤◌, ◌≡◌, ◌≢◌, ◌⊎◌, refl, ap, Bytes, List, [], ◌∷◌, ◌++◌, arith, inl, inr, if_ind,
}
use statokgo.Agent.LogLimiter.{allow}
use statokgo.Agent.Runner.{
  Collector, Place, starting, idle, acquiring, collecting, returned, Task, Collected, fine, failed,
  panicked, Agent, report, release, Move, first, too_late, tick, leave, acquire, give_up, collect,
  collector_of, max_concurrency, minute,
}

-- 1 for a goroutine in Collect
unfoldable pub is_busy : Place → ℕ
is_busy collecting = 1
is_busy starting = 0
is_busy idle = 0
is_busy acquiring = 0
is_busy returned = 0

-- how many collectors are in Collect
unfoldable pub busy : List Task → ℕ
unfolding is_busy
busy [] = 0
busy (t ∷ ts) = is_busy t.place + busy ts

busy-append : (ts us : List Task) → busy (ts ++ us) ≡ busy ts + busy us
unfolding busy
busy-append [] us = omega arith
busy-append (t ∷ ts) us = omega (arith, busy-append ts us)

module _ (before after : List Task) (c : Collector) where
  abbrev pub put : Place → List Task
  put p = before ++ record { collector = c; place = p } ∷ after

  pub busy-put : (p : Place) → busy (put p) ≡ busy before + is_busy p + busy after
  unfolding busy
  busy-put p = omega (arith, busy-append before (record { collector = c; place = p } ∷ after))

pub collector_of-put :
    (before after : List Task) (c : Collector) (p q : Place)
    → collector_of (put before after c p) ≡ collector_of (put before after c q)
collector_of-put [] after c p q = refl
collector_of-put (t ∷ before) after c p q =
    ap (t.collector ∷◌) (collector_of-put before after c p q)

-- What a move changes of the agent. Taking a token out presupposes that there is one.
pub record Effect (a : Agent) (p q : Place) (b : Agent) : Type 0 where
  pub main : b.main ≡ a.main
  pub closed : b.closed ≡ a.closed
  pub moves : p ≢ returned
  pub tokens : is_busy p ≤ a.tokens → b.tokens + is_busy p ≡ a.tokens + is_busy q
  pub room : (is_busy q ≤ is_busy p) ⊎ (a.tokens + is_busy q ≤ max_concurrency)

report-keeps :
    (P : Agent → Type 0) (id : Bytes) (now : ℕ) (o : Collected) (a : Agent)
    → P a
    → P (record a {
      limiter = (allow minute id now a.limiter).1;
      lines = a.lines ++ (id, now) ∷ [];
    })
    → P (report id now o a)
unfolding report
report-keeps P id now fine a h k = h
report-keeps P id now failed a h k =
    if_ind P a.done a _ (λ over. h)
      (λ lives. if_ind P (allow minute id now a.limiter).0 _ a (λ allowed. k) (λ silent. h))
report-keeps P id now panicked a h k =
    if_ind P a.done a _ (λ over. h)
      (λ lives. if_ind P (allow minute id now a.limiter).0 _ a (λ allowed. k) (λ silent. h))

pub Move-Effect :
    {a : Agent} {c : Collector} {p q : Place} {b : Agent} → Move a c p q b → Effect a p q b
unfolding is_busy
Move-Effect (first e) = record {
  main = refl;
  closed = refl;
  moves = λ bad. absurd (cc);
  tokens = λ h. refl;
  room = inl (omega arith);
}
Move-Effect (too_late e) = record {
  main = refl;
  closed = refl;
  moves = λ bad. absurd (cc);
  tokens = λ h. refl;
  room = inl (omega arith);
}
Move-Effect tick = record {
  main = refl;
  closed = refl;
  moves = λ bad. absurd (cc);
  tokens = λ h. refl;
  room = inl (omega arith);
}
Move-Effect (leave e) = record {
  main = refl;
  closed = refl;
  moves = λ bad. absurd (cc);
  tokens = λ h. refl;
  room = inl (omega arith);
}
Move-Effect (acquire free) = record {
  main = refl;
  closed = refl;
  moves = λ bad. absurd (cc);
  tokens = λ h. omega arith;
  room = inr (omega arith);
}
Move-Effect give_up = record {
  main = refl;
  closed = refl;
  moves = λ bad. absurd (cc);
  tokens = λ h. refl;
  room = inl (omega arith);
}
Move-Effect {a} {c = c} (collect now o) =
    let released : (b : Agent)
        → b.main ≡ a.main
        → b.closed ≡ a.closed
        → b.tokens ≡ a.tokens
        → Effect a collecting idle (release b) =
      λ b m k t. record {
        main = m;
        closed = k;
        moves = λ bad. absurd (cc);
        tokens = λ h. omega (arith, t);
        room = inl (omega arith);
      } in
    report-keeps (λ (b : Agent). Effect a collecting idle (release b)) c.id now o a
      (released a refl refl refl) (released _ refl refl refl)
