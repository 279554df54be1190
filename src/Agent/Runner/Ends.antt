-- ===== src/Agent/Runner/Ends.antt =====
-- internal/agent/runner.go: a way to the end of the agent, from wherever its goroutines are.
use statokgo.Prelude.{
  ◌≡◌, refl, sym, ap, ◌∙◌, subst, true, List, [], ◌∷◌, ◌++◌, append_assoc, append-nil, All,
  All-append, arith,
}
use statokgo.Agent.Runner.Moves.{put, busy, is_busy}
use statokgo.Agent.Runner.Orderly.{HasReturned, IsQuiet, Rest, agent-IsOrderly}
use statokgo.Agent.Runner.{
  Collector, Place, starting, idle, acquiring, collecting, returned, Task, fine, Main, serving,
  closing, stopped, Agent, started, report, release, too_late, leave, give_up, collect, closed_ids,
  collector_of, goes, cancels, joins, closes_one, stops, Reach, here, next,
}

Reach-trans : {a b c : Agent} → Reach a b → Reach b c → Reach a c
Reach-trans r here = r
Reach-trans r (next s st) = next (Reach-trans r s) st

-- A way to an agent of which P holds; the context stays done and `main` where it is.
record WayTo (P : List Task → Type 0) (a : Agent) : Type 0 where
  end : Agent
  way : Reach a end
  done : end.done ≡ true
  main : end.main ≡ a.main
  tasks : P end.tasks

behind :
    {P : List Task → Type 0} {a b : Agent} → Reach a b → b.main ≡ a.main → WayTo P b → WayTo P a
behind r same w = record {
  end = w.end;
  way = Reach-trans r w.way;
  done = w.done;
  main = w.main ∙ same;
  tasks = w.tasks;
}

-- One goroutine returns.
module _ (before after : List Task) (c : Collector) where
  abbrev IsBack : List Task → Type 0
  IsBack ts = ts ≡ put before after c returned

  idle_returns : (a : Agent) → a.done ≡ true → a.tasks ≡ put before after c idle → WayTo IsBack a
  idle_returns a done at = record {
    end = record a { tasks = put before after c returned };
    way = next here (goes before after c idle returned a at (leave done));
    done = done;
    main = refl;
    tasks = refl;
  }

  returns :
      (p : Place) (a : Agent) → a.done ≡ true → a.tasks ≡ put before after c p → WayTo IsBack a
  unfolding report
  returns starting a done at =
      behind (next here (goes before after c starting idle a at (too_late done))) refl
        (idle_returns (record a { tasks = put before after c idle }) done refl)
  returns idle a done at = idle_returns a done at
  returns acquiring a done at =
      behind (next here (goes before after c acquiring idle a at give_up)) refl
        (idle_returns (record a { tasks = put before after c idle }) done refl)
  returns collecting a done at =
      behind (next here (goes before after c collecting idle (release a) at (collect 0 fine))) refl
        (idle_returns (record (release a) { tasks = put before after c idle }) done refl)
  returns returned a done at = record { end = a; way = here; done = done; main = refl; tasks = at }

-- All goroutines return, one behind the other.
all_return :
    (before after : List Task) (a : Agent)
    → a.done ≡ true
    → a.tasks ≡ before ++ after
    → All HasReturned before
    → WayTo (All HasReturned) a
all_return before [] a done at back = record {
  end = a;
  way = here;
  done = done;
  main = refl;
  tasks = subst (All HasReturned) (sym (append-nil before) ∙ sym at) back;
}
all_return before (t ∷ after) a done at back =
    let w = returns before after t.collector t.place a done at in
    let t' : Task = record { collector = t.collector; place = returned } in
    behind w.way w.main (
      all_return (before ++ t' ∷ []) after w.end w.done
        (w.tasks ∙ sym (append_assoc before (t' ∷ []) after))
        (All-append HasReturned before (t' ∷ []) back (refl, tt)))

-- The agent stops.
abbrev CanStop : Agent → Type 0
CanStop a = (b : Agent) × Reach a b × (b.main ≡ stopped)

closing_stops : (cs : List Collector) (a : Agent) → a.main ≡ closing cs → CanStop a
closing_stops [] a at = (record a { main = stopped }, next here (stops at), refl)
closing_stops (c ∷ cs) a at =
    let b : Agent = record a { main = closing cs; closed = a.closed ++ closed_ids (c ∷ []) } in
    let (end, way, over) = closing_stops cs b refl in
    (end, Reach-trans (next here (closes_one c cs at)) way, over)

main_stops : (m : Main) (a : Agent) → a.done ≡ true → a.main ≡ m → CanStop a
main_stops stopped a done at = (a, here, at)
main_stops (closing cs) a done at = closing_stops cs a at
main_stops serving a done at =
    let w = all_return [] a.tasks a done refl tt in
    let b = w.end in
    let closes : Agent = record b { main = closing (collector_of b.tasks) } in
    let (end, way, over) = closing_stops (collector_of b.tasks) closes refl in
    (end, Reach-trans (next w.way (joins (w.main ∙ at) w.done w.tasks)) way, over)

none_busy : (ts : List Task) → All HasReturned ts → busy ts ≡ 0
unfolding busy is_busy
none_busy [] h = refl
none_busy (t ∷ ts) (h, hs) = omega (arith, ap is_busy h, none_busy ts hs)

-- Wherever the goroutines of the agent have come to, they are not in a deadlock: the context can end,
-- and from there some order of steps stops the agent. Then exactly the collectors that can be closed
-- are closed, in their order, and no token is left in the semaphore.
pub agent_can_stop :
    (all : List Collector) (a : Agent)
    → Reach (started all) a
    → (b : Agent) × Reach a b × (b.main ≡ stopped) × (b.closed ≡ closed_ids all) × (b.tokens ≡ 0)
unfolding closed_ids
agent_can_stop all a r =
    let over : Agent = record a { done = true } in
    let (b, way, at) = main_stops a.main over refl refl in
    let whole = Reach-trans (next here cancels) way in
    let h = agent-IsOrderly all b (Reach-trans r whole) in
    let none_left : h.left ≡ [] = subst (λ (m : Main). Rest m all h.left) at h.rest in
    let back : All HasReturned b.tasks = subst (λ (m : Main). IsQuiet m b.tasks) at h.quiet in
    (
      b,
      whole,
      at,
      sym (append-nil b.closed) ∙ sym (ap (λ l. b.closed ++ closed_ids l) none_left) ∙ h.in_order,
      h.tokens ∙ none_busy b.tasks back,
    )
