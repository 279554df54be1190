-- ===== src/Client/Lifecycle/Closing.antt =====
-- client.go: the end of the worker, once it has seen that the context is done.
use statokgo.Prelude.{
  ℕ, suc, ◌+◌, ◌<◌, true, ◌≡◌, ◌≢◌, refl, sym, ap, ◌∙◌, ◌⊎◌, inl, inr, Bytes, List, [], ◌∷◌, ◌++◌,
  length, arith, append_assoc, append-nil, ◌==◌, ==_iff, Bool-cases, false,
}
use statokgo.Float.{Float}
use statokgo.Event.{Event}
use statokgo.Client.Worker.{World}
use statokgo.Client.Lifecycle.{
  Phase, running, draining, flushing, closing, closed, System, fresh, OwnStep, ticked, received,
  saw_done, saw_empty, flushed, returned, Reach, OwnRun, stay, on,
}
use statokgo.Client.Lifecycle.Accounts.{client-IsAccounted}

module _ {V : Type 0} where
  -- how many steps the worker has left; a worker in the loop has no bound
  left : Phase → List (Event V) → ℕ
  left running q = 0
  left draining q = length q + 3
  left flushing q = 2
  left closing q = 1
  left closed q = 0

  -- What holds n steps of the worker behind s, whose phase is `draining`.
  record IsOnTheWay (s : System V) (n : ℕ) (t : System V) : Type 0 where
    loop_left : t.phase ≢ running
    steps : n + left t.phase t.front.queue ≡ length s.front.queue + 3
    kept : t.handled ++ t.front.queue ≡ s.handled ++ s.front.queue
    drained : t.phase ≢ draining → t.front.queue ≡ []
    ended : t.phase ≡ closed → t.front.done ≡ true

  module _ (F : Float V) (env : World V) where
    -- from here on the queue is empty, and the phase goes on by one
    emptied :
        {n : ℕ} {s t : System V} (u : System V) (p q : Phase) (m : ℕ)
        → IsOnTheWay s n t
        → t.phase ≡ p
        → t.front.queue ≡ []
        → left p [] ≡ suc m
        → u.phase ≡ q
        → u.handled ≡ t.handled
        → u.front.queue ≡ t.front.queue
        → left q [] ≡ m
        → q ≢ running
        → (q ≡ closed → u.front.done ≡ true)
        → IsOnTheWay s (suc n) u
    emptied {n} {s} {t} u p q m h e empty before e' same same_queue after goes ended = record {
      loop_left = λ bad. goes (sym e' ∙ bad);
      steps =
          let at : left t.phase t.front.queue ≡ suc m =
            ap (λ (r : Phase). left r t.front.queue) e ∙ ap (left p) empty ∙ before in
          let at' : left u.phase u.front.queue ≡ m =
            ap (λ (r : Phase). left r u.front.queue) e'
            ∙ ap (left q) (same_queue ∙ empty)
            ∙ after in
          omega (arith, at, at', h.steps);
      kept = cc (same, same_queue, h.kept);
      drained = λ other. same_queue ∙ empty;
      ended = λ last. ended (sym e' ∙ last);
    }

    on_IsOnTheWay :
        {n : ℕ} {s t u : System V} → IsOnTheWay s n t → OwnStep F env t u → IsOnTheWay s (suc n) u
    unfolding left
    on_IsOnTheWay h (ticked e) = absurd (h.loop_left e)
    on_IsOnTheWay h (received ev rest (inl e) q) = absurd (h.loop_left e)
    on_IsOnTheWay {n} {s} {t} h (received ev rest (inr e) q) = record {
      loop_left = h.loop_left;
      steps =
          let before : left t.phase t.front.queue ≡ suc (length rest) + 3 =
            ap (λ (r : Phase). left r t.front.queue) e ∙ ap (left draining) q in
          let after : left t.phase rest ≡ length rest + 3 = ap (λ (r : Phase). left r rest) e in
          omega (arith, h.steps, before, after);
      kept = append_assoc t.handled (ev ∷ []) rest ∙ ap (t.handled ++◌) (sym q) ∙ h.kept;
      drained = λ other. absurd (other e);
      ended = h.ended;
    }
    on_IsOnTheWay h (saw_done e c) = absurd (h.loop_left e)
    on_IsOnTheWay {t = t} h (saw_empty e q) =
        emptied _ draining flushing 2 h e q refl refl refl refl refl (λ bad. absurd (cc))
          (λ bad. absurd (cc))
    on_IsOnTheWay {t = t} h (flushed e) =
        emptied _ flushing closing 1 h e (h.drained (λ bad. absurd (cc))) refl refl refl refl refl
          (λ bad. absurd (cc)) (λ bad. absurd (cc))
    on_IsOnTheWay {t = t} h (returned e) =
        emptied _ closing closed 0 h e (h.drained (λ bad. absurd (cc))) refl refl refl refl refl
          (λ bad. absurd (cc)) (λ last. refl)

    run_IsOnTheWay :
        {s : System V} {n : ℕ} {t : System V}
        → s.phase ≡ draining
        → OwnRun F env s n t
        → IsOnTheWay s n t
    unfolding left
    run_IsOnTheWay {s = s} e stay = record {
      loop_left = λ bad. absurd (cc);
      steps =
          let at : left s.phase s.front.queue ≡ length s.front.queue + 3 =
            ap (λ (r : Phase). left r s.front.queue) e in
          omega (arith, at);
      kept = refl;
      drained = λ other. absurd (other e);
      ended = λ last. absurd (cc);
    }
    run_IsOnTheWay e (on r st) = on_IsOnTheWay (run_IsOnTheWay e r) st

    -- A worker that has left the loop and has steps left can take one.
    can_go :
        (p : Phase) (q : List (Event V)) (t : System V)
        → t.phase ≡ p
        → t.front.queue ≡ q
        → left p q ≢ 0
        → (u : System V) × OwnStep F env t u
    unfolding left
    can_go running q t e at more = absurd (more refl)
    can_go draining [] t e at more = (_, saw_empty e at)
    can_go draining (ev ∷ rest) t e at more = (_, received ev rest (inr e) at)
    can_go flushing q t e at more = (_, flushed e)
    can_go closing q t e at more = (_, returned e)
    can_go closed q t e at more = absurd (more refl)

    steps_left : {n : ℕ} → (n == 0) ≡ false → n ≢ 0
    steps_left more bad = absurd (ground arith)

    finished : (p : Phase) (q : List (Event V)) → p ≢ running → left p q ≡ 0 → p ≡ closed
    unfolding left
    finished running q goes e = absurd (goes refl)
    finished draining q goes e = absurd (omega arith)
    finished flushing q goes e = absurd (omega arith)
    finished closing q goes e = absurd (omega arith)
    finished closed q goes e = refl

    -- After Close, once the worker has seen that the context is done, and while no caller sends on the
    -- queue: with n events in the queue, the worker takes at most n + 3 steps. Behind fewer it can
    -- take another one; behind that many, the client is closed, and every event that was ever
    -- accepted has been handled.
    pub close_ends :
        (workload : Bytes) (s : System V) (n : ℕ) (t : System V)
        → Reach F env (fresh workload) s
        → s.phase ≡ draining
        → OwnRun F env s n t
        → ((n < length s.front.queue + 3) × ((u : System V) × OwnStep F env t u))
          ⊎ ((n ≡ length s.front.queue + 3) × (t.front.done ≡ true) × (t.handled ≡ s.accepted))
    close_ends workload s n t reach e r =
        let h = run_IsOnTheWay e r in
        elim (Bool-cases (left t.phase t.front.queue == 0)) [
          | inr more ↦ inl (
            omega (arith, h.steps, steps_left more),
            can_go t.phase t.front.queue t refl refl (steps_left more),
          )
          | inl none_left ↦
              let nothing = (==_iff (left t.phase t.front.queue) 0).0 none_left in
              let last = finished t.phase t.front.queue h.loop_left nothing in
              let all_handled : t.handled ++ [] ≡ s.handled ++ s.front.queue =
                ap (t.handled ++◌) (sym (h.drained (λ bad. absurd (cc)))) ∙ h.kept in
              inr (
                omega (arith, h.steps, nothing),
                h.ended last,
                sym (append-nil t.handled)
                    ∙ all_handled
                    ∙ sym (client-IsAccounted F env workload s reach).in_order,
              )
        ]
