-- ===== src/Agent/Runner/Selected.antt =====
-- internal/agent/runner.go, Run: the collectors that it starts.
use statokgo.Prelude.{
  Bytes, List, [], ◌∷◌, ◌++◌, append_assoc, append-nil, Option, none, some, ◌≡◌, refl, sym, ap, ◌∙◌,
}
use statokgo.Agent.Runner.{
  Collector, Probe, ProbeLine, Detection, detected, missing, detect_panic, Made, made, new_panic,
  add_core, add_probe, add_probes, select_collectors, detect_once, new_from_probe,
}

-- the collectors of a list that are there
unfoldable pub present : List (Option Collector) → List Collector
present [] = []
present (none ∷ cs) = present cs
present (some c ∷ cs) = c ∷ present cs

-- A probe has a collector if it detects its service without a panic, and New returns one.
unfoldable pub probe_collector : Option Probe → Option Collector
probe_collector none = none
probe_collector (some p) = choose p.detect p.make
  where
    choose : Detection → Made → Option Collector
    choose (detected reason) (made c) = c
    choose (detected reason) new_panic = none
    choose (missing reason) m = none
    choose (detect_panic v) m = none

unfoldable pub probe_collectors : List (Option Probe) → List Collector
unfolding present probe_collector
probe_collectors [] = []
probe_collectors (p ∷ ps) = present (probe_collector p ∷ []) ++ probe_collectors ps

add_core-present :
    (core : List (Option Collector)) (cs : List Collector) → add_core core cs ≡ cs ++ present core
unfolding add_core present
add_core-present [] cs = sym (append-nil cs)
add_core-present (none ∷ core) cs = add_core-present core cs
add_core-present (some c ∷ core) cs =
    add_core-present core (cs ++ c ∷ []) ∙ append_assoc cs (c ∷ []) (present core)

add_probe_parts :
    (id : Bytes) (d : Detection) (m : Made) (cs : List Collector) (lines : List ProbeLine)
    → (add_probe (record { id = id; detect = d; make = m }) (cs, lines)).0
      ≡ cs ++ present (probe_collector (some (record { id = id; detect = d; make = m })) ∷ [])
unfolding add_probe present detect_once new_from_probe probe_collector
add_probe_parts id (detected reason) (made none) cs lines = sym (append-nil cs)
add_probe_parts id (detected reason) (made (some c)) cs lines = refl
add_probe_parts id (detected reason) new_panic cs lines = sym (append-nil cs)
add_probe_parts id (missing reason) m cs lines = sym (append-nil cs)
add_probe_parts id (detect_panic v) m cs lines = sym (append-nil cs)

add_probes-collectors :
    (ps : List (Option Probe)) (cs : List Collector) (lines : List ProbeLine)
    → (add_probes ps (cs, lines)).0 ≡ cs ++ probe_collectors ps
unfolding add_probes probe_collectors present probe_collector
add_probes-collectors [] cs lines = sym (append-nil cs)
add_probes-collectors (none ∷ ps) cs lines = add_probes-collectors ps cs lines
add_probes-collectors (some p ∷ ps) cs lines =
    let (cs', lines') = add_probe p (cs, lines) in
    add_probes-collectors ps cs' lines'
    ∙ ap (λ l. l ++ probe_collectors ps) (add_probe_parts p.id p.detect p.make cs lines)
    ∙ append_assoc cs (present (probe_collector (some p) ∷ [])) (probe_collectors ps)

-- Run starts the core collectors that are there, in their order, and behind them one collector for
-- each probe that detects its service without a panic and whose New returns a collector; a probe that
-- fails or panics takes nothing from the others.
pub select_collectors-present :
    (core : List (Option Collector)) (probes : List (Option Probe))
    → (select_collectors core probes).0 ≡ present core ++ probe_collectors probes
unfolding select_collectors
select_collectors-present core probes =
    add_probes-collectors probes (add_core core []) []
    ∙ ap (λ l. l ++ probe_collectors probes) (add_core-present core [])
