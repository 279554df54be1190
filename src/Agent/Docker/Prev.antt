-- ===== src/Agent/Docker/Prev.antt =====
-- internal/collectors/docker/cpu.go, Collect: what a round leaves and emits, container by container.
use statokgo.Prelude.{
  ◌||◌, Bool, false, Bytes, List, [], ◌∷◌, Option, none, some, ◌≡◌, refl, sym, ap, ◌∙◌, subst,
  arith, if◌then◌else◌, Bool-cases, inl, inr, is_empty, bytes_eq, bytes_eq→≡, bytes_eq_refl, lookup,
  text_eq,
}
use statokgo.Agent.Docker.{
  LabelMode, Container, Daemon, CpuPrev, Metric, Round, collect_container, collect_containers,
  is_active, prune, collect,
}
use statokgo.Agent.Docker.Each.{
  reading_of, metrics_of, collect_container-IsOnlyOf, collect_container-IsDone,
}

or_false : (a b : Bool) → (a || b) ≡ false → (a ≡ false) × (b ≡ false)
or_false a b h = ground arith

-- the container with the ID
unfoldable pub find : Bytes → List Container → Option Container
unfolding bytes_eq
find id [] = none
find id (c ∷ cs) = if bytes_eq c.id id then some c else find id cs

-- Each ID stands once.
abbrev pub AreDistinct : List Container → Type 0
AreDistinct [] = Unit
AreDistinct (c ∷ cs) = (is_active c.id cs ≡ false) × AreDistinct cs

lookup-prune :
    (id : Bytes) (active : List Container) (prev : List (Bytes × CpuPrev))
    → lookup text_eq id (prune active prev)
      ≡ (if is_active id active then lookup text_eq id prev else none)
unfolding prune lookup
lookup-prune id active [] = ground arith
lookup-prune id active ((j, p) ∷ prev) = elim (Bool-cases (bytes_eq j id)) [
  | inl same ↦
      let alike : is_active j active ≡ is_active id active =
        ap (λ (k : Bytes). is_active k active) (bytes_eq→≡ j id same) in
      elim (Bool-cases (is_active id active)) [
        | inl there ↦ rw (alike, there, same) refl
        | inr gone ↦ rw (alike, gone) (lookup-prune id active prev ∙ rw gone refl)
      ]
  | inr other ↦ elim (Bool-cases (is_active j active)) [
    | inl there ↦ rw (there, other) (lookup-prune id active prev)
    | inr gone ↦ rw (gone, other) (lookup-prune id active prev)
  ]
]

module _ (daemon : Daemon) (mode : LabelMode) (key : Bytes) where
  -- the same of an ID that may stand for no container
  unfoldable pub reading_at : Option Container → Option CpuPrev → Option CpuPrev
  unfolding reading_of
  reading_at none old = old
  reading_at (some c) old = reading_of daemon mode key c old

  unfoldable pub metrics_at : Option Container → Option CpuPrev → Option (List Metric)
  unfolding metrics_of
  metrics_at none old = none
  metrics_at (some c) old = metrics_of daemon mode key c old

  record AreDone (id : Bytes) (order : List Container) (old : Option CpuPrev) (r : Round)
      : Type 0 where
    readings : lookup text_eq id r.readings ≡ reading_at (find id order) old
    emitted : lookup text_eq id r.emitted ≡ metrics_at (find id order) old

  -- Containers of other IDs.
  others :
      (id : Bytes) (cs : List Container) (r : Round)
      → is_active id cs ≡ false
      → (lookup text_eq id (collect_containers daemon mode key cs r).readings
          ≡ lookup text_eq id r.readings)
        × (lookup text_eq id (collect_containers daemon mode key cs r).emitted
            ≡ lookup text_eq id r.emitted)
  unfolding collect_containers is_active
  others id [] r h = (refl, refl)
  others id (c ∷ cs) r h =
      let (here, there) = or_false (bytes_eq c.id id) (is_active id cs) h in
      let only = collect_container-IsOnlyOf daemon mode key c r in
      let (a, b) = others id cs (collect_container daemon mode key c r) there in
      (a ∙ only.readings id here, b ∙ only.emitted id here)

  module _ (c : Container) (cs : List Container) where
    find_same : find c.id (c ∷ cs) ≡ some c
    unfolding find
    find_same = rw (bytes_eq_refl c.id)

    find_other : (id : Bytes) → bytes_eq c.id id ≡ false → find id (c ∷ cs) ≡ find id cs
    unfolding find
    find_other id other = rw other

    first_done :
        (r : Round)
        → is_active c.id cs ≡ false
        → lookup text_eq c.id r.emitted ≡ none
        → AreDone c.id
            (c ∷ cs)
            (lookup text_eq c.id r.readings)
            (collect_containers daemon mode key (c ∷ cs) r)
    unfolding collect_containers reading_at metrics_at
    first_done r once new =
        let done = collect_container-IsDone daemon mode key c r new in
        let (a, b) = others c.id cs (collect_container daemon mode key c r) once in
        let old = lookup text_eq c.id r.readings in
        record {
          readings =
              a ∙ done.readings ∙ ap (λ (f : Option Container). reading_at f old) (sym find_same);
          emitted =
              b ∙ done.emitted ∙ ap (λ (f : Option Container). metrics_at f old) (sym find_same);
        }

    later_done :
        (id : Bytes) (r : Round)
        → bytes_eq c.id id ≡ false
        → AreDone id cs
            (lookup text_eq id (collect_container daemon mode key c r).readings)
            (collect_containers daemon mode key cs (collect_container daemon mode key c r))
        → AreDone id
            (c ∷ cs)
            (lookup text_eq id r.readings)
            (collect_containers daemon mode key (c ∷ cs) r)
    unfolding collect_containers
    later_done id r other rest =
        let kept = (collect_container-IsOnlyOf daemon mode key c r).readings id other in
        let old = lookup text_eq id r.readings in
        let found = sym (find_other id other) in
        record {
          readings =
              rest.readings
              ∙ ap (reading_at (find id cs)) kept
              ∙ ap (λ (f : Option Container). reading_at f old) found;
          emitted =
              rest.emitted
              ∙ ap (metrics_at (find id cs)) kept
              ∙ ap (λ (f : Option Container). metrics_at f old) found;
        }

  collect_containers-AreDone :
      (id : Bytes) (order : List Container) (r : Round)
      → AreDistinct order
      → lookup text_eq id r.emitted ≡ none
      → AreDone id order (lookup text_eq id r.readings) (collect_containers daemon mode key order r)
  unfolding collect_containers find reading_at metrics_at
  collect_containers-AreDone id [] r d new = record { readings = refl; emitted = new }
  collect_containers-AreDone id (c ∷ cs) r (once, d) new = elim (Bool-cases (bytes_eq c.id id)) [
    | inl same ↦
        subst
          (λ (j : Bytes).
            lookup text_eq j r.emitted ≡ none
            → AreDone j (c ∷ cs) (lookup text_eq j r.readings)
                (collect_containers daemon mode key (c ∷ cs) r))
          (bytes_eq→≡ c.id id same) (first_done c cs r once) new
    | inr other ↦ later_done c cs id r other (
        collect_containers-AreDone id cs (collect_container daemon mode key c r) d
          ((collect_container-IsOnlyOf daemon mode key c r).emitted id other ∙ new))
  ]

  -- A round of Collect, in whatever order the workers take the containers that they reach before the
  -- timeout, each ID once: every container that was reached has the metrics and leaves the reading
  -- that its own statistics and its own last reading give, whatever the others are; a container that
  -- was not reached has no metrics and keeps its reading; and no reading is left of an ID that the
  -- daemon does not list.
  pub collect-each :
      (active order : List Container) (prev : List (Bytes × CpuPrev)) (id : Bytes)
      → AreDistinct order
      → is_empty active ≡ false
      → (lookup text_eq id (collect daemon mode key active order prev).emitted
          ≡ metrics_at (find id order) (lookup text_eq id prev))
        × (lookup text_eq id (collect daemon mode key active order prev).readings ≡ (
            if is_active id active
            then reading_at (find id order) (lookup text_eq id prev)
            else none))
  unfolding collect lookup
  collect-each active order prev id d full =
      let start : Round = record { readings = prev; emitted = [] } in
      let done = collect_containers-AreDone id order start d refl in
      let left = (collect_containers daemon mode key order start).readings in
      rw full (
        done.emitted,
        lookup-prune id active left
            ∙ ap (λ (o : Option CpuPrev). if is_active id active then o else none) done.readings,
      )
