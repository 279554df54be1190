-- ===== src/Agent/Docker/Each.antt =====
-- internal/collectors/docker/cpu.go, collectContainer: what one container leaves and emits, and that it
-- leaves the others alone.
use statokgo.Prelude.{
  false, Bytes, List, ◌++◌, Option, none, some, ◌≡◌, refl, sym, ◌∙◌, subst, if◌then◌else◌, if_ind,
  Bool-cases, Option-cases, inl, inr, bytes_eq, bytes_eq_refl, lookup, lookup-insert, text_eq,
}
use statokgo.Agent.Docker.{
  LabelMode, Container, Stats, Info, Daemon, CpuPrev, Metric, Round, plain_metrics, has_no_usage,
  usage_since, collect_stats, target_of, collect_container,
}

-- `r'` has of every other container what `r` has.
pub record IsOnlyOf (id : Bytes) (r r' : Round) : Type 0 where
  pub readings :
      (j : Bytes)
      → bytes_eq id j ≡ false
      → lookup text_eq j r'.readings ≡ lookup text_eq j r.readings
  pub emitted :
      (j : Bytes) → bytes_eq id j ≡ false → lookup text_eq j r'.emitted ≡ lookup text_eq j r.emitted

collect_stats-IsOnlyOf :
    (id target : Bytes) (s : Stats) (info : Option Info) (r : Round)
    → IsOnlyOf id r (collect_stats id target s info r)
unfolding collect_stats
collect_stats-IsOnlyOf id target s info r =
    if_ind (IsOnlyOf id r) (has_no_usage s) _ _
      (λ nothing. record { readings = λ j h. refl; emitted = λ j h. unfold lookup in rw h })
      (λ usage. record {
        readings = λ j h. rw (lookup-insert text_eq id j, h);
        emitted = λ j h. unfold lookup in rw h;
      })

module _ (daemon : Daemon) (mode : LabelMode) (key : Bytes) where
  -- the reading that a container leaves behind an earlier one
  unfoldable pub reading_of : Container → Option CpuPrev → Option CpuPrev
  unfolding target_of has_no_usage
  reading_of c old = elim (target_of daemon mode key c) [
    | none ↦ old
    | some (target, s) ↦
        if has_no_usage s
        then old
        else some (record { prev_total = s.total_usage; prev_system = s.system_usage })
  ]

  -- and the metrics that it has
  unfoldable pub metrics_of : Container → Option CpuPrev → Option (List Metric)
  unfolding target_of has_no_usage plain_metrics usage_since
  metrics_of c old = elim (target_of daemon mode key c) [
    | none ↦ none
    | some (target, s) ↦ some (
        if has_no_usage s
        then plain_metrics target s (daemon.info c.id)
        else plain_metrics target s (daemon.info c.id) ++ usage_since target s old)
  ]

  module _ (c : Container) (r : Round) where
    collect_container-out :
        target_of daemon mode key c ≡ none → collect_container daemon mode key c r ≡ r
    unfolding collect_container
    collect_container-out out = rw (out, collect_container) refl

    module _ (target : Bytes) (s : Stats)
        (at : target_of daemon mode key c ≡ some (target, s)) where
      collect_container-at :
          collect_container daemon mode key c r ≡ collect_stats c.id target s (daemon.info c.id) r
      unfolding collect_container
      collect_container-at = rw (at, collect_container) refl

      collect_stats-readings :
          lookup text_eq c.id (collect_stats c.id target s (daemon.info c.id) r).readings
          ≡ reading_of c (lookup text_eq c.id r.readings)
      unfolding reading_of collect_stats
      collect_stats-readings = elim (Bool-cases (has_no_usage s)) [
        | inl nothing ↦ rw (at, nothing, reading_of, collect_stats) refl
        | inr usage ↦
            rw (at, usage, reading_of, collect_stats)
              (lookup-insert text_eq c.id c.id _ r.readings ∙ rw (bytes_eq_refl c.id))
      ]

      collect_stats-emitted :
          lookup text_eq c.id (collect_stats c.id target s (daemon.info c.id) r).emitted
          ≡ metrics_of c (lookup text_eq c.id r.readings)
      unfolding metrics_of collect_stats
      collect_stats-emitted = elim (Bool-cases (has_no_usage s)) [
        | inl nothing ↦
            rw (at, nothing, metrics_of, collect_stats) (unfold lookup in rw (bytes_eq_refl c.id))
        | inr usage ↦
            rw (at, usage, metrics_of, collect_stats) (unfold lookup in rw (bytes_eq_refl c.id))
      ]

    reading_of-out :
        (old : Option CpuPrev) → target_of daemon mode key c ≡ none → reading_of c old ≡ old
    unfolding reading_of
    reading_of-out old out = rw (out, reading_of) refl

    metrics_of-out :
        (old : Option CpuPrev) → target_of daemon mode key c ≡ none → metrics_of c old ≡ none
    unfolding metrics_of
    metrics_of-out old out = rw (out, metrics_of) refl

  pub collect_container-IsOnlyOf :
      (c : Container) (r : Round) → IsOnlyOf c.id r (collect_container daemon mode key c r)
  collect_container-IsOnlyOf c r = elim (Option-cases (target_of daemon mode key c)) [
    | inl out ↦
        subst (IsOnlyOf c.id r) (sym (collect_container-out c r out))
          (record { readings = λ j h. refl; emitted = λ j h. refl })
    | inr ((target, s), at) ↦
        subst (IsOnlyOf c.id r) (sym (collect_container-at c r target s at))
          (collect_stats-IsOnlyOf c.id target s (daemon.info c.id) r)
  ]

  -- What a container has of its own.
  pub record IsDone (c : Container) (old : Option CpuPrev) (r : Round) : Type 0 where
    pub readings : lookup text_eq c.id r.readings ≡ reading_of c old
    pub emitted : lookup text_eq c.id r.emitted ≡ metrics_of c old

  pub collect_container-IsDone :
      (c : Container) (r : Round)
      → lookup text_eq c.id r.emitted ≡ none
      → IsDone c (lookup text_eq c.id r.readings) (collect_container daemon mode key c r)
  collect_container-IsDone c r new = elim (Option-cases (target_of daemon mode key c)) [
    | inl out ↦
        subst (IsDone c (lookup text_eq c.id r.readings)) (sym (collect_container-out c r out))
          (record {
            readings = sym (reading_of-out c r _ out);
            emitted = new ∙ sym (metrics_of-out c r _ out);
          })
    | inr ((target, s), at) ↦
        subst (IsDone c (lookup text_eq c.id r.readings))
          (sym (collect_container-at c r target s at))
          (record {
            readings = collect_stats-readings c r target s at;
            emitted = collect_stats-emitted c r target s at;
          })
  ]
