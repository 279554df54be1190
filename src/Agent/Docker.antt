-- ===== src/Agent/Docker.antt =====
-- internal/collectors/docker/cpu.go: the collector of Docker, from what the daemon says of a container
-- to its metrics. The JSON of the daemon is a parameter. A mutex guards the map of the last readings,
-- so each container's use of it is one step; a list gives the order of these steps.
pub mod Each
pub mod Prev
use statokgo.Prelude.{
  ℕ, ◌+◌, ◌-◌, ◌*◌, ◌%◌, ◌^◌, ◌==◌, ltb, leb, ◌||◌, Bool, true, false, not, Bytes, List, [], ◌∷◌,
  ◌++◌, Option, none, some, if◌then◌else◌, is_empty, bytes_eq, codes, lookup, insert, text_eq,
}
use statokgo.Prelude.Int.{ℤ, pos, ltb_ℤ}
use statokgo.Go.Strings.{trim_space, trim_prefix, to_lower}
use statokgo.Labels.{label}
use statokgo.Client.Retry.{second}

pub data LabelMode : Type 0 where
  service container : LabelMode

-- dockerContainerSummary; the labels are a map.
pub record Container : Type 0 where
  pub id : Bytes
  pub names : List Bytes
  pub labels : List (Bytes × Bytes)

-- dockerStats: the network counters are pairs of received and sent bytes, and `percpu` is the number
-- of processors that have a counter.
pub record Stats : Type 0 where
  pub total_usage : ℕ
  pub system_usage : ℕ
  pub online_cpus : ℕ
  pub percpu : ℕ
  pub memory : ℕ
  pub networks : List (ℕ × ℕ)

-- dockerContainerInfo
pub record Info : Type 0 where
  pub restart_count : ℕ
  pub state_restart_count : ℕ

-- What the daemon answers about a container; none is an error.
pub record Daemon : Type 0 where
  pub stats : Bytes → Option Stats
  pub info : Bytes → Option Info

-- dockerCPUPrev
pub record CpuPrev : Type 0 where
  pub prev_total : ℕ
  pub prev_system : ℕ

-- The calls of statok, with the numbers that their value is computed from: bytes over 1024, and
-- 100 * cpu / system * online.
pub data Metric : Type 0 where
  mem_usage : Bytes → ℕ → Metric
  restarts : Bytes → ℕ → Metric
  net_bytes : Bytes → Bytes → ℕ → Metric
  cpu_usage : Bytes → ℕ → ℕ → ℕ → Metric

pub record CpuCollector : Type 0 where
  pub label_mode : LabelMode
  pub label_key : Bytes
  pub max_containers : ℤ
  pub concurrency : ℤ
  pub timeout : ℤ
  pub every : ℤ
  pub prev : List (Bytes × CpuPrev)

-- parseDockerLabelMode; none is an error
unfoldable pub parse_docker_label_mode : Bytes → Option (LabelMode × Bytes)
unfolding trim_space to_lower bytes_eq is_empty
parse_docker_label_mode s =
    let mode = to_lower (trim_space s) in
    if is_empty mode || bytes_eq mode (codes "service")
    then some (LabelMode.service, codes "service")
    else if bytes_eq mode (codes "container")
    then some (LabelMode.container, codes "container")
    else none

-- the value, or another one if it is below 1
at_least_one : ℤ → ℤ → ℤ
at_least_one n other = if ltb_ℤ n (pos 1) then other else n

made : Option (LabelMode × Bytes) → ℤ → ℤ → ℤ → ℤ → Option CpuCollector
unfolding at_least_one
made none every max_containers concurrency timeout = none
made (some (mode, key)) every max_containers concurrency timeout =
    let workers = at_least_one concurrency (pos 1) in
    some (record {
      label_mode = mode;
      label_key = key;
      max_containers = at_least_one max_containers (pos 1);
      concurrency = if ltb_ℤ (pos 32) workers then pos 32 else workers;
      timeout = at_least_one timeout (pos (5 * second));
      every = at_least_one every (pos (10 * second));
      prev = [];
    })

-- newCPUCollector; none is an error
unfoldable pub new_cpu_collector : Bytes → ℤ → Bytes → ℤ → ℤ → ℤ → Option CpuCollector
unfolding trim_space is_empty parse_docker_label_mode made
new_cpu_collector sock_path every label_mode max_containers concurrency timeout =
    if is_empty (trim_space sock_path)
    then none
    else made (parse_docker_label_mode label_mode) every max_containers concurrency timeout

container_name : List Bytes → Bytes
unfolding trim_space trim_prefix
container_name [] = []
container_name (n ∷ ns) = trim_prefix (trim_space n) (codes "/")

-- strings.TrimSpace(ctr.Labels[key])
label_value : Bytes → List (Bytes × Bytes) → Bytes
unfolding lookup trim_space
label_value key labels = elim (lookup text_eq key labels) [ none ↦ [] | some v ↦ trim_space v ]

service_name : Container → Bytes
unfolding label_value container_name is_empty
service_name ctr =
    let compose = label_value (codes "com.docker.compose.service") ctr.labels in
    let swarm = label_value (codes "com.docker.swarm.service.name") ctr.labels in
    if not (is_empty compose)
    then compose
    else if not (is_empty swarm)
    then swarm
    else container_name ctr.names

unfoldable pub container_label_value : LabelMode → Container → Bytes
unfolding service_name container_name
container_label_value LabelMode.container ctr = container_name ctr.names
container_label_value LabelMode.service ctr = service_name ctr

unfoldable pub restart_count_of : Option Info → Option ℕ
restart_count_of none = none
restart_count_of (some i) =
    some (if ltb 0 i.restart_count then i.restart_count else i.state_restart_count)

-- the sums of the two counters, on uint64
sum_networks : List (ℕ × ℕ) → ℕ × ℕ
sum_networks [] = (0, 0)
sum_networks ((rx, tx) ∷ rest) =
    let (rxs, txs) = sum_networks rest in ((rx + rxs) % 2 ^ 64, (tx + txs) % 2 ^ 64)

-- the metrics that need no earlier reading
unfoldable pub plain_metrics : Bytes → Stats → Option Info → List Metric
unfolding restart_count_of sum_networks is_empty
plain_metrics target s info =
    let (rx, tx) = sum_networks s.networks in
    (if ltb 0 s.memory then mem_usage target s.memory ∷ [] else [])
    ++ (elim (restart_count_of info) [ none ↦ [] | some n ↦ restarts target n ∷ [] ]
        ++ (if is_empty s.networks
            then []
            else net_bytes target (codes "dir=rx") rx ∷ net_bytes target (codes "dir=tx") tx ∷ []))

unfoldable pub online_of : Stats → ℕ
online_of s =
    let counted = s.percpu % 2 ^ 32 in
    if not (s.online_cpus == 0) then s.online_cpus else if counted == 0 then 1 else counted

-- total == 0 || system == 0
unfoldable pub has_no_usage : Stats → Bool
has_no_usage s = s.total_usage == 0 || s.system_usage == 0

-- the usage since the last reading, if there is one and both counters have grown; diffUint is 0
-- where a counter has gone back, as the difference on ℕ is. The test of pct for a negative number or
-- NaN never holds of these positive numbers, so it is left out.
unfoldable pub usage_since : Bytes → Stats → Option CpuPrev → List Metric
unfolding online_of
usage_since target s none = []
usage_since target s (some p) =
    let cpu = s.total_usage - p.prev_total in
    let system = s.system_usage - p.prev_system in
    if cpu == 0 || system == 0 then [] else cpu_usage target cpu system (online_of s) ∷ []

-- The map of the last readings, and for each container that was collected its metrics, the latest
-- first.
pub record Round : Type 0 where
  pub readings : List (Bytes × CpuPrev)
  pub emitted : List (Bytes × List Metric)

-- collectContainer behind getStats
unfoldable pub collect_stats : Bytes → Bytes → Stats → Option Info → Round → Round
unfolding plain_metrics has_no_usage usage_since lookup insert
collect_stats id target s info r =
    let plain = plain_metrics target s info in
    let since = usage_since target s (lookup text_eq id r.readings) in
    let now : CpuPrev = record { prev_total = s.total_usage; prev_system = s.system_usage } in
    if has_no_usage s then record r { emitted = (id, plain) ∷ r.emitted } else record {
      readings = insert text_eq id now r.readings;
      emitted = (id, plain ++ since) ∷ r.emitted;
    }

unfoldable pub is_active : Bytes → List Container → Bool
unfolding bytes_eq
is_active id [] = false
is_active id (c ∷ cs) = bytes_eq c.id id || is_active id cs

-- delete(c.prev, id) for each container that is gone
unfoldable pub prune : List Container → List (Bytes × CpuPrev) → List (Bytes × CpuPrev)
unfolding is_active
prune active [] = []
prune active ((id, p) ∷ prev) =
    if is_active id active then (id, p) ∷ prune active prev else prune active prev

module _ (daemon : Daemon) (mode : LabelMode) (key : Bytes) where
  -- the label of a container; none is an empty ID, an empty name, or an error of its statistics
  unfoldable pub target_of : Container → Option (Bytes × Stats)
  unfolding container_label_value label is_empty
  target_of ctr =
      let name = container_label_value mode ctr in
      if is_empty ctr.id || is_empty name
      then none
      else elim (daemon.stats ctr.id) [ none ↦ none | some s ↦ some (label key name, s) ]

  unfoldable pub collect_container : Container → Round → Round
  unfolding target_of collect_stats
  collect_container ctr r = elim (target_of ctr) [
    | none ↦ r
    | some (target, s) ↦ collect_stats ctr.id target s (daemon.info ctr.id) r
  ]

  -- the workers, in the order in which they come to use the map
  unfoldable pub collect_containers : List Container → Round → Round
  unfolding collect_container
  collect_containers [] r = r
  collect_containers (c ∷ cs) r = collect_containers cs (collect_container c r)

  -- Collect, for the containers that the daemon lists; `order` has those that were reached before the
  -- timeout.
  unfoldable pub collect : List Container → List Container → List (Bytes × CpuPrev) → Round
  unfolding collect_containers prune is_empty
  collect active order prev =
      let r = collect_containers order (record { readings = prev; emitted = [] }) in
      if is_empty active
      then record { readings = []; emitted = [] }
      else record r { readings = prune active r.readings }
