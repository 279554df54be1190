-- ===== src/Agent/CpuUsage.antt =====
-- internal/collectors/core/cpu_usage.go: the share of each mode in the time of each CPU since the last
-- collection.
pub mod Shares
use statokgo.Prelude.{
  ℕ, ◌+◌, ◌-◌, ◌%◌, ◌^◌, leb, ◌==◌, Bool, Bytes, List, [], ◌∷◌, ◌++◌, Option, none, some,
  if◌then◌else◌, lookup, insert, text_eq, bytes_eq, codes, drop,
}
use statokgo.Go.Strings.{has_prefix}
use statokgo.Labels.{label}
use statokgo.Agent.CpuTimes.{CpuTimes, read_cpu_times}

-- One call of statok.Value for host.cpu.usage_pct: its labels, and the value 100 * delta / total as the
-- two numbers that it is computed from.
pub record Share : Type 0 where
  pub labels : List Bytes
  pub delta : ℕ
  pub total : ℕ

-- 0 for a counter that went back
unfoldable pub diff_uint : ℕ → ℕ → ℕ
diff_uint a b = if leb a b then b - a else 0

unfoldable pub normalize_cpu_name : Bytes → Bytes
unfolding bytes_eq has_prefix
normalize_cpu_name raw =
    if bytes_eq raw (codes "cpu")
    then codes "all"
    else if has_prefix raw (codes "cpu")
    then drop 3 raw
    else raw

-- the modes in the order of the calls of emit
unfoldable pub mode_deltas : CpuTimes → CpuTimes → List (Bytes × ℕ)
unfolding diff_uint
mode_deltas prev cur =
    (codes "user", diff_uint prev.user cur.user)
    ∷ (codes "nice", diff_uint prev.nice cur.nice)
    ∷ (codes "system", diff_uint prev.system cur.system)
    ∷ (codes "idle", diff_uint prev.idle cur.idle)
    ∷ (codes "iowait", diff_uint prev.iowait cur.iowait)
    ∷ (codes "irq", diff_uint prev.irq cur.irq)
    ∷ (codes "softirq", diff_uint prev.softirq cur.softirq)
    ∷ (codes "steal", diff_uint prev.steal cur.steal)
    ∷ []

-- the sum on a uint64
unfoldable pub sum_deltas : List (Bytes × ℕ) → ℕ
sum_deltas [] = 0
sum_deltas (d ∷ ds) = (d.1 + sum_deltas ds) % 2 ^ 64

unfoldable pub emit_all : Bytes → ℕ → List (Bytes × ℕ) → List Share
unfolding label
emit_all cpu total [] = []
emit_all cpu total ((mode, delta) ∷ rest) =
    let share : Share = record {
      labels = cpu ∷ label (codes "mode") mode ∷ [];
      delta = delta;
      total = total;
    } in
    let others = emit_all cpu total rest in if delta == 0 then others else share ∷ others

-- the body of the loop for a CPU whose last times are known
unfoldable pub usage : Bytes → CpuTimes → CpuTimes → List Share
unfolding mode_deltas sum_deltas emit_all normalize_cpu_name label
usage name prev cur =
    let ds = mode_deltas prev cur in
    if sum_deltas ds == 0
    then []
    else emit_all (label (codes "cpu") (normalize_cpu_name name)) (sum_deltas ds) ds

known_usage : Bytes → CpuTimes → Option CpuTimes → List Share
unfolding usage
known_usage name cur none = []
known_usage name cur (some prev) = usage name prev cur

-- The loop over a snapshot, in the order in which the map is ranged over: the times that are kept, and
-- the shares.
unfoldable pub collect_all :
    List (Bytes × CpuTimes) → List (Bytes × CpuTimes) → List (Bytes × CpuTimes) × List Share
unfolding known_usage bytes_eq
collect_all [] prev = (prev, [])
collect_all ((name, cur) ∷ snapshot) prev =
    let same = collect_all snapshot prev in
    let (kept, shares) = collect_all snapshot (insert text_eq name cur prev) in
    if bytes_eq name (codes "cpu")
    then same
    else (kept, known_usage name cur (lookup text_eq name prev) ++ shares)

-- Collect; an error leaves the times as they are
unfoldable pub collect :
    Option (List Bytes) → List (Bytes × CpuTimes) → List (Bytes × CpuTimes) × Option (List Share)
unfolding read_cpu_times collect_all
collect lines prev = elim (read_cpu_times lines) [
  | none ↦ (prev, none)
  | some snapshot ↦ let (kept, shares) = collect_all snapshot prev in (kept, some shares)
]
