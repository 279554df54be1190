-- ===== src/Agent/CpuUsage/Shares.antt =====
-- internal/collectors/core/cpu_usage.go: the shares of one CPU together.
use statokgo.Prelude.{
  ℕ, ◌+◌, ◌^◌, ◌≤◌, ◌<◌, ◌==◌, Bytes, List, [], ◌∷◌, ◌≡◌, refl, sym, ◌∙◌, arith, All, if_ind,
}
use statokgo.Agent.CpuTimes.{CpuTimes}
use statokgo.Agent.CpuUsage.{Share, diff_uint, mode_deltas, sum_deltas, emit_all, usage}

-- the deltas of the shares added up
unfoldable pub sum_shares : List Share → ℕ
sum_shares [] = 0
sum_shares (s ∷ ss) = s.delta + sum_shares ss

plain_sum : List (Bytes × ℕ) → ℕ
plain_sum [] = 0
plain_sum (d ∷ ds) = d.1 + plain_sum ds

-- a share above nothing and up to the whole
abbrev pub IsShareOf : ℕ → Share → Type 0
IsShareOf total s = (0 < s.delta) × (s.delta ≤ total) × (s.total ≡ total)

-- the counters of a CPU that stand far from the end of a uint64
pub record IsRoomy (t : CpuTimes) : Type 0 where
  pub user : t.user < 2 ^ 60
  pub nice : t.nice < 2 ^ 60
  pub system : t.system < 2 ^ 60
  pub idle : t.idle < 2 ^ 60
  pub iowait : t.iowait < 2 ^ 60
  pub irq : t.irq < 2 ^ 60
  pub softirq : t.softirq < 2 ^ 60
  pub steal : t.steal < 2 ^ 60

sum_deltas-eq_plain_sum :
    (ds : List (Bytes × ℕ)) → plain_sum ds < 2 ^ 64 → sum_deltas ds ≡ plain_sum ds
unfolding sum_deltas plain_sum
sum_deltas-eq_plain_sum [] h = refl
sum_deltas-eq_plain_sum (d ∷ ds) h = omega (arith, sum_deltas-eq_plain_sum ds (omega arith))

emit_all-sum :
    (cpu : Bytes) (total : ℕ) (ds : List (Bytes × ℕ))
    → sum_shares (emit_all cpu total ds) ≡ plain_sum ds
unfolding sum_shares emit_all plain_sum
emit_all-sum cpu total [] = refl
emit_all-sum cpu total ((mode, delta) ∷ ds) = ground (arith, emit_all-sum cpu total ds)

emit_all-IsShareOf :
    (cpu : Bytes) (total : ℕ) (ds : List (Bytes × ℕ))
    → plain_sum ds ≤ total
    → All (IsShareOf total) (emit_all cpu total ds)
unfolding emit_all plain_sum
emit_all-IsShareOf cpu total [] h = tt
emit_all-IsShareOf cpu total ((mode, delta) ∷ ds) h =
    let others = emit_all-IsShareOf cpu total ds (omega arith) in
    if_ind (All (IsShareOf total)) (delta == 0) _ _ (λ nothing. others)
      (λ something. ((ground arith, omega arith, refl), others))

diff_uint-le : (a b : ℕ) → diff_uint a b ≤ b
unfolding diff_uint
diff_uint-le a b = ground arith

mode_deltas_roomy : (prev cur : CpuTimes) → IsRoomy cur → plain_sum (mode_deltas prev cur) < 2 ^ 64
unfolding mode_deltas plain_sum
mode_deltas_roomy prev cur h = omega (
  arith,
  diff_uint-le prev.user cur.user,
  diff_uint-le prev.nice cur.nice,
  diff_uint-le prev.system cur.system,
  diff_uint-le prev.idle cur.idle,
  diff_uint-le prev.iowait cur.iowait,
  diff_uint-le prev.irq cur.irq,
  diff_uint-le prev.softirq cur.softirq,
  diff_uint-le prev.steal cur.steal,
)

-- The shares that are reported of one CPU make the whole: their deltas add up to the total of the
-- deltas of all modes, which is the total that each share reports, and each delta is above 0 and at
-- most the total. This holds for any earlier times, with counters that went back too, as long as
-- each counter is below 2^60.
pub usage-sum_shares :
    (name : Bytes) (prev cur : CpuTimes)
    → IsRoomy cur
    → (sum_shares (usage name prev cur) ≡ sum_deltas (mode_deltas prev cur))
      × All (IsShareOf (sum_deltas (mode_deltas prev cur))) (usage name prev cur)
unfolding usage
usage-sum_shares name prev cur h =
    let ds = mode_deltas prev cur in
    let exact = sum_deltas-eq_plain_sum ds (mode_deltas_roomy prev cur h) in
    if_ind (λ (l : List Share). (sum_shares l ≡ sum_deltas ds) × All (IsShareOf (sum_deltas ds)) l)
      (sum_deltas ds == 0) [] _ (λ nothing. (unfold sum_shares in ground arith, tt))
      (λ something. (
        emit_all-sum _ (sum_deltas ds) ds ∙ sym exact,
        emit_all-IsShareOf _ (sum_deltas ds) ds (omega (arith, exact)),
      ))
