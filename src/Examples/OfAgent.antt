-- ===== src/Examples/OfAgent.antt =====
-- The agent at concrete inputs.
use statokgo.Prelude.{
  ℕ, bytes_eq, is_empty, if◌then◌else◌, ◌*◌, ◌≡◌, refl, arith, All, codes, true, Bytes, List, [],
  ◌∷◌, ◌++◌, none, some, lookup, text_eq,
}
use statokgo.Prelude.Int.{pos}
use statokgo.Client.Retry.{second}
use statokgo.Agent.Docker.{
  LabelMode, Container, Daemon, CpuPrev, mem_usage, net_bytes, cpu_usage, collect, is_active,
}
use statokgo.Agent.Docker.Prev.{find, metrics_at, reading_at, collect-each}
use statokgo.Agent.LogLimiter.{allowed_at, AreSpaced, allowed_at-AreSpaced}
use statokgo.Agent.Runner.{
  Collector, Probe, detected, new_panic, select_collectors, minute, Agent, started, starting,
  acquiring, collecting, first, acquire, goes, cancels, Reach, here, next, stopped, closed_ids,
}
use statokgo.Go.Strings.Words.{joined}
use statokgo.Go.Strconv.{format_uint}
use statokgo.Agent.Nginx.{NginxResult, parse_stub_status}
use statokgo.Agent.Nginx.Words.{Counts, as_status}
use statokgo.Agent.Nginx.Page.{stub_status_page, FitsInt, parse_stub_status-page}
use statokgo.Agent.Runner.Selected.{present, probe_collectors, select_collectors-present}
use statokgo.Agent.Runner.Orderly.{IsOrderly, agent-IsOrderly}
use statokgo.Agent.Runner.Ends.{agent_can_stop}
use statokgo.Agent.CpuTimes.{CpuTimes}
use statokgo.Agent.CpuUsage.{mode_deltas, sum_deltas, usage}
use statokgo.Agent.CpuUsage.Shares.{IsShareOf, sum_shares, usage-sum_shares}

abbrev times : ℕ → ℕ → ℕ → CpuTimes
times user idle irq = record {
  user = user;
  nice = 0;
  system = 3;
  idle = idle;
  iowait = 0;
  irq = irq;
  softirq = 0;
  steal = 0;
  guest = 0;
  guest_nice = 0;
}

-- user and idle move on, irq goes back
usage-sum_shares_example :
    (sum_shares (usage (codes "cpu0") (times 10 50 9) (times 13 57 2))
      ≡ sum_deltas (mode_deltas (times 10 50 9) (times 13 57 2)))
    × All
        (IsShareOf (sum_deltas (mode_deltas (times 10 50 9) (times 13 57 2))))
        (usage (codes "cpu0") (times 10 50 9) (times 13 57 2))
usage-sum_shares_example = usage-sum_shares (codes "cpu0") (times 10 50 9) (times 13 57 2) (record {
  user = omega arith;
  nice = omega arith;
  system = omega arith;
  idle = omega arith;
  iowait = omega arith;
  irq = omega arith;
  softirq = omega arith;
  steal = omega arith;
})

sum_deltas_test : sum_deltas (mode_deltas (times 10 50 9) (times 13 57 2)) ≡ 10
unfolding sum_deltas mode_deltas
sum_deltas_test = refl

-- a collector that closes, and a probe whose New panics
abbrev gauge : Collector
gauge = record { id = codes "mem"; every = pos 10000000000; closes = true }

abbrev broken : Probe
broken = record { id = codes "docker"; detect = detected []; make = new_panic }

select_collectors-present_example :
    (select_collectors (none ∷ some gauge ∷ []) (some broken ∷ none ∷ [])).0
    ≡ present (none ∷ some gauge ∷ []) ++ probe_collectors (some broken ∷ none ∷ [])
select_collectors-present_example =
    select_collectors-present (none ∷ some gauge ∷ []) (some broken ∷ none ∷ [])

-- three errors of one collector within seventy seconds
abbrev errors : List (Bytes × ℕ)
errors =
    (codes "mem", 0)
    ∷ (codes "net", 5)
    ∷ (codes "mem", 10 * second)
    ∷ (codes "mem", 70 * second)
    ∷ []

allowed_test : allowed_at minute (codes "mem") errors [] ≡ 0 ∷ 70 * second ∷ []
unfolding allowed_at
allowed_test = refl

allowed_at-AreSpaced_example :
    AreSpaced minute (lookup text_eq (codes "mem") []) (allowed_at minute (codes "mem") errors [])
allowed_at-AreSpaced_example = allowed_at-AreSpaced minute (codes "mem") errors []

-- the collector is in Collect when the context ends
abbrev in_collect : Agent
unfolding started
in_collect = record (started (gauge ∷ [])) {
  done = true;
  tokens = 1;
  tasks = record { collector = gauge; place = collecting } ∷ [];
}

in_collect-reached : Reach (started (gauge ∷ [])) in_collect
unfolding started
in_collect-reached =
    next
      (next (next here (goes [] [] gauge starting acquiring _ refl (first refl)))
        (goes [] [] gauge acquiring collecting _ refl (acquire (omega arith))))
      cancels

agent-IsOrderly_example : IsOrderly (gauge ∷ []) in_collect
agent-IsOrderly_example = agent-IsOrderly (gauge ∷ []) in_collect in_collect-reached

agent_can_stop_example :
    (b : Agent) × Reach in_collect b
    × (b.main ≡ stopped)
    × (b.closed ≡ closed_ids (gauge ∷ []))
    × (b.tokens ≡ 0)
agent_can_stop_example = agent_can_stop (gauge ∷ []) in_collect in_collect-reached

abbrev counts : Counts
counts = record {
  active = 291;
  accepts = 16630948;
  handled = 16630948;
  requests = 31070465;
  reading = 6;
  writing = 179;
  waiting = 106;
}

page_test :
    stub_status_page counts
    ≡ codes
        "Active connections: 291 \nserver accepts handled requests\n 16630948 16630948 31070465 \nReading: 6 Writing: 179 Waiting: 106 \n"
unfolding stub_status_page joined format_uint
page_test = refl

counts-FitsInt : FitsInt counts
counts-FitsInt = record {
  active = omega arith;
  accepts = omega arith;
  handled = omega arith;
  requests = omega arith;
  reading = omega arith;
  writing = omega arith;
  waiting = omega arith;
}

parse_stub_status-page_example :
    parse_stub_status (stub_status_page counts) ≡ NginxResult.success (as_status counts)
parse_stub_status-page_example = parse_stub_status-page counts counts-FitsInt

-- Two containers, of which one was seen before; the statistics of the other have no usage. A third is
-- gone.
abbrev docker : Daemon
docker = record {
  stats = λ id.
      if bytes_eq id (codes "a")
      then some (record {
        total_usage = 150;
        system_usage = 1400;
        online_cpus = 2;
        percpu = 0;
        memory = 2048;
        networks = [];
      })
      else some (record {
        total_usage = 0;
        system_usage = 0;
        online_cpus = 0;
        percpu = 0;
        memory = 0;
        networks = (7, 9) ∷ [];
      });
  info = λ id. none;
}

abbrev listed : List Container
listed =
    record { id = codes "a"; names = codes "/web" ∷ []; labels = [] }
    ∷ record { id = codes "b"; names = codes "/db" ∷ []; labels = [] }
    ∷ []

abbrev last_readings : List (Bytes × CpuPrev)
last_readings =
    (codes "a", record { prev_total = 100; prev_system = 1000 })
    ∷ (codes "gone", record { prev_total = 1; prev_system = 1 })
    ∷ []

emitted_test :
    collect docker LabelMode.service (codes "service") listed listed last_readings ≡ record {
      readings = (codes "a", record { prev_total = 150; prev_system = 1400 }) ∷ [];
      emitted =
          (
            codes "b",
            net_bytes (codes "service=db") (codes "dir=rx") 7
                ∷ net_bytes (codes "service=db") (codes "dir=tx") 9
                ∷ [],
          )
          ∷ (
            codes "a",
            mem_usage (codes "service=web") 2048 ∷ cpu_usage (codes "service=web") 50 400 2 ∷ [],
          )
          ∷ [];
    }
unfolding collect bytes_eq
emitted_test = refl

collect-each_example :
    (lookup text_eq
        (codes "a")
        (collect docker LabelMode.service (codes "service") listed listed last_readings).emitted
      ≡ metrics_at docker LabelMode.service
          (codes "service")
          (find (codes "a") listed)
          (lookup text_eq (codes "a") last_readings))
    × (lookup text_eq
          (codes "a")
          (collect docker LabelMode.service (codes "service") listed listed last_readings).readings
        ≡ (if is_active (codes "a") listed
            then reading_at docker LabelMode.service
                (codes "service")
                (find (codes "a") listed)
                (lookup text_eq (codes "a") last_readings)
            else none))
collect-each_example =
    collect-each docker LabelMode.service (codes "service") listed listed last_readings (codes "a")
      (unfold is_active bytes_eq in (refl, (refl, tt))) (unfold is_empty in refl)
