-- ===== src/HostMetrics/Runtime/Workload.antt =====
-- cmd/statok-hostmetrics/config.go, resolveWorkload: a workload that is accepted is a name.
use statokgo.Prelude.{Bool, true, false, Bytes, Option, none, some, ◌≡◌, subst, is_empty, if_ind}
use statokgo.Go.Strings.{trim_space}
use statokgo.Go.Strings.Trim.{trim_space_idem}
use statokgo.HostMetrics.{Machine, FileConfig, ConfigFault, empty_workload, Result, error, ok}
use statokgo.HostMetrics.Runtime.{
  not_blank, host_workload, flag_workload, configured_workload, resolve_workload,
}

-- the predicate holds of a result that is no error
abbrev pub OnOk {ℓ} : {A : Type ℓ} → (A → Type 0) → Result A → Type 0
OnOk P (error e) = Unit
OnOk P (ok a) = P a

pub OnOk-at {ℓ} : {A : Type ℓ} (P : A → Type 0) (r : Result A) (a : A) → OnOk P r → r ≡ ok a → P a
OnOk-at P r a h e = subst (OnOk P) e h

-- A switch of the configuration that is set is obeyed.
abbrev pub Obeys : Option Bool → Bool → Type 0
Obeys none on = Unit
Obeys (some b) on = on ≡ b

-- a name that is not blank, with no white space at its ends
abbrev pub IsName : Bytes → Type 0
IsName w = (is_empty w ≡ false) × (trim_space w ≡ w)

not_blank-OnOk : (os : Machine) (e : ConfigFault) (text : Bytes) → OnOk IsName (not_blank os e text)
unfolding not_blank
not_blank-OnOk os e text =
    if_ind (OnOk IsName) (is_empty (trim_space text)) (error e) (ok (trim_space text)) (λ blank. tt)
      (λ full. (full, trim_space_idem text))

host_workload-OnOk : (os : Machine) (host : Option Bytes) → OnOk IsName (host_workload os host)
unfolding host_workload
host_workload-OnOk os none = tt
host_workload-OnOk os (some host) = not_blank-OnOk os _ host

flag_workload-OnOk :
    (os : Machine) (flag : Bytes) (flag_set : Bool) → OnOk IsName (flag_workload os flag flag_set)
unfolding flag_workload
flag_workload-OnOk os flag true = not_blank-OnOk os _ flag
flag_workload-OnOk os flag false =
    if_ind (OnOk IsName) (is_empty (trim_space flag)) (host_workload os os.hostname)
      (ok (trim_space flag)) (λ blank. host_workload-OnOk os os.hostname)
      (λ full. (full, trim_space_idem flag))

pub resolve_workload-OnOk :
    (os : Machine) (cfg : Option FileConfig) (flag : Bytes) (flag_set : Bool)
    → OnOk IsName (resolve_workload os cfg flag flag_set)
unfolding resolve_workload
resolve_workload-OnOk os cfg flag flag_set = go (configured_workload os cfg)
  where
    go :
        (o : Option Bytes)
        → OnOk IsName (elim o [
          | none ↦ flag_workload os flag flag_set
          | some workload ↦ not_blank os empty_workload workload
        ])
    go none = flag_workload-OnOk os flag flag_set
    go (some workload) = not_blank-OnOk os empty_workload workload
