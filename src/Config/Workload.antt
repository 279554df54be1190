-- ===== src/Config/Workload.antt =====
-- config.go, validateWorkload: the workload as the value of a header.
use statokgo.Prelude.{true, Bytes, [], ◌∷◌, ◌≡◌, arith, All, Lacks}
use statokgo.Go.Strings.{trim_space}
use statokgo.Go.Strings.Plain.{IsPlain, plain-Lacks, trim_space_plain}
use statokgo.Config.{workload_byte, workload_bytes, valid_workload}

workload_bytes-IsPlain : (s : Bytes) → workload_bytes s ≡ true → All IsPlain s
unfolding workload_bytes workload_byte
workload_bytes-IsPlain [] h = tt
workload_bytes-IsPlain (c ∷ s) h =
    ((ground arith, ground arith), workload_bytes-IsPlain s (ground arith))

-- A workload that validateWorkload accepts goes into the header of a request as it is: there is
-- nothing to trim, and it holds no line break.
pub valid_workload-trim_space :
    (workload : Bytes)
    → valid_workload workload ≡ true
    → (trim_space workload ≡ workload) × Lacks b'\n' workload × Lacks b'\r' workload
unfolding valid_workload
valid_workload-trim_space workload h =
    let plain = workload_bytes-IsPlain workload (ground arith) in
    (
      trim_space_plain workload plain,
      plain-Lacks b'\n' workload (omega arith) plain,
      plain-Lacks b'\r' workload (omega arith) plain,
    )
