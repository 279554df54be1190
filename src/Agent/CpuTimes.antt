-- ===== src/Agent/CpuTimes.antt =====
-- internal/collectors/core/cpu_times_linux.go and util.go: the times of each CPU, from the lines of
-- /proc/stat.
use statokgo.Prelude.{
  ℕ, ltb, Bytes, List, [], ◌∷◌, Option, none, some, length, if◌then◌else◌, is_none, is_empty,
  lookup, insert, text_eq, codes,
}
use statokgo.Go.Strings.{trim_space, has_prefix, fields}
use statokgo.Go.Strconv.{parse_uint}

pub record CpuTimes : Type 0 where
  pub user : ℕ
  pub nice : ℕ
  pub system : ℕ
  pub idle : ℕ
  pub iowait : ℕ
  pub irq : ℕ
  pub softirq : ℕ
  pub steal : ℕ
  pub guest : ℕ
  pub guest_nice : ℕ

-- parseUint, with 0 for a field that is no number
unfoldable pub field_value : Bytes → ℕ
unfolding trim_space parse_uint
field_value s = elim (parse_uint (trim_space s)) [ none ↦ 0 | some v ↦ v ]

-- vals[i]: 0 where there is no such field
unfoldable pub value_at : ℕ → List Bytes → ℕ
unfolding field_value
value_at i [] = 0
value_at ℕ.zero (f ∷ fs) = field_value f
value_at (ℕ.suc i) (f ∷ fs) = value_at i fs

unfoldable pub parse_times : List Bytes → CpuTimes
unfolding value_at
parse_times fs = record {
  user = value_at 0 fs;
  nice = value_at 1 fs;
  system = value_at 2 fs;
  idle = value_at 3 fs;
  iowait = value_at 4 fs;
  irq = value_at 5 fs;
  softirq = value_at 6 fs;
  steal = value_at 7 fs;
  guest = value_at 8 fs;
  guest_nice = value_at 9 fs;
}

-- the fields of a line behind the prefix test
unfoldable pub add_fields : List Bytes → List (Bytes × CpuTimes) → List (Bytes × CpuTimes)
unfolding parse_times
add_fields [] result = result
add_fields (name ∷ fs) result =
    if ltb (length (name ∷ fs)) 5 then result else insert text_eq name (parse_times fs) result

unfoldable pub add_line : Bytes → List (Bytes × CpuTimes) → List (Bytes × CpuTimes)
unfolding add_fields has_prefix fields
add_line line result =
    if has_prefix line (codes "cpu") then add_fields (fields line) result else result

unfoldable pub add_lines : List Bytes → List (Bytes × CpuTimes) → List (Bytes × CpuTimes)
unfolding add_line
add_lines [] result = result
add_lines (line ∷ lines) result = add_lines lines (add_line line result)

-- The lines of /proc/stat, none if it cannot be read; none is an error.
unfoldable pub read_cpu_times : Option (List Bytes) → Option (List (Bytes × CpuTimes))
unfolding add_lines
read_cpu_times none = none
read_cpu_times (some lines) =
    let result = add_lines lines [] in
    if is_empty result
    then none
    else if is_none (lookup text_eq (codes "cpu") result)
    then none
    else some result
