-- ===== src/Config.antt =====
-- config.go: the workload's syntax.
pub mod Defaults
pub mod Workload
use statokgo.Prelude.{
  ℕ, ltb, leb, ◌==◌, ◌&&◌, ◌||◌, Bool, true, false, Bytes, [], ◌∷◌, length, if◌then◌else◌, is_empty,
}

abbrev pub workload_max_len : ℕ
workload_max_len = 100

unfoldable pub workload_byte : ℕ → Bool
workload_byte ch =
    (leb b'a' ch && leb ch b'z')
    || ((leb b'A' ch && leb ch b'Z')
        || ((leb b'0' ch && leb ch b'9')
            || (ch == b'.' || (ch == b'-' || (ch == b'_' || ch == b'/')))))

workload_bytes : Bytes → Bool
workload_bytes [] = true
workload_bytes (c ∷ s) = workload_byte c && workload_bytes s

-- validateWorkload; false is ErrInvalidWorkload
unfoldable pub valid_workload : Bytes → Bool
unfolding workload_byte workload_bytes is_empty
valid_workload workload =
    if is_empty workload
    then false
    else if ltb workload_max_len (length workload)
    then false
    else workload_bytes workload
