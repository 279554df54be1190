-- ===== src/Go.antt =====
-- The part of Go's standard library that the program calls, on byte strings: `strings` and `strconv`.
pub mod Strings
pub mod Strconv
