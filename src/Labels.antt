-- ===== src/Labels.antt =====
-- labels.go: Label builds a "k=v" label. Labels are values here, so cloneLabels is the identity.
pub mod Safe
use mathlib.Core.List.{List}
use statokgo.Prelude.{ℕ, ◌==◌, ◌||◌, Bytes, map, ◌∷◌, ◌++◌, if◌then◌else◌}

-- what labelReplacer makes of one byte
unfoldable pub replace_byte : ℕ → ℕ
replace_byte c = if c == b'=' || (c == b'|' || (c == b'\n' || c == b'\r')) then b'_' else c

-- labelReplacer.Replace
unfoldable pub replace : Bytes → Bytes
unfolding replace_byte
replace s = map replace_byte s

unfoldable pub label : Bytes → Bytes → Bytes
unfolding replace
label key value = replace key ++ (b'=' ∷ replace value)

abbrev pub clone_labels : List Bytes → List Bytes
clone_labels labels = labels
