-- ===== src/Labels/Safe.antt =====
-- labels.go: a label built by Label, cut at its '=' and put into a line of the protocol.
use statokgo.Prelude.{
  ℕ, Bytes, [], ◌∷◌, some, ◌≡◌, ◌≢◌, refl, arith, All-append, Lacks, ◌⊎◌, inl, inr,
}
use statokgo.Go.Strings.{before_byte, after_byte}
use statokgo.Go.Strings.Cut.{before_byte-append, after_byte-append}
use statokgo.Labels.{replace_byte, replace, label}

-- the bytes that labelReplacer replaces
abbrev pub IsReserved : ℕ → Type 0
IsReserved c = (c ≡ b'=') ⊎ ((c ≡ b'|') ⊎ ((c ≡ b'\n') ⊎ (c ≡ b'\r')))

replace_byte-ne : (r c : ℕ) → IsReserved r → replace_byte c ≢ r
unfolding replace_byte
replace_byte-ne r c h = ground arith

replace-Lacks : (r : ℕ) (s : Bytes) → IsReserved r → Lacks r (replace s)
unfolding replace
replace-Lacks r [] h = tt
replace-Lacks r (c ∷ s) h = (replace_byte-ne r c h, replace-Lacks r s h)

-- A label is cut at its first '=' into the cleaned key and the cleaned value, and neither of these
-- holds an '='.
pub label_split :
    (key value : Bytes)
    → (before_byte b'=' (label key value) ≡ some (replace key))
      × (after_byte b'=' (label key value) ≡ some (replace value))
      × Lacks b'=' (replace key)
      × Lacks b'=' (replace value)
unfolding label
label_split key value =
    let free = λ (s : Bytes). replace-Lacks b'=' s (inl refl) in
    (
      before_byte-append b'=' (replace key) (replace value) (free key),
      after_byte-append b'=' (replace key) (replace value) (free key),
      free key,
      free value,
    )

label-Lacks : (r : ℕ) (key value : Bytes) → IsReserved r → b'=' ≢ r → Lacks r (label key value)
unfolding label
label-Lacks r key value h ne =
    All-append (λ b. b ≢ r) (replace key) _ (replace-Lacks r key h) (ne, replace-Lacks r value h)

-- No label built by Label holds the field separator '|' or a line break, whatever its parts hold.
pub label_fits_line :
    (key value : Bytes)
    → Lacks b'|' (label key value) × Lacks b'\n' (label key value) × Lacks b'\r' (label key value)
label_fits_line key value = (
  label-Lacks b'|' key value (inr (inl refl)) (omega arith),
  label-Lacks b'\n' key value (inr (inr (inl refl))) (omega arith),
  label-Lacks b'\r' key value (inr (inr (inr refl))) (omega arith),
)
