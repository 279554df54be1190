-- ===== src/Examples/OfBatch.antt =====
-- The batch builder, the unique IDs and the keys at concrete inputs.
use statokgo.Prelude.{
  ℕ, ◌≤◌, Bytes, List, [], ◌∷◌, some, none, ◌≡◌, ◌↔◌, refl, arith, All, ◌≢◌, bytes_eq, all_eq,
}
use statokgo.Prelude.Int.{pos}
use statokgo.Event.{Event}
use statokgo.Batch.{BatchBuilder, add_all, new_batch_builder, series_key}
use statokgo.Batch.Reference.{merge_all}
use statokgo.Batch.Refines.{add_all_refines}
use statokgo.Batch.Sums.{batch_sums, value_of, counters_of, sum_deltas}
use statokgo.Batch.Series.{series_key_eq_iff}
use statokgo.Batch.Uniques.{IsCleanEvent}
use statokgo.Examples.Whole.{whole_numbers, one_hash, counted, seen}
use statokgo.UniqueId.{AnyId, int, string, canonical_unique_id, canonical_unique_decimal_string}
use statokgo.Go.Strconv.{parse_uint, format_uint}
use statokgo.UniqueId.Canonical.{
  FitsU64, number, canonical_unique_id_idem, canonical_unique_id_eq_iff,
}

-- two series of counters that share a hash, and a unique ID twice
abbrev m : Bytes
m = b'm' ∷ []

abbrev one_label : ℕ → List Bytes
one_label c = (c ∷ []) ∷ []

abbrev seven : Bytes
seven = b'7' ∷ []

abbrev mixed : List (Event ℕ)
mixed = counted b'a' 2 ∷ counted b'b' 3 ∷ seen b'u' b'1' ∷ counted b'a' 5 ∷ seen b'u' b'1' ∷ []

counted-clean : (metric delta : ℕ) → metric ≢ 0 → IsCleanEvent (counted metric delta)
counted-clean metric delta h = ((h, tt), tt, tt)

seen-clean : (metric id : ℕ) → metric ≢ 0 → id ≢ 0 → IsCleanEvent (seen metric id)
seen-clean metric id h k = ((h, tt), tt, (k, tt))

mixed-clean : All IsCleanEvent mixed
mixed-clean = (
  counted-clean b'a' 2 (omega arith),
  (
    counted-clean b'b' 3 (omega arith),
    (
      seen-clean b'u' b'1' (omega arith) (omega arith),
      (counted-clean b'a' 5 (omega arith), (seen-clean b'u' b'1' (omega arith) (omega arith), tt)),
    ),
  ),
)

add_all_refines_example :
    (b : BatchBuilder ℕ) × (add_all whole_numbers one_hash new_batch_builder mixed ≡ some b)
    × (b.payload
        ≡ merge_all whole_numbers
            (record { batch_id = []; counters = []; values = []; uniques = [] })
            mixed)
add_all_refines_example = add_all_refines whole_numbers one_hash mixed mixed-clean

-- the sum that the next example speaks of
sum_deltas_test : sum_deltas whole_numbers (b'a' ∷ []) [] none mixed ≡ some 7
unfolding sum_deltas bytes_eq all_eq
sum_deltas_test = refl

batch_sums_example :
    (b : BatchBuilder ℕ) × (add_all whole_numbers one_hash new_batch_builder mixed ≡ some b)
    × (value_of (b'a' ∷ []) [] b.payload.counters
        ≡ sum_deltas whole_numbers (b'a' ∷ []) [] none mixed)
    × (counters_of (b'a' ∷ []) [] b.payload.counters ≤ 1)
batch_sums_example =
    batch_sums whole_numbers one_hash (b'a' ∷ []) [] mixed mixed-clean (omega arith)

series_key_eq_iff_example :
    (series_key m (one_label b'k') ≡ series_key m (one_label b'l'))
    ↔ ((m ≡ m) × (one_label b'k' ≡ one_label b'l'))
series_key_eq_iff_example =
    series_key_eq_iff m m (one_label b'k') (one_label b'l') (omega arith, tt) (omega arith, tt)
      ((omega arith, tt), tt) ((omega arith, tt), tt)

-- 7 as an int, and 07 as a string
abbrev as_int : AnyId
as_int = int (pos 7)

abbrev as_string : AnyId
as_string = string (b'0' ∷ b'7' ∷ [])

seven-fits : FitsU64 as_int
unfolding number
seven-fits n e = ground arith

padded-fits : FitsU64 as_string
unfolding number parse_uint
padded-fits n e = ground arith

seven_canonical : canonical_unique_id as_int ≡ some seven
unfolding canonical_unique_id format_uint
seven_canonical = refl

padded_canonical : canonical_unique_id as_string ≡ some seven
unfolding canonical_unique_id canonical_unique_decimal_string parse_uint format_uint
padded_canonical = refl

canonical_unique_id_idem_example : canonical_unique_id (string seven) ≡ some seven
canonical_unique_id_idem_example =
    canonical_unique_id_idem as_string seven padded-fits padded_canonical

canonical_unique_id_eq_iff_example : (seven ≡ seven) ↔ (number as_int ≡ number as_string)
canonical_unique_id_eq_iff_example =
    canonical_unique_id_eq_iff as_int as_string seven seven seven-fits padded-fits seven_canonical
      padded_canonical
