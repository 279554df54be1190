-- ===== src/Examples/OfEvents.antt =====
-- Labels, events and the rate limiter at concrete inputs.
use statokgo.Prelude.{
  ◌≤◌, ◌≢◌, Bytes, List, [], ◌∷◌, ◌≡◌, refl, some, arith, All, Lacks, replicate, min,
}
use statokgo.Go.Strings.{before_byte, after_byte, trim_space}
use statokgo.Prelude.{filter, map, not, is_empty}
use statokgo.Event.{
  MetricType, borrow_event, borrow_unique_event, new_event, release_event, trim_labels,
}
use statokgo.Event.Pool.{returned, borrow_event-clean, borrow_event-labels}
use statokgo.Examples.Whole.{whole_numbers, seen}
use statokgo.Labels.{label, replace}
use statokgo.Labels.Safe.{label_split, label_fits_line}
use statokgo.RateLimiter.{max_value_events_per_second, attempt, swap_to}
use statokgo.RateLimiter.Threads.{
  Round, fresh, Reach, here, next, load, swap, again, passed_in, passed_in_bound,
}
use statokgo.RateLimiter.Window.{passes, passes_burst}

-- a label between spaces, and a blank one
abbrev spaced : List Bytes
spaced = (b' ' ∷ b'k' ∷ b' ' ∷ []) ∷ (b' ' ∷ []) ∷ []

borrow_event-clean_example :
    (borrow_event whole_numbers
        (release_event whole_numbers (seen b'u' b'1'))
        9
        MetricType.value
        (b'm' ∷ [])
        3
        spaced
      ≡ record {
        typ = MetricType.value;
        name = b'm' ∷ [];
        amount = 3;
        unique_id = [];
        labels = filter (λ l. not (is_empty l)) (map trim_space spaced);
        ts = 9;
      })
    × (borrow_unique_event whole_numbers
          (release_event whole_numbers (seen b'u' b'1'))
          9
          (b'm' ∷ [])
          (b'7' ∷ [])
          spaced
        ≡ record {
          typ = MetricType.unique;
          name = b'm' ∷ [];
          amount = 0;
          unique_id = b'7' ∷ [];
          labels = filter (λ l. not (is_empty l)) (map trim_space spaced);
          ts = 9;
        })
borrow_event-clean_example =
    borrow_event-clean whole_numbers (release_event whole_numbers (seen b'u' b'1')) 9
      MetricType.value (b'm' ∷ []) 3 (b'7' ∷ []) spaced (returned (seen b'u' b'1'))

borrow_event-labels_example :
    All
      (λ l. (l ≢ []) × (trim_space l ≡ l))
      (borrow_event whole_numbers
        (new_event whole_numbers)
        9
        MetricType.value
        (b'm' ∷ [])
        3
        spaced).labels
    × (trim_labels
          (borrow_event whole_numbers
            (new_event whole_numbers)
            9
            MetricType.value
            (b'm' ∷ [])
            3
            spaced).labels
        ≡ (borrow_event whole_numbers
            (new_event whole_numbers)
            9
            MetricType.value
            (b'm' ∷ [])
            3
            spaced).labels)
borrow_event-labels_example =
    borrow_event-labels whole_numbers (new_event whole_numbers) 9 MetricType.value (b'm' ∷ []) 3
      spaced

label_split_example :
    (before_byte b'=' (label (b'a' ∷ b'=' ∷ []) (b'|' ∷ [])) ≡ some (replace (b'a' ∷ b'=' ∷ [])))
    × (after_byte b'=' (label (b'a' ∷ b'=' ∷ []) (b'|' ∷ [])) ≡ some (replace (b'|' ∷ [])))
    × Lacks b'=' (replace (b'a' ∷ b'=' ∷ []))
    × Lacks b'=' (replace (b'|' ∷ []))
label_split_example = label_split (b'a' ∷ b'=' ∷ []) (b'|' ∷ [])

label_fits_line_example :
    Lacks b'|' (label (b'\n' ∷ []) (b'|' ∷ []))
    × Lacks b'\n' (label (b'\n' ∷ []) (b'|' ∷ []))
    × Lacks b'\r' (label (b'\n' ∷ []) (b'|' ∷ []))
label_fits_line_example = label_fits_line (b'\n' ∷ []) (b'|' ∷ [])

passes_burst_example : passes 5 (replicate 3 5) 0 ≡ min 3 max_value_events_per_second
passes_burst_example = passes_burst 5 3 0 (omega arith) (omega arith) (omega arith)

-- two calls of second 1 load the empty word, one swaps, and the other has to load again
abbrev round : Round
round = record { window = 1; loaded = 0 }

first_swap : attempt 1 0 ≡ swap_to 65537
unfolding attempt
first_swap = refl

raced :
    Reach fresh (record {
      word = 65537;
      pending = record { window = 1; loaded = 65537 } ∷ [];
      passed = 1 ∷ [];
    })
raced =
    next
      (next (next (next here (load 1 (omega arith))) (load 1 (omega arith)))
        (swap [] (round ∷ []) round 65537 refl first_swap refl))
      (again [] [] round 65537 refl first_swap (omega arith))

passed_in_bound_example : passed_in 1 (1 ∷ []) ≤ max_value_events_per_second
passed_in_bound_example =
    passed_in_bound 1
      (record {
        word = 65537;
        pending = record { window = 1; loaded = 65537 } ∷ [];
        passed = 1 ∷ [];
      })
      raced
