-- ===== src/Examples/OfCallers.antt =====
-- The methods of the client, the totals and the delays at concrete inputs.
use statokgo.Prelude.{
  ℕ, zero, ◌+◌, ◌-◌, ◌*◌, ◌%◌, ◌^◌, min, true, false, Bytes, List, [], ◌∷◌, some, ◌≡◌, refl, arith,
  map, lookup, text_eq, bytes_eq,
}
use statokgo.Prelude.Int.{pos}
use statokgo.Event.{unset}
use statokgo.Batch.{series_key}
use statokgo.UniqueId.{int}
use statokgo.Examples.Whole.{whole_numbers, whole_numbers-IsExact}
use statokgo.Client.Retry.{second, retry_delay, client_backoff_delay}
use statokgo.Client.Retry.Delays.{delays_double}
use statokgo.Client.Totals.Increments.{Reading, counted, rises, counts_of, counted-rises}
use statokgo.Client.Producer.{
  Front, Given, Call, call_count, call_count_unique, call_value_sparse, calls,
}
use statokgo.Client.Producer.Queue.{IsSafe, calls-IsSafe}
use statokgo.Client.Producer.Quiet.{calls_closed}

delays_double_example :
    (retry_delay 3 7 ≡ min (8 * second) (second * 2 ^ (3 - 1)) + 7 % second)
    × (client_backoff_delay 3 7 ≡ min (30 * second) (second * 2 ^ (3 - 1)) + 7 % (5 * second))
delays_double_example = delays_double 3 7

abbrev series : Bytes
series = b't' ∷ (0 ∷ [])

abbrev reading : ℕ → Reading
reading n = record { metric = b't' ∷ []; labels = []; count = n }

-- a rise, a reset, another series, and a rise
abbrev readings : List Reading
readings =
    reading 12 ∷ reading 3 ∷ record { metric = b'o' ∷ []; labels = []; count = 9 } ∷ reading 8 ∷ []

abbrev totals : List (Bytes × ℕ)
totals = (series, 10) ∷ []

series_known : lookup text_eq series totals ≡ some 10
unfolding lookup bytes_eq
series_known = refl

counted-rises_example :
    counted whole_numbers (λ n. n) series readings totals 4
    ≡ map (λ n. n) (rises 10 (counts_of series readings))
counted-rises_example =
    counted-rises whole_numbers (λ n. n) whole_numbers-IsExact series readings totals 4 10
      series_known refl (omega arith) (omega arith, (omega arith, (omega arith, (omega arith, tt))))

rises_test : rises 10 (counts_of series readings) ≡ 2 ∷ 5 ∷ []
unfolding rises counts_of series_key bytes_eq
rises_test = refl

abbrev given : Given ℕ
given = record {
  pooled = record { typ = unset; name = []; amount = 0; unique_id = []; labels = []; ts = 0 };
  limiter_now = 5000000000;
  now = 5000000001;
}

abbrev front : Front ℕ
front = record {
  workload = b'w' ∷ [];
  queue = [];
  dropped = 0;
  value_limiter = 0;
  stop_sending = false;
  done = false;
}

abbrev some_calls : List (Given ℕ × Call ℕ)
some_calls =
    (given, call_count (b'm' ∷ []) 1 [])
    ∷ (given, call_count_unique (int (pos 7)) (b'm' ∷ []) [])
    ∷ (given, call_value_sparse (b'm' ∷ []) 1 [])
    ∷ []

calls-IsSafe_example : IsSafe (calls whole_numbers some_calls front)
calls-IsSafe_example =
    calls-IsSafe whole_numbers some_calls front (record { size = omega arith; queueable = tt })

abbrev closed : Front ℕ
closed = record front { done = true }

calls_closed_example :
    ((calls whole_numbers some_calls closed).queue ≡ [])
    × ((calls whole_numbers some_calls closed).dropped ≡ zero)
calls_closed_example = calls_closed whole_numbers some_calls closed refl
