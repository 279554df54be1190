-- ===== src/Client/Retry.antt =====
-- client.go: which errors are retried, and after which delay. Times are in nanoseconds.
pub mod Delays
use statokgo.Prelude.{
  ℕ, zero, suc, ◌+◌, ◌-◌, ◌*◌, ◌%◌, ◌^◌, ltb, leb, ◌==◌, ◌||◌, Bool, false, Option, none, some,
  if◌then◌else◌,
}
use statokgo.Transport.{SendError, stop_ingest, http, other}

abbrev pub second : ℕ
second = 10 ^ 9

abbrev pub default_retry_queue_size : ℕ
default_retry_queue_size = 128

abbrev pub default_retry_flush_max_sends : ℕ
default_retry_flush_max_sends = 1

abbrev pub default_retry_max_attempts : ℕ
default_retry_max_attempts = 8

abbrev pub default_retry_base_delay : ℕ
default_retry_base_delay = second

abbrev pub default_retry_max_delay : ℕ
default_retry_max_delay = 8 * second

abbrev pub default_retry_jitter_window : ℕ
default_retry_jitter_window = second

abbrev pub default_client_backoff_max_delay : ℕ
default_client_backoff_max_delay = 30 * second

abbrev pub default_client_backoff_jitter_window : ℕ
default_client_backoff_jitter_window = 5 * second

-- The loop that doubles the delay, over the rounds left (attempt - step).
unfoldable pub double_delay : ℕ → ℕ → ℕ → ℕ
double_delay max_delay zero delay = delay
double_delay max_delay (suc rounds) delay =
    let rest = double_delay max_delay rounds (delay * 2) in
    if ltb delay max_delay then (if leb max_delay (delay * 2) then max_delay else rest) else delay

-- `now` is time.Now().UnixNano(), from which the jitter is drawn
unfoldable pub retry_delay : ℕ → ℕ → ℕ
unfolding double_delay
retry_delay attempt now =
    double_delay default_retry_max_delay (attempt - 1) default_retry_base_delay
    + now % default_retry_jitter_window

unfoldable pub client_backoff_delay : ℕ → ℕ → ℕ
unfolding double_delay
client_backoff_delay attempt now =
    double_delay default_client_backoff_max_delay (attempt - 1) default_retry_base_delay
    + now % default_client_backoff_jitter_window

-- the switch over the HTTP status
unfoldable pub is_transient_status : ℕ → Bool
is_transient_status status =
    status == 408
    || (status == 429 || (status == 500 || (status == 502 || (status == 503 || status == 504))))

unfoldable pub should_retry_transport : Option SendError → Bool
unfolding is_transient_status
should_retry_transport none = false
should_retry_transport (some (stop_ingest code e)) = false
should_retry_transport (some (http e)) = is_transient_status e.status_code
should_retry_transport (some (other c)) =
    c.net_error
    || (c.deadline_exceeded
        || (c.eof || (c.unexpected_eof || (c.conn_reset || (c.conn_refused || c.timed_out)))))
