-- ===== src/Media/Flush.antt =====
-- src/media/flush.rs: when a streaming handler flushes its writer. An `Instant` and a `Duration` are
-- numbers of nanoseconds, and `now` is what the clock shows; `elapsed` is 0 before `last_flush`.
pub mod Held
mod Examples
use cast_app.Common.{ℕ, ◌+◌, ◌-◌, ◌%◌, ◌^◌, Bool, true, false, ◌||◌, leb, ltb, if◌then◌else◌}

pub record FlushTracker : Type 0 where
  pub bytes_since_flush : ℕ
  pub last_flush : ℕ
  pub byte_threshold : ℕ
  pub time_threshold : ℕ

unfoldable pub new : ℕ → ℕ → ℕ → FlushTracker
new byte_threshold time_threshold now = record {
  bytes_since_flush = 0;
  last_flush = now;
  byte_threshold = byte_threshold;
  time_threshold = time_threshold;
}

unfoldable pub reset : ℕ → FlushTracker → FlushTracker
reset now t = record t { bytes_since_flush = 0; last_flush = now }

unfoldable pub should_flush : ℕ → ℕ → FlushTracker → Bool × FlushTracker
unfolding reset
should_flush now written t =
    let t = record t { bytes_since_flush = (t.bytes_since_flush + written) % 2 ^ 64 } in
    if leb t.byte_threshold t.bytes_since_flush || leb t.time_threshold (now - t.last_flush)
    then (true, reset now t)
    else (false, t)

unfoldable pub next_deadline : FlushTracker → ℕ
next_deadline t = t.last_flush + t.time_threshold

unfoldable pub has_pending : FlushTracker → Bool
has_pending t = ltb 0 t.bytes_since_flush
