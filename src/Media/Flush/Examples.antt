-- ===== src/Media/Flush/Examples.antt =====
-- Runs of src/media/flush.rs, and its theorem at a concrete input.
use cast_app.Common.{◌≡◌, refl, true, false, [], ◌∷◌, arith}
use cast_app.Media.Flush.{FlushTracker, new, reset, should_flush, next_deadline, has_pending}
use cast_app.Media.Flush.Held.{Held, held_none, held_write, IsWaiting, writes-IsWaiting}

-- Flush after 100 bytes or 50 ns.
abbrev fresh : FlushTracker
fresh = record {
  bytes_since_flush = 0;
  last_flush = 1000;
  byte_threshold = 100;
  time_threshold = 50;
}

abbrev waiting : FlushTracker
waiting = record {
  bytes_since_flush = 70;
  last_flush = 1000;
  byte_threshold = 100;
  time_threshold = 50;
}

flushes_at_threshold : (should_flush 1020 30 waiting).0 ≡ true
unfolding should_flush
flushes_at_threshold = refl

flushes_when_late :
    should_flush 1050 1 waiting
    ≡ (true, record waiting { bytes_since_flush = 0; last_flush = 1050 })
unfolding should_flush
flushes_when_late = refl

idle_after_reset : has_pending (reset 1060 waiting) ≡ false
unfolding has_pending reset
idle_after_reset = refl

first_deadline : next_deadline (new 100 50 1000) ≡ 1050
unfolding next_deadline new
first_deadline = refl

two_writes : Held fresh ((1010, 30) ∷ (1020, 40) ∷ []) waiting
unfolding should_flush
two_writes = held_write 1010 30 refl (held_write 1020 40 refl held_none)

writes-IsWaiting_example : IsWaiting fresh ((1010, 30) ∷ (1020, 40) ∷ []) waiting
writes-IsWaiting_example = writes-IsWaiting two_writes (omega arith) (omega arith)
