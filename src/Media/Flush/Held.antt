-- ===== src/Media/Flush/Held.antt =====
-- Writes that are not followed by a flush.
use cast_app.Common.{ℕ, ◌+◌, ◌%◌, ◌^◌, ◌<◌, ◌≡◌, refl, ap, false, List, [], ◌∷◌, All, arith}
use mathlib.Core.Path.{subst}
use cast_app.Media.Flush.{FlushTracker, should_flush, next_deadline}

-- The bytes of some writes, which are given with the time after each.
abbrev pub total : List (ℕ × ℕ) → ℕ
total [] = 0
total ((now, written) ∷ ws) = written + total ws

-- `Held t ws t'`: `should_flush` asks for no flush after any of the writes.
pub data Held : FlushTracker → List (ℕ × ℕ) → FlushTracker → Type 0 where
  held_none : {t : FlushTracker} → Held t [] t
  held_write :
      {t t' : FlushTracker} {ws : List (ℕ × ℕ)} (now written : ℕ)
      → (should_flush now written t).0 ≡ false
      → Held (should_flush now written t).1 ws t'
      → Held t ((now, written) ∷ ws) t'

-- What waits after the writes, and until when.
abbrev pub IsWaiting : FlushTracker → List (ℕ × ℕ) → FlushTracker → Type 0
IsWaiting t ws t' =
    (t'.bytes_since_flush ≡ t.bytes_since_flush + total ws)
    × (t'.bytes_since_flush < t.byte_threshold)
    × (next_deadline t' ≡ next_deadline t)
    × All (λ write. write.0 < next_deadline t) ws

abbrev counted : ℕ → FlushTracker → FlushTracker
counted written t = record t { bytes_since_flush = (t.bytes_since_flush + written) % 2 ^ 64 }

not_due :
    (now written : ℕ) (t : FlushTracker)
    → (should_flush now written t).0 ≡ false
    → ((should_flush now written t).1 ≡ counted written t)
      × ((t.bytes_since_flush + written) % 2 ^ 64 < t.byte_threshold)
      × (now < next_deadline t)
unfolding should_flush next_deadline
not_due now written t h = ground arith

after_write :
    (now written : ℕ) (t t' : FlushTracker) (ws : List (ℕ × ℕ))
    → t.bytes_since_flush + (written + total ws) < 2 ^ 64
    → now < next_deadline t
    → IsWaiting (counted written t) ws t'
    → IsWaiting t ((now, written) ∷ ws) t'
unfolding next_deadline
after_write now written t t' ws fits early (sum, few, same, all) =
    (omega arith, few, same, (early, all))

-- While `should_flush` asks for no flush after any of some writes, fewer bytes than the threshold
-- wait in the writer, the tracker counts all of them, the deadline stays, and each of the writes came
-- before it; as long as fewer bytes than the threshold waited before, and a `usize` holds the sum.
pub writes-IsWaiting :
    {t t' : FlushTracker} {ws : List (ℕ × ℕ)}
    → Held t ws t'
    → t.bytes_since_flush + total ws < 2 ^ 64
    → t.bytes_since_flush < t.byte_threshold
    → IsWaiting t ws t'
writes-IsWaiting held_none fits below = (omega arith, below, refl, tt)
writes-IsWaiting {t = t} {t' = t'} (held_write {ws = ws} now written quiet rest) fits below =
    let (same, few, early) = not_due now written t quiet in
    let same_count = ap (λ (t : FlushTracker). t.bytes_since_flush) same in
    let same_threshold = ap (λ (t : FlushTracker). t.byte_threshold) same in
    after_write now written t t' ws fits early
      (subst (λ t. IsWaiting t ws t') same (writes-IsWaiting rest (omega arith) (omega arith)))
