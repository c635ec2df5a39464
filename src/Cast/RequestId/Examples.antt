-- ===== src/Cast/RequestId/Examples.antt =====
-- Runs of src/cast/request_id.rs, and its theorems at concrete inputs.
use cast_app.Common.{◌≡◌, refl, false, [], ◌∷◌, ◌==◌, if◌then◌else◌, arith}
use cast_app.Cast.RequestId.{
  u32_max, PendingMap, allocated, allocate, resolve, expire, is_pending, contains_key, len,
}
use cast_app.Cast.RequestId.Map.{
  IsUnique, sent_time, elem, unexpired, overdue, expire_lem, resolve_lem,
}
use cast_app.Cast.RequestId.Allocate.{IsFresh, allocate-IsFresh}

-- `u32::MAX` is pending since 0, and 1 since 3000.
abbrev busy : PendingMap
busy = record { pending = (u32_max, 0) ∷ (1, 3000) ∷ []; timeout = 5000 }

busy-IsUnique : IsUnique busy.pending
unfolding contains_key
busy-IsUnique = (refl, (refl, tt))

wrap_skips_pending : allocate (record { next = u32_max }) busy ≡ allocated 2 (record { next = 3 })
unfolding allocate len
wrap_skips_pending = refl

expires_per_entry :
    expire busy 6000 ≡ (record { pending = (1, 3000) ∷ []; timeout = 5000 }, u32_max ∷ [])
unfolding expire
expires_per_entry = refl

-- The derived `Default` starts at 0, which `new` does not.
default_hands_out_zero : allocate (record { next = 0 }) busy ≡ allocated 0 (record { next = 1 })
unfolding allocate len
default_hands_out_zero = refl

allocate-IsFresh_example : IsFresh busy (allocate (record { next = u32_max }) busy)
allocate-IsFresh_example =
    allocate-IsFresh (record { next = u32_max }) busy (omega arith) busy-IsUnique
      (unfold len in omega arith)

expire_lem_example :
    (sent_time 1 (expire busy 6000).0.pending ≡ unexpired 6000 5000 (sent_time 1 busy.pending))
    × (elem 1 (expire busy 6000).1 ≡ overdue 6000 5000 (sent_time 1 busy.pending))
expire_lem_example = expire_lem busy 6000 1 busy-IsUnique

resolve_lem_example :
    ((resolve busy 1).1 ≡ is_pending busy 1)
    × (is_pending (resolve busy 1).0 1 ≡ (if 1 == 1 then false else is_pending busy 1))
resolve_lem_example = resolve_lem busy 1 1 busy-IsUnique
