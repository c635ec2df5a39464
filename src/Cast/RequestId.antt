-- ===== src/Cast/RequestId.antt =====
-- src/cast/request_id.rs: the allocator of request IDs and the map of outstanding requests. An
-- `Instant` and a `Duration` are numbers of nanoseconds; the `HashMap` is an association list,
-- whose order stands for the iteration order that Rust leaves open.
pub mod Map
pub mod Allocate
mod Examples
use cast_app.Common.{
  ℕ, zero, suc, ◌+◌, ◌-◌, ◌*◌, ◌^◌, Bool, true, false, not, List, [], ◌∷◌, length, ltb, leb, ◌==◌,
  if◌then◌else◌,
}

abbrev pub u32_max : ℕ
u32_max = 2 ^ 32 - 1

-- `DEFAULT_REQUEST_TIMEOUT`.
abbrev pub default_request_timeout : ℕ
default_request_timeout = 5 * 1000000000

pub record RequestId : Type 0 where
  pub next : ℕ

unfoldable pub new : RequestId
new = record { next = 1 }

-- `HashMap<u32, Instant>`.
abbrev pub Entries : Type 0
Entries = List (ℕ × ℕ)

pub record PendingMap : Type 0 where
  pub pending : Entries
  pub timeout : ℕ

unfoldable pub new_map : ℕ → PendingMap
new_map timeout = record { pending = []; timeout = timeout }

unfoldable pub with_default_timeout : PendingMap
unfolding new_map
with_default_timeout = new_map default_request_timeout

unfoldable pub contains_key : ℕ → Entries → Bool
contains_key id [] = false
contains_key id ((k, sent_at) ∷ es) = if k == id then true else contains_key id es

unfoldable pub without : ℕ → Entries → Entries
without id [] = []
without id ((k, sent_at) ∷ es) = if k == id then es else (k, sent_at) ∷ without id es

unfoldable pub is_pending : PendingMap → ℕ → Bool
unfolding contains_key
is_pending m id = contains_key id m.pending

unfoldable pub insert : PendingMap → ℕ → ℕ → PendingMap × Bool
unfolding contains_key
insert m id sent_at =
    if contains_key id m.pending
    then (m, false)
    else (record m { pending = (id, sent_at) ∷ m.pending }, true)

unfoldable pub resolve : PendingMap → ℕ → PendingMap × Bool
unfolding contains_key without
resolve m id = (record m { pending = without id m.pending }, contains_key id m.pending)

-- `retain`, with the IDs that its closure pushes.
unfoldable pub retain : ℕ → ℕ → Entries → Entries × List ℕ
retain now timeout [] = ([], [])
retain now timeout ((id, sent_at) ∷ es) =
    let (kept, expired) = retain now timeout es in
    if leb (sent_at + timeout) now then (kept, id ∷ expired) else ((id, sent_at) ∷ kept, expired)

unfoldable pub expire : PendingMap → ℕ → PendingMap × List ℕ
unfolding retain
expire m now =
    let (kept, expired) = retain now m.timeout m.pending in (record m { pending = kept }, expired)

unfoldable pub len : PendingMap → ℕ
len m = length m.pending

unfoldable pub is_empty : PendingMap → Bool
is_empty m = length m.pending == 0

-- `if self.next == u32::MAX { 1 } else { self.next + 1 }`.
unfoldable pub advance : ℕ → ℕ
advance next = if next == u32_max then 1 else next + 1

-- `exhausted` is the panic; `out_of_fuel` is no Rust value.
pub data Allocated : Type 0 where
  allocated : ℕ → RequestId → Allocated
  exhausted : Allocated
  out_of_fuel : Allocated

-- The loop of `allocate`.
unfoldable pub allocate_loop : ℕ → ℕ → ℕ → PendingMap → Allocated
allocate_loop zero start next m = out_of_fuel
allocate_loop (suc fuel) start next m =
    let more = allocate_loop fuel start (advance next) m in
    if not (is_pending m next)
    then allocated next (record { next = advance next })
    else if advance next == start
    then exhausted
    else more

-- Each round meets another pending ID, so there are no more rounds than entries, and one.
unfoldable pub allocate : RequestId → PendingMap → Allocated
unfolding allocate_loop is_pending advance
allocate ids m = allocate_loop (suc (len m)) ids.next ids.next m
