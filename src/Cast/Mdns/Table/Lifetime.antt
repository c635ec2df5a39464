-- ===== src/Cast/Mdns/Table/Lifetime.antt =====
-- How long a device stays in the table.
use cast_app.Common.{
  ℕ, zero, suc, ◌+◌, ◌<◌, ◌≡◌, refl, sym, ap, ◌∙◌, Option, none, some, Bool, true, false, List, [],
  ◌∷◌, ◌++◌, ltb, if◌then◌else◌, arith, All,
}
use mathlib.Core.Path.{subst}
use cast_app.Cast.Mdns.{Read, ok, err, panicked, stuck}
use cast_app.Cast.Mdns.Correlate.{DiscoveredDevice, parse_packet}
use cast_app.Cast.Mdns.Table.{
  missed_cycles_to_expire, DeviceEntry, Key, Devices, key_of, fresh_entry, age_devices, upsert_all,
  Discovery, push_snapshot, send_query, with_devices, expire_devices, expire_cycle, Wake,
  shutdown_changed, interval_tick, rescan_changed, received, receive_failed, Outcome, running,
  stopped, crashed, on_packet, step, after_step, run, initial,
}
use cast_app.Cast.Mdns.Table.Keys.{
  get, IsUnique, aged, get-age_devices, age_devices-IsUnique, IsMissing, upsert_all-IsUnique,
  get-upsert_all_missing, get-upsert_all,
}

with_devices-devices : (r : Bool × Devices) (s : Discovery) → (with_devices r s).devices ≡ r.1
unfolding push_snapshot
with_devices-devices (true, devices) s = refl
with_devices-devices (false, devices) s = refl

expire_devices-devices :
    (devices : Devices) (s : Discovery)
    → s.devices ≡ devices
    → (expire_devices devices s).devices ≡ (age_devices devices).1
unfolding age_devices
expire_devices-devices [] s e = e
expire_devices-devices (d ∷ ds) s e = with_devices-devices (age_devices (d ∷ ds)) s

expire_cycle-devices : (s : Discovery) → (expire_cycle s).devices ≡ (age_devices s.devices).1
unfolding expire_cycle
expire_cycle-devices s = expire_devices-devices s.devices s refl

-- The cycles among the branches.
abbrev pub ticks : List Wake → ℕ
ticks [] = 0
ticks (interval_tick ∷ ws) = suc (ticks ws)
ticks (w ∷ ws) = ticks ws

-- Nothing that is received announces the key.
abbrev pub IsSilent : Key → Wake → Type 0
IsSilent k (received packet) =
    (found : List DiscoveredDevice) (pos : ℕ)
    → parse_packet packet ≡ ok found pos
    → IsMissing k found
IsSilent k w = Unit {0}

abbrev aged_by : ℕ → Option DeviceEntry → Option DeviceEntry
aged_by zero entry = entry
aged_by (suc n) entry = aged_by n (aged entry)

aged_by-none : (n : ℕ) → aged_by n none ≡ none
aged_by-none zero = refl
aged_by-none (suc n) = aged_by-none n

aged_by-some :
    (n : ℕ) (entry : DeviceEntry)
    → entry.missed_cycles < missed_cycles_to_expire
    → aged_by n (some entry) ≡ (
        if ltb (entry.missed_cycles + n) missed_cycles_to_expire
        then some (record entry { missed_cycles = entry.missed_cycles + n })
        else none)
aged_by-some zero entry young = ground arith
aged_by-some (suc n) entry young = ground (
  arith,
  aged_by-none n,
  aged_by-some n (record entry { missed_cycles = entry.missed_cycles + 1 }),
)

-- A branch keeps the keys apart, and ages an entry that nothing announces.
abbrev Ages : Key → ℕ → Discovery → Outcome → Type 0
Ages k n s (running s') = IsUnique s'.devices × (get k s'.devices ≡ aged_by n (get k s.devices))
Ages k n s (stopped s') = Unit {0}
Ages k n s crashed = Unit {0}

on_packet-Ages :
    (k : Key) (r : Read (List DiscoveredDevice)) (s : Discovery)
    → ((found : List DiscoveredDevice) (pos : ℕ) → r ≡ ok found pos → IsMissing k found)
    → IsUnique s.devices
    → Ages k 0 s (on_packet r s)
on_packet-Ages k (ok found pos) s silent unique =
    rw (with_devices-devices (upsert_all s.devices found) s) (
      upsert_all-IsUnique s.devices found unique,
      get-upsert_all_missing k s.devices found (silent found pos refl),
    )
on_packet-Ages k (err e) s silent unique = (unique, refl)
on_packet-Ages k panicked s silent unique = tt
on_packet-Ages k stuck s silent unique = tt

if-Ages :
    (k : Key) (test : Bool) (s s' : Discovery)
    → IsUnique s.devices
    → s'.devices ≡ s.devices
    → Ages k 0 s (if test then stopped s else running s')
if-Ages k true s s' unique e = tt
if-Ages k false s s' unique e = rw e (unique, refl)

step-Ages :
    (k : Key) (w : Wake) (s : Discovery)
    → IsSilent k w
    → IsUnique s.devices
    → Ages k (ticks (w ∷ [])) s (step w s)
unfolding step send_query
step-Ages k (shutdown_changed over) s silent unique = if-Ages k over s s unique refl
step-Ages k interval_tick s silent unique =
    rw (expire_cycle-devices (send_query s))
      (age_devices-IsUnique s.devices unique, get-age_devices k s.devices unique)
step-Ages k (rescan_changed gone) s silent unique = if-Ages k gone s (send_query s) unique refl
step-Ages k (received packet) s silent unique =
    on_packet-Ages k (parse_packet packet) s silent unique
step-Ages k receive_failed s silent unique = (unique, refl)

aged_by-add :
    (m n : ℕ) (entry : Option DeviceEntry) → aged_by (m + n) entry ≡ aged_by n (aged_by m entry)
aged_by-add zero n entry = ap (λ (k : ℕ). aged_by k entry) {x = 0 + n} {y = n} (omega arith)
aged_by-add (suc m) n entry =
    ap (λ (k : ℕ). aged_by k entry) {x = suc m + n} {y = suc (m + n)} (omega arith)
    ∙ aged_by-add m n (aged entry)

ticks-cons : (w : Wake) (ws : List Wake) → ticks (w ∷ ws) ≡ ticks (w ∷ []) + ticks ws
ticks-cons (shutdown_changed over) ws = omega arith
ticks-cons interval_tick ws = omega arith
ticks-cons (rescan_changed gone) ws = omega arith
ticks-cons (received packet) ws = omega arith
ticks-cons receive_failed ws = omega arith

after_step-Ages :
    (k : Key) (m n : ℕ) (s : Discovery) (o : Outcome) (rest : Discovery → Outcome)
    → Ages k m s o
    → ((s' : Discovery) → IsUnique s'.devices → Ages k n s' (rest s'))
    → Ages k (m + n) s (after_step o rest)
after_step-Ages k m n s (running t) rest (unique, e) h = onward (rest t) (h t unique)
  where
    onward : (o : Outcome) → Ages k n t o → Ages k (m + n) s o
    onward (running u) (unique', e') =
        (unique', e' ∙ ap (aged_by n) e ∙ sym (aged_by-add m n (get k s.devices)))
    onward (stopped u) h = tt
    onward crashed h = tt
after_step-Ages k m n s (stopped t) rest a h = tt
after_step-Ages k m n s crashed rest a h = tt

run-Ages :
    (k : Key) (ws : List Wake) (s : Discovery)
    → All (IsSilent k) ws
    → IsUnique s.devices
    → Ages k (ticks ws) s (run ws s)
unfolding run
run-Ages k [] s silent unique = (unique, refl)
run-Ages k (w ∷ ws) s (first, silent) unique = rw (ticks-cons w ws) (
    after_step-Ages k (ticks (w ∷ [])) (ticks ws) s (step w s) (run ws)
      (step-Ages k w s first unique) (λ s' unique'. run-Ages k ws s' silent unique'))

-- Any branch keeps the keys apart.
abbrev StaysUnique : Outcome → Type 0
StaysUnique (running s) = IsUnique s.devices
StaysUnique (stopped s) = Unit {0}
StaysUnique crashed = Unit {0}

on_packet-StaysUnique :
    (r : Read (List DiscoveredDevice)) (s : Discovery)
    → IsUnique s.devices
    → StaysUnique (on_packet r s)
on_packet-StaysUnique (ok found pos) s unique =
    rw (with_devices-devices (upsert_all s.devices found) s)
      (upsert_all-IsUnique s.devices found unique)
on_packet-StaysUnique (err e) s unique = unique
on_packet-StaysUnique panicked s unique = tt
on_packet-StaysUnique stuck s unique = tt

step-StaysUnique : (w : Wake) (s : Discovery) → IsUnique s.devices → StaysUnique (step w s)
unfolding step send_query
step-StaysUnique (shutdown_changed true) s unique = tt
step-StaysUnique (shutdown_changed false) s unique = unique
step-StaysUnique interval_tick s unique =
    rw (expire_cycle-devices (send_query s)) (age_devices-IsUnique s.devices unique)
step-StaysUnique (rescan_changed true) s unique = tt
step-StaysUnique (rescan_changed false) s unique = unique
step-StaysUnique (received packet) s unique = on_packet-StaysUnique (parse_packet packet) s unique
step-StaysUnique receive_failed s unique = unique

run-StaysUnique : (ws : List Wake) (s : Discovery) → IsUnique s.devices → StaysUnique (run ws s)
unfolding run
run-StaysUnique [] s unique = unique
run-StaysUnique (w ∷ ws) s unique =
    onward (step w s) (step-StaysUnique w s unique) (run-StaysUnique ws)
  where
    onward :
        (o : Outcome)
        → StaysUnique o
        → ((s' : Discovery) → IsUnique s'.devices → StaysUnique (run ws s'))
        → StaysUnique (after_step o (run ws))
    onward (running s') h ih = ih s' h
    onward (stopped s') h ih = tt
    onward crashed h ih = tt

run-append : (vs ws : List Wake) (s : Discovery) → run (vs ++ ws) s ≡ after_step (run vs s) (run ws)
unfolding run
run-append [] ws s = refl
run-append (v ∷ vs) ws s = onward (step v s) (run-append vs ws)
  where
    onward :
        (o : Outcome)
        → ((s' : Discovery) → run (vs ++ ws) s' ≡ after_step (run vs s') (run ws))
        → after_step o (run (vs ++ ws)) ≡ after_step (after_step o (run vs)) (run ws)
    onward (running s') ih = ih s'
    onward (stopped s') ih = refl
    onward crashed ih = refl

lifetime_from :
    (device : DiscoveredDevice) (before after : List DiscoveredDevice) (pos : ℕ) (ws : List Wake)
    (packet : List ℕ) (o : Outcome) (s' : Discovery)
    → StaysUnique o
    → parse_packet packet ≡ ok (before ++ (device ∷ after)) pos
    → IsMissing (key_of device) after
    → All (IsSilent (key_of device)) ws
    → after_step o (run (received packet ∷ ws)) ≡ running s'
    → get (key_of device) s'.devices ≡ (
        if ltb (ticks ws) missed_cycles_to_expire
        then some (record (fresh_entry device) { missed_cycles = ticks ws })
        else none)
unfolding run step
lifetime_from device before after pos ws packet (running s) s' unique parsed missing silent e =
    let t = with_devices (upsert_all s.devices (before ++ (device ∷ after))) s in
    let at_t : t.devices ≡ (upsert_all s.devices (before ++ (device ∷ after))).1 =
      with_devices-devices (upsert_all s.devices (before ++ (device ∷ after))) s in
    let unique_t : IsUnique t.devices =
      rw at_t (upsert_all-IsUnique s.devices (before ++ (device ∷ after)) unique) in
    let ages : Ages (key_of device) (ticks ws) t (running s') =
      subst (Ages (key_of device) (ticks ws) t) (rw parsed at e)
        (run-Ages (key_of device) ws t silent unique_t) in
    ages.1
    ∙ ap (aged_by (ticks ws))
        (ap (get (key_of device)) at_t ∙ get-upsert_all s.devices before after device missing)
    ∙ aged_by-some (ticks ws) (fresh_entry device) (omega arith)
    ∙ ap
        (λ (n : ℕ).
          if ltb n missed_cycles_to_expire
          then some (record (fresh_entry device) { missed_cycles = n })
          else none)
        {x = 0 + ticks ws} {y = ticks ws} (omega arith)
lifetime_from device before after pos ws packet (stopped s) s' unique parsed missing silent e =
    absurd (cc)
lifetime_from device before after pos ws packet crashed s' unique parsed missing silent e =
    absurd (cc)

-- Whatever the loop has done before: a device that a packet announced, and that nothing announced after
-- it, is in the table as announced for two more cycles, with the cycles counted, and from the third on it
-- is not; and so whichever other devices come and go.
pub run-lifetime :
    (device : DiscoveredDevice) (before after : List DiscoveredDevice) (pos : ℕ)
    (earlier later : List Wake) (packet : List ℕ) (s : Discovery)
    → parse_packet packet ≡ ok (before ++ (device ∷ after)) pos
    → IsMissing (key_of device) after
    → All (IsSilent (key_of device)) later
    → run (earlier ++ (received packet ∷ later)) initial ≡ running s
    → get (key_of device) s.devices ≡ (
        if ltb (ticks later) missed_cycles_to_expire
        then some (record (fresh_entry device) { missed_cycles = ticks later })
        else none)
run-lifetime device before after pos earlier later packet s parsed missing silent e =
    lifetime_from device before after pos later packet (run earlier initial) s
      (run-StaysUnique earlier initial tt) parsed missing silent
      (sym (run-append earlier (received packet ∷ later) initial) ∙ e)
