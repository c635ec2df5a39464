-- ===== src/Cast/Mdns/Table/View.antt =====
-- What the GUI shows of the table.
use cast_app.Common.{
  ◌≡◌, refl, sym, ◌≢◌, ap, ◌∙◌, Bool, true, false, ◌||◌, List, [], ◌∷◌, leb, ◌+◌, arith, Bool-cases,
  inl, inr,
}
use cast_app.Cast.Connection.{CastDevice}
use cast_app.Cast.Mdns.{Read, ok, err, panicked, stuck}
use cast_app.Cast.Mdns.Correlate.{DiscoveredDevice, parse_packet}
use cast_app.Cast.Mdns.Total.{parse_packet-ne-panicked}
use cast_app.Cast.Mdns.Table.{
  missed_cycles_to_expire, DeviceEntry, Key, Devices, key_eq, key_of, refresh, upsert_device,
  age_devices, upsert_all, cast_device, receivers, sort_devices, Effect, query, receivers_updated,
  Discovery, push_snapshot, send_query, with_devices, expire_devices, expire_cycle, Wake,
  shutdown_changed, interval_tick, rescan_changed, received, receive_failed, Outcome, running,
  stopped, crashed, on_packet, step, after_step, run, initial,
}

-- The list of the last snapshot, none before the first.
abbrev pub shown : List Effect → List CastDevice
shown [] = []
shown (receivers_updated ds ∷ log) = ds
shown (query bytes ∷ log) = shown log

-- What the GUI shows is the table, sorted.
abbrev pub IsCurrent : Discovery → Type 0
IsCurrent s = shown s.log ≡ sort_devices (receivers s.devices)

refresh_unchanged :
    (k : Key) (device : DiscoveredDevice) (entry : DeviceEntry)
    → (refresh device entry).0 ≡ false
    → cast_device (k, (refresh device entry).1) ≡ cast_device (k, entry)
unfolding refresh
refresh_unchanged k device entry h = ground arith

upsert_unchanged :
    (devices : Devices) (device : DiscoveredDevice)
    → (upsert_device devices device).0 ≡ false
    → receivers (upsert_device devices device).1 ≡ receivers devices
unfolding upsert_device
upsert_unchanged [] device h = absurd (cc)
upsert_unchanged ((k, entry) ∷ devices) device h = elim (Bool-cases (key_eq k (key_of device))) [
  | inl same ↦
      rw same (ap (λ d. d ∷ receivers devices) (refresh_unchanged k device entry (rw same at h)))
  | inr other ↦
      rw other
        (ap (λ ds. cast_device (k, entry) ∷ ds) (upsert_unchanged devices device (rw other at h)))
]

true-ne-false {ℓ} : {A : Type ℓ} → true ≡ false → A
true-ne-false h = absurd (cc)

age_unchanged :
    (devices : Devices)
    → (age_devices devices).0 ≡ false
    → receivers (age_devices devices).1 ≡ receivers devices
unfolding age_devices
age_unchanged [] h = refl
age_unchanged ((k, entry) ∷ devices) h =
    elim (Bool-cases (leb missed_cycles_to_expire (entry.missed_cycles + 1))) [
      | inl old ↦ true-ne-false (rw old at h)
      | inr young ↦
          rw young (ap (λ ds. cast_device (k, entry) ∷ ds) (age_unchanged devices (rw young at h)))
    ]

or_false : (a b : Bool) → (a || b) ≡ false → (a ≡ false) × (b ≡ false)
or_false true b h = absurd (cc)
or_false false b h = (refl, h)

upsert_all_unchanged :
    (devices : Devices) (found : List DiscoveredDevice)
    → (upsert_all devices found).0 ≡ false
    → receivers (upsert_all devices found).1 ≡ receivers devices
unfolding upsert_all
upsert_all_unchanged devices [] h = refl
upsert_all_unchanged devices (device ∷ found) h =
    let (first, rest) = or_false (upsert_device devices device).0 _ h in
    upsert_all_unchanged (upsert_device devices device).1 found rest
    ∙ upsert_unchanged devices device first

with_devices-IsCurrent :
    (r : Bool × Devices) (s : Discovery)
    → (r.0 ≡ false → receivers r.1 ≡ receivers s.devices)
    → IsCurrent s
    → IsCurrent (with_devices r s)
unfolding push_snapshot
with_devices-IsCurrent (true, devices) s unchanged current = refl
with_devices-IsCurrent (false, devices) s unchanged current =
    current ∙ ap sort_devices (sym (unchanged refl))

expire_devices-IsCurrent :
    (devices : Devices) (s : Discovery)
    → s.devices ≡ devices
    → IsCurrent s
    → IsCurrent (expire_devices devices s)
expire_devices-IsCurrent [] s e current = current
expire_devices-IsCurrent (d ∷ ds) s e current =
    with_devices-IsCurrent (age_devices (d ∷ ds)) s
      (λ h. age_unchanged (d ∷ ds) h ∙ ap receivers (sym e)) current

-- The loop has not panicked, and the GUI shows its table.
abbrev pub IsShown : Outcome → Type 0
IsShown (running s) = IsCurrent s
IsShown (stopped s) = IsCurrent s
IsShown crashed = ⊥

on_packet-IsShown :
    (r : Read (List DiscoveredDevice)) (s : Discovery)
    → (r ≢ panicked) × (r ≢ stuck)
    → IsCurrent s
    → IsShown (on_packet r s)
on_packet-IsShown (ok found pos) s ends current =
    with_devices-IsCurrent (upsert_all s.devices found) s (upsert_all_unchanged s.devices found)
      current
on_packet-IsShown (err e) s ends current = current
on_packet-IsShown panicked s ends current = absurd (ends.0 refl)
on_packet-IsShown stuck s ends current = absurd (ends.1 refl)

step-IsShown : (w : Wake) (s : Discovery) → IsCurrent s → IsShown (step w s)
unfolding step send_query expire_cycle
step-IsShown (shutdown_changed true) s current = current
step-IsShown (shutdown_changed false) s current = current
step-IsShown interval_tick s current =
    expire_devices-IsCurrent s.devices (send_query s) refl current
step-IsShown (rescan_changed true) s current = current
step-IsShown (rescan_changed false) s current = current
step-IsShown (received packet) s current =
    on_packet-IsShown (parse_packet packet) s (parse_packet-ne-panicked packet) current
step-IsShown receive_failed s current = current

run_from-IsShown : (ws : List Wake) (s : Discovery) → IsCurrent s → IsShown (run ws s)
unfolding run
run_from-IsShown [] s current = current
run_from-IsShown (w ∷ ws) s current =
    onward (step w s) (step-IsShown w s current) (run_from-IsShown ws)
  where
    onward :
        (o : Outcome)
        → IsShown o
        → ((s' : Discovery) → IsCurrent s' → IsShown (run ws s'))
        → IsShown (after_step o (run ws))
    onward (running s') h ih = ih s' h
    onward (stopped s') h ih = h
    onward crashed h ih = absurd h

-- Whatever arrives and in whatever order the branches are taken, the discovery loop does not panic, and
-- the last snapshot that it sent, or the empty list before the first, is the list of all devices in its
-- table, sorted by ID.
pub run-IsShown : (ws : List Wake) → IsShown (run ws initial)
run-IsShown ws = run_from-IsShown ws initial (unfold sort_devices in refl)
