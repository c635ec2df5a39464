-- ===== src/Cast/Mdns/Table.antt =====
-- src/cast/mdns.rs: the query, the table of devices and the loop `run_with_dest`. The `HashMap` is an
-- association list, whose order stands for the iteration order that Rust leaves open.
pub mod Keys
pub mod Lifetime
pub mod View
use cast_app.Common.{
  ℕ, ◌+◌, ◌*◌, ◌/◌, ◌%◌, ◌^◌, Option, none, some, Bool, true, false, not, ◌&&◌, ◌||◌, List, [], ◌∷◌,
  ◌++◌, length, ltb, leb, ◌==◌, if◌then◌else◌, case_option,
}
use cast_app.Common.Text.{Text, codes, text_eq, decimal}
use cast_app.Common.Net.{Ipv4Addr, ip_eq, ip_text}
use cast_app.Cast.Connection.{CastDevice, SocketAddr}
use cast_app.Cast.Tofu.{receiver_key}
use cast_app.Cast.Mdns.{DnsError, Read, ok, err, panicked, stuck, googlecast_service, type_ptr}
use cast_app.Cast.Mdns.Correlate.{DiscoveredDevice, parse_packet}

-- `MISSED_CYCLES_TO_EXPIRE`.
abbrev pub missed_cycles_to_expire : ℕ
missed_cycles_to_expire = 3

-- `to_be_bytes` of a `u16`.
abbrev pub be16 : ℕ → List ℕ
be16 n = (n / 2 ^ 8 % 256) ∷ (n % 256) ∷ []

-- `split('.')`, each label with its length in front; a label stands in `label` until its end.
unfoldable pub push_labels : Text → Text → List ℕ
push_labels label [] = length label ∷ label
push_labels label (b ∷ s) =
    let next = length label ∷ label ++ push_labels [] s in
    let same = push_labels (label ++ (b ∷ [])) s in if b == b'.' then next else same

unfoldable pub name_bytes : Text → List ℕ
unfolding push_labels
name_bytes name = push_labels [] name ++ (0 ∷ [])

unfoldable pub build_ptr_query : List ℕ
unfolding name_bytes
build_ptr_query =
    (0 ∷ 0 ∷ [])
    ++ ((0 ∷ 0 ∷ [])
        ++ (be16 1
            ++ ((0 ∷ 0 ∷ 0 ∷ 0 ∷ 0 ∷ 0 ∷ [])
                ++ (name_bytes googlecast_service ++ (be16 type_ptr ++ be16 1)))))

pub record DeviceEntry : Type 0 where
  pub name : Text
  pub device_id : Option Text
  pub missed_cycles : ℕ

pub record Key : Type 0 where
  pub ip : Ipv4Addr
  pub port : ℕ

abbrev pub Devices : Type 0
Devices = List (Key × DeviceEntry)

unfoldable pub key_eq : Key → Key → Bool
key_eq k j = ip_eq k.ip j.ip && k.port == j.port

abbrev pub id_eq : Option Text → Option Text → Bool
id_eq none none = true
id_eq none (some t) = false
id_eq (some s) none = false
id_eq (some s) (some t) = text_eq s t

abbrev pub key_of : DiscoveredDevice → Key
key_of device = record { ip = device.ip; port = device.port }

-- `Some(entry)`: whether it changed, and the entry.
unfoldable pub refresh : DiscoveredDevice → DeviceEntry → Bool × DeviceEntry
unfolding text_eq
refresh device entry =
    if not (text_eq entry.name device.name) || not (id_eq entry.device_id device.device_id)
    then (true, record { name = device.name; device_id = device.device_id; missed_cycles = 0 })
    else (false, record entry { missed_cycles = 0 })

abbrev pub fresh_entry : DiscoveredDevice → DeviceEntry
fresh_entry device = record { name = device.name; device_id = device.device_id; missed_cycles = 0 }

unfoldable pub upsert_device : Devices → DiscoveredDevice → Bool × Devices
unfolding key_eq refresh
upsert_device [] device = (true, (key_of device, fresh_entry device) ∷ [])
upsert_device ((k, entry) ∷ devices) device =
    let (changed, rest) = upsert_device devices device in
    if key_eq k (key_of device)
    then ((refresh device entry).0, (k, (refresh device entry).1) ∷ devices)
    else (changed, (k, entry) ∷ rest)

-- The closure of `retain`: whether an entry was removed, and those that are kept.
unfoldable pub age_devices : Devices → Bool × Devices
age_devices [] = (false, [])
age_devices ((k, entry) ∷ devices) =
    let (changed, rest) = age_devices devices in
    let missed = entry.missed_cycles + 1 in
    if leb missed_cycles_to_expire missed
    then (true, rest)
    else (changed, (k, record entry { missed_cycles = missed }) ∷ rest)

-- `format!("{ip}:{port}")`.
unfoldable pub id_text : Key → Text
unfolding ip_text decimal
id_text k = ip_text k.ip ++ (codes ":" ++ decimal k.port)

abbrev pub cast_device : Key × DeviceEntry → CastDevice
cast_device (k, entry) = record {
  id = id_text k;
  name = entry.name;
  addr = record { ip = ip_text k.ip; port = k.port };
  tofu_key = receiver_key entry.device_id entry.name k.ip;
}

-- `String::cmp`, for `sort_by`, which is stable.
unfoldable pub text_le : Text → Text → Bool
text_le [] t = true
text_le (a ∷ s) [] = false
text_le (a ∷ s) (b ∷ t) = let rest = text_le s t in if a == b then rest else ltb a b

unfoldable pub insert_sorted : CastDevice → List CastDevice → List CastDevice
unfolding text_le
insert_sorted d [] = d ∷ []
insert_sorted d (e ∷ ds) =
    let rest = insert_sorted d ds in if text_le d.id e.id then d ∷ e ∷ ds else e ∷ rest

unfoldable pub sort_devices : List CastDevice → List CastDevice
unfolding insert_sorted
sort_devices [] = []
sort_devices (d ∷ ds) = insert_sorted d (sort_devices ds)

abbrev pub receivers : Devices → List CastDevice
receivers [] = []
receivers (d ∷ ds) = cast_device d ∷ receivers ds

-- What the loop sends, the newest first: a query, with whether it went out, and a snapshot.
pub data Effect : Type 0 where
  query : List ℕ → Effect
  receivers_updated : List CastDevice → Effect

pub record Discovery : Type 0 where
  pub devices : Devices
  pub log : List Effect

unfoldable pub push_snapshot : Discovery → Discovery
unfolding id_text receiver_key sort_devices
push_snapshot s = record s { log = receivers_updated (sort_devices (receivers s.devices)) ∷ s.log }

unfoldable pub send_query : Discovery → Discovery
unfolding build_ptr_query
send_query s = record s { log = query build_ptr_query ∷ s.log }

-- After `retain` or the refreshing of all devices of a packet.
abbrev pub with_devices : Bool × Devices → Discovery → Discovery
with_devices (true, devices) s = push_snapshot (record s { devices = devices })
with_devices (false, devices) s = record s { devices = devices }

abbrev pub expire_devices : Devices → Discovery → Discovery
expire_devices [] s = s
expire_devices (d ∷ ds) s = with_devices (age_devices (d ∷ ds)) s

unfoldable pub expire_cycle : Discovery → Discovery
unfolding age_devices push_snapshot
expire_cycle s = expire_devices s.devices s

-- `for device in found`.
unfoldable pub upsert_all : Devices → List DiscoveredDevice → Bool × Devices
unfolding upsert_device
upsert_all devices [] = (false, devices)
upsert_all devices (device ∷ found) =
    let (changed, devices) = upsert_device devices device in
    let (more, devices) = upsert_all devices found in (changed || more, devices)

-- The branch of `select!` that is taken. `shutdown_seen` has the flag, and whether the sender is gone.
pub data Wake : Type 0 where
  shutdown_changed : Bool → Wake
  interval_tick : Wake
  rescan_changed : Bool → Wake
  received : List ℕ → Wake
  receive_failed : Wake

pub data Outcome : Type 0 where
  running : Discovery → Outcome
  stopped : Discovery → Outcome
  crashed : Outcome

-- `match parse_packet`.
abbrev pub on_packet : Read (List DiscoveredDevice) → Discovery → Outcome
on_packet (ok found pos) s = running (with_devices (upsert_all s.devices found) s)
on_packet (err e) s = running s
on_packet panicked s = crashed
on_packet stuck s = crashed

unfoldable pub step : Wake → Discovery → Outcome
unfolding expire_cycle send_query upsert_all push_snapshot parse_packet
step (shutdown_changed over) s = if over then stopped s else running s
step interval_tick s = running (expire_cycle (send_query s))
step (rescan_changed gone) s = if gone then stopped s else running (send_query s)
step (received packet) s = on_packet (parse_packet packet) s
step receive_failed s = running s

abbrev pub initial : Discovery
initial = record { devices = []; log = [] }

-- The branches that the loop takes, one after the other.
abbrev pub after_step : Outcome → (Discovery → Outcome) → Outcome
after_step (running s) rest = rest s
after_step (stopped s) rest = stopped s
after_step crashed rest = crashed

unfoldable pub run : List Wake → Discovery → Outcome
unfolding step
run [] s = running s
run (w ∷ ws) s = after_step (step w s) (run ws)
