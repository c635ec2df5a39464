-- ===== src/Cast/Mdns/Table/Keys.antt =====
-- The table of devices as a map: what a refreshing and a cycle do to one key.
use cast_app.Common.{
  ◌+◌, ◌≡◌, refl, ap, ◌∙◌, ◌↔◌, Option, none, some, Bool, true, false, List, [], ◌∷◌, ◌++◌, leb,
  if◌then◌else◌, arith, Bool-cases, inl, inr,
}
use cast_app.Common.Text.{Text, text_eq_sound}
use cast_app.Cast.Mdns.Correlate.{DiscoveredDevice}
use cast_app.Cast.Mdns.Table.{
  missed_cycles_to_expire, id_eq, DeviceEntry, Key, Devices, key_eq, key_of, refresh, fresh_entry,
  upsert_device, age_devices, upsert_all,
}

key_eq_iff : (k j : Key) → (key_eq k j ≡ true) ↔ (k ≡ j)
unfolding key_eq
key_eq_iff k j = ground arith

key_eq_refl : (k : Key) → key_eq k k ≡ true
key_eq_refl k = (key_eq_iff k k).1 refl

pub get : Key → Devices → Option DeviceEntry
get k [] = none
get k ((j, entry) ∷ devices) = if key_eq j k then some entry else get k devices

-- No key stands twice.
abbrev pub IsUnique : Devices → Type 0
IsUnique [] = Unit {0}
IsUnique ((k, entry) ∷ devices) = (get k devices ≡ none) × IsUnique devices

abbrev pub refreshed : DiscoveredDevice → Option DeviceEntry → DeviceEntry
refreshed device none = fresh_entry device
refreshed device (some entry) = (refresh device entry).1

pub get-upsert_device :
    (k : Key) (devices : Devices) (device : DiscoveredDevice)
    → get k (upsert_device devices device).1 ≡ (
        if key_eq (key_of device) k
        then some (refreshed device (get (key_of device) devices))
        else get k devices)
unfolding get upsert_device
get-upsert_device k [] device = refl
get-upsert_device k ((j, entry) ∷ devices) device = ground (
  arith,
  key_eq_iff j k,
  key_eq_iff j (key_of device),
  key_eq_iff (key_of device) k,
  get-upsert_device k devices device,
)

abbrev pub aged : Option DeviceEntry → Option DeviceEntry
aged none = none
aged (some entry) =
    if leb missed_cycles_to_expire (entry.missed_cycles + 1)
    then none
    else some (record entry { missed_cycles = entry.missed_cycles + 1 })

pub get-age_devices :
    (k : Key) (devices : Devices)
    → IsUnique devices
    → get k (age_devices devices).1 ≡ aged (get k devices)
unfolding get age_devices
get-age_devices k [] unique = refl
get-age_devices k ((j, entry) ∷ devices) (absent, unique) =
    ground (arith, key_eq_iff j k, get-age_devices k devices unique, absent)

pub upsert_device-IsUnique :
    (devices : Devices) (device : DiscoveredDevice)
    → IsUnique devices
    → IsUnique (upsert_device devices device).1
unfolding get upsert_device
upsert_device-IsUnique [] device unique = (refl, tt)
upsert_device-IsUnique ((j, entry) ∷ devices) device (absent, unique) =
    elim (Bool-cases (key_eq j (key_of device))) [
      | inl same ↦ rw same (absent, unique)
      | inr other ↦ rw other (
        other_key other (get-upsert_device j devices device),
        upsert_device-IsUnique devices device unique,
      )
    ]
  where
    other_key :
        key_eq j (key_of device) ≡ false
        → get j (upsert_device devices device).1 ≡ (
            if key_eq (key_of device) j
            then some (refreshed device (get (key_of device) devices))
            else get j devices)
        → get j (upsert_device devices device).1 ≡ none
    other_key other e = ground (arith, key_eq_iff j (key_of device), key_eq_iff (key_of device) j)

pub age_devices-IsUnique : (devices : Devices) → IsUnique devices → IsUnique (age_devices devices).1
unfolding age_devices
age_devices-IsUnique [] unique = tt
age_devices-IsUnique ((j, entry) ∷ devices) (absent, unique) =
    elim (Bool-cases (leb missed_cycles_to_expire (entry.missed_cycles + 1))) [
      | inl old ↦ rw old (age_devices-IsUnique devices unique)
      | inr young ↦
          rw young
            (get-age_devices j devices unique ∙ ap aged absent, age_devices-IsUnique devices unique)
    ]

id_eq_sound : (s t : Option Text) → id_eq s t ≡ true → s ≡ t
id_eq_sound none none h = refl
id_eq_sound none (some t) h = cc
id_eq_sound (some s) none h = cc
id_eq_sound (some s) (some t) h = ap (λ (u : Text). some u) (text_eq_sound s t h)

-- An entry that did not change has what the device announces.
pub refreshed-fresh_entry :
    (device : DiscoveredDevice) (old : Option DeviceEntry)
    → refreshed device old ≡ fresh_entry device
unfolding refresh
refreshed-fresh_entry device none = refl
refreshed-fresh_entry device (some entry) =
    ground
      (arith, text_eq_sound entry.name device.name, id_eq_sound entry.device_id device.device_id)

-- No device of the list has the key.
abbrev pub IsMissing : Key → List DiscoveredDevice → Type 0
IsMissing k [] = Unit {0}
IsMissing k (device ∷ found) = (key_eq (key_of device) k ≡ false) × IsMissing k found

pub upsert_all-IsUnique :
    (devices : Devices) (found : List DiscoveredDevice)
    → IsUnique devices
    → IsUnique (upsert_all devices found).1
unfolding upsert_all
upsert_all-IsUnique devices [] unique = unique
upsert_all-IsUnique devices (device ∷ found) unique =
    upsert_all-IsUnique (upsert_device devices device).1 found
      (upsert_device-IsUnique devices device unique)

pub get-upsert_all_missing :
    (k : Key) (devices : Devices) (found : List DiscoveredDevice)
    → IsMissing k found
    → get k (upsert_all devices found).1 ≡ get k devices
unfolding upsert_all
get-upsert_all_missing k devices [] missing = refl
get-upsert_all_missing k devices (device ∷ found) (other, missing) =
    get-upsert_all_missing k (upsert_device devices device).1 found missing
    ∙ get-upsert_device k devices device
    ∙ ap
        (λ (b : Bool).
          if b then some (refreshed device (get (key_of device) devices)) else get k devices)
        other

-- The last announcement of a key counts.
pub get-upsert_all :
    (devices : Devices) (before after : List DiscoveredDevice) (device : DiscoveredDevice)
    → IsMissing (key_of device) after
    → get (key_of device) (upsert_all devices (before ++ (device ∷ after))).1
      ≡ some (fresh_entry device)
unfolding upsert_all
get-upsert_all devices [] after device missing =
    get-upsert_all_missing (key_of device) (upsert_device devices device).1 after missing
    ∙ get-upsert_device (key_of device) devices device
    ∙ rw (key_eq_refl (key_of device), refreshed-fresh_entry device (get (key_of device) devices))
get-upsert_all devices (first ∷ before) after device missing =
    get-upsert_all (upsert_device devices first).1 before after device missing
