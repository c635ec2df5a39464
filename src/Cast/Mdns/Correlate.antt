-- ===== src/Cast/Mdns/Correlate.antt =====
-- src/cast/mdns.rs: the devices that the records of one response describe. A `HashMap` is the list of
-- its insertions, the last one first, of which the first with a key counts.
use cast_app.Common.{ℕ, Option, none, some, List, [], ◌∷◌, ◌++◌, ◌==◌, if◌then◌else◌, case_option}
use cast_app.Common.Text.{Text, codes, text_eq, to_ascii_lowercase, eq_ignore_ascii_case}
use cast_app.Common.Net.{Ipv4Addr}
use cast_app.Common.Utf8.{from_utf8_lossy}
use cast_app.Cast.Mdns.{
  RecordData, ptr, srv, txt, a, other, DnsRecord, Read, and_then, return, googlecast_service,
  read_packet,
}
use mathlib.Core.Option

pub record DiscoveredDevice : Type 0 where
  pub ip : Ipv4Addr
  pub port : ℕ
  pub name : Text
  pub device_id : Option Text

-- `split('.').next()`.
unfoldable pub instance_label : Text → Text
instance_label [] = []
instance_label (b ∷ s) = let rest = instance_label s in if b == b'.' then [] else b ∷ rest

-- The entry up to the first `=`, and behind it.
unfoldable pub split_equals : List ℕ → Option (List ℕ × List ℕ)
split_equals [] = none
split_equals (b ∷ s) =
    let rest = Option.map (λ (key, value). (b ∷ key, value)) (split_equals s) in
    if b == b'=' then some ([], s) else rest

-- The loop of `friendly_name_from_txt` and `id_from_txt`: the value of the first entry with the key.
unfoldable pub find_value : Text → List (List ℕ) → Option Text
unfolding split_equals eq_ignore_ascii_case
find_value key [] = none
find_value key (entry ∷ strings) =
    let rest = find_value key strings in
    case_option (split_equals entry) rest (λ (name, value).
      if eq_ignore_ascii_case name key then some (from_utf8_lossy value) else rest)

abbrev pub of_txt : (List (List ℕ) → Option Text) → RecordData → Option Text
of_txt f (txt strings) = f strings
of_txt f _ = none

unfoldable pub friendly_name_from_txt : DnsRecord → Option Text
unfolding find_value
friendly_name_from_txt r = of_txt (find_value (codes "fn")) r.rdata

unfoldable pub id_from_txt : DnsRecord → Option Text
unfolding find_value
id_from_txt r = of_txt (find_value (codes "id")) r.rdata

abbrev pub RecordMap : Type 0
RecordMap = List (Text × DnsRecord)

unfoldable pub get : Text → RecordMap → Option DnsRecord
get k [] = none
get k ((j, r) ∷ m) = let rest = get k m in if text_eq j k then some r else rest

-- The variables of `correlate`.
pub record Sorted : Type 0 where
  pub instances : List Text
  pub srv_by_instance : RecordMap
  pub txt_by_instance : RecordMap
  pub a_by_host : RecordMap

abbrev pub sort_rdata : RecordData → DnsRecord → Sorted → Sorted
sort_rdata (ptr target) r s =
    if eq_ignore_ascii_case r.owner googlecast_service
    then record s { instances = s.instances ++ (target ∷ []) }
    else s
sort_rdata (srv priority weight port target) r s = record s {
  srv_by_instance = (to_ascii_lowercase r.owner, r) ∷ s.srv_by_instance;
}
sort_rdata (txt strings) r s = record s {
  txt_by_instance = (to_ascii_lowercase r.owner, r) ∷ s.txt_by_instance;
}
sort_rdata (a ip) r s = record s { a_by_host = (to_ascii_lowercase r.owner, r) ∷ s.a_by_host }
sort_rdata other r s = s

-- The first loop of `correlate`.
unfoldable pub sort_records : List DnsRecord → Sorted → Sorted
unfolding eq_ignore_ascii_case to_ascii_lowercase
sort_records [] s = s
sort_records (r ∷ rs) s = sort_records rs (sort_rdata r.rdata r s)

abbrev pub or_else : Option DnsRecord → Option DnsRecord → Option DnsRecord
or_else (some r) s = some r
or_else none s = s

abbrev pub unwrap_or : Option Text → Text → Text
unwrap_or (some s) t = s
unwrap_or none t = t

abbrev pub of_srv : RecordData → Option (ℕ × Text)
of_srv (srv priority weight port target) = some (port, target)
of_srv _ = none

abbrev pub of_a : RecordData → Option Ipv4Addr
of_a (a ip) = some ip
of_a _ = none

abbrev pub bind {ℓ κ} : {A : Type ℓ} {B : Type κ} → Option A → (A → Option B) → Option B
bind m f = case_option m none f

-- A round of the second loop; `none` is `continue`.
unfoldable pub device_of : Sorted → Text → Option DiscoveredDevice
unfolding get to_ascii_lowercase friendly_name_from_txt id_from_txt instance_label
device_of s instance_name =
    let instance_key = to_ascii_lowercase instance_name in
    bind (get instance_key s.srv_by_instance) (λ service.
      bind (of_srv service.rdata) (λ (port, target).
        bind (or_else (get (to_ascii_lowercase target) s.a_by_host) (get instance_key s.a_by_host))
          (λ address. bind (of_a address.rdata) (λ ip. some (record {
            ip = ip;
            port = port;
            name =
                unwrap_or (bind (get instance_key s.txt_by_instance) friendly_name_from_txt)
                  (instance_label instance_name);
            device_id = bind (get instance_key s.txt_by_instance) id_from_txt;
          })))))

unfoldable pub devices_of : Sorted → List Text → List DiscoveredDevice
unfolding device_of
devices_of s [] = []
devices_of s (instance_name ∷ names) =
    case_option (device_of s instance_name) (devices_of s names)
      (λ device. device ∷ devices_of s names)

unfoldable pub correlate : List DnsRecord → List DiscoveredDevice
unfolding sort_records devices_of
correlate records =
    let s =
      sort_records records
        (record { instances = []; srv_by_instance = []; txt_by_instance = []; a_by_host = [] }) in
    devices_of s s.instances

unfoldable pub parse_packet : List ℕ → Read (List DiscoveredDevice)
unfolding read_packet correlate
parse_packet packet = and_then (read_packet packet 0) (λ records. return (correlate records))
