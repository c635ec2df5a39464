-- ===== src/Cast/Mdns/Examples.antt =====
-- Runs of src/cast/mdns.rs, and its theorems at concrete inputs.
use cast_app.Common.{
  ℕ, ◌≡◌, ◌≢◌, refl, ◌↔◌, ◌≤◌, none, some, List, [], ◌∷◌, ◌++◌, length, if◌then◌else◌, ltb, arith,
}
use cast_app.Common.Text.{Text, codes}
use cast_app.Common.Utf8.{from_utf8_lossy}
use cast_app.Cast.Connection.{CastDevice}
use cast_app.Cast.Mdns.{
  ok, err, panicked, stuck, pointer_cycle, pointer_out_of_bounds, pointer_depth_exceeded,
  bad_label_length, max_pointer_depth, read_name, join_labels,
}
use cast_app.Cast.Mdns.Correlate.{DiscoveredDevice, parse_packet}
use cast_app.Cast.Mdns.Total.{parse_packet-ne-panicked}
use cast_app.Cast.Mdns.Names.Format.{NameAt}
use cast_app.Cast.Mdns.Names.{read_name-NameAt}
use cast_app.Cast.Mdns.Table.{
  build_ptr_query, missed_cycles_to_expire, key_of, fresh_entry, query, receivers_updated,
  Discovery, interval_tick, received, running, run, initial,
}
use cast_app.Cast.Mdns.Table.Keys.{get}
use cast_app.Cast.Mdns.Table.Lifetime.{ticks, run-lifetime}
use cast_app.Cast.Mdns.Table.View.{IsShown, run-IsShown}

-- A response with compressed names: PTR, SRV, TXT and A.
abbrev response : List ℕ
response =
    0 ∷ 0 ∷ 132 ∷ 0 ∷ 0 ∷ 0 ∷ 0 ∷ 1 ∷ 0 ∷ 0 ∷ 0 ∷ 3 ∷ 11 ∷ 95 ∷ 103 ∷ 111 ∷ 111 ∷ 103 ∷ 108 ∷ 101
    ∷ 99 ∷ 97 ∷ 115 ∷ 116 ∷ 4 ∷ 95 ∷ 116 ∷ 99 ∷ 112 ∷ 5 ∷ 108 ∷ 111 ∷ 99 ∷ 97 ∷ 108 ∷ 0 ∷ 0 ∷ 12 ∷ 0
    ∷ 1 ∷ 0 ∷ 0 ∷ 0 ∷ 120 ∷ 0 ∷ 5 ∷ 2 ∷ 116 ∷ 118 ∷ 192 ∷ 12 ∷ 192 ∷ 46 ∷ 0 ∷ 33 ∷ 0 ∷ 1 ∷ 0 ∷ 0 ∷ 0
    ∷ 120 ∷ 0 ∷ 10 ∷ 0 ∷ 0 ∷ 0 ∷ 0 ∷ 31 ∷ 73 ∷ 1 ∷ 104 ∷ 192 ∷ 29 ∷ 192 ∷ 46 ∷ 0 ∷ 16 ∷ 0 ∷ 1 ∷ 0
    ∷ 0 ∷ 0 ∷ 120 ∷ 0 ∷ 12 ∷ 5 ∷ 102 ∷ 110 ∷ 61 ∷ 84 ∷ 86 ∷ 5 ∷ 105 ∷ 100 ∷ 61 ∷ 97 ∷ 49 ∷ 192 ∷ 69
    ∷ 0 ∷ 1 ∷ 0 ∷ 1 ∷ 0 ∷ 0 ∷ 0 ∷ 120 ∷ 0 ∷ 4 ∷ 192 ∷ 168 ∷ 1 ∷ 5 ∷ []

abbrev tv : DiscoveredDevice
tv = record {
  ip = record { octet0 = 192; octet1 = 168; octet2 = 1; octet3 = 5 };
  port = 8009;
  name = codes "TV";
  device_id = some (codes "a1");
}

one_device : parse_packet response ≡ ok (tv ∷ []) 113
unfolding parse_packet from_utf8_lossy
one_device = refl

-- A name that points at itself.
pointer_to_itself : read_name (192 ∷ 0 ∷ []) 0 ≡ err pointer_cycle
unfolding read_name from_utf8_lossy
pointer_to_itself = refl

reserved_length_byte : read_name (64 ∷ 0 ∷ []) 0 ≡ err (bad_label_length 64)
unfolding read_name from_utf8_lossy
reserved_length_byte = refl

pointer_past_the_end : read_name (192 ∷ 9 ∷ []) 0 ≡ err (pointer_out_of_bounds 9)
unfolding read_name from_utf8_lossy
pointer_past_the_end = refl

five_pointers :
    read_name (0 ∷ 192 ∷ 0 ∷ 192 ∷ 1 ∷ 192 ∷ 3 ∷ 192 ∷ 5 ∷ 192 ∷ 7 ∷ []) 9
    ≡ err pointer_depth_exceeded
unfolding read_name from_utf8_lossy
five_pointers = refl

four_pointers : read_name (0 ∷ 192 ∷ 0 ∷ 192 ∷ 1 ∷ 192 ∷ 3 ∷ 192 ∷ 5 ∷ []) 7 ≡ ok [] 9
unfolding read_name from_utf8_lossy
four_pointers = refl

query_bytes : length build_ptr_query ≡ 40
unfolding build_ptr_query
query_bytes = refl

no_answers : parse_packet build_ptr_query ≡ ok [] 40
unfolding parse_packet build_ptr_query from_utf8_lossy
no_answers = refl

parse_packet-ne-panicked_example :
    (parse_packet response ≢ panicked) × (parse_packet response ≢ stuck)
parse_packet-ne-panicked_example = parse_packet-ne-panicked response

abbrev instance_name : Text
instance_name = codes "tv._googlecast._tcp.local"

read_name-NameAt_example : (read_name response 46 ≡ ok instance_name 51) ↔ (
    (labels : List Text) × (hops : ℕ) × NameAt response 46 labels hops 51
    × (hops ≤ max_pointer_depth)
    × (instance_name ≡ join_labels labels))
read_name-NameAt_example = read_name-NameAt response 46 51 instance_name (omega arith) (omega arith)

instance_name_read : read_name response 46 ≡ ok instance_name 51
unfolding read_name from_utf8_lossy
instance_name_read = refl

abbrev tv_receiver : CastDevice
tv_receiver = record {
  id = codes "192.168.1.5:8009";
  name = codes "TV";
  addr = record { ip = codes "192.168.1.5"; port = 8009 };
  tofu_key = codes "a1";
}

abbrev two_cycles_later : Discovery
two_cycles_later = record {
  devices = (key_of tv, record (fresh_entry tv) { missed_cycles = 2 }) ∷ [];
  log = query build_ptr_query ∷ query build_ptr_query ∷ receivers_updated (tv_receiver ∷ []) ∷ [];
}

announced_and_two_cycles :
    run ([] ++ (received response ∷ interval_tick ∷ interval_tick ∷ [])) initial
    ≡ running two_cycles_later
unfolding run from_utf8_lossy
announced_and_two_cycles = refl

run-lifetime_example : get (key_of tv) two_cycles_later.devices ≡ (
    if ltb (ticks (interval_tick ∷ interval_tick ∷ [])) missed_cycles_to_expire
    then some (record (fresh_entry tv) { missed_cycles = 2 })
    else none)
run-lifetime_example =
    run-lifetime tv [] [] 113 [] (interval_tick ∷ interval_tick ∷ []) response two_cycles_later
      one_device tt (tt, (tt, tt)) announced_and_two_cycles

run-IsShown_example : IsShown (run (received response ∷ interval_tick ∷ []) initial)
run-IsShown_example = run-IsShown (received response ∷ interval_tick ∷ [])
