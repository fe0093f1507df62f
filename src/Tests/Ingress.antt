-- ===== src/Tests/Ingress.antt =====
-- The ingress collector on the dumps of tests/test_checkpoint_aggregation.py: one flow spread over
-- two entries, seeded and then reported.
use ebpf_udp_tcp_analyzer.Base.{
  inr, ℕ, ◌+◌, ◌≡◌, refl, none, some, false, List, [], ◌∷◌, arith, All,
}
use ebpf_udp_tcp_analyzer.Base.Dict.{get, put, set_default, restrict}
use ebpf_udp_tcp_analyzer.Errors.{ok}
use ebpf_udp_tcp_analyzer.Models
use ebpf_udp_tcp_analyzer.Models.{UdpSample, no_filter, matches, blank_sample}
use ebpf_udp_tcp_analyzer.Bpftool.Json.{
  Json, null, arr, obj, end, field, nil, cons, items_of, get_field,
}
use ebpf_udp_tcp_analyzer.Bpftool.Address.{ipv4_from_bpf_int}
use ebpf_udp_tcp_analyzer.Ingress.Wire.{
  UdpMapKey, UdpMapCounters, UdpMapEntry, KeyIdentity, key_identity_eq, parse_bpftool_entry,
  parse_bpftool_key, parse_bpftool_counters,
}
use ebpf_udp_tcp_analyzer.Ingress.RoundTrip.{
  key_dict, counters_dict, cpu_dict, key_bytes, KeyFits, AllRead, totals, parse_bpftool_key-print,
  parse_bpftool_counters-totals,
}
use ebpf_udp_tcp_analyzer.Checkpoint.{aggregate, report_flows, read_flows}
use ebpf_udp_tcp_analyzer.Collector.{
  World, Collector, disabled, dump_entries, elapsed_ms, emit_ingress, read_ingress,
  extend_delivered, read_checkpoint, run,
}
use ebpf_udp_tcp_analyzer.Collector.Baseline.{
  Dumps, ingress_totals, previous-read_checkpoint, read_checkpoint_unseen,
}
use ebpf_udp_tcp_analyzer.Collector.Returns.{FitsAddresses, read_checkpoint_returns}
use ebpf_udp_tcp_analyzer.Collector.Rows.{Reported, read_checkpoint-Reported}
use ebpf_udp_tcp_analyzer.Collector.Growth.{
  IsPlain, IsBaselined, Continues, done, next, packets_in, bytes_in, packets_reported,
  bytes_reported, run_growth,
}
use ebpf_udp_tcp_analyzer.Bpftool.Print.{Style, print_bytes}

unfoldable pub reader : Unit {0}
unfolding get put set_default restrict matches parse_bpftool_entry ipv4_from_bpf_int aggregate
    report_flows read_flows dump_entries elapsed_ms emit_ingress read_ingress extend_delivered
    read_checkpoint run Models.bucket_start_ns
reader = tt

abbrev key : UdpMapKey
key = record {
  family = 2;
  ip_proto = 17;
  src_port = 40000;
  dst_port = 5000;
  ifindex = 2;
  src_ip4 = 0x0A0200C0;
  dst_ip4 = 0x146433C6;
}

abbrev entry : ℕ → ℕ → UdpMapEntry
entry packets bytes = record { key = key; counters = record { packets = packets; bytes = bytes } }

-- The shape that `_entry` of the test has.
abbrev printed : ℕ → ℕ → Json
printed packets bytes = obj (
    field "key" (key_dict key) (
      field "values"
        (arr (cons (cpu_dict 0 (counters_dict (record { packets = packets; bytes = bytes }))) nil))
        end))

abbrev world : ℕ → Json → World
world now dump = record {
  now_ns = now;
  ingress_dump = ok dump;
  delivered_dump = ok null;
  if_indextoname = λ i. none;
  probe = λ n. record { now = 0; scan = ok [] };
}

abbrev first_world : World
first_world = world 5_000_000_000 (arr (cons (printed 100 131600) (cons (printed 200 263200) nil)))

abbrev pub second_world : World
second_world = world 6_250_000_000 (arr (cons (printed 150 197400) (cons (printed 400 526400) nil)))

abbrev pub first_dump : List UdpMapEntry
first_dump = entry 100 131600 ∷ entry 200 263200 ∷ []

abbrev pub second_dump : List UdpMapEntry
second_dump = entry 150 197400 ∷ entry 400 526400 ∷ []

abbrev fresh : Collector
fresh = record {
  ifname = "eth0";
  bucket_ms = 1000;
  sample_filter = no_filter;
  delivery_attribution = disabled;
  has_delivered_reader = false;
  process_enricher = none;
  previous = [];
  delivered_previous = [];
  last_checkpoint_ns = none;
}

abbrev identity : KeyIdentity
identity = (2, 17, 40000, 5000, 2, 0x0A0200C0, 0x146433C6)

abbrev pub seeded : Collector
seeded = record fresh {
  previous = (identity, record { packets = 300; bytes = 394800 }) ∷ [];
  last_checkpoint_ns = some 5_000_000_000;
}

abbrev pub reported : Collector
reported = record fresh {
  previous = (identity, record { packets = 550; bytes = 723800 }) ∷ [];
  last_checkpoint_ns = some 6_250_000_000;
}

abbrev pub row : UdpSample
row = record blank_sample {
  bucket_start_ns = 6_000_000_000;
  bucket_ms = 1250;
  src_ip = "192.0.2.10";
  dst_ip = "198.51.100.20";
  src_port = 40000;
  dst_port = 5000;
  ifindex = 2;
  ifname = "eth0";
  packets = 250;
  bytes = 329000;
}

pub second_dump_parses : Dumps second_world second_dump
unfolding reader
second_dump_parses = refl

first_sight_seeds : read_checkpoint first_world fresh ≡ ok ([], seeded)
unfolding reader
first_sight_seeds = refl

pub entries_are_summed : read_checkpoint second_world seeded ≡ ok (row ∷ [], reported)
unfolding reader
entries_are_summed = refl

seeded-run : run (second_world ∷ []) seeded ≡ ok (row ∷ [], reported)
unfolding reader
seeded-run = refl

pub seeded-IsPlain : IsPlain seeded
seeded-IsPlain = record { unfiltered = refl; exact = refl; ingress_only = refl }

pub seeded-IsBaselined : IsBaselined seeded first_dump
unfolding reader
seeded-IsBaselined k = refl

pub dumps-Continues : Continues first_dump second_dump
dumps-Continues = record {
  packets = record { same = λ k. ground arith; rises = λ k. ground arith };
  bytes = record { same = λ k. ground arith; rises = λ k. ground arith };
}

run_growth_example :
    (packets_reported (row ∷ []) + packets_in first_dump ≡ packets_in second_dump)
    × (bytes_reported (row ∷ []) + bytes_in first_dump ≡ bytes_in second_dump)
run_growth_example =
    run_growth (second_world ∷ []) seeded reported (row ∷ []) first_dump second_dump seeded-IsPlain
      seeded-IsBaselined (next second_dump second_dump_parses dumps-Continues (done refl))
      seeded-run

previous-read_checkpoint_example :
    get identity reported.previous ≡ get identity (ingress_totals second_dump)
previous-read_checkpoint_example =
    previous-read_checkpoint second_world seeded reported (row ∷ []) second_dump second_dump_parses
      entries_are_summed identity

first_dump_parses : Dumps first_world first_dump
unfolding reader
first_dump_parses = refl

no_baseline : (k : KeyIdentity) → get k fresh.previous ≡ none
unfolding get
no_baseline k = refl

read_checkpoint_unseen_example : ◌≡◌ {A = List UdpSample} [] []
read_checkpoint_unseen_example =
    read_checkpoint_unseen first_world fresh seeded [] first_dump first_dump_parses refl
      (λ k here. no_baseline k) first_sight_seeds

bucket_of_second : Models.bucket_start_ns second_world.now_ns seeded.bucket_ms ≡ ok 6_000_000_000
unfolding reader
bucket_of_second = refl

read_checkpoint-Reported_example :
    All
      (Reported second_world seeded 6_000_000_000
        (elapsed_ms seeded.last_checkpoint_ns second_world.now_ns seeded.bucket_ms))
      (row ∷ [])
read_checkpoint-Reported_example =
    read_checkpoint-Reported second_world seeded reported (row ∷ []) 6_000_000_000 bucket_of_second
      entries_are_summed

key-KeyFits : KeyFits key
key-KeyFits = omega arith

parse_bpftool_key-print_example :
    (parse_bpftool_key (key_dict key) ≡ ok key)
    × ((style : Style) → parse_bpftool_key (print_bytes style (key_bytes key)) ≡ ok key)
parse_bpftool_key-print_example = parse_bpftool_key-print key key-KeyFits

abbrev per_cpu : List UdpMapCounters
per_cpu = record { packets = 5; bytes = 500 } ∷ record { packets = 7; bytes = 700 } ∷ []

abbrev cpus : List Json
cpus =
    cpu_dict 0 (counters_dict (record { packets = 5; bytes = 500 }))
    ∷ cpu_dict 1 (counters_dict (record { packets = 7; bytes = 700 }))
    ∷ []

cpus-AllRead : AllRead cpus per_cpu
unfolding get_field parse_bpftool_entry
cpus-AllRead = ((_, refl, refl), ((_, refl, refl), tt))

parse_bpftool_counters-totals_example :
    parse_bpftool_counters null (arr (items_of cpus)) ≡ ok (totals per_cpu)
parse_bpftool_counters-totals_example = parse_bpftool_counters-totals null cpus per_cpu cpus-AllRead

second_dump-FitsAddresses : All FitsAddresses second_dump
second_dump-FitsAddresses = ((omega arith, omega arith), ((omega arith, omega arith), tt))

read_checkpoint_returns_example :
    (rows : List UdpSample) × (c' : Collector) × (read_checkpoint second_world seeded
      ≡ ok (rows, c'))
read_checkpoint_returns_example =
    read_checkpoint_returns second_world seeded second_dump (omega arith) refl
      (inr (λ n. ([], refl))) second_dump_parses second_dump-FitsAddresses
