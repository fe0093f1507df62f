-- ===== src/Tests/Channels.antt =====
-- The channel collectors on a TCP flow of a configured channel, and the tests of
-- tests/test_tcp_channel.py.
use ebpf_udp_tcp_analyzer.Base.{
  ℕ, ◌+◌, ◌≡◌, refl, true, false, String, none, some, List, [], ◌∷◌, arith, All,
}
use ebpf_udp_tcp_analyzer.Base.Dict.{get, put, set_default, restrict}
use ebpf_udp_tcp_analyzer.Errors.{ok, err, runtime_error}
use ebpf_udp_tcp_analyzer.Models
use ebpf_udp_tcp_analyzer.Bpftool.Json.{
  Json, null, num, arr, obj, end, field, nil, cons, items_of, get_field,
}
use ebpf_udp_tcp_analyzer.Bpftool.Address.{ipv4_from_bpf_int}
use ebpf_udp_tcp_analyzer.Bpftool.Print.{Style, print_bytes}
use ebpf_udp_tcp_analyzer.Channels.{ChannelTarget, catalog_of, match_flow, unit_from_cgroup_text}
use ebpf_udp_tcp_analyzer.Channels.Matching.{Verdict, last_of_unit, match_flow-Verdict}
use ebpf_udp_tcp_analyzer.Checkpoint.{aggregate, report_flows, read_flows}
use ebpf_udp_tcp_analyzer.Collector.{dump_entries}
use ebpf_udp_tcp_analyzer.Base.Text.{split_lines}
use ebpf_udp_tcp_analyzer.Channels.Units.{
  all_parts, IsLastService, unit_from_cgroup_text-IsLastService,
}
use ebpf_udp_tcp_analyzer.Flow.Wire.{
  FlowKey, FlowValue, FlowEntry, FlowIdentity, FlowCounters, flow_identity_eq, flow_identity_beq,
  parse_flow_key, parse_flow_value_one,
}
use ebpf_udp_tcp_analyzer.Flow.Merge.{parse_flow_value, parse_flow_entry}
use ebpf_udp_tcp_analyzer.Flow.Samples.{FlowSample, no_channel_filter, sample_matches}
use ebpf_udp_tcp_analyzer.Flow.Collector.{
  FlowWorld, FlowCollector, interval_ms, emit_flow, read_flow_map, read_flow_checkpoint, run_flows,
}
use ebpf_udp_tcp_analyzer.Flow.Rows.{FlowDumps, ReportedFlow, read_flow_checkpoint-ReportedFlow}
use ebpf_udp_tcp_analyzer.Flow.Growth.{
  Counter, FlowsContinue, tx_bytes, rx_bytes, tx_calls, rx_calls, connections, counter_reported,
  counter_in_dump, flow_totals, flow_checkpoint_growth,
}
use ebpf_udp_tcp_analyzer.Flow.Run.{done, next, run_flows_growth}
use ebpf_udp_tcp_analyzer.Flow.RoundTrip.{
  IsFlowKey, flow_key_dict, flow_key_bytes, FlowKeyFits, parse_flow_key-IsFlowKey,
}
use ebpf_udp_tcp_analyzer.Flow.PerCpu.{AllReadAs, Joins, parse_flow_value-Joins}
use ebpf_udp_tcp_analyzer.Flow.Tcp.{tcp_protocol, tcp_dry_sample}
use ebpf_udp_tcp_analyzer.Flow.Udp.{udp_dry_sample}
use ebpf_udp_tcp_analyzer.Flow.DryRun.{dry_sample-status}

channel_reader : Unit {0}
unfolding get put set_default restrict sample_matches parse_flow_entry ipv4_from_bpf_int aggregate
    report_flows read_flows dump_entries interval_ms emit_flow read_flow_map read_flow_checkpoint
    run_flows Models.bucket_start_ns catalog_of match_flow unit_from_cgroup_text flow_identity_beq
channel_reader = tt

abbrev target : ChannelTarget
target = record {
  channel = "a";
  unit = "channel-a.service";
  url = "https://api.example.com/";
  scheme = "https";
  host = "api.example.com";
  port = 443;
  path = "/";
  addresses = "203.0.113.10" ∷ [];
}

abbrev flow_key : FlowKey
flow_key = record {
  socket_cookie = 1234;
  src_ip4 = 0x0A00000A;
  dst_ip4 = 0x0A7100CB;
  src_port = 40000;
  dst_port = 443;
  family = 2;
  ip_proto = 6;
  cgroup_id = 12345;
}

abbrev flow_value : ℕ → ℕ → FlowValue
flow_value tx rx = record {
  tx_bytes = tx;
  rx_bytes = rx;
  tx_calls = 1;
  rx_calls = 4;
  connections = 1;
  start_ns = 10;
  last_ns = 20;
  pid = 4242;
  ifindex = 2;
  state = 1;
}

abbrev flow_entry : ℕ → ℕ → FlowEntry
flow_entry tx rx = record { key = flow_key; value = flow_value tx rx }

abbrev value_dict : ℕ → ℕ → Json
value_dict tx rx = obj (
    field "tx_bytes" (num tx) (
      field "rx_bytes" (num rx) (
        field "tx_calls" (num 1) (
          field "rx_calls" (num 4) (
            field "connections" (num 1) (
              field "start_ns" (num 10) (
                field "last_ns" (num 20) (
                  field "pid" (num 4242)
                    (field "ifindex" (num 2) (field "state" (num 1) end))))))))))

abbrev cpu_value : ℕ → ℕ → Json
cpu_value tx rx = obj (field "value" (value_dict tx rx) end)

abbrev dumped : ℕ → ℕ → Json
dumped tx rx =
    obj
      (field "key" (flow_key_dict flow_key) (field "values" (arr (cons (cpu_value tx rx) nil)) end))

abbrev cgroup : String
cgroup = "0::/user.slice/user-1000.slice/user@1000.service/app.slice/channel-a.service\n"

abbrev flow_world : FlowWorld
flow_world = record {
  now_ns = 6_250_000_000;
  is_loader_alive = true;
  dump = ok (arr (cons (dumped 300 4000) nil));
  if_indextoname = λ i. none;
  cgroup_text = λ pid. cgroup;
}

abbrev flow_identity : FlowIdentity
flow_identity = (1234, 0x0A00000A, 0x0A7100CB, 40000, 443, 2, 6, 12345)

abbrev totals_at : ℕ → ℕ → FlowCounters
totals_at tx rx = record {
  tx_bytes = tx;
  rx_bytes = rx;
  tx_calls = 1;
  rx_calls = 4;
  connections = 1;
}

abbrev before : FlowCollector
before = record {
  catalog = catalog_of (target ∷ []);
  bucket_ms = 1000;
  sample_filter = no_channel_filter;
  previous = (flow_identity, totals_at 100 1000) ∷ [];
  pid_units = [];
  is_attached = true;
  last_checkpoint_ns = some 5_000_000_000;
}

abbrev after : FlowCollector
after = record before {
  previous = (flow_identity, totals_at 300 4000) ∷ [];
  pid_units = (4242, "channel-a.service") ∷ [];
  last_checkpoint_ns = some 6_250_000_000;
}

abbrev flow_row : FlowSample
flow_row = record {
  bucket_start_ns = 6_000_000_000;
  bucket_ms = 1250;
  src_ip = "10.0.0.10";
  dst_ip = "203.0.113.10";
  src_port = 40000;
  dst_port = 443;
  socket_id = 1234;
  cgroup_id = 12345;
  tx_bytes = 200;
  rx_bytes = 3000;
  tx_calls = 0;
  rx_calls = 0;
  connections = 0;
  unit = "channel-a.service";
  channel = "a";
  url = "https://api.example.com/";
  host = "api.example.com";
  ifindex = 2;
  ifname = "";
  host_pid = 4242;
  state = 1;
  status = "matched";
  layer = "tcp_channel";
  ip_proto = 6;
}

flow_is_reported : read_flow_checkpoint tcp_protocol flow_world before ≡ ok (flow_row ∷ [], after)
unfolding channel_reader
flow_is_reported = refl

flow_dump_parses : FlowDumps tcp_protocol flow_world (flow_entry 300 4000 ∷ [])
unfolding channel_reader
flow_dump_parses = refl

bucket_of_flow : Models.bucket_start_ns flow_world.now_ns before.bucket_ms ≡ ok 6_000_000_000
unfolding channel_reader
bucket_of_flow = refl

-- A loader that has gone stops the collector.
dead_loader :
    read_flow_checkpoint tcp_protocol (record flow_world { is_loader_alive = false }) before
    ≡ err runtime_error
unfolding channel_reader
dead_loader = refl

-- `test_unit_from_user_cgroup_path_uses_leaf_service`
leaf_service : unit_from_cgroup_text cgroup ≡ "channel-a.service"
unfolding channel_reader
leaf_service = refl

read_flow_checkpoint-ReportedFlow_example :
    All
      (ReportedFlow tcp_protocol flow_world before 6_000_000_000
        (interval_ms before.last_checkpoint_ns flow_world.now_ns before.bucket_ms))
      (flow_row ∷ [])
read_flow_checkpoint-ReportedFlow_example =
    read_flow_checkpoint-ReportedFlow tcp_protocol flow_world before after (flow_row ∷ [])
      6_000_000_000 bucket_of_flow flow_is_reported

flow-FlowsContinue : FlowsContinue (flow_entry 100 1000 ∷ []) (flow_entry 300 4000 ∷ [])
flow-FlowsContinue tx_bytes = record { same = λ i. ground arith; rises = λ i. ground arith }
flow-FlowsContinue rx_bytes = record { same = λ i. ground arith; rises = λ i. ground arith }
flow-FlowsContinue tx_calls = record { same = λ i. ground arith; rises = λ i. ground arith }
flow-FlowsContinue rx_calls = record { same = λ i. ground arith; rises = λ i. ground arith }
flow-FlowsContinue connections = record { same = λ i. ground arith; rises = λ i. ground arith }

flow_baseline :
    (i : FlowIdentity) → get i before.previous ≡ get i (flow_totals (flow_entry 100 1000 ∷ []))
unfolding channel_reader
flow_baseline i = refl

flow_checkpoint_growth_example :
    ((k : Counter)
      → counter_reported k (flow_row ∷ []) + counter_in_dump k (flow_entry 100 1000 ∷ [])
        ≡ counter_in_dump k (flow_entry 300 4000 ∷ []))
    × ((i : FlowIdentity) → get i after.previous ≡ get i (flow_totals (flow_entry 300 4000 ∷ [])))
flow_checkpoint_growth_example =
    flow_checkpoint_growth tcp_protocol flow_world before after (flow_row ∷ [])
      (flow_entry 100 1000 ∷ []) (flow_entry 300 4000 ∷ []) refl flow_baseline flow_dump_parses
      flow-FlowsContinue flow_is_reported

parse_flow_key-IsFlowKey_example :
    ((raw : Json) (k : FlowKey) → parse_flow_key 6 raw ≡ ok k → IsFlowKey 6 k)
    × ((k : FlowKey) → IsFlowKey 6 k → parse_flow_key 6 (flow_key_dict k) ≡ ok k)
    × ((k : FlowKey) (style : Style)
        → IsFlowKey 6 k
        → FlowKeyFits k
        → parse_flow_key 6 (print_bytes style (flow_key_bytes k)) ≡ ok k)
parse_flow_key-IsFlowKey_example = parse_flow_key-IsFlowKey 6

abbrev cpu_values : List FlowValue
cpu_values = flow_value 100 1000 ∷ flow_value 200 3000 ∷ []

abbrev cpu_elements : List Json
cpu_elements = cpu_value 100 1000 ∷ cpu_value 200 3000 ∷ []

cpu_elements-AllReadAs : AllReadAs cpu_elements cpu_values
unfolding channel_reader get_field parse_flow_value_one
cpu_elements-AllReadAs = ((_, refl, refl), ((_, refl, refl), tt))

parse_flow_value-Joins_example :
    (m : FlowValue) × (parse_flow_value null (arr (items_of cpu_elements)) ≡ ok m)
    × Joins cpu_values m
parse_flow_value-Joins_example =
    parse_flow_value-Joins null cpu_elements cpu_values cpu_elements-AllReadAs

match_flow-Verdict_example :
    Verdict
      (match_flow (catalog_of (target ∷ [])) "channel-a.service" "203.0.113.10" 443).status
      (last_of_unit "channel-a.service" (target ∷ []))
      "203.0.113.10"
      443
    × ((match_flow (catalog_of (target ∷ [])) "channel-a.service" "203.0.113.10" 443).target
        ≡ last_of_unit "channel-a.service" (target ∷ []))
match_flow-Verdict_example = match_flow-Verdict (target ∷ []) "channel-a.service" "203.0.113.10" 443

unit_from_cgroup_text-IsLastService_example :
    IsLastService (all_parts (split_lines cgroup)) (unit_from_cgroup_text cgroup)
unit_from_cgroup_text-IsLastService_example = unit_from_cgroup_text-IsLastService cgroup

dry_sample-status_example :
    (let r = tcp_dry_sample target 0 1000 1 in
      r.status ≡ (match_flow (catalog_of (target ∷ [])) r.unit r.dst_ip r.dst_port).status)
    × (let r = udp_dry_sample target 0 1000 1 in
        r.status ≡ (match_flow (catalog_of (target ∷ [])) r.unit r.dst_ip r.dst_port).status)
dry_sample-status_example = dry_sample-status (target ∷ []) target 0 1000 1 refl

flow_run : run_flows tcp_protocol (flow_world ∷ []) before ≡ ok (flow_row ∷ [], after)
unfolding channel_reader
flow_run = refl

run_flows_growth_example :
    counter_reported rx_bytes (flow_row ∷ []) + counter_in_dump rx_bytes (flow_entry 100 1000 ∷ [])
    ≡ counter_in_dump rx_bytes (flow_entry 300 4000 ∷ [])
run_flows_growth_example =
    run_flows_growth tcp_protocol (flow_world ∷ []) before after (flow_row ∷ [])
      (flow_entry 100 1000 ∷ []) (flow_entry 300 4000 ∷ []) refl flow_baseline
      (next (flow_entry 300 4000 ∷ []) flow_dump_parses flow-FlowsContinue (done refl)) flow_run
      rx_bytes
