-- ===== src/Flow/Merge.antt =====
-- The per-CPU values of a flow joined into one (src/udp_analyzer/tcp_channel.py
-- `parse_tcp_flow_value` with `values`, and `min_nonzero`).
use Prim.Native.Nat.{max, min}
use ebpf_udp_tcp_analyzer.Base.{ℕ, ◌+◌, List, [], ◌∷◌, ◌==◌, nat_eq, if◌then◌else◌}
use ebpf_udp_tcp_analyzer.Errors.{Result, ok, ◌>>=◌}
use ebpf_udp_tcp_analyzer.Bpftool.Json.{Json, null, get_field, iterate}
use ebpf_udp_tcp_analyzer.Delivered.Wire.{or_else}
use ebpf_udp_tcp_analyzer.Flow.Wire.{FlowValue, FlowEntry, parse_flow_value_one, parse_flow_key}

unfoldable pub min_nonzero : ℕ → ℕ → ℕ
min_nonzero left right = if left == 0 then right else if right == 0 then left else min left right

abbrev pub no_value : FlowValue
no_value = record {
  tx_bytes = 0;
  rx_bytes = 0;
  tx_calls = 0;
  rx_calls = 0;
  connections = 0;
  start_ns = 0;
  last_ns = 0;
  pid = 0;
  ifindex = 0;
  state = 0;
}

-- Counters add up; the earliest start, the latest end, the first nonzero metadata.
unfoldable pub merge_cpu : FlowValue → FlowValue → FlowValue
unfolding min_nonzero
merge_cpu acc parsed = record {
  tx_bytes = acc.tx_bytes + parsed.tx_bytes;
  rx_bytes = acc.rx_bytes + parsed.rx_bytes;
  tx_calls = acc.tx_calls + parsed.tx_calls;
  rx_calls = acc.rx_calls + parsed.rx_calls;
  connections = acc.connections + parsed.connections;
  start_ns = min_nonzero acc.start_ns parsed.start_ns;
  last_ns = max acc.last_ns parsed.last_ns;
  pid = or_else acc.pid parsed.pid;
  ifindex = or_else acc.ifindex parsed.ifindex;
  state = or_else acc.state parsed.state;
}

unfoldable pub merge_cpus : List Json → FlowValue → Result FlowValue
unfolding get_field parse_flow_value_one merge_cpu
merge_cpus [] acc = ok acc
merge_cpus (cpu_value ∷ values) acc = do
  value ← get_field "value" cpu_value
  parsed ← parse_flow_value_one value
  merge_cpus values (merge_cpu acc parsed)

unfoldable pub parse_flow_value : Json → Json → Result FlowValue
unfolding merge_cpus iterate
parse_flow_value value null = parse_flow_value_one value
parse_flow_value value values = do cpus ← iterate values; merge_cpus cpus no_value

unfoldable pub parse_flow_entry : ℕ → Json → Result FlowEntry
unfolding parse_flow_key parse_flow_value
parse_flow_entry proto entry = do
  raw_key ← get_field "key" entry
  key ← parse_flow_key proto raw_key
  raw_value ← get_field "value" entry
  values ← get_field "values" entry
  value ← parse_flow_value raw_value values
  ok (record { key = key; value = value })
