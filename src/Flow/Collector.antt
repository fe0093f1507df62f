-- ===== src/Flow/Collector.antt =====
-- The checkpoints of the channel collectors: `TcpChannelCollector` of
-- src/udp_analyzer/tcp_channel.py, over what `UdpChannelCollector` of udp_channel.py changes.
use ebpf_udp_tcp_analyzer.Base.{
  ℕ, ◌-◌, ◌/◌, Bool, ◌&&◌, String, Option, none, some, List, [], ◌∷◌, ◌++◌, keep, ◌==◌, nat_eq, ltb,
  leb, if◌then◌else◌,
}
use ebpf_udp_tcp_analyzer.Base.Int.{sub_ℕ, pos_part}
use ebpf_udp_tcp_analyzer.Base.Dict.{Dict, get, put}
use ebpf_udp_tcp_analyzer.Errors.{Result, ok, runtime_error, ◌>>=◌, ◌>>◌, guard}
use ebpf_udp_tcp_analyzer.Models
use ebpf_udp_tcp_analyzer.Bpftool.Json.{Json}
use ebpf_udp_tcp_analyzer.Bpftool.Address.{ipv4_from_bpf_int}
use ebpf_udp_tcp_analyzer.Channels.{
  ChannelTarget, ChannelMatch, ChannelCatalog, match_flow, unit_from_cgroup_text,
}
use ebpf_udp_tcp_analyzer.Checkpoint.{read_flows}
use ebpf_udp_tcp_analyzer.Collector.{dump_entries, ifname_or}
use ebpf_udp_tcp_analyzer.Flow.Wire.{
  FlowKey, FlowIdentity, flow_identity_eq, FlowCounters, FlowEntry, flow_counting, identity,
  counters,
}
use ebpf_udp_tcp_analyzer.Flow.Merge.{parse_flow_entry}
use ebpf_udp_tcp_analyzer.Flow.Samples.{FlowSample, ChannelSampleFilter, sample_matches}

-- What the two collectors differ in.
pub record Protocol : Type 0 where
  -- the protocol number of keys and rows, and the layer of the rows
  pub number : ℕ
  pub layer : String
  -- the address and the port that the catalog is asked for
  pub endpoint_ip : FlowKey → ℕ
  pub endpoint_port : FlowKey → ℕ

-- What a checkpoint meets outside the process.
pub record FlowWorld : Type 0 where
  pub now_ns : ℕ
  -- whether the attachment still holds a loader that `poll` finds running
  pub is_loader_alive : Bool
  pub dump : Result Json
  pub if_indextoname : ℕ → Option String
  -- the text of /proc/<pid>/cgroup, "" where it cannot be read
  pub cgroup_text : ℕ → String

pub record FlowCollector : Type 0 where
  pub catalog : ChannelCatalog
  pub bucket_ms : ℕ
  pub sample_filter : ChannelSampleFilter
  pub previous : Dict FlowIdentity FlowCounters
  pub pid_units : Dict ℕ String
  pub is_attached : Bool
  pub last_checkpoint_ns : Option ℕ

-- The cache of `_unit_for_pid` has the pid, or has not.
unfoldable pub cached_unit : Option String → String → ℕ → Dict ℕ String → String × Dict ℕ String
cached_unit none unit pid units = (unit, put pid unit units)
cached_unit (some cached) unit pid units = (cached, units)

-- `_unit_for_pid`; a pid is never negative here.
unfoldable pub unit_for_pid : (ℕ → String) → ℕ → Dict ℕ String → String × Dict ℕ String
unfolding cached_unit
unit_for_pid cgroup_text pid units =
    if pid == 0
    then ("", units)
    else cached_unit (get pid units) (unit_from_cgroup_text (cgroup_text pid)) pid units

-- `max(now - previous, 0)` of each counter.
unfoldable pub deltas : FlowCounters → FlowCounters → FlowCounters
deltas previous now = record {
  tx_bytes = pos_part (sub_ℕ now.tx_bytes previous.tx_bytes);
  rx_bytes = pos_part (sub_ℕ now.rx_bytes previous.rx_bytes);
  tx_calls = pos_part (sub_ℕ now.tx_calls previous.tx_calls);
  rx_calls = pos_part (sub_ℕ now.rx_calls previous.rx_calls);
  connections = pos_part (sub_ℕ now.connections previous.connections);
}

abbrev pub is_idle : FlowCounters → Bool
is_idle d =
    leb d.tx_bytes 0
    && leb d.rx_bytes 0
    && leb d.tx_calls 0
    && leb d.rx_calls 0
    && leb d.connections 0

-- `target.channel if target else ""`, and so on
abbrev pub of_target : (ChannelTarget → String) → Option ChannelTarget → String
of_target field none = ""
of_target field (some target) = field target

-- The measured interval, or the nominal one. A clock that went back gives a quotient below 0 in
-- the source and 0 here: both are not above 0.
unfoldable pub interval_ms : Option ℕ → ℕ → ℕ → ℕ
interval_ms none now_ns bucket_ms = bucket_ms
interval_ms (some previous_ns) now_ns bucket_ms =
    let measured = (now_ns - previous_ns) / 1_000_000 in
    if ltb 0 measured then measured else bucket_ms

module _ (protocol : Protocol) (w : FlowWorld) (c : FlowCollector) (bucket_ns elapsed : ℕ) where
  -- `ChannelTcpSample(…)`
  abbrev pub flow_sample :
      String → String → String → ChannelMatch → FlowEntry → FlowCounters → FlowSample
  flow_sample src_ip dst_ip unit found entry d = record {
    bucket_start_ns = bucket_ns;
    bucket_ms = elapsed;
    src_ip = src_ip;
    dst_ip = dst_ip;
    src_port = entry.key.src_port;
    dst_port = protocol.endpoint_port entry.key;
    socket_id = entry.key.socket_cookie;
    cgroup_id = entry.key.cgroup_id;
    tx_bytes = d.tx_bytes;
    rx_bytes = d.rx_bytes;
    tx_calls = d.tx_calls;
    rx_calls = d.rx_calls;
    connections = d.connections;
    unit = unit;
    channel = of_target (λ t. t.channel) found.target;
    url = of_target (λ t. t.url) found.target;
    host = of_target (λ t. t.host) found.target;
    ifindex = entry.value.ifindex;
    ifname = ifname_or (w.if_indextoname entry.value.ifindex) "";
    host_pid = entry.value.pid;
    state = entry.value.state;
    status = found.status;
    layer = protocol.layer;
    ip_proto = protocol.number;
  }

  -- The second loop of `_read_flows` from the deltas on; the state is the cache of units.
  unfoldable pub emit_flow :
      FlowCounters
      → FlowCounters
      → FlowEntry
      → Dict ℕ String
      → Result (List FlowSample × Dict ℕ String)
  unfolding unit_for_pid deltas
  emit_flow previous now entry units =
      let d = deltas previous now in
      if is_idle d then ok ([], units) else do
        let (unit, units') = unit_for_pid w.cgroup_text entry.value.pid units
        dst_ip ← ipv4_from_bpf_int (protocol.endpoint_ip entry.key)
        let found = match_flow c.catalog unit dst_ip (protocol.endpoint_port entry.key)
        src_ip ← ipv4_from_bpf_int entry.key.src_ip4
        let sample = flow_sample src_ip dst_ip unit found entry d
        ok (keep (sample_matches c.sample_filter) (sample ∷ []), units')

  -- `_read_flows`
  unfoldable pub read_flow_map :
      Dict ℕ String → Result (Dict FlowIdentity FlowCounters × Dict ℕ String × List FlowSample)
  unfolding emit_flow
  read_flow_map units = do
    raw ← w.dump
    entries ← dump_entries (parse_flow_entry protocol.number) raw
    read_flows emit_flow flow_counting (λ e. identity e.key) (λ e. counters e.value) entries
        c.previous units

-- `read_checkpoint`
unfoldable pub read_flow_checkpoint :
    Protocol → FlowWorld → FlowCollector → Result (List FlowSample × FlowCollector)
unfolding read_flow_map
read_flow_checkpoint protocol w c = do
  if c.is_attached then guard w.is_loader_alive runtime_error else ok tt
  bucket_ns ← Models.bucket_start_ns w.now_ns c.bucket_ms
  let elapsed = interval_ms c.last_checkpoint_ns w.now_ns c.bucket_ms
  (previous, pid_units, samples) ← read_flow_map protocol w c bucket_ns elapsed []
  ok (
    samples,
    record c { previous = previous; pid_units = pid_units; last_checkpoint_ns = some w.now_ns },
  )

-- The checkpoints of the loop of `run_analyzer` (src/udp_analyzer/cli.py), with their rows in order.
unfoldable pub run_flows :
    Protocol → List FlowWorld → FlowCollector → Result (List FlowSample × FlowCollector)
unfolding read_flow_checkpoint
run_flows protocol [] c = ok ([], c)
run_flows protocol (w ∷ ws) c = do
  (rows, c') ← read_flow_checkpoint protocol w c
  (more, c'') ← run_flows protocol ws c'
  ok (rows ++ more, c'')
