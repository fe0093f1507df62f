-- ===== src/Flow/Udp.antt =====
-- src/udp_analyzer/udp_channel.py: the UDP side. A multicast receiver does not connect, so a flow
-- without a destination has its endpoint at the source, the group that the socket is bound to.
use ebpf_udp_tcp_analyzer.Base.{ℕ, ◌+◌, String, List, [], ◌∷◌, keep, ◌==◌, nat_eq, if◌then◌else◌}
use ebpf_udp_tcp_analyzer.Errors.{Result, ok, ◌>>=◌}
use ebpf_udp_tcp_analyzer.Models
use ebpf_udp_tcp_analyzer.Models.{udp_proto}
use ebpf_udp_tcp_analyzer.Bpftool.Json.{Json}
use ebpf_udp_tcp_analyzer.Channels.{ChannelTarget}
use ebpf_udp_tcp_analyzer.Base.Dict.{Dict}
use ebpf_udp_tcp_analyzer.Flow.Wire.{
  FlowKey, FlowIdentity, FlowCounters, FlowValue, FlowEntry, validate_flow_key, parse_flow_key,
}
use ebpf_udp_tcp_analyzer.Flow.Merge.{parse_flow_value, parse_flow_entry}
use ebpf_udp_tcp_analyzer.Flow.Samples.{FlowSample, ChannelSampleFilter, sample_matches}
use ebpf_udp_tcp_analyzer.Flow.Collector.{
  Protocol, FlowWorld, FlowCollector, read_flow_map, read_flow_checkpoint,
}
use ebpf_udp_tcp_analyzer.Flow.Tcp.{DryRun, first_or}

-- The records of the file have the fields of those of tcp_channel.py.
abbrev pub UdpFlowKey : Type 0
UdpFlowKey = FlowKey

abbrev pub UdpFlowCounters : Type 0
UdpFlowCounters = FlowCounters

abbrev pub UdpFlowValue : Type 0
UdpFlowValue = FlowValue

abbrev pub UdpFlowEntry : Type 0
UdpFlowEntry = FlowEntry

abbrev pub ChannelUdpSample : Type 0
ChannelUdpSample = FlowSample

abbrev pub UdpChannelSampleFilter : Type 0
UdpChannelSampleFilter = ChannelSampleFilter

-- `entry.key.dst_ip if entry.key.dst_ip4 else entry.key.src_ip`, before it is printed, and the same
-- of the ports.
unfoldable pub udp_endpoint_ip : UdpFlowKey → ℕ
udp_endpoint_ip k = if k.dst_ip4 == 0 then k.src_ip4 else k.dst_ip4

unfoldable pub udp_endpoint_port : UdpFlowKey → ℕ
udp_endpoint_port k = if k.dst_port == 0 then k.src_port else k.dst_port

abbrev pub udp_protocol : Protocol
udp_protocol = record {
  number = udp_proto;
  layer = "udp_channel";
  endpoint_ip = udp_endpoint_ip;
  endpoint_port = udp_endpoint_port;
}

unfoldable pub validate_udp_flow_key : UdpFlowKey → Result UdpFlowKey
unfolding validate_flow_key
validate_udp_flow_key = validate_flow_key udp_proto

unfoldable pub parse_udp_flow_key : Json → Result UdpFlowKey
unfolding parse_flow_key
parse_udp_flow_key = parse_flow_key udp_proto

unfoldable pub parse_udp_flow_value : Json → Json → Result UdpFlowValue
unfolding parse_flow_value
parse_udp_flow_value = parse_flow_value

unfoldable pub parse_udp_flow_entry : Json → Result UdpFlowEntry
unfolding parse_flow_entry
parse_udp_flow_entry = parse_flow_entry udp_proto

-- `UdpChannelCollector._read_flows`
unfoldable pub read_udp_flows :
    FlowWorld
    → FlowCollector
    → ℕ
    → ℕ
    → Dict ℕ String
    → Result (Dict FlowIdentity UdpFlowCounters × Dict ℕ String × List ChannelUdpSample)
unfolding read_flow_map
read_udp_flows = read_flow_map udp_protocol

-- `UdpChannelCollector.read_checkpoint`
unfoldable pub read_udp_checkpoint :
    FlowWorld → FlowCollector → Result (List ChannelUdpSample × FlowCollector)
unfolding read_flow_checkpoint
read_udp_checkpoint = read_flow_checkpoint udp_protocol

abbrev pub udp_demo_target : ChannelTarget
udp_demo_target = record {
  channel = "demo-tv";
  unit = "demo-tv.service";
  url = "udp://@239.239.16.2:1234";
  scheme = "udp";
  host = "239.239.16.2";
  port = 1234;
  path = "/";
  addresses = "239.239.16.2" ∷ [];
}

unfoldable pub udp_dry_sample : ChannelTarget → ℕ → ℕ → ℕ → ChannelUdpSample
udp_dry_sample target bucket_ns bucket_ms tick =
    let group = first_or target.addresses "239.239.16.2" in
    record {
      bucket_start_ns = bucket_ns;
      bucket_ms = bucket_ms;
      src_ip = group;
      dst_ip = group;
      src_port = target.port;
      dst_port = target.port;
      socket_id = 900000 + tick;
      cgroup_id = 12345;
      tx_bytes = 0;
      rx_bytes = 390000 + tick;
      tx_calls = 0;
      rx_calls = 227;
      connections = 0;
      unit = target.unit;
      channel = target.channel;
      url = target.url;
      host = target.host;
      ifindex = 0;
      ifname = "";
      host_pid = 4242;
      state = 0;
      status = "matched";
      layer = "udp_channel";
      ip_proto = udp_proto;
    }

-- `UdpChannelDryRunCollector.read_checkpoint`
unfoldable pub read_udp_dry_run : ℕ → DryRun → Result (List ChannelUdpSample × DryRun)
unfolding udp_dry_sample
read_udp_dry_run now_ns c = do
  bucket_ns ← Models.bucket_start_ns now_ns c.bucket_ms
  let tick = c.tick + 1
  let target = first_or c.catalog.targets udp_demo_target
  let sample = udp_dry_sample target bucket_ns c.bucket_ms tick
  ok (keep (sample_matches c.sample_filter) (sample ∷ []), record c { tick = tick })
