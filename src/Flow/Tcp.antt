-- ===== src/Flow/Tcp.antt =====
-- src/udp_analyzer/tcp_channel.py: the TCP side, where the endpoint of a flow is its destination,
-- and the dry run.
use ebpf_udp_tcp_analyzer.Base.{ℕ, ◌+◌, List, [], ◌∷◌, keep, ◌==◌, nat_eq, if◌then◌else◌}
use ebpf_udp_tcp_analyzer.Errors.{Result, ok, ◌>>=◌}
use ebpf_udp_tcp_analyzer.Models
use ebpf_udp_tcp_analyzer.Channels.{ChannelTarget, ChannelCatalog}
use ebpf_udp_tcp_analyzer.Flow.Samples.{FlowSample, ChannelSampleFilter, sample_matches}
use ebpf_udp_tcp_analyzer.Flow.Collector.{Protocol, FlowWorld, FlowCollector, read_flow_checkpoint}

abbrev pub tcp_proto : ℕ
tcp_proto = 6

abbrev pub tcp_protocol : Protocol
tcp_protocol = record {
  number = tcp_proto;
  layer = "tcp_channel";
  endpoint_ip = λ k. k.dst_ip4;
  endpoint_port = λ k. k.dst_port;
}

-- `TcpChannelCollector.read_checkpoint`
unfoldable pub read_tcp_checkpoint :
    FlowWorld → FlowCollector → Result (List FlowSample × FlowCollector)
unfolding read_flow_checkpoint
read_tcp_checkpoint = read_flow_checkpoint tcp_protocol

-- The state of a dry run.
pub record DryRun : Type 0 where
  pub catalog : ChannelCatalog
  pub bucket_ms : ℕ
  pub sample_filter : ChannelSampleFilter
  pub tick : ℕ

abbrev pub tcp_demo_target : ChannelTarget
tcp_demo_target = record {
  channel = "demo-channel";
  unit = "demo-channel.service";
  url = "https://api.example.com/demo";
  scheme = "https";
  host = "api.example.com";
  port = 443;
  path = "/demo";
  addresses = "203.0.113.10" ∷ [];
}

-- `xs[0] if xs else default`
abbrev pub first_or {ℓ} : {A : Type ℓ} → List A → A → A
first_or [] default = default
first_or (x ∷ xs) default = x

unfoldable pub tcp_dry_sample : ChannelTarget → ℕ → ℕ → ℕ → FlowSample
tcp_dry_sample target bucket_ns bucket_ms tick = record {
  bucket_start_ns = bucket_ns;
  bucket_ms = bucket_ms;
  src_ip = "10.0.0.10";
  dst_ip = first_or target.addresses "203.0.113.10";
  src_port = 40000 + tick;
  dst_port = target.port;
  socket_id = 900000 + tick;
  cgroup_id = 12345;
  tx_bytes = 1200 + tick;
  rx_bytes = 64000 + tick;
  tx_calls = 2;
  rx_calls = 8;
  connections = if tick == 1 then 1 else 0;
  unit = target.unit;
  channel = target.channel;
  url = target.url;
  host = target.host;
  ifindex = 0;
  ifname = "";
  host_pid = 4242;
  state = 0;
  status = "matched";
  layer = "tcp_channel";
  ip_proto = tcp_proto;
}

-- `TcpChannelDryRunCollector.read_checkpoint`
unfoldable pub read_tcp_dry_run : ℕ → DryRun → Result (List FlowSample × DryRun)
unfolding tcp_dry_sample
read_tcp_dry_run now_ns c = do
  bucket_ns ← Models.bucket_start_ns now_ns c.bucket_ms
  let tick = c.tick + 1
  let target = first_or c.catalog.targets tcp_demo_target
  let sample = tcp_dry_sample target bucket_ns c.bucket_ms tick
  ok (keep (sample_matches c.sample_filter) (sample ∷ []), record c { tick = tick })
