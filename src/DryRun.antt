-- ===== src/DryRun.antt =====
-- src/udp_analyzer/collectors.py: the dry run of the UDP side.
pub mod Rows
use ebpf_udp_tcp_analyzer.Base.{ℕ, ◌+◌, ◌*◌, String, List, [], ◌∷◌, keep}
use ebpf_udp_tcp_analyzer.Errors.{Result, ok, ◌>>=◌}
use ebpf_udp_tcp_analyzer.Models
use ebpf_udp_tcp_analyzer.Models.{UdpSample, SampleFilter, matches, blank_sample}

pub record DryRunStream : Type 0 where
  pub src_ip : String
  pub dst_ip : String
  pub src_port : ℕ
  pub dst_port : ℕ
  pub ifindex : ℕ
  pub ifname : String
  pub payload_size : ℕ
  pub packet_base : ℕ
  pub layer : String
  pub container_id : String
  pub process_name : String
  pub host_pid : ℕ
  pub container_pid : ℕ
  pub socket_id : ℕ

pub record DryRunCollector : Type 0 where
  pub bucket_ms : ℕ
  pub sample_filter : SampleFilter
  pub tick : ℕ
  pub streams : List DryRunStream

abbrev pub demo_streams : List DryRunStream
demo_streams =
    record {
      src_ip = "192.0.2.10";
      dst_ip = "198.51.100.20";
      src_port = 40000;
      dst_port = 5000;
      ifindex = 2;
      ifname = "eth0";
      payload_size = 1316;
      packet_base = 100;
      layer = "delivered";
      container_id = "demo-ffmpeg";
      process_name = "ffmpeg";
      host_pid = 4242;
      container_pid = 101;
      socket_id = 500001;
    }
    ∷ record {
      src_ip = "192.0.2.11";
      dst_ip = "198.51.100.20";
      src_port = 40010;
      dst_port = 5001;
      ifindex = 2;
      ifname = "eth0";
      payload_size = 1200;
      packet_base = 75;
      layer = "delivered";
      container_id = "demo-ffmpeg";
      process_name = "ffmpeg";
      host_pid = 4243;
      container_pid = 102;
      socket_id = 500002;
    }
    ∷ record {
      src_ip = "192.0.2.12";
      dst_ip = "198.51.100.20";
      src_port = 40020;
      dst_port = 5999;
      ifindex = 2;
      ifname = "eth0";
      payload_size = 512;
      packet_base = 12;
      layer = "ingress";
      container_id = "";
      process_name = "";
      host_pid = 0;
      container_pid = 0;
      socket_id = 0;
    }
    ∷ []

unfoldable pub dry_run_sample : ℕ → ℕ → ℕ → DryRunStream → UdpSample
dry_run_sample bucket_ns bucket_ms packets stream = record blank_sample {
  bucket_start_ns = bucket_ns;
  bucket_ms = bucket_ms;
  src_ip = stream.src_ip;
  dst_ip = stream.dst_ip;
  src_port = stream.src_port;
  dst_port = stream.dst_port;
  ifindex = stream.ifindex;
  ifname = stream.ifname;
  packets = packets;
  bytes = packets * stream.payload_size;
  layer = stream.layer;
  container_id = stream.container_id;
  process_name = stream.process_name;
  host_pid = stream.host_pid;
  container_pid = stream.container_pid;
  socket_id = stream.socket_id;
}

-- The samples of the streams from an index on.
unfoldable pub samples_from : ℕ → ℕ → ℕ → ℕ → List DryRunStream → List UdpSample
unfolding dry_run_sample
samples_from bucket_ns bucket_ms tick index [] = []
samples_from bucket_ns bucket_ms tick index (stream ∷ streams) =
    dry_run_sample bucket_ns bucket_ms (stream.packet_base + tick + index) stream
    ∷ samples_from bucket_ns bucket_ms tick (index + 1) streams

unfoldable pub read_dry_run : ℕ → DryRunCollector → Result (List UdpSample × DryRunCollector)
unfolding samples_from
read_dry_run now_ns c = do
  bucket_ns ← Models.bucket_start_ns now_ns c.bucket_ms
  let tick = c.tick + 1
  ok (
    keep (matches c.sample_filter) (samples_from bucket_ns c.bucket_ms tick 0 c.streams),
    record c { tick = tick },
  )
