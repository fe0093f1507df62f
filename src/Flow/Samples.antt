-- ===== src/Flow/Samples.antt =====
-- The rows of the channel collectors and their filter (src/udp_analyzer/tcp_channel.py
-- `ChannelTcpSample` and `ChannelSampleFilter`, which udp_channel.py repeats).
use ebpf_udp_tcp_analyzer.Base.{ℕ, Bool, ◌&&◌, String, Option, none, string_eq}
use ebpf_udp_tcp_analyzer.Models.{accepts}

pub record FlowSample : Type 0 where
  pub bucket_start_ns : ℕ
  pub bucket_ms : ℕ
  pub src_ip : String
  pub dst_ip : String
  pub src_port : ℕ
  pub dst_port : ℕ
  pub socket_id : ℕ
  pub cgroup_id : ℕ
  pub tx_bytes : ℕ
  pub rx_bytes : ℕ
  pub tx_calls : ℕ
  pub rx_calls : ℕ
  pub connections : ℕ
  pub unit : String
  pub channel : String
  pub url : String
  pub host : String
  pub ifindex : ℕ
  pub ifname : String
  pub host_pid : ℕ
  pub state : ℕ
  pub status : String
  pub layer : String
  pub ip_proto : ℕ

pub record ChannelSampleFilter : Type 0 where
  pub channel : Option String
  pub unit : Option String
  pub host : Option String
  pub status : Option String

-- `ChannelSampleFilter()`
abbrev pub no_channel_filter : ChannelSampleFilter
no_channel_filter = record { channel = none; unit = none; host = none; status = none }

unfoldable pub sample_matches : ChannelSampleFilter → FlowSample → Bool
sample_matches f sample =
    accepts f.channel sample.channel
    && accepts f.unit sample.unit
    && accepts f.host sample.host
    && accepts f.status sample.status
