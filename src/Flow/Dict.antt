-- ===== src/Flow/Dict.antt =====
-- `to_dict` of `ChannelTcpSample` (src/udp_analyzer/tcp_channel.py) and of `ChannelUdpSample`
-- (udp_channel.py), which has the same keys and values.
use ebpf_udp_tcp_analyzer.Base.{ℕ, ◌+◌, String, [], ◌∷◌}
use ebpf_udp_tcp_analyzer.Bpftool.Json.{num, str, Fields}
use ebpf_udp_tcp_analyzer.Models.Rows.{fields_of}
use ebpf_udp_tcp_analyzer.Flow.Samples.{FlowSample}

unfoldable pub tcp_to_dict : (ℕ → String) → FlowSample → Fields
tcp_to_dict iso s = fields_of (
    ("ts", str (iso s.bucket_start_ns))
    ∷ ("bucket_start_ns", num s.bucket_start_ns)
    ∷ ("bucket_ms", num s.bucket_ms)
    ∷ ("layer", str s.layer)
    ∷ ("channel", str s.channel)
    ∷ ("unit", str s.unit)
    ∷ ("url", str s.url)
    ∷ ("host", str s.host)
    ∷ ("src_ip", str s.src_ip)
    ∷ ("dst_ip", str s.dst_ip)
    ∷ ("src_port", num s.src_port)
    ∷ ("dst_port", num s.dst_port)
    ∷ ("ip_proto", num s.ip_proto)
    ∷ ("ifindex", num s.ifindex)
    ∷ ("ifname", str s.ifname)
    ∷ ("host_pid", num s.host_pid)
    ∷ ("socket_id", num s.socket_id)
    ∷ ("cgroup_id", num s.cgroup_id)
    ∷ ("tx_bytes", num s.tx_bytes)
    ∷ ("rx_bytes", num s.rx_bytes)
    ∷ ("tx_calls", num s.tx_calls)
    ∷ ("rx_calls", num s.rx_calls)
    ∷ ("connections", num s.connections)
    ∷ ("status", str s.status)
    ∷ ("tcp_state", num s.state)
    ∷ ("bytes", num (s.tx_bytes + s.rx_bytes))
    ∷ ("packets", num (s.rx_calls + s.tx_calls))
    ∷ [])

unfoldable pub udp_to_dict : (ℕ → String) → FlowSample → Fields
unfolding tcp_to_dict
udp_to_dict = tcp_to_dict
