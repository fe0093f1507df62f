-- ===== src/Models/Rows.antt =====
-- The dictionaries that samples are printed and stored as: `UdpSample.to_dict` of
-- src/udp_analyzer/models.py, and `to_dict` of the channel samples. The text of a time stamp
-- (`bucket_start_iso`, made by `datetime`) is a parameter.
use ebpf_udp_tcp_analyzer.Base.{ℕ, String, List, [], ◌∷◌}
use ebpf_udp_tcp_analyzer.Models.{UdpSample}
use ebpf_udp_tcp_analyzer.Bpftool.Json.{Json, num, str, Fields, end, field}

abbrev pub fields_of : List (String × Json) → Fields
fields_of [] = end
fields_of ((k, v) ∷ items) = field k v (fields_of items)

unfoldable pub to_dict : (ℕ → String) → UdpSample → Fields
to_dict iso s = fields_of (
    ("ts", str (iso s.bucket_start_ns))
    ∷ ("bucket_start_ns", num s.bucket_start_ns)
    ∷ ("bucket_ms", num s.bucket_ms)
    ∷ ("src_ip", str s.src_ip)
    ∷ ("dst_ip", str s.dst_ip)
    ∷ ("src_port", num s.src_port)
    ∷ ("dst_port", num s.dst_port)
    ∷ ("ip_proto", num s.ip_proto)
    ∷ ("ifindex", num s.ifindex)
    ∷ ("ifname", str s.ifname)
    ∷ ("netns_id", num s.netns_id)
    ∷ ("container_id", str s.container_id)
    ∷ ("process_name", str s.process_name)
    ∷ ("host_pid", num s.host_pid)
    ∷ ("container_pid", num s.container_pid)
    ∷ ("socket_id", num s.socket_id)
    ∷ ("packets", num s.packets)
    ∷ ("bytes", num s.bytes)
    ∷ ("layer", str s.layer)
    ∷ [])
