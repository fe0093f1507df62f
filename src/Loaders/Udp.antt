-- ===== src/Loaders/Udp.antt =====
-- `UdpChannelBpfAttachment` of src/udp_analyzer/udp_channel.py, which repeats the one of
-- tcp_channel.py with its own messages and kernel check.
use ebpf_udp_tcp_analyzer.Base.{ℕ}
use ebpf_udp_tcp_analyzer.Errors.{Result}
use ebpf_udp_tcp_analyzer.Bpftool.Json.{Json}
use ebpf_udp_tcp_analyzer.Loaders.Status.{parse_loader_status}
use ebpf_udp_tcp_analyzer.Loaders.Attachment.{
  Attachment, Startup, detach, ensure_alive, attach_channel,
}

-- `parse_udp_channel_loader_status`
unfoldable pub parse_udp_loader_status : Result Json → Result ℕ
unfolding parse_loader_status
parse_udp_loader_status = parse_loader_status

unfoldable pub attach_udp : Startup → Attachment ℕ → Result ℕ × Attachment ℕ
unfolding attach_channel
attach_udp = attach_channel

unfoldable pub ensure_udp_alive : Attachment ℕ → Result (Unit {0}) × Attachment ℕ
unfolding ensure_alive
ensure_udp_alive = ensure_alive

unfoldable pub detach_udp : Attachment ℕ → Result (Unit {0}) × Attachment ℕ
unfolding detach
detach_udp = detach
