-- ===== src/Flow/Open.antt =====
-- The constructor and `close` of `TcpChannelCollector` (src/udp_analyzer/tcp_channel.py), which
-- udp_channel.py repeats, as far as they attach and detach.
use ebpf_udp_tcp_analyzer.Base.{
  ℕ, Bool, true, false, Option, none, some, ◌==◌, nat_eq, if◌then◌else◌,
}
use ebpf_udp_tcp_analyzer.Errors.{Result, ok, err, runtime_error}
use ebpf_udp_tcp_analyzer.Loaders.Attachment.{
  Attachment, new_attachment, Startup, detach, attach_channel,
}

-- The attachment, where there is one, and the map of the reader.
pub record ChannelState : Type 0 where
  pub attachment : Option (Attachment ℕ)
  pub map_id : Option ℕ

-- `BpftoolTcpChannelMapReader(map_id)`
unfoldable pub channel_reader : ℕ → Result ℕ
channel_reader map_id = if map_id == 0 then err runtime_error else ok map_id

-- The constructor from the test of the map id on.
unfoldable pub with_map : Option ℕ → Option (Attachment ℕ) → Result (Unit {0}) × ChannelState
unfolding channel_reader
with_map none attachment = (err runtime_error, record { attachment = attachment; map_id = none })
with_map (some map_id) attachment = elim (channel_reader map_id) [
  | err e ↦ (err e, record { attachment = attachment; map_id = none })
  | ok id ↦ (ok tt, record { attachment = attachment; map_id = some id })
]

unfoldable pub with_loader : Result ℕ → Attachment ℕ → Result (Unit {0}) × ChannelState
unfolding with_map
with_loader (err e) a = (err e, record { attachment = some a; map_id = none })
with_loader (ok map_id) a = with_map (some map_id) (some a)

-- `__init__`, with `attach` or without.
unfoldable pub open_channel : Bool → Option ℕ → Startup → Result (Unit {0}) × ChannelState
unfolding with_loader attach_channel
open_channel false map_id startup = with_map map_id none
open_channel true map_id startup =
    let (r, a) = attach_channel startup new_attachment in with_loader r a

-- `close`
unfoldable pub close_channel : ChannelState → Result (Unit {0}) × ChannelState
unfolding detach
close_channel s = elim s.attachment [
  | none ↦ (ok tt, s)
  | some a ↦ let (r, a') = detach a in (r, record s { attachment = some a' })
]

-- `UdpChannelCollector.__init__` and `close`.
unfoldable pub open_udp_channel : Bool → Option ℕ → Startup → Result (Unit {0}) × ChannelState
unfolding open_channel
open_udp_channel = open_channel

unfoldable pub close_udp_channel : ChannelState → Result (Unit {0}) × ChannelState
unfolding close_channel
close_udp_channel = close_channel
