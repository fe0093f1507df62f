-- ===== src/Loaders/Lifecycle.antt =====
-- How `attach` of a channel attachment ends.
use ebpf_udp_tcp_analyzer.Base.{ℕ, ◌≡◌, ◌≢◌, ◌<◌, Bool, true, false, some, nat_eq}
use ebpf_udp_tcp_analyzer.Errors.{Error, Result, ok, err, runtime_error}
use ebpf_udp_tcp_analyzer.Bpftool.Json.{Json}
use ebpf_udp_tcp_analyzer.Loaders.Status.{parse_loader_status}
use ebpf_udp_tcp_analyzer.Loaders.Attachment.{
  running, refuses, Attachment, other_error, late, cut_short, ended, reported, Startup,
}
use ebpf_udp_tcp_analyzer.Loaders.Detached.{IsReleased, IsHolding, IsLost, IsStale, Detached}

-- How `attach` of a channel attachment ends.
pub data ChannelOutcome (s : Startup) (r : Result ℕ) (a : Attachment ℕ) : Type 0 where
  attached :
      (map_id : ℕ)
      → r ≡ ok map_id
      → 0 < map_id
      → a.status ≡ some map_id
      → IsHolding a
      → a.signalled ≡ s.signalled
      → a.has_stderr ≡ true
      → ChannelOutcome s r a
  failed : r ≡ err runtime_error → IsReleased a → ChannelOutcome s r a
  -- the file or the loader cannot be opened, for another reason than the two that are caught
  not_launched :
      (is_file_open : Bool) (e : Error)
      → s.launch ≡ other_error is_file_open e
      → r ≡ err e
      → a.has_process ≡ false
      → a.child ≢ running
      → a.has_stderr ≡ is_file_open
      → ChannelOutcome s r a
  -- the loader reported a line that does not parse
  left_running :
      (line : Result Json)
      → s.reading ≡ reported line
      → parse_loader_status line ≡ err runtime_error
      → r ≡ err runtime_error
      → IsHolding a
      → a.has_stderr ≡ true
      → ChannelOutcome s r a
  interrupted :
      (e : Error)
      → s.reading ≡ cut_short e
      → r ≡ err e
      → IsHolding a
      → a.has_stderr ≡ true
      → ChannelOutcome s r a
  -- the loader has ended, and its messages cannot be read
  unread :
      (e : Error)
      → s.reading ≡ ended
      → s.messages ≡ err e
      → r ≡ err e
      → IsStale a
      → a.has_stderr ≡ true
      → ChannelOutcome s r a
  -- the loader is late, and cannot be stopped
  unstopped :
      (e : Error)
      → s.reading ≡ late
      → s.signalled ≡ refuses e
      → r ≡ err e
      → IsLost a
      → a.signalled ≡ refuses e
      → a.has_stderr ≡ true
      → ChannelOutcome s r a
