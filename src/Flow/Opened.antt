-- ===== src/Flow/Opened.antt =====
-- How the constructor of a channel collector ends, and what `close` leaves.
use ebpf_udp_tcp_analyzer.Base.{
  ℕ, ◌≡◌, ◌≢◌, ◌<◌, ◌⊎◌, Bool, true, false, Option, none, some, nat_eq,
}
use ebpf_udp_tcp_analyzer.Errors.{Error, Result, ok, err, runtime_error}
use ebpf_udp_tcp_analyzer.Loaders.Attachment.{Attachment, Startup, running, refuses}
use ebpf_udp_tcp_analyzer.Loaders.Detached.{IsHolding}
use ebpf_udp_tcp_analyzer.Loaders.Lifecycle.{ChannelOutcome}
use ebpf_udp_tcp_analyzer.Flow.Open.{ChannelState, close_channel}

-- No loader runs.
abbrev pub IsQuiet : Option (Attachment ℕ) → Type 0
IsQuiet none = Unit {0}
IsQuiet (some a) = a.child ≢ running

-- A loader runs exactly if the collector has one, and the collector holds it.
abbrev pub HasLoader : Bool → Option (Attachment ℕ) → Type 0
HasLoader attach none = attach ≡ false
HasLoader attach (some a) = (attach ≡ true) × IsHolding a

-- `close` returns and no loader runs, or the loader cannot be stopped.
abbrev pub CanClose : Startup → ChannelState → Type 0
CanClose w s =
    (((close_channel s).0 ≡ ok tt) × IsQuiet (close_channel s).1.attachment)
    ⊎ ((e : Error) × (w.signalled ≡ refuses e))

pub data ChannelOpened (attach : Bool) (w : Startup) (r : Result (Unit {0})) (s : ChannelState)
    : Type 0 where
  reading :
      (map_id : ℕ)
      → r ≡ ok tt
      → s.map_id ≡ some map_id
      → 0 < map_id
      → HasLoader attach s.attachment
      → CanClose w s
      → ChannelOpened attach w r s
  refused :
      attach ≡ false → r ≡ err runtime_error → s.attachment ≡ none → ChannelOpened attach w r s
  -- `attach` has raised, and the constructor detaches nothing
  raised :
      (e : Error) (a : Attachment ℕ)
      → attach ≡ true
      → r ≡ err e
      → s.attachment ≡ some a
      → ChannelOutcome w (err e) a
      → ChannelOpened attach w r s
