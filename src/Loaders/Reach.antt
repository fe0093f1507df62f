-- ===== src/Loaders/Reach.antt =====
-- The life of a channel attachment as steps: the calls of its methods, and the loader exiting on
-- its own in between.
use ebpf_udp_tcp_analyzer.Base.{ℕ, ◌≡◌, ◌⊎◌, true}
use ebpf_udp_tcp_analyzer.Errors.{Error, Result, ok}
use ebpf_udp_tcp_analyzer.Loaders.Attachment.{
  running, exited, refuses, Attachment, new_attachment, Startup, detach, ensure_alive,
  attach_channel,
}
use ebpf_udp_tcp_analyzer.Loaders.Detached.{IsReleased, IsLost}

-- A collector attaches once, so `attach` is called on an attachment that holds nothing.
pub data Step : Attachment ℕ → Attachment ℕ → Type 0 where
  attaching : (s : Startup) (a : Attachment ℕ) → IsReleased a → Step a (attach_channel s a).1
  checking : (a : Attachment ℕ) → Step a (ensure_alive a).1
  detaching : (a : Attachment ℕ) → Step a (detach a).1
  exiting : (a : Attachment ℕ) → a.child ≡ running → Step a (record a { child = exited })

pub data Reach : Attachment ℕ → Type 0 where
  here : Reach new_attachment
  next : {a b : Attachment ℕ} → Reach a → Step a b → Reach b

-- A running loader is one that the attachment holds, or that it cannot stop, and the file of its
-- messages is open while it is held.
pub record IsSound (a : Attachment ℕ) : Type 0 where
  pub held : a.child ≡ running → (a.has_process ≡ true) ⊎ ((e : Error) × (a.signalled ≡ refuses e))
  pub stderr : a.has_process ≡ true → a.has_stderr ≡ true

-- What `detach` makes of an attachment: nothing is left, or the loader that cannot be stopped runs on
-- and is not held.
abbrev pub IsEnded : Attachment ℕ → Result (Unit {0}) → Attachment ℕ → Type 0
IsEnded a r after =
    ((r ≡ ok tt) × IsReleased after)
    ⊎ ((e : Error) × (a.signalled ≡ refuses e) × (after.signalled ≡ refuses e) × IsLost after)
