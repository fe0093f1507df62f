-- ===== src/Collector/Open.antt =====
-- `EbpfIngressCollector.__init__` and `close` (src/udp_analyzer/ebpf.py), as far as they attach and
-- detach programs.
use ebpf_udp_tcp_analyzer.Base.{ℕ, Bool, true, false, Option, if◌then◌else◌}
use ebpf_udp_tcp_analyzer.Errors.{
  Error, Result, ok, err, runtime_error, keyboard_interrupt, system_exit, ◌>>◌,
}
use ebpf_udp_tcp_analyzer.Collector.Setup.{
  Mode, ask_auto, ask_cookie, Delivery, requested_mode, configure_delivery,
}
use ebpf_udp_tcp_analyzer.Loaders.Status.{ReceiveStatus}
use ebpf_udp_tcp_analyzer.Loaders.Attachment.{Attachment, Startup, detach, attach_receive}
use ebpf_udp_tcp_analyzer.Loaders.Tc.{Tc, TcAttachment, attach_tc, detach_tc}

-- The arguments of the constructor that its attachments depend on.
pub record Request : Type 0 where
  pub has_enricher : Bool
  pub mode : Mode
  pub attach : Bool
  pub detach_on_close : Bool
  pub receive_map_id : Option ℕ

-- What the constructor meets: the BPF object, `refresh_map_id`, and the receive loader.
pub record Surroundings : Type 0 where
  pub is_object_there : Bool
  pub selected : Result ℕ
  pub startup : Startup

-- `_configure_delivery` starts the receive loader.
abbrev pub starts_loader : Mode → Bool → Bool
starts_loader ask_auto attach = attach
starts_loader ask_cookie attach = attach
starts_loader _ attach = false

abbrev pub is_ok : {A : Type 0} → Result A → Bool
is_ok (ok a) = true
is_ok (err e) = false

-- `except Exception` catches it.
abbrev pub is_exception : Error → Bool
is_exception keyboard_interrupt = false
is_exception system_exit = false
is_exception _ = true

module _ (T : Tc) where
  -- The two attachments; `self.receive_attachment` is set only once it has attached.
  pub record Attachments : Type 0 where
    pub tc : TcAttachment T
    pub receive : Attachment ReceiveStatus
    pub has_receive : Bool

  -- `_configure_delivery`
  unfoldable pub open_delivery :
      Request → Surroundings → Attachments → Result Delivery × Attachments
  unfolding configure_delivery attach_receive
  open_delivery q w a =
      let mode = requested_mode q.has_enricher q.mode in
      let (status, receive) = attach_receive w.startup a.receive in
      if starts_loader mode q.attach
      then (
        configure_delivery q.has_enricher mode q.attach q.receive_map_id status,
        record a { receive = receive; has_receive = is_ok status },
      )
      else (configure_delivery q.has_enricher mode q.attach q.receive_map_id (err runtime_error), a)

  unfoldable pub after_selection :
      Result ℕ → Request → Surroundings → Attachments → Result Delivery × Attachments
  unfolding open_delivery
  after_selection (err e) q w a = (err e, a)
  after_selection (ok map_id) q w a = open_delivery q w a

  unfoldable pub after_tc :
      Result (Unit {0}) → Request → Surroundings → Attachments → Result Delivery × Attachments
  unfolding after_selection
  after_tc (err e) q w a = (err e, a)
  after_tc (ok done) q w a = after_selection w.selected q w a

  -- The `try` of the constructor.
  unfoldable pub try_open : Request → Surroundings → Attachments → Result Delivery × Attachments
  unfolding after_tc attach_tc
  try_open q w a =
      let (attached, tc) = attach_tc T w.is_object_there a.tc in
      if q.attach then after_tc attached q w (record a { tc = tc }) else after_tc (ok tt) q w a

  -- `self.receive_attachment.detach()`, where there is one.
  unfoldable pub release_receive : Attachments → Result (Unit {0}) × Attachments
  unfolding detach
  release_receive a =
      let (r, receive) = detach a.receive in
      if a.has_receive then (r, record a { receive = receive }) else (ok tt, a)

  -- `self.attachment.detach(ignore_missing=True)`
  unfoldable pub release_tc : Attachments → Result (Unit {0}) × Attachments
  unfolding detach_tc
  release_tc a = let (r, tc) = detach_tc T true a.tc in (r, record a { tc = tc })

  -- Both, where the collector has a filter to delete: what the first raises, the second is not
  -- called for.
  unfoldable pub then_tc : Bool → Result (Unit {0}) × Attachments → Result (Unit {0}) × Attachments
  unfolding release_tc
  then_tc false (r, a) = (r, a)
  then_tc true (err e, a) = (err e, a)
  then_tc true (ok done, a) = release_tc a

  -- What is attached is detached, and the exception is raised again, unless detaching raises.
  unfoldable pub clean_up : Bool → Error → Attachments → Result Delivery × Attachments
  unfolding release_receive then_tc
  clean_up attach e a = let (r, a') = then_tc attach (release_receive a) in (r >> err e, a')

  -- `except Exception`: a signal passes it.
  unfoldable pub cleaned : Bool → Result Delivery × Attachments → Result Delivery × Attachments
  unfolding clean_up
  cleaned attach (ok d, a) = (ok d, a)
  cleaned attach (err e, a) =
      let caught = clean_up attach e a in if is_exception e then caught else (err e, a)

  -- `__init__`
  unfoldable pub open_collector :
      Request → Surroundings → Attachments → Result Delivery × Attachments
  unfolding try_open cleaned
  open_collector q w a = cleaned q.attach (try_open q w a)

  -- `close`; it does not ask whether this collector has attached the filter.
  unfoldable pub close_collector : Request → Attachments → Result (Unit {0}) × Attachments
  unfolding then_tc release_receive
  close_collector q a =
      let closed = then_tc true (release_receive a) in
      if q.detach_on_close then closed else (ok tt, a)
