-- ===== src/Loaders/Received.antt =====
-- How `attach` of a receive attachment ends.
use ebpf_udp_tcp_analyzer.Base.{◌≡◌, refl, inl, inr, Bool, some, Bool-cases, arith}
use ebpf_udp_tcp_analyzer.Errors.{Error, Result, ok, err, runtime_error}
use ebpf_udp_tcp_analyzer.Bpftool.Json.{Json}
use ebpf_udp_tcp_analyzer.Loaders.Status.{
  ReceiveStatus, as_runtime_error, parse_receive_loader_status,
}
use ebpf_udp_tcp_analyzer.Loaders.Attachment.{
  refuses, Attachment, Launch, started, file_not_found, permission_denied, other_error, Reading,
  late, cut_short, ended, reported, Startup, report_failure, set_receive_status,
  read_receive_status, with_child, launch_receive, attach_receive,
}
use ebpf_udp_tcp_analyzer.Loaders.Detached.{
  IsReleased, IsHolding, IsLost, IsStale, Detached, released, lost, detach_raising-Detached,
}

-- What has been read when an attachment decides to stop its loader: nothing in time, or a line that
-- does not parse.
pub data IsUnusable : Reading → Type 0 where
  too_late : IsUnusable late
  malformed :
      (line : Result Json)
      → parse_receive_loader_status line ≡ err runtime_error
      → IsUnusable (reported line)

-- How `attach` of a receive attachment ends.
pub data ReceiveOutcome (s : Startup) (r : Result ReceiveStatus) (a : Attachment ReceiveStatus)
    : Type 0 where
  attached :
      (status : ReceiveStatus)
      → r ≡ ok status
      → a.status ≡ some status
      → IsHolding a
      → a.signalled ≡ s.signalled
      → ReceiveOutcome s r a
  failed : r ≡ err runtime_error → IsReleased a → ReceiveOutcome s r a
  not_launched :
      (is_file_open : Bool) (e : Error)
      → s.launch ≡ other_error is_file_open e
      → r ≡ err e
      → IsReleased a
      → ReceiveOutcome s r a
  interrupted :
      (e : Error) → s.reading ≡ cut_short e → r ≡ err e → IsHolding a → ReceiveOutcome s r a
  unread :
      (e : Error)
      → s.reading ≡ ended
      → s.messages ≡ err e
      → r ≡ err e
      → IsStale a
      → ReceiveOutcome s r a
  unstopped :
      (e : Error)
      → IsUnusable s.reading
      → s.signalled ≡ refuses e
      → r ≡ err e
      → IsLost a
      → ReceiveOutcome s r a

Detached-ReceiveOutcome :
    (s : Startup) (a : Attachment ReceiveStatus) (r : Result ReceiveStatus)
    (a' : Attachment ReceiveStatus)
    → IsUnusable s.reading
    → a.signalled ≡ s.signalled
    → Detached runtime_error a r a'
    → ReceiveOutcome s r a'
Detached-ReceiveOutcome s a r a' why w (released raised none_left) = failed raised none_left
Detached-ReceiveOutcome s a r a' why w (lost e cannot raised run_on still same) =
    unstopped e why (cc) raised run_on

set_receive_status-ReceiveOutcome :
    (s : Startup) (line : Result Json) (p : Result ReceiveStatus) (a : Attachment ReceiveStatus)
    → s.reading ≡ reported line
    → parse_receive_loader_status line ≡ as_runtime_error p
    → IsHolding a
    → a.signalled ≡ s.signalled
    → ReceiveOutcome s
        (set_receive_status (as_runtime_error p) a).0
        (set_receive_status (as_runtime_error p) a).1
unfolding set_receive_status
set_receive_status-ReceiveOutcome s line (ok status) a here parsed h w =
    attached status refl refl (record { process = h.process; child = h.child }) w
set_receive_status-ReceiveOutcome s line (err e) a here parsed h w =
    Detached-ReceiveOutcome s a _ _ (rw here (malformed line parsed)) w
      (detach_raising-Detached runtime_error a h)

report_failure-ReceiveOutcome :
    (s : Startup) (messages : Result (Unit {0})) (a : Attachment ReceiveStatus)
    → s.reading ≡ ended
    → s.messages ≡ messages
    → IsHolding a
    → ReceiveOutcome s
        (report_failure messages a).0
        (report_failure {B = ReceiveStatus} messages a).1
unfolding report_failure
report_failure-ReceiveOutcome s (err e) a here none_read h =
    unread e here none_read refl (record { process = h.process; no_child = λ c. ground (arith, c) })
report_failure-ReceiveOutcome s (ok read) a here known h =
    failed refl (record { no_process = refl; no_stderr = refl; no_child = λ c. ground (arith, c) })

read_receive_status-ReceiveOutcome :
    (s : Startup) (o : Reading) (a : Attachment ReceiveStatus)
    → s.reading ≡ o
    → IsHolding a
    → a.signalled ≡ s.signalled
    → a.messages ≡ s.messages
    → ReceiveOutcome s (read_receive_status o a).0 (read_receive_status o a).1
unfolding read_receive_status parse_receive_loader_status
read_receive_status-ReceiveOutcome s late a here h w m =
    Detached-ReceiveOutcome s a _ _ (rw here too_late) w (detach_raising-Detached runtime_error a h)
read_receive_status-ReceiveOutcome s (cut_short e) a here h w m = interrupted e here refl h
read_receive_status-ReceiveOutcome s ended a here h w m =
    report_failure-ReceiveOutcome s a.messages a here (cc) h
read_receive_status-ReceiveOutcome s (reported line) a here h w m =
    set_receive_status-ReceiveOutcome s line _ a here refl h w

launch_receive-ReceiveOutcome :
    (l : Launch) (s : Startup) (a : Attachment ReceiveStatus)
    → s.launch ≡ l
    → IsReleased a
    → ReceiveOutcome s (launch_receive l s a).0 (launch_receive l s a).1
unfolding launch_receive
launch_receive-ReceiveOutcome started s a here r =
    read_receive_status-ReceiveOutcome s s.reading (with_child s a) refl
      (record { process = refl; child = refl }) refl refl
launch_receive-ReceiveOutcome file_not_found s a here r = failed refl r
launch_receive-ReceiveOutcome permission_denied s a here r = failed refl r
launch_receive-ReceiveOutcome (other_error is_file_open e) s a here r =
    not_launched is_file_open e here refl r

pub attach_receive-ReceiveOutcome :
    (s : Startup) (a : Attachment ReceiveStatus)
    → IsReleased a
    → ReceiveOutcome s (attach_receive s a).0 (attach_receive s a).1
unfolding attach_receive
attach_receive-ReceiveOutcome s a r = elim (Bool-cases s.is_loader_there) [
  | inr missing ↦ simp missing (failed refl r)
  | inl loader ↦ elim (Bool-cases s.is_object_there) [
    | inr missing ↦ simp (loader, missing) (failed refl r)
    | inl object ↦ simp (loader, object) (launch_receive-ReceiveOutcome s.launch s a refl r)
  ]
]
