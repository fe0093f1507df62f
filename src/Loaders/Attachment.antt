-- ===== src/Loaders/Attachment.antt =====
-- The attachments as objects over the child process that they start.
use ebpf_udp_tcp_analyzer.Base.{
  ℕ, Bool, true, false, not, ◌||◌, Option, none, some, nat_eq, if◌then◌else◌,
}
use ebpf_udp_tcp_analyzer.Errors.{Error, Result, ok, err, runtime_error, ◌>>◌}
use ebpf_udp_tcp_analyzer.Bpftool.Json.{Json}
use ebpf_udp_tcp_analyzer.Loaders.Status.{
  ReceiveStatus, parse_loader_status, parse_receive_loader_status,
}

-- The operating system's side of a loader.
pub data Child : Type 0 where
  not_started running exited : Child

-- What telling the child to end, and waiting for it, does: it ends, or one of these calls raises
-- and it runs on (`terminate` of a child with other rights is a PermissionError).
pub data Signalled : Type 0 where
  stops : Signalled
  refuses : Error → Signalled

-- An attachment with a status of type `A`, and the process that it has started.
pub record Attachment (A : Type 0) : Type 0 where
  -- `self.process is not None`
  pub has_process : Bool
  pub status : Option A
  -- `self.stderr_file is not None`; the receive attachment has no such file
  pub has_stderr : Bool
  pub child : Child
  -- what signalling the child does, and reading its messages once it has ended
  pub signalled : Signalled
  pub messages : Result (Unit {0})

abbrev pub new_attachment : {A : Type 0} → Attachment A
new_attachment = record {
  has_process = false;
  status = none;
  has_stderr = false;
  child = not_started;
  signalled = stops;
  messages = ok tt;
}

-- What opening the file of messages and `subprocess.Popen` do; another exception escapes, with the
-- file open where it comes from `Popen`.
pub data Launch : Type 0 where
  started file_not_found permission_denied : Launch
  other_error : Bool → Error → Launch

-- What comes of waiting for the line of the loader, and reading it: nothing in time, an exception
-- (a line that is not text, a signal), the end of the stream, or a line, as `json.loads` reads it.
pub data Reading : Type 0 where
  late : Reading
  cut_short : Error → Reading
  ended : Reading
  reported : Result Json → Reading

-- What `attach` meets.
pub record Startup : Type 0 where
  pub is_loader_there : Bool
  pub is_object_there : Bool
  -- `kernel_tcp_recvmsg_has_nonblock()` is true
  pub is_kernel_refused : Bool
  pub launch : Launch
  pub reading : Reading
  pub signalled : Signalled
  pub messages : Result (Unit {0})

module _ {A : Type 0} where
  -- `self.process`, `self.status` and `self.stderr_file` are `None`.
  abbrev pub closed : Attachment A → Attachment A
  closed a = record a { has_process = false; status = none; has_stderr = false }

  -- `detach` of a process that is there, by what `poll` and the signals do; an exception leaves the
  -- file open.
  unfoldable pub end_child : Child → Signalled → Attachment A → Result (Unit {0}) × Attachment A
  end_child running stops a = (ok tt, record (closed a) { child = exited })
  end_child running (refuses e) a = (err e, record a { has_process = false; status = none })
  end_child not_started w a = (ok tt, closed a)
  end_child exited w a = (ok tt, closed a)

  unfoldable pub detach : Attachment A → Result (Unit {0}) × Attachment A
  unfolding end_child
  detach a =
      let ended = end_child a.child a.signalled a in
      if a.has_process then ended else (ok tt, closed a)

  -- `detach`, and then an exception, unless it has raised one itself.
  unfoldable pub detach_raising : {B : Type 0} → Error → Attachment A → Result B × Attachment A
  unfolding detach
  detach_raising e a = let (r, a') = detach a in (r >> err e, a')

  -- `ensure_alive` once the process has ended, by what reading its messages does.
  unfoldable pub report_exit : Result (Unit {0}) → Attachment A → Result (Unit {0}) × Attachment A
  report_exit (err e) a = (err e, a)
  report_exit (ok read) a = (err runtime_error, closed a)

  -- `poll` of a process that is there.
  unfoldable pub check_child : Child → Attachment A → Result (Unit {0}) × Attachment A
  unfolding report_exit
  check_child running a = (ok tt, a)
  check_child _ a = report_exit a.messages a

  unfoldable pub ensure_alive : Attachment A → Result (Unit {0}) × Attachment A
  unfolding check_child
  ensure_alive a =
      let checked = check_child a.child a in
      if a.has_process then checked else (err runtime_error, a)

-- `TcpChannelBpfAttachment.attach` from the line on: a line that does not parse raises as it is.
unfoldable pub set_map_id : Result ℕ → Attachment ℕ → Result ℕ × Attachment ℕ
set_map_id (err e) a = (err e, a)
set_map_id (ok map_id) a = (ok map_id, record a { status = some map_id })

-- `attach` where the stream has ended: the child is waited for, and its messages are read.
unfoldable pub report_failure :
    {A B : Type 0} → Result (Unit {0}) → Attachment A → Result B × Attachment A
report_failure (err e) a = (err e, record a { child = exited })
report_failure (ok read) a =
    (err runtime_error, record a { has_process = false; has_stderr = false; child = exited })

unfoldable pub read_status : Reading → Attachment ℕ → Result ℕ × Attachment ℕ
unfolding detach_raising report_failure set_map_id parse_loader_status
read_status late a = detach_raising runtime_error a
read_status (cut_short e) a = (err e, a)
read_status ended a = report_failure a.messages a
read_status (reported line) a = set_map_id (parse_loader_status line) a

-- The state with the process that `Popen` has made.
abbrev pub with_child : {A : Type 0} → Startup → Attachment A → Attachment A
with_child s a = record a {
  has_process = true;
  child = running;
  signalled = s.signalled;
  messages = s.messages;
}

unfoldable pub launch_channel : Launch → Startup → Attachment ℕ → Result ℕ × Attachment ℕ
unfolding read_status
launch_channel started s a = read_status s.reading (record (with_child s a) { has_stderr = true })
launch_channel (other_error is_file_open e) s a =
    (err e, record a { has_stderr = is_file_open || a.has_stderr })
launch_channel _ s a = (err runtime_error, record a { has_stderr = false })

-- `TcpChannelBpfAttachment.attach`
unfoldable pub attach_channel : Startup → Attachment ℕ → Result ℕ × Attachment ℕ
unfolding launch_channel
attach_channel s a =
    if not s.is_loader_there
    then (err runtime_error, a)
    else if not s.is_object_there
    then (err runtime_error, a)
    else if s.is_kernel_refused
    then (err runtime_error, a)
    else launch_channel s.launch s a

-- `ReceiveBpfAttachment.attach` from the line on: a line that does not parse detaches first.
unfoldable pub set_receive_status :
    Result ReceiveStatus
    → Attachment ReceiveStatus
    → Result ReceiveStatus × Attachment ReceiveStatus
unfolding detach_raising
set_receive_status (err e) a = detach_raising e a
set_receive_status (ok status) a = (ok status, record a { status = some status })

unfoldable pub read_receive_status :
    Reading → Attachment ReceiveStatus → Result ReceiveStatus × Attachment ReceiveStatus
unfolding detach_raising report_failure set_receive_status parse_receive_loader_status
read_receive_status late a = detach_raising runtime_error a
read_receive_status (cut_short e) a = (err e, a)
read_receive_status ended a = report_failure a.messages a
read_receive_status (reported line) a = set_receive_status (parse_receive_loader_status line) a

unfoldable pub launch_receive :
    Launch → Startup → Attachment ReceiveStatus → Result ReceiveStatus × Attachment ReceiveStatus
unfolding read_receive_status
launch_receive started s a = read_receive_status s.reading (with_child s a)
launch_receive (other_error is_file_open e) s a = (err e, a)
launch_receive _ s a = (err runtime_error, a)

-- `ReceiveBpfAttachment.attach`
unfoldable pub attach_receive :
    Startup → Attachment ReceiveStatus → Result ReceiveStatus × Attachment ReceiveStatus
unfolding launch_receive
attach_receive s a =
    if not s.is_loader_there
    then (err runtime_error, a)
    else if not s.is_object_there
    then (err runtime_error, a)
    else launch_receive s.launch s a
