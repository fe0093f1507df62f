-- ===== src/Tests/Loaders.antt =====
-- Loaders that start, fail, and report lines that do not parse, and the setup that follows.
use ebpf_udp_tcp_analyzer.Base.{ℕ, ◌≡◌, refl, true, false, Option, none, some}
use ebpf_udp_tcp_analyzer.Errors.{Result, ok, err, runtime_error, value_error, os_error}
use ebpf_udp_tcp_analyzer.Bpftool.Json.{num, obj, end, field, int_field}
use ebpf_udp_tcp_analyzer.Loaders.Status.{ReceiveStatus}
use ebpf_udp_tcp_analyzer.Loaders.Attachment.{
  running, exited, stops, refuses, Attachment, new_attachment, started, Reading, late, reported,
  Startup, ensure_alive, attach_channel, attach_receive,
}
use ebpf_udp_tcp_analyzer.Collector.{cookie}
use ebpf_udp_tcp_analyzer.Collector.Setup.{
  ask_auto, ask_cookie, Delivery, fallen_back, configure_delivery, IsSettled,
  configure_delivery-IsSettled,
}

loader_reader : Unit {0}
unfolding attach_channel attach_receive ensure_alive int_field configure_delivery
loader_reader = tt

abbrev startup : Reading → Startup
startup reading = record {
  is_loader_there = true;
  is_object_there = true;
  is_kernel_refused = false;
  launch = started;
  reading = reading;
  signalled = stops;
  messages = ok tt;
}

abbrev good_line : Reading
good_line = reported (ok (obj (field "map_id" (num 77) end)))

-- A line that `json.loads` refuses.
abbrev bad_line : Reading
bad_line = reported (err value_error)

abbrev attached_at : Option ℕ → Attachment ℕ
attached_at status = record {
  has_process = true;
  status = status;
  has_stderr = true;
  child = running;
  signalled = stops;
  messages = ok tt;
}

good_start : attach_channel (startup good_line) new_attachment ≡ (ok 77, attached_at (some 77))
unfolding loader_reader
good_start = refl

-- The loader runs on.
bad_start : attach_channel (startup bad_line) new_attachment ≡ (err runtime_error, attached_at none)
unfolding loader_reader
bad_start = refl

-- The receive attachment stops it.
bad_receive_start : (attach_receive (startup bad_line) new_attachment).1 ≡ record {
  has_process = false;
  status = none;
  has_stderr = false;
  child = exited;
  signalled = stops;
  messages = ok tt;
}
unfolding loader_reader
bad_receive_start = refl

-- A late loader that may not be signalled runs on, and the file of its messages stays open.
abbrev refusing : Startup
refusing = record (startup late) { signalled = refuses os_error }

late_start : attach_channel refusing new_attachment ≡ (
  err os_error,
  record (new_attachment {A = ℕ}) {
    has_stderr = true;
    child = running;
    signalled = refuses os_error;
  },
)
unfolding loader_reader
late_start = refl

fall_back : configure_delivery false ask_auto true none (err runtime_error) ≡ ok fallen_back
unfolding loader_reader
fall_back = refl

abbrev by_cookie : Delivery
by_cookie = record {
  delivery_attribution = cookie;
  has_enricher = true;
  delivered_map_id = some 12;
  receive_backend = some "fentry";
}

abbrev receive_status : Result ReceiveStatus
receive_status = ok (record { backend = "fentry"; map_id = 12 })

cookie_setup : configure_delivery false ask_cookie true none receive_status ≡ ok by_cookie
unfolding loader_reader
cookie_setup = refl

configure_delivery-IsSettled_example :
    IsSettled by_cookie × (ask_cookie ≡ ask_cookie → by_cookie.delivery_attribution ≡ cookie)
configure_delivery-IsSettled_example =
    configure_delivery-IsSettled false ask_cookie true none receive_status by_cookie cookie_setup
