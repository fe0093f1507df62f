-- ===== src/Tests/Open.antt =====
-- The constructor of the UDP collector over a kernel with a qdisc and a filter.
use ebpf_udp_tcp_analyzer.Base.{◌≡◌, refl, Bool, true, false, none, arith}
use ebpf_udp_tcp_analyzer.Errors.{ok}
use ebpf_udp_tcp_analyzer.Bpftool.Json.{num, str, obj, end, field}
use ebpf_udp_tcp_analyzer.Loaders.Attachment.{started, reported, stops, new_attachment}
use ebpf_udp_tcp_analyzer.Loaders.Detached.{IsReleased}
use ebpf_udp_tcp_analyzer.Loaders.Tc.{Tc, Report, IsPermitted}
use ebpf_udp_tcp_analyzer.Collector.Setup.{ask_auto}
use ebpf_udp_tcp_analyzer.Collector.Open.{
  Request, Surroundings, Attachments, try_open, open_collector, close_collector,
}
use ebpf_udp_tcp_analyzer.Collector.Opened.{IsObedient, Opened, IsClear, open_collector-Opened}

-- Its state is whether the filter stands; deleting none is an error of `tc`.
abbrev report : Bool → Report
report true = record { returncode = 0; says_exists = false }
report false = record { returncode = 2; says_exists = true }

abbrev tc : Tc
tc = record {
  State = Bool;
  qdisc_add = λ s. (ok (report false), s);
  filter_add = λ s. (ok (report true), true);
  filter_del = λ s. (ok (report s), false);
  has_filter = λ s. s;
}

tc-IsPermitted : IsPermitted tc
tc-IsPermitted = record {
  adds = λ s. (_, refl, λ h. refl, λ h. absurd (ground (arith, h)));
  deletes = λ s. (_, refl, refl);
}

abbrev request : Request
request = record {
  has_enricher = true;
  mode = ask_auto;
  attach = true;
  detach_on_close = true;
  receive_map_id = none;
}

abbrev surroundings : Surroundings
surroundings = record {
  is_object_there = true;
  selected = ok 7;
  startup = record {
    is_loader_there = true;
    is_object_there = true;
    is_kernel_refused = false;
    launch = started;
    reading = reported (ok (obj (field "backend" (str "fentry") (field "map_id" (num 42) end))));
    signalled = stops;
    messages = ok tt;
  };
}

abbrev unattached : Attachments tc
unattached = record {
  tc = record { attached = false; kernel = false };
  receive = new_attachment;
  has_receive = false;
}

unattached-IsReleased : IsReleased unattached.receive
unattached-IsReleased = record {
  no_process = refl;
  no_stderr = refl;
  no_child = λ e. absurd (ground (arith, e));
}

surroundings-IsObedient : IsObedient surroundings.startup
surroundings-IsObedient = record { can = refl; whole = λ e h. absurd (ground (arith, h)) }

open_collector-Opened_example :
    Opened tc tc-IsPermitted request
      (try_open tc request surroundings unattached).1
      (open_collector tc request surroundings unattached).0
      (open_collector tc request surroundings unattached).1
    × (request.detach_on_close ≡ true
        → ((close_collector tc request (open_collector tc request surroundings unattached).1).0
            ≡ ok tt)
          × IsClear tc tc-IsPermitted true
              (close_collector tc request (open_collector tc request surroundings unattached).1).1)
open_collector-Opened_example =
    open_collector-Opened tc tc-IsPermitted request surroundings unattached surroundings-IsObedient
      unattached-IsReleased
