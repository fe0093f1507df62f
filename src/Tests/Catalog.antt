-- ===== src/Tests/Catalog.antt =====
-- The catalog of one unit file.
use ebpf_udp_tcp_analyzer.Base.{ℕ, ◌≡◌, refl, String, Option, none, some, List, [], ◌∷◌}
use ebpf_udp_tcp_analyzer.Errors.{ok}
use ebpf_udp_tcp_analyzer.Channels.{ChannelTarget, match_target}
use ebpf_udp_tcp_analyzer.Channels.Load.{FilePath, Sources}
use ebpf_udp_tcp_analyzer.Channels.Targets.{load_channel_targets}
use ebpf_udp_tcp_analyzer.Channels.Resolve.{AddressRow, rows_or_none, resolve_target}
use ebpf_udp_tcp_analyzer.Channels.Resolved.{Verdict, match_target-resolve_target}

abbrev unit_text : String
unit_text =
    "[Service]\n# https://example.com/docs\nExecStart=/usr/bin/ffmpeg \\\n  -i https://radio.example.com/live; -c copy\n"

abbrev sources : Sources
sources = record {
  read = λ path. some unit_text;
  to_path = λ text. record { parent = "/"; name = text };
  glob = λ parent head tail. [];
  home = "/root";
  urlparse = λ url. record {
    scheme = "https";
    hostname = some "radio.example.com";
    port = ok none;
    path = "/live";
    query = "";
  };
  shlex_split = λ value. none;
  lower = λ s. s;
}

abbrev unit_file : FilePath
unit_file = record { parent = "/etc/systemd/user"; name = "radio.service" }

abbrev radio : ChannelTarget
radio = record {
  channel = "radio";
  unit = "radio.service";
  url = "https://radio.example.com/live";
  scheme = "https";
  host = "radio.example.com";
  port = 443;
  path = "/live";
  addresses = [];
}

one_target : load_channel_targets sources (unit_file ∷ []) ≡ ok (radio ∷ [])
unfolding load_channel_targets
one_target = refl

abbrev resolver : String → ℕ → Option (List AddressRow)
resolver host port = some (
    record { family = 2; sockaddr = some "203.0.113.10" }
    ∷ record { family = 1; sockaddr = none }
    ∷ record { family = 10; sockaddr = some "2001:db8::1" }
    ∷ record { family = 2; sockaddr = some "203.0.113.10" }
    ∷ [])

match_target-resolve_target_example :
    Verdict
      (rows_or_none (resolver radio.host radio.port))
      radio
      "2001:db8::1"
      443
      (match_target (resolve_target resolver radio) "2001:db8::1" 443).status
match_target-resolve_target_example = match_target-resolve_target resolver radio "2001:db8::1" 443
