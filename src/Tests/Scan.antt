-- ===== src/Tests/Scan.antt =====
-- The scan of a /proc with one process that holds one of two sockets.
use ebpf_udp_tcp_analyzer.Base.{String, none, some, [], ◌∷◌}
use ebpf_udp_tcp_analyzer.Processes.{ProcessSocket}
use ebpf_udp_tcp_analyzer.Processes.Scan.{ProcRoot}

abbrev udp_text : String
udp_text =
    "  sl  local_address rem_address   st tx_queue rx_queue tr tm->when retrnsmt   uid  timeout inode ref pointer drops\n   0: 0100007F:1388 00000000:0000 07 00000000:00000000 00:00000000 00000000  1000        0 77 2 0000000000000000 0\n   1: 00000000:0044 00000000:0000 07 00000000:00000000 00:00000000 00000000     0        0 78 2 0000000000000000 0\n"

abbrev proc : ProcRoot
proc = record {
  children = "self" ∷ "4242" ∷ [];
  comm = λ pid. some "ffmpeg\n";
  cmdline = λ pid. some "ffmpeg\0-i\0";
  cgroup = λ pid. none;
  status = λ pid. some "Name:\tffmpeg\nNSpid:\t4242\t101\n";
  net_udp = λ pid. some udp_text;
  net_udp6 = λ pid. none;
  fd = λ pid. some (some "/dev/null" ∷ none ∷ some "socket:[77]" ∷ []);
  ns_net = λ pid. some "net:[4026531840]";
}

abbrev found : ProcessSocket
found = record {
  host_pid = 4242;
  container_pid = 101;
  process_name = "ffmpeg";
  command_line = "ffmpeg -i";
  netns_id = 4026531840;
  container_id = "";
  socket_inode = 77;
  local_ip = "127.0.0.1";
  local_port = 5000;
  remote_ip = "0.0.0.0";
  remote_port = 0;
}
