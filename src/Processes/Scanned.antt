-- ===== src/Processes/Scanned.antt =====
-- Every socket of a scan belongs to a process that /proc lists and that holds it.
use ebpf_udp_tcp_analyzer.Base.{ℕ, ◌≡◌, true, String, Option, List, nat_eq, string_eq}
use ebpf_udp_tcp_analyzer.Processes.{ProcessSocket}
use ebpf_udp_tcp_analyzer.Processes.Scan.{
  ProcRoot, process_socket_inodes, is_member, is_wanted, name_of, read_container_id,
  read_namespace_id,
}

module _ (proc : ProcRoot) (wanted : Option String) where
  -- Its process has the wanted name, and holds the socket.
  abbrev pub IsHolder : List ℕ → ProcessSocket → Type 0
  IsHolder pids s =
      (is_member s.host_pid pids ≡ true)
      × (is_member s.socket_inode (process_socket_inodes proc s.host_pid) ≡ true)
      × (s.process_name ≡ name_of proc s.host_pid)
      × (is_wanted wanted s.process_name ≡ true)
      × (s.container_id ≡ read_container_id (proc.cgroup s.host_pid))
      × (s.netns_id ≡ read_namespace_id (proc.ns_net s.host_pid))
