-- ===== src/Processes.antt =====
-- src/udp_analyzer/processes.py: the enrichment of samples by sockets of processes. The scan of
-- /proc is given by what it returns at each call.
pub mod Owners
pub mod ProcNet
pub mod Scan
pub mod Scanned
use ebpf_udp_tcp_analyzer.Base.{
  ℕ, ◌-◌, Bool, ◌&&◌, ◌||◌, String, List, [], ◌∷◌, map, keep, ◌==◌, nat_eq, string_eq, ltb,
  if◌then◌else◌,
}
use ebpf_udp_tcp_analyzer.Errors.{Result, ok, ◌>>=◌}
use ebpf_udp_tcp_analyzer.Models.{UdpSample}

pub record ProcessSocket : Type 0 where
  pub host_pid : ℕ
  pub container_pid : ℕ
  pub process_name : String
  pub command_line : String
  pub netns_id : ℕ
  pub container_id : String
  pub socket_inode : ℕ
  pub local_ip : String
  pub local_port : ℕ
  pub remote_ip : String
  pub remote_port : ℕ

-- The cache of a `ProcessSocketEnricher`; times are in the unit of `time.monotonic()`.
pub record Enricher : Type 0 where
  pub cache_ttl : ℕ
  pub cache_at : ℕ
  pub cached_sockets : List ProcessSocket

-- What a call of `sockets` meets: the clock, and what `inventory.scan` would return or raise.
pub record Probe : Type 0 where
  pub now : ℕ
  pub scan : Result (List ProcessSocket)

-- The clock is set only once the scan has returned.
unfoldable pub sockets : Probe → Enricher → Result (List ProcessSocket × Enricher)
sockets probe e =
    let scanned =
      probe.scan >>= λ rows. ok (rows, record e { cached_sockets = rows; cache_at = probe.now }) in
    if ltb e.cache_ttl (probe.now - e.cache_at) then scanned else ok (e.cached_sockets, e)

unfoldable pub is_match : UdpSample → ProcessSocket → Bool
is_match sample socket_row =
    (socket_row.local_port == sample.dst_port)
    && ((socket_row.local_ip == "0.0.0.0") || (socket_row.local_ip == sample.dst_ip))

unfoldable pub find_matches : Probe → UdpSample → Enricher → Result (List ProcessSocket × Enricher)
unfolding sockets is_match
find_matches probe sample e = do (rows, e') ← sockets probe e; ok (keep (is_match sample) rows, e')

-- Inode 0 stands for an unknown socket, and is looked up nowhere.
unfoldable pub find_inode_matches : Probe → ℕ → Enricher → Result (List ProcessSocket × Enricher)
unfolding sockets
find_inode_matches probe socket_inode e =
    let found = sockets probe e >>= λ (rows, e').
    ok (keep (λ (s : ProcessSocket). s.socket_inode == socket_inode) rows, e') in
    if socket_inode == 0 then ok ([], e) else found

-- `replace(sample, layer="delivered", …, socket_id=match.socket_inode)`
unfoldable pub deliver_to : UdpSample → ProcessSocket → UdpSample
deliver_to sample m = record sample {
  layer = "delivered";
  netns_id = m.netns_id;
  container_id = m.container_id;
  process_name = m.process_name;
  host_pid = m.host_pid;
  container_pid = m.container_pid;
  socket_id = m.socket_inode;
}

unfoldable pub enrich : Probe → UdpSample → Enricher → Result (List UdpSample × Enricher)
unfolding find_matches deliver_to
enrich probe sample e = do
  (found, e') ← find_matches probe sample e
  ok (sample ∷ map (deliver_to sample) found, e')

-- `replace(attributed, …)`, which keeps the socket cookie.
unfoldable pub attribute_to : UdpSample → ProcessSocket → UdpSample
attribute_to attributed m = record attributed {
  netns_id = m.netns_id;
  container_id = m.container_id;
  process_name = m.process_name;
  host_pid = m.host_pid;
  container_pid = m.container_pid;
}

-- One row for each matching socket, or the attributed row alone.
abbrev pub attributed_rows : UdpSample → List ProcessSocket → List UdpSample
attributed_rows attributed [] = attributed ∷ []
attributed_rows attributed (m ∷ found) = map (attribute_to attributed) (m ∷ found)

unfoldable pub enrich_exact :
    Probe → UdpSample → ℕ → ℕ → Enricher → Result (List UdpSample × Enricher)
unfolding find_inode_matches attribute_to
enrich_exact probe sample socket_inode socket_cookie e = do
  (found, e') ← find_inode_matches probe socket_inode e
  ok (attributed_rows (record sample { layer = "delivered"; socket_id = socket_cookie }) found, e')
