-- ===== src/Writers/Values.antt =====
-- The values that are stored of a sample.
use ebpf_udp_tcp_analyzer.Base.{ℕ, ◌≡◌, refl, String, Option, none, some, List, [], ◌∷◌, map}
use ebpf_udp_tcp_analyzer.Errors.{Result, ok, key_error, require, ◌>>=◌}
use ebpf_udp_tcp_analyzer.Models.{UdpSample}
use ebpf_udp_tcp_analyzer.Models.Rows.{to_dict}
use ebpf_udp_tcp_analyzer.Bpftool.Json.{Json, num, str, Fields, find}

abbrev pub insert_columns : List String
insert_columns =
    "bucket_start_ns" ∷ "bucket_ms" ∷ "ts" ∷ "src_ip" ∷ "dst_ip" ∷ "src_port" ∷ "dst_port"
    ∷ "ip_proto" ∷ "ifindex" ∷ "ifname" ∷ "netns_id" ∷ "container_id" ∷ "process_name" ∷ "host_pid"
    ∷ "container_pid" ∷ "socket_id" ∷ "packets" ∷ "bytes" ∷ "layer" ∷ []

-- `tuple(data[column] for column in columns)`
unfoldable pub values_at : List String → Fields → Result (List Json)
values_at [] fs = ok []
values_at (column ∷ columns) fs = do
  v ← require (find column fs) key_error
  vs ← values_at columns fs
  ok (v ∷ vs)

module _ (iso : ℕ → String) where
  unfoldable pub sample_values : UdpSample → Result (List Json)
  unfolding values_at to_dict
  sample_values sample = values_at insert_columns (to_dict iso sample)

  unfoldable pub all_values : List UdpSample → Result (List (List Json))
  unfolding sample_values
  all_values [] = ok []
  all_values (row ∷ rows) = do v ← sample_values row; vs ← all_values rows; ok (v ∷ vs)

  -- The row of a sample, column by column.
  abbrev pub row_of : UdpSample → List Json
  row_of s =
      num s.bucket_start_ns
      ∷ num s.bucket_ms
      ∷ str (iso s.bucket_start_ns)
      ∷ str s.src_ip
      ∷ str s.dst_ip
      ∷ num s.src_port
      ∷ num s.dst_port
      ∷ num s.ip_proto
      ∷ num s.ifindex
      ∷ str s.ifname
      ∷ num s.netns_id
      ∷ str s.container_id
      ∷ str s.process_name
      ∷ num s.host_pid
      ∷ num s.container_pid
      ∷ num s.socket_id
      ∷ num s.packets
      ∷ num s.bytes
      ∷ str s.layer
      ∷ []

  abbrev pub rows_of : List UdpSample → List (List Json)
  rows_of = map row_of

  sample_values-row_of : (s : UdpSample) → sample_values s ≡ ok (row_of s)
  unfolding sample_values
  sample_values-row_of s = refl

  pub all_values-rows_of : (rows : List UdpSample) → all_values rows ≡ ok (rows_of rows)
  unfolding all_values
  all_values-rows_of [] = refl
  all_values-rows_of (row ∷ rows) = rw (all_values-rows_of rows) refl

-- A sample read from its row, by position.
abbrev pub sample_of : List Json → Option UdpSample
sample_of
      (num start
        ∷ num ms
        ∷ str ts
        ∷ str src
        ∷ str dst
        ∷ num sport
        ∷ num dport
        ∷ num proto
        ∷ num ifindex
        ∷ str ifname
        ∷ num netns
        ∷ str container
        ∷ str process
        ∷ num host_pid
        ∷ num container_pid
        ∷ num socket
        ∷ num packets
        ∷ num bytes
        ∷ str layer
        ∷ []) =
    some (record {
      bucket_start_ns = start;
      bucket_ms = ms;
      src_ip = src;
      dst_ip = dst;
      src_port = sport;
      dst_port = dport;
      ifindex = ifindex;
      ifname = ifname;
      packets = packets;
      bytes = bytes;
      ip_proto = proto;
      netns_id = netns;
      container_id = container;
      process_name = process;
      host_pid = host_pid;
      container_pid = container_pid;
      socket_id = socket;
      layer = layer;
    })
sample_of _ = none

-- No column of the insert is missing in `to_dict`, and the row keeps all of the sample.
pub sample_values-sample_of :
    (iso : ℕ → String) (s : UdpSample)
    → (row : List Json) × (sample_values iso s ≡ ok row) × (sample_of row ≡ some s)
sample_values-sample_of iso s = (row_of iso s, sample_values-row_of iso s, refl)
