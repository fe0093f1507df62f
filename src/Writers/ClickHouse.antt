-- ===== src/Writers/ClickHouse.antt =====
-- `ClickHouseHttpWriter`: each batch is one POST request with a line of JSON for each row.
use Prim.Native.String.{◌++◌}
use ebpf_udp_tcp_analyzer.Base.{ℕ, String, List, [], ◌∷◌, map, leb, if◌then◌else◌}
use ebpf_udp_tcp_analyzer.Errors.{Result, ok, err, runtime_error, ◌>>=◌}
use ebpf_udp_tcp_analyzer.Models.{UdpSample}
use ebpf_udp_tcp_analyzer.Models.Rows.{to_dict}
use ebpf_udp_tcp_analyzer.Bpftool.Json.{Json, obj}
use ebpf_udp_tcp_analyzer.Writers.Backends.{Server}

-- `"\n".join(lines)`
unfoldable pub join_lines : List String → String
join_lines [] = ""
join_lines (line ∷ []) = line
join_lines (line ∷ next ∷ lines) = line ++ ("\n" ++ join_lines (next ∷ lines))

-- `json.dumps` is a parameter.
module _ (iso : ℕ → String) (dumps : Json → String) (S : Server) where
  abbrev pub body_of : List UdpSample → String
  body_of rows = join_lines (map (λ (row : UdpSample). dumps (obj (to_dict iso row))) rows)

  unfoldable pub write_clickhouse : List UdpSample → S.State → Result S.State
  unfolding join_lines to_dict
  write_clickhouse [] s = ok s
  write_clickhouse (row ∷ rows) s = do
    (status, s') ← S.post (body_of (row ∷ rows)) s
    if leb 300 status then err runtime_error else ok s'
