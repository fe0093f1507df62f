-- ===== src/Output.antt =====
-- src/udp_analyzer/output.py: the lines that are printed of samples, given by their dictionaries.
pub mod Aligned
use Prim.Native.String.{◌++◌}
use ebpf_udp_tcp_analyzer.Base.{
  ℕ, zero, suc, ◌-◌, ◌≡◌, Bool, true, false, String, Option, none, some, List, [], ◌∷◌, map, ◌==◌,
  string_eq, leb, if◌then◌else◌,
}
use ebpf_udp_tcp_analyzer.Base.Text.{text_length, join}
use ebpf_udp_tcp_analyzer.Errors.{Result, ok, err, value_error}
use ebpf_udp_tcp_analyzer.Bpftool.Json.{Json, str, obj, Fields, find}

abbrev pub table_columns : List String
table_columns =
    "ts" ∷ "layer" ∷ "src_ip" ∷ "src_port" ∷ "dst_ip" ∷ "dst_port" ∷ "ifname" ∷ "process_name"
    ∷ "host_pid" ∷ "packets" ∷ "bytes" ∷ []

abbrev pub channel_table_columns : List String
channel_table_columns =
    "ts" ∷ "layer" ∷ "channel" ∷ "unit" ∷ "host" ∷ "dst_ip" ∷ "dst_port" ∷ "tx_bytes" ∷ "rx_bytes"
    ∷ "connections" ∷ "status" ∷ []

-- `v == "tcp_channel"`, where `v` may be missing
abbrev pub is_tcp_channel : Option Json → Bool
is_tcp_channel (some (str layer)) = layer == "tcp_channel"
is_tcp_channel _ = false

-- `_table_columns`
unfoldable pub columns_of : List Fields → List String
columns_of [] = table_columns
columns_of (sample ∷ samples) =
    let rest = columns_of samples in
    if is_tcp_channel (find "layer" sample) then channel_table_columns else rest

abbrev pub max : ℕ → ℕ → ℕ
max m n = if leb m n then n else m

-- `c * n`
unfoldable pub repeated : String → ℕ → String
repeated c zero = ""
repeated c (suc n) = c ++ repeated c n

-- `value.ljust(width)`
unfoldable pub ljust : String → ℕ → String
unfolding repeated text_length
ljust value width = value ++ repeated " " (width - text_length value)

-- The first value of each row, and the rows without it: `row[index]`, for one index after another.
abbrev pub head_of : List String → String
head_of [] = ""
head_of (value ∷ row) = value

abbrev pub tail_of : List String → List String
tail_of [] = []
tail_of (value ∷ row) = row

-- `max(n, *(len(value) for value in values))`
unfoldable pub longest : ℕ → List String → ℕ
unfolding text_length
longest n [] = n
longest n (value ∷ values) = max (text_length value) (longest n values)

unfoldable pub widths_of : List String → List (List String) → List ℕ
unfolding longest text_length
widths_of [] rows = []
widths_of (column ∷ columns) rows =
    longest (text_length column) (map head_of rows) ∷ widths_of columns (map tail_of rows)

unfoldable pub padded : List String → List ℕ → List String
unfolding ljust
padded (value ∷ row) (width ∷ widths) = ljust value width ∷ padded row widths
padded _ _ = []

-- `str` and `json.dumps` are parameters.
module _ (text_of : Json → String) (dumps : Json → String) where
  -- `str(data.get(column, ""))`
  abbrev pub cell : Option Json → String
  cell none = ""
  cell (some v) = text_of v

  unfoldable pub row_cells : List String → Fields → List String
  row_cells [] sample = []
  row_cells (column ∷ columns) sample = cell (find column sample) ∷ row_cells columns sample

  -- The header, the rule and the rows.
  unfoldable pub table_lines : List String → List (List String) → List String
  unfolding widths_of padded join repeated
  table_lines columns rows =
      let widths = widths_of columns rows in
      join "  " (padded columns widths)
      ∷ join "  " (map (repeated "-") widths)
      ∷ map (λ row. join "  " (padded row widths)) rows

  -- `_emit_table`
  unfoldable pub emit_table : List Fields → List String
  unfolding table_lines row_cells columns_of
  emit_table [] = "(no samples)" ∷ []
  emit_table (sample ∷ samples) =
      let columns = columns_of (sample ∷ samples) in
      table_lines columns (map (row_cells columns) (sample ∷ samples))

  -- `emit_samples`
  unfoldable pub emit_samples : List Fields → String → Result (List String)
  unfolding emit_table
  emit_samples samples output =
      if output == "none"
      then ok []
      else if output == "json"
      then ok (map (λ sample. dumps (obj sample)) samples)
      else if output == "table"
      then ok (emit_table samples)
      else err value_error
