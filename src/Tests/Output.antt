-- ===== src/Tests/Output.antt =====
-- A table of two samples.
use ebpf_udp_tcp_analyzer.Base.{ℕ, ◌≡◌, refl, String, [], ◌∷◌, All}
use ebpf_udp_tcp_analyzer.Base.Text.{text_length}
use ebpf_udp_tcp_analyzer.Bpftool.Json.{Json, str, end, field}
use ebpf_udp_tcp_analyzer.Models.Rows.{to_dict}
use ebpf_udp_tcp_analyzer.Output.{emit_table, columns_of, table_columns}
use ebpf_udp_tcp_analyzer.Output.Aligned.{emit_table-IsAligned}
use ebpf_udp_tcp_analyzer.Tests.Ingress.{row}

abbrev text_of : Json → String
text_of (str s) = s
text_of v = "7"

abbrev dumps : Json → String
dumps v = "{}"

abbrev iso : ℕ → String
iso n = "1970-01-01T00:00:06.000Z"

emit_table-IsAligned_example :
    (width : ℕ) × All
      (λ line. text_length line ≡ width)
      (emit_table text_of dumps (to_dict iso row ∷ field "layer" (str "delivered") end ∷ []))
emit_table-IsAligned_example =
    emit_table-IsAligned text_of dumps (to_dict iso row) (field "layer" (str "delivered") end ∷ [])

-- The rows of the UDP channels are printed under the columns of the packet rows.
udp_channel_columns : columns_of (field "layer" (str "udp_channel") end ∷ []) ≡ table_columns
unfolding columns_of
udp_channel_columns = refl
